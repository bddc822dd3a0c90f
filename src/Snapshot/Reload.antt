-- ===== src/Snapshot/Reload.antt =====
-- What a second process loads of the first one's index.
use yomotsusaka.Prelude.{
  ℕ, Text, true, false, not, is_member, lacks, Option, some, List, [], ◌∷◌, ◌++◌, length, ◌==◌, ◌≡◌,
  ◌≢◌, refl, arith, All, Bool-cases, and_split, inl, inr,
}
use yomotsusaka.Schemas.{DocumentManifest}
use yomotsusaka.SearchGateway.{SearchGateway, ids}
use yomotsusaka.Snapshot.{
  IndexFiles, Attempt, is_line_end, file_lines, strip, jsonl, snapshot, load_line, load_lines, load,
}
use yomotsusaka.Snapshot.Latest.{keep_last}
use yomotsusaka.Snapshot.Retry.{snapshot-Outcome}

-- A text on one line, with no space around it.
pub record IsLine (t : Text) : Type 0 where
  pub not_empty : t ≢ []
  pub stripped : strip t ≡ t
  pub no_feed : lacks b'\n' t ≡ true
  pub no_return : lacks b'\r' t ≡ true

first_line :
    (t rest : Text)
    → lacks b'\n' t ≡ true
    → lacks b'\r' t ≡ true
    → file_lines (t ++ b'\n' ∷ rest) ≡ t ∷ file_lines rest
unfolding file_lines
first_line [] rest n r = refl
first_line (c ∷ t) rest n r =
    let (n0, n1) = and_split (not (c == b'\n')) (lacks b'\n' t) n in
    let (r0, r1) = and_split (not (c == b'\r')) (lacks b'\r' t) r in
    let inside : is_line_end c ≡ false = ground arith in
    rw (inside, file_lines) (rw (first_line t rest n1 r1) refl)

module _ (dump : DocumentManifest → Text) (validate_json : Text → Option DocumentManifest) where
  -- A manifest that is written on one line and read back from it.
  abbrev pub IsWritten : DocumentManifest → Type 0
  IsWritten m = (validate_json (dump m) ≡ some m) × IsLine (dump m)

  keep_last-All : (ms : List DocumentManifest) → All IsWritten ms → All IsWritten (keep_last ms)
  keep_last-All [] h = tt
  keep_last-All (m ∷ ms) h = elim (Bool-cases (is_member m.doc_id (ids ms))) [
    | inl e ↦ rw (e, keep_last) (keep_last-All ms h.1)
    | inr e ↦ rw (e, keep_last) (h.0, keep_last-All ms h.1)
  ]

  load_text : (t : Text) → t ≢ [] → load_line dump validate_json t ≡ validate_json t
  load_text [] ne = absurd (ne refl)
  load_text (c ∷ t) ne = refl

  load_lines-jsonl :
      (ms : List DocumentManifest)
      → All IsWritten ms
      → load_lines dump validate_json (file_lines (jsonl dump validate_json ms)) ≡ ms
  unfolding load_lines jsonl
  load_lines-jsonl [] h = unfold file_lines in refl
  load_lines-jsonl (m ∷ ms) h =
      rw
        (
          first_line (dump m) (jsonl dump validate_json ms) h.0.1.no_feed h.0.1.no_return,
          h.0.1.stripped,
        )
        (rw (load_text (dump m) h.0.1.not_empty, h.0.0, load_lines-jsonl ms h.1) refl)

  -- If each indexed manifest is written on one line and read back from it, then what another
  -- gateway loads after a snapshot that returned is exactly the manifests that no later one of the
  -- same id replaces, in their order.
  pub load-snapshot :
      (gateway other : SearchGateway) (system : ℕ → Attempt) (files : IndexFiles)
      → All IsWritten gateway.manifests
      → let w = snapshot dump validate_json gateway true system files in
        w.returns ≡ true
        → let kept = keep_last gateway.manifests in
          load dump validate_json w.files.final other
          ≡ (record other { manifests = other.manifests ++ kept }, length kept)
  unfolding load
  load-snapshot gateway other system files h done =
      elim (snapshot-Outcome dump validate_json gateway system files).0 [
        | inl (_, final, _, _) ↦
            rw
              (
                final,
                load_lines-jsonl (keep_last gateway.manifests) (keep_last-All gateway.manifests h),
              )
              refl
        | inr (fails, _, _, _) ↦ absurd (cc (done, fails))
      ]
