-- ===== src/Vault/Laws.antt =====
-- What a commit leaves on the disk, and that a restore finds it.
use yomotsusaka.Prelude.{
  Text, codes, eq_text, eq_text_iff, eq_text_refl, true, false, some, List, [], ◌∷◌, ◌++◌, ◌≡◌, ◌≢◌,
  inl, inr, refl, sym, ap₂, arith, ok, Bool-cases, and_split,
}
use yomotsusaka.Schemas.{PrivateDictEntry, DocumentManifest, ArtifactHandle}
use yomotsusaka.Vault.{
  FilePath, eq_path, Disk, Codec, IsLawful, is_under, manifest_path, private_path, commit,
  read_entries, restore,
}

pub eq_path_refl : (p : FilePath) → eq_path p p ≡ true
unfolding eq_path
eq_path_refl [] = refl
eq_path_refl (s ∷ p) = ground (arith, eq_text_refl s, eq_path_refl p)

pub eq_path_sound : (p q : FilePath) → eq_path p q ≡ true → p ≡ q
unfolding eq_path
eq_path_sound [] [] h = refl
eq_path_sound [] (t ∷ q) h = cc
eq_path_sound (s ∷ p) [] h = cc
eq_path_sound (s ∷ p) (t ∷ q) h =
    let (a, b) = and_split _ _ h in ap₂ ◌∷◌ ((eq_text_iff s t).0 a) (eq_path_sound p q b)

eq_path-ne : (p q : FilePath) → p ≢ q → eq_path p q ≡ false
eq_path-ne p q h = elim (Bool-cases (eq_path p q)) [
  | inl e ↦ absurd (h (eq_path_sound p q e))
  | inr e ↦ e
]

pub is_under-append : (root p : FilePath) → is_under root (root ++ p) ≡ true
unfolding is_under
is_under-append [] p = refl
is_under-append (s ∷ root) p = ground (arith, eq_text_refl s, is_under-append root p)

pub is_under_elim : (root p : FilePath) → is_under root p ≡ true → (r : FilePath) × (p ≡ root ++ r)
unfolding is_under
is_under_elim [] p h = (p, refl)
is_under_elim (s ∷ root) [] h = absurd (cc)
is_under_elim (s ∷ root) (t ∷ p) h =
    let (a, b) = and_split _ _ h in
    let (r, e) = is_under_elim root p b in (r, ap₂ ◌∷◌ (sym ((eq_text_iff s t).0 a)) e)

pub is_under_private :
    (root : FilePath) (name : Text)
    → is_under (root ++ codes "private" ∷ []) (root ++ codes "private" ∷ name ∷ []) ≡ true
unfolding is_under eq_text
is_under_private [] name = refl
is_under_private (s ∷ root) name = ground (arith, eq_text_refl s, is_under_private root name)

-- The two trees of a vault share no path.
pub paths_apart :
    (root : FilePath) (j k : Text) → eq_path (private_path root j) (manifest_path root k) ≡ false
unfolding eq_path eq_text
paths_apart [] j k = refl
paths_apart (s ∷ root) j k = ground (arith, paths_apart root j k)

module _ (codec : Codec) (m : DocumentManifest) (es : List PrivateDictEntry) (root : FilePath)
    (d : Disk) where
  abbrev after : Disk
  after = (commit codec m es root d).1

  -- A commit changes no file but the manifest and the dictionary of its document, whether it
  -- succeeds or not.
  pub commit_frame :
      (q : FilePath)
      → q ≢ manifest_path root m.doc_id
      → q ≢ private_path root m.doc_id
      → after.files q ≡ d.files q
  unfolding commit
  commit_frame q h k = ground (
    arith,
    eq_path-ne (manifest_path root m.doc_id) q (λ e. h (sym e)),
    eq_path-ne (private_path root m.doc_id) q (λ e. k (sym e)),
  )

  -- After a commit that succeeds the manifest and the dictionary are at their two paths as the
  -- codec writes them, and the handle names the document and the dictionary's path.
  pub commit_files :
      {h : ArtifactHandle}
      → (commit codec m es root d).0 ≡ ok h
      → (after.files (manifest_path root m.doc_id) ≡ some (codec.dump_manifest m))
        × (after.files (private_path root m.doc_id) ≡ some (codec.dump_entries es))
        × (h.doc_id ≡ m.doc_id)
        × (h.vault_path ≡ private_path root m.doc_id)
  unfolding commit
  commit_files done = ground (
    arith,
    eq_path_refl (manifest_path root m.doc_id),
    eq_path_refl (private_path root m.doc_id),
    paths_apart root m.doc_id m.doc_id,
  )

module _ (codec : Codec) (resolve : FilePath → FilePath) (root : FilePath) where
  -- If the codec is lawful and the vault's own two paths are resolved already, then restoring by
  -- the handle of a commit that succeeded gives the dictionary that was committed.
  pub restore-commit :
      (m : DocumentManifest) (es : List PrivateDictEntry) (d : Disk) {h : ArtifactHandle}
      → IsLawful codec
      → resolve (root ++ codes "private" ∷ []) ≡ root ++ codes "private" ∷ []
      → resolve (private_path root m.doc_id) ≡ private_path root m.doc_id
      → (commit codec m es root d).0 ≡ ok h
      → restore codec resolve h root (commit codec m es root d).1 ≡ ok es
  unfolding restore
  restore-commit m es d {h} lawful top path done =
      let (_, stored, _, at) = commit_files codec m es root d done in
      let under : is_under (root ++ codes "private" ∷ []) (private_path root m.doc_id) ≡ true =
        is_under_private root (m.doc_id ++ codes ".json") in
      rw (at, top, path, under, stored, read_entries, lawful.entries es)

  -- If a restore succeeds, then the handle's path, once resolved, lies under the resolved private
  -- directory of the vault, whatever the handle and however links are resolved.
  pub restore_confined :
      (h : ArtifactHandle) (d : Disk) {es : List PrivateDictEntry}
      → restore codec resolve h root d ≡ ok es
      → (r : FilePath) × (resolve h.vault_path ≡ resolve (root ++ codes "private" ∷ []) ++ r)
  unfolding restore
  restore_confined h d done = is_under_elim _ _ (ground arith)
