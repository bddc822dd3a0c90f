-- ===== src/SearchGateway/Results.antt =====
-- What a search finds.
use yomotsusaka.Prelude.{
  ℕ, ◌+◌, ◌≤◌, ◌<◌, zero, suc, Text, is_member, Bool, true, false, some, List, [], ◌∷◌, ◌++◌,
  length, length-append, take, leb, leb→le, All, All-append, Mem, ◌≡◌, inl, inr, refl, ap, arith,
  Bool-cases,
}
use yomotsusaka.Schemas.{DocumentManifest}
use yomotsusaka.Validator.Spec.{Has, is_member_iff}
use yomotsusaka.QueryResolver.{Registry, ResolvedQuery, translate}
use yomotsusaka.QueryResolver.Terms.{IsUnique, IsUnique-snoc, Has-append_left, Has-append_right}
use yomotsusaka.QueryResolver.Translation.{translate-Walk}
use yomotsusaka.SearchGateway.{
  SearchGateway, needles_of, ids, is_hit, scan, unless_returned, scan_all, search,
}

ids-append :
    (ms : List DocumentManifest) (m : DocumentManifest)
    → ids (ms ++ m ∷ []) ≡ ids ms ++ m.doc_id ∷ []
ids-append [] m = refl
ids-append (n ∷ ms) m = ap (λ r. n.doc_id ∷ r) (ids-append ms m)

take_all : (n : ℕ) (ms : List DocumentManifest) → length ms ≤ n → take n ms ≡ ms
take_all zero [] h = refl
take_all zero (m ∷ ms) h = absurd (omega arith)
take_all (suc n) [] h = refl
take_all (suc n) (m ∷ ms) h = ap (λ r. m ∷ r) (take_all n ms (omega arith))

module _ (lower : Text → Text) (top_k : ℕ) (P : DocumentManifest → Type 0) where
  -- What holds of the manifests found so far.
  record IsFound (ordered : List DocumentManifest) : Type 0 where
    sound : All P ordered
    unique : IsUnique (ids ordered)

  -- What a scan for one needle comes to.
  abbrev Scanned :
      Text → List DocumentManifest → List DocumentManifest → List DocumentManifest × Bool → Type 0
  Scanned needle ms ordered (found, true) =
      IsFound found
      × (length found ≡ top_k)
      × ((t : Text) → Has t (ids ordered) → Has t (ids found))
  Scanned needle ms ordered (found, false) =
      IsFound found
      × (length found < top_k)
      × ((t : Text) → Has t (ids ordered) → Has t (ids found))
      × ((m : DocumentManifest)
          → Mem m ms
          → is_hit lower needle m ≡ true
          → Has m.doc_id (ids found))

  add-IsFound :
      (ordered : List DocumentManifest) (m : DocumentManifest)
      → IsFound ordered
      → is_member m.doc_id (ids ordered) ≡ false
      → P m
      → IsFound (ordered ++ m ∷ [])
  add-IsFound ordered m found new p = record {
    sound = All-append P ordered (m ∷ []) found.sound (p, tt);
    unique = rw ids-append (
        IsUnique-snoc m.doc_id (ids ordered)
          (λ k. absurd (cc (new, (is_member_iff m.doc_id (ids ordered)).1 k))) found.unique);
  }

  -- A scan that goes on after a manifest whose id is among those found, or which is no hit.
  Scanned-cons :
      (needle : Text) (m : DocumentManifest) (ms before ordered : List DocumentManifest)
      (r : List DocumentManifest × Bool)
      → ((t : Text) → Has t (ids before) → Has t (ids ordered))
      → (is_hit lower needle m ≡ true → Has m.doc_id (ids ordered))
      → Scanned needle ms ordered r
      → Scanned needle (m ∷ ms) before r
  Scanned-cons needle m ms before ordered (found, true) wider covered (fine, full, kept) =
      (fine, full, λ t k. kept t (wider t k))
  Scanned-cons needle m ms before ordered (found, false) wider covered (fine, few, kept, hits) = (
    fine,
    few,
    λ t k. kept t (wider t k),
    λ n k hit. elim k [
      | inl same ↦ rw same (kept m.doc_id (covered (rw (← same) hit)))
      | inr later ↦ hits n later hit
    ],
  )

  scan-Scanned :
      (needle : Text) (ms ordered : List DocumentManifest)
      → ((m : DocumentManifest) → Mem m ms → is_hit lower needle m ≡ true → P m)
      → IsFound ordered
      → length ordered < top_k
      → Scanned needle ms ordered (scan lower top_k needle ms ordered)
  unfolding scan
  scan-Scanned needle [] ordered p found few = (found, few, λ t k. k, λ m k. absurd k)
  scan-Scanned needle (m ∷ ms) ordered p found few =
      let later : (n : DocumentManifest) → Mem n ms → is_hit lower needle n ≡ true → P n =
        λ n k. p n (inr k) in
      elim (Bool-cases (is_member m.doc_id (ids ordered))) [
        | inl e ↦
            rw (e, scan)
              (Scanned-cons needle m ms ordered ordered _ (λ t k. k)
                (λ hit. (is_member_iff m.doc_id (ids ordered)).0 e)
                (scan-Scanned needle ms ordered later found few))
        | inr e ↦ elim (Bool-cases (is_hit lower needle m)) [
          | inr f ↦
              rw (e, f, scan)
                (Scanned-cons needle m ms ordered ordered _ (λ t k. k) (λ hit. absurd (cc))
                  (scan-Scanned needle ms ordered later found few))
          | inl f ↦
              let more = add-IsFound ordered m found e (p m (inl refl) f) in
              let grown : length (ordered ++ m ∷ []) ≡ length ordered + 1 =
                length-append ordered (m ∷ []) in
              elim (Bool-cases (leb top_k (length (ordered ++ m ∷ [])))) [
                | inl g ↦
                    rw (e, f, g, scan)
                      (
                        more,
                        omega (arith, grown, leb→le _ _ g),
                        λ t k. rw ids-append (Has-append_left t (ids ordered) _ k),
                      )
                | inr g ↦
                    rw (e, f, g, scan)
                      (Scanned-cons needle m ms ordered (ordered ++ m ∷ []) _
                        (λ t k. rw ids-append (Has-append_left t (ids ordered) _ k))
                        (λ hit.
                          rw ids-append (Has-append_right m.doc_id (ids ordered) _ (inl refl)))
                        (scan-Scanned needle ms (ordered ++ m ∷ []) later more (ground (arith, g))))
              ]
        ]
      ]

  -- A search that has ended, with what it had found when it came to these needles.
  record IsAnswer (needles : List Text) (ms before found : List DocumentManifest) : Type 0 where
    well : IsFound found
    bounded : length found ≤ top_k
    kept : (t : Text) → Has t (ids before) → Has t (ids found)
    complete :
        length found < top_k
        → (needle : Text) (m : DocumentManifest) → Has needle needles
        → Mem m ms
        → is_hit lower needle m ≡ true
        → Has m.doc_id (ids found)

  -- The rest of the needles after the scan for one.
  after_scan :
      (needle : Text) (needles : List Text) (ms before : List DocumentManifest)
      (r : List DocumentManifest × Bool)
      → Scanned needle ms before r
      → ((ordered : List DocumentManifest)
          → IsFound ordered
          → length ordered < top_k
          → IsAnswer needles ms ordered (scan_all lower top_k ms needles ordered))
      → IsAnswer (needle ∷ needles) ms before (unless_returned (scan_all lower top_k ms needles) r)
  after_scan needle needles ms before (found, true) (fine, full, kept) rest = record {
    well = fine;
    bounded = omega arith;
    kept = kept;
    complete = λ few. absurd (omega arith);
  }
  after_scan needle needles ms before (found, false) (fine, few, kept, hits) rest =
      let answer = rest found fine few in
      record {
        well = answer.well;
        bounded = answer.bounded;
        kept = λ t k. answer.kept t (kept t k);
        complete = λ less n m k there hit. elim k [
          | inl same ↦ answer.kept m.doc_id (hits m there (rw (← same) hit))
          | inr later ↦ answer.complete less n m later there hit
        ];
      }

  scan_all-IsAnswer :
      (ms : List DocumentManifest) (needles : List Text) (ordered : List DocumentManifest)
      → ((needle : Text) (m : DocumentManifest)
          → Has needle needles
          → Mem m ms
          → is_hit lower needle m ≡ true
          → P m)
      → IsFound ordered
      → length ordered < top_k
      → IsAnswer needles ms ordered (scan_all lower top_k ms needles ordered)
  unfolding scan_all
  scan_all-IsAnswer ms [] ordered p found few =
      let same : take top_k ordered ≡ ordered = take_all top_k ordered (omega arith) in
      rw same (record {
        well = found;
        bounded = omega arith;
        kept = λ t k. k;
        complete = λ less n m k. absurd k;
      })
  scan_all-IsAnswer ms (needle ∷ needles) ordered p found few =
      after_scan needle needles ms ordered _
        (scan-Scanned needle ms ordered (λ m there hit. p needle m (inl refl) there hit) found few)
        (λ more fine less. scan_all-IsAnswer ms needles more (λ n m k. p n m (inr k)) fine less)

module _ (lower : Text → Text) (gateway : SearchGateway) (query : Text) (top_k : ℕ) where
  -- A manifest of the index in which one of the needles occurs.
  abbrev pub IsHit : List Text → DocumentManifest → Type 0
  IsHit needles m =
      Mem m gateway.manifests
      × ((needle : Text) × Has needle needles × (is_hit lower needle m ≡ true))

  -- With a resolver and a `top_k` of at least one a search always ends with a list. The list holds
  -- at most `top_k` manifests of the index, each with one of the needles of the translated query
  -- in its text, no two of the same id; if it holds fewer than `top_k`, then the id of every
  -- manifest of the index that has a needle in its text is in it.
  pub search_resolved :
      {entries : Registry}
      → gateway.resolver ≡ some entries
      → 1 ≤ top_k
      → (resolved : ResolvedQuery) × (found : List DocumentManifest) × (translate entries query
          ≡ some resolved)
        × (search lower gateway query top_k ≡ some found)
        × All (IsHit (needles_of resolved)) found
        × IsUnique (ids found)
        × (length found ≤ top_k)
        × (length found < top_k
            → (m : DocumentManifest) → IsHit (needles_of resolved) m
            → Has m.doc_id (ids found))
  unfolding search
  search_resolved {entries} attached positive =
      let (keys, terms, residual, e, _, _, _) = translate-Walk entries query in
      let resolved : ResolvedQuery = record { translated_terms = terms; residual = residual } in
      let answer =
        scan_all-IsAnswer lower top_k (IsHit (needles_of resolved)) gateway.manifests
          (needles_of resolved) [] (λ n m k there hit. (there, (n, k, hit)))
          (record { sound = tt; unique = tt }) (omega arith) in
      (
        resolved,
        scan_all lower top_k gateway.manifests (needles_of resolved) [],
        e,
        rw (attached, search, e) refl,
        answer.well.sound,
        answer.well.unique,
        answer.bounded,
        λ few m h. answer.complete few h.1.0 m h.1.1 h.0 h.1.2,
      )
