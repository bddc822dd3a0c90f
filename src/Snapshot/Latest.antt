-- ===== src/Snapshot/Latest.antt =====
-- The manifests that a snapshot keeps.
use yomotsusaka.Prelude.{
  Text, is_member, true, false, List, [], ◌∷◌, ◌++◌, reverse, ◌≡◌, ◌↔◌, inl, inr, refl, sym, ap,
  subst, ◌∙◌, Bool-cases,
}
use yomotsusaka.Schemas.{DocumentManifest}
use yomotsusaka.Validator.Spec.{Has, is_member_iff}
use yomotsusaka.QueryResolver.Terms.{Has-append, Has-append_left, Has-append_right, IsUnique}
use yomotsusaka.SearchGateway.{ids}
use yomotsusaka.Snapshot.{latest_from, latest_of}

-- The manifests that no later one of the same id replaces, in their order.
abbrev pub keep_last : List DocumentManifest → List DocumentManifest
keep_last [] = []
keep_last (m ∷ ms) =
    let rest = keep_last ms in elim (is_member m.doc_id (ids ms)) [ true ↦ rest | false ↦ m ∷ rest ]

latest_from-append :
    (ms ns latest : List DocumentManifest)
    → latest_from (ms ++ ns) latest ≡ latest_from ns (latest_from ms latest)
unfolding latest_from
latest_from-append [] ns latest = refl
latest_from-append (m ∷ ms) ns latest = elim (Bool-cases (is_member m.doc_id (ids latest))) [
  | inl e ↦ rw (e, latest_from) (latest_from-append ms ns latest)
  | inr e ↦ rw (e, latest_from) (latest_from-append ms ns (latest ++ m ∷ []))
]

ids-append : (ms ns : List DocumentManifest) → ids (ms ++ ns) ≡ ids ms ++ ids ns
ids-append [] ns = refl
ids-append (m ∷ ms) ns = ap (λ r. m.doc_id ∷ r) (ids-append ms ns)

reverse-snoc :
    (ms : List DocumentManifest) (m : DocumentManifest) → reverse (ms ++ m ∷ []) ≡ m ∷ reverse ms
reverse-snoc [] m = refl
reverse-snoc (k ∷ ms) m = ap (λ r. r ++ k ∷ []) (reverse-snoc ms m)

Has-reverse : (t : Text) (ms : List DocumentManifest) → Has t (ids (reverse ms)) ↔ Has t (ids ms)
Has-reverse t [] = (λ h. h, λ h. h)
Has-reverse t (m ∷ ms) =
    let (to, from) = Has-reverse t ms in
    rw (ids-append (reverse ms) (m ∷ [])) (
      λ h. elim (Has-append t (ids (reverse ms)) (m.doc_id ∷ []) h) [
        | inl k ↦ inr (to k)
        | inr (inl e) ↦ inl e
        | inr (inr k) ↦ absurd k
      ],
      λ h. elim h [
        | inl e ↦ Has-append_right t (ids (reverse ms)) (m.doc_id ∷ []) (inl e)
        | inr k ↦ Has-append_left t (ids (reverse ms)) (m.doc_id ∷ []) (from k)
      ],
    )

pub keep_last-Has :
    (t : Text) (ms : List DocumentManifest) → Has t (ids (keep_last ms)) ↔ Has t (ids ms)
keep_last-Has t [] = (λ h. h, λ h. h)
keep_last-Has t (m ∷ ms) =
    let (to, from) = keep_last-Has t ms in
    elim (Bool-cases (is_member m.doc_id (ids ms))) [
      | inl e ↦
          rw (e, keep_last)
            (
              λ h. inr (to h),
              λ h. elim h [
                | inl same ↦ from (rw same ((is_member_iff m.doc_id (ids ms)).0 e))
                | inr k ↦ from k
              ],
            )
      | inr e ↦
          rw (e, keep_last)
            (
              λ h. elim h [ inl same ↦ inl same | inr k ↦ inr (to k) ],
              λ h. elim h [ inl same ↦ inl same | inr k ↦ inr (from k) ],
            )
    ]

pub keep_last-IsUnique : (ms : List DocumentManifest) → IsUnique (ids (keep_last ms))
keep_last-IsUnique [] = tt
keep_last-IsUnique (m ∷ ms) = elim (Bool-cases (is_member m.doc_id (ids ms))) [
  | inl e ↦ rw (e, keep_last) (keep_last-IsUnique ms)
  | inr e ↦
      rw (e, keep_last)
        (
          λ k.
              absurd
                (cc (e, (is_member_iff m.doc_id (ids ms)).1 ((keep_last-Has m.doc_id ms).0 k))),
          keep_last-IsUnique ms,
        )
]

same_test :
    (t : Text) (xs ys : List Text)
    → (Has t xs → Has t ys)
    → (Has t ys → Has t xs)
    → is_member t xs ≡ is_member t ys
same_test t xs ys f g = elim (Bool-cases (is_member t xs)) [
  | inl e ↦ cc (e, (is_member_iff t ys).1 (f ((is_member_iff t xs).0 e)))
  | inr e ↦ elim (Bool-cases (is_member t ys)) [
    | inl h ↦ absurd (cc (e, (is_member_iff t xs).1 (g ((is_member_iff t ys).0 h))))
    | inr h ↦ cc (e, h)
  ]
]

-- Membership in what was kept is membership in the index.
member_same :
    (m : DocumentManifest) (kept ms : List DocumentManifest)
    → reverse kept ≡ keep_last ms
    → is_member m.doc_id (ids kept) ≡ is_member m.doc_id (ids ms)
member_same m kept ms e =
    let (to, from) = Has-reverse m.doc_id kept in
    let (back, forth) = keep_last-Has m.doc_id ms in
    same_test m.doc_id (ids kept) (ids ms)
      (λ h. back (subst (λ l. Has m.doc_id (ids l)) e (from h)))
      (λ h. to (subst (λ l. Has m.doc_id (ids l)) (sym e) (forth h)))

pub latest_of-keep_last : (ms : List DocumentManifest) → latest_of ms ≡ keep_last ms
unfolding latest_of
latest_of-keep_last [] = unfold latest_from in refl
latest_of-keep_last (m ∷ ms) =
    let before = latest_from (reverse ms) [] in
    let same = member_same m before ms (latest_of-keep_last ms) in
    rw (latest_from-append (reverse ms) (m ∷ []) [])
      (elim (Bool-cases (is_member m.doc_id (ids ms))) [
        | inl e ↦ rw (e, keep_last, latest_from, same, e) (latest_of-keep_last ms)
        | inr e ↦
            rw (e, keep_last, latest_from, same, e)
              (reverse-snoc before m ∙ ap (λ r. m ∷ r) (latest_of-keep_last ms))
      ])
