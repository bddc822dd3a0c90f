-- ===== src/Validator/Shape.antt =====
-- `_check_key_shape` decides the placeholder shape.
use yomotsusaka.Prelude.{
  ℕ, zero, suc, Text, codes, eq_text, eq_text_iff, eq_text_refl, starts_with, starts_with_elim,
  true, none, some, List, [], ◌∷◌, ◌++◌, ◌≡◌, ◌↔◌, ◌⊎◌, inl, inr, refl, ap, ap₂, ◌∙◌, length, drop,
  drop-length, all, Bool-cases, Option-cases, and_split, ◌&&◌, ==_iff, arith,
}
use yomotsusaka.Schemas.{EntityKind, kind_value, person}
use yomotsusaka.Validator.{
  is_hex, hex_run, ends_key, closes_key, match_kind, entity_kinds, match_placeholder,
  check_key_shape,
}
use yomotsusaka.Validator.Spec.{IsPlaceholder}

hex_run_elim :
    (n : ℕ) (t r : Text)
    → hex_run n t ≡ some r
    → (hex : Text) × (t ≡ hex ++ r) × (length hex ≡ n) × (all is_hex hex ≡ true)
unfolding hex_run
hex_run_elim zero t r h = ([], ground arith, refl, refl)
hex_run_elim (suc n) [] r h = absurd (cc)
hex_run_elim (suc n) (c ∷ t) r h =
    let (hex, e, l, a) = hex_run_elim n t r (ground arith) in
    (c ∷ hex, ap (λ s. c ∷ s) e, ap suc l, ground arith)

hex_run_intro :
    (hex r : Text) (n : ℕ) → length hex ≡ n → all is_hex hex ≡ true → hex_run n (hex ++ r) ≡ some r
unfolding hex_run
hex_run_intro [] r zero l a = refl
hex_run_intro [] r (suc n) l a = absurd (omega arith)
hex_run_intro (c ∷ hex) r zero l a = absurd (omega arith)
hex_run_intro (c ∷ hex) r (suc n) l a = ground (arith, hex_run_intro hex r n)

-- The text behind the kind in a placeholder.
abbrev Closing : Text → Type 0
Closing t =
    (hex : Text) × (tail : Text) × (t ≡ b'_' ∷ (hex ++ b'>' ∷ tail))
    × (length hex ≡ 8)
    × (all is_hex hex ≡ true)
    × ((tail ≡ []) ⊎ (tail ≡ b'\n' ∷ []))

ends_key_elim :
    (t : Text)
    → ends_key t ≡ true
    → (tail : Text) × (t ≡ b'>' ∷ tail) × ((tail ≡ []) ⊎ (tail ≡ b'\n' ∷ []))
unfolding ends_key
ends_key_elim t h = elim (Bool-cases (eq_text t (codes ">"))) [
  | inl e ↦ ([], (eq_text_iff t _).0 e, inl refl)
  | inr n ↦ (b'\n' ∷ [], (eq_text_iff t _).0 (ground arith), inr refl)
]

ends_key_intro : (tail : Text) → (tail ≡ []) ⊎ (tail ≡ b'\n' ∷ []) → ends_key (b'>' ∷ tail) ≡ true
unfolding ends_key eq_text
ends_key_intro [] h = refl
ends_key_intro (c ∷ []) h = ground arith
ends_key_intro (c ∷ d ∷ t) h = ground arith

closes_key_elim : (t : Text) → closes_key t ≡ true → Closing t
unfolding closes_key
closes_key_elim [] h = absurd (cc)
closes_key_elim (c ∷ t) h = elim (Option-cases (hex_run 8 t)) [
  | inl e ↦ absurd (ground arith)
  | inr (r, e) ↦
      let (hex, f, l, a) = hex_run_elim 8 t r e in
      let (tail, g, ending) = ends_key_elim r (ground arith) in
      (
        hex,
        tail,
        ap₂ ◌∷◌ ((==_iff c b'_').0 (ground arith)) (f ∙ ap (λ s. hex ++ s) g),
        l,
        a,
        ending,
      )
]

closes_key_intro : (t : Text) → Closing t → closes_key t ≡ true
unfolding closes_key
closes_key_intro t (hex, tail, e, l, a, ending) =
    rw (e, closes_key, hex_run_intro hex (b'>' ∷ tail) 8 l a) (ends_key_intro tail ending)

match_kind_elim :
    (ks : List EntityKind) (t : Text) (k : EntityKind)
    → match_kind ks t ≡ some k
    → (r : Text) × (t ≡ kind_value k ++ r) × (closes_key r ≡ true)
unfolding match_kind
match_kind_elim [] t k h = absurd (cc)
match_kind_elim (j ∷ ks) t k h =
    elim (Bool-cases
      (starts_with (kind_value j) t && closes_key (drop (length (kind_value j)) t))) [
        | inl e ↦
            let (starts, closes) = and_split _ _ e in
            let (r, f) = starts_with_elim (kind_value j) t starts in
            let same : j ≡ k = ground arith in
            let rest : drop (length (kind_value j)) t ≡ r =
              ap (drop (length (kind_value j))) f ∙ drop-length (kind_value j) r in
            (r, f ∙ ap (λ i. kind_value i ++ r) same, rw rest at closes)
        | inr n ↦ match_kind_elim ks t k (ground arith)
      ]

match_kind_self :
    (k : EntityKind) (t : Text)
    → closes_key t ≡ true
    → match_kind entity_kinds (kind_value k ++ t) ≡ some k
unfolding match_kind starts_with
match_kind_self person t h = rw h
match_kind_self _ t h = rw h

match_placeholder_elim :
    (key : Text) (k : EntityKind) → match_placeholder key ≡ some k → IsPlaceholder k key
unfolding match_placeholder
match_placeholder_elim [] k h = absurd (cc)
match_placeholder_elim (c ∷ t) k h =
    let opens : c ≡ b'<' = (==_iff c b'<').0 (ground arith) in
    let (r, e, closes) = match_kind_elim entity_kinds t k (ground arith) in
    let (hex, tail, f, l, a, ending) = closes_key_elim r closes in
    record {
      hex = hex;
      tail = tail;
      shape = ap₂ ◌∷◌ opens (e ∙ ap (λ s. kind_value k ++ s) f);
      digits = l;
      hexadecimal = a;
      ending = ending;
    }

match_placeholder_intro :
    (key : Text) (k : EntityKind) → IsPlaceholder k key → match_placeholder key ≡ some k
unfolding match_placeholder
match_placeholder_intro key k p =
    rw (p.shape, match_placeholder)
      (match_kind_self k _
        (closes_key_intro _ (p.hex, p.tail, refl, p.digits, p.hexadecimal, p.ending)))

kind_value-injective : (j k : EntityKind) → eq_text (kind_value j) (kind_value k) ≡ true → j ≡ k
unfolding eq_text
kind_value-injective j k h = ground arith

-- The validator accepts the shape of a key if and only if the key is `<KIND_xxxxxxxx>` with the
-- name of the kind and eight lower-case hexadecimal digits, with or without one line feed behind
-- it.
pub check_key_shape_iff :
    (key : Text) (kind : EntityKind) → (check_key_shape key kind ≡ none) ↔ IsPlaceholder kind key
unfolding check_key_shape
check_key_shape_iff key kind = (
  λ h. elim (Option-cases (match_placeholder key)) [
    | inl e ↦ absurd (ground arith)
    | inr (k, e) ↦
        let same : k ≡ kind = kind_value-injective k kind (ground arith) in
        match_placeholder_elim key kind (e ∙ ap some same)
  ],
  λ p.
      rw (match_placeholder_intro key kind p, check_key_shape)
        (rw (eq_text_refl (kind_value kind)) refl),
)
