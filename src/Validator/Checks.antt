-- ===== src/Validator/Checks.antt =====
-- `validate` passes exactly the clean manifests.
use yomotsusaka.Prelude.{
  Text, eq_text_iff, contains, contains_intro, contains_elim, Bool, true, false, Option, none, some,
  List, [], ◌∷◌, ◌≡◌, ◌≢◌, ◌↔◌, inl, inr, refl, all, All, Bool-cases, Option-cases, and_split,
  and_intro, arith, if◌then◌else◌,
}
use yomotsusaka.Schemas.{EntityRecord, PrivateDictEntry, DocumentManifest}
use yomotsusaka.Validator.{
  ValidationError, keys_disagree, first_error, ◌then_check◌, is_empty, leak_check, entity_check,
  entry_check, has_key, same_set, validate,
}
use yomotsusaka.Validator.Spec.{Occurs, Has, IsPlaceholder, NoLeak, IsClean}
use yomotsusaka.Validator.Shape.{check_key_shape_iff}

pub contains_iff : (p t : Text) → (contains p t ≡ true) ↔ Occurs p t
contains_iff p t = (contains_elim p t, λ (a, b, e). rw e (contains_intro a p b))

first_error_iff {ℓ κ} :
    {A : Type ℓ} (P : A → Type κ) (check : A → Option ValidationError)
    → ((x : A) → (check x ≡ none) ↔ P x)
    → (xs : List A) → (first_error check xs ≡ none) ↔ All P xs
unfolding first_error
first_error_iff P check each [] = (λ _. tt, λ _. refl)
first_error_iff P check each (x ∷ xs) = (
  λ h. elim (Option-cases (check x)) [
    | inl e ↦ ((each x).0 e, (first_error_iff P check each xs).0 (ground arith))
    | inr (v, e) ↦ absurd (ground arith)
  ],
  λ h. rw ((each x).1 h.0, first_error) ((first_error_iff P check each xs).1 h.1),
)

pub is_empty-false : (v : Text) → v ≢ [] → is_empty v ≡ false
is_empty-false [] h = absurd (h refl)
is_empty-false (c ∷ v) h = refl

is_empty-false_ne : (v : Text) → is_empty v ≡ false → v ≢ []
is_empty-false_ne [] h e = cc
is_empty-false_ne (c ∷ v) h e = cc

leak_check_iff : (text : Text) (p : PrivateDictEntry) → (leak_check text p ≡ none) ↔ NoLeak text p
unfolding leak_check
leak_check_iff text p = (
  λ h ne o.
      ground (arith, (contains_iff p.original_value text).1 o, is_empty-false p.original_value ne),
  λ n. elim (Bool-cases (is_empty p.original_value)) [
    | inl e ↦ rw e
    | inr e ↦ elim (Bool-cases (contains p.original_value text)) [
      | inl f ↦ absurd (n (is_empty-false_ne p.original_value e) ((contains_iff _ _).0 f))
      | inr f ↦ rw (e, f)
    ]
  ],
)

entity_check_iff :
    (text : Text) (e : EntityRecord) → (entity_check text e ≡ none) ↔ Occurs e.redacted_key text
unfolding entity_check
entity_check_iff text e = (λ h. contains_elim _ _ (ground arith), λ o. rw ((contains_iff _ _).1 o))

entry_check_iff :
    (text : Text) (p : PrivateDictEntry) → (entry_check text p ≡ none) ↔ Occurs p.key text
unfolding entry_check
entry_check_iff text p = (λ h. contains_elim _ _ (ground arith), λ o. rw ((contains_iff _ _).1 o))

has_key_iff : (k : Text) (ks : List Text) → (has_key k ks ≡ true) ↔ Has k ks
unfolding has_key
has_key_iff k [] = (λ h. cc, λ h. absurd h)
has_key_iff k (j ∷ js) = ground (arith, has_key_iff k js, eq_text_iff k j)

all-has_key_iff :
    (xs ys : List Text) → (all (λ k. has_key k ys) xs ≡ true) ↔ ((k : Text) → Has k xs → Has k ys)
all-has_key_iff [] ys = (λ h k n. absurd n, λ h. refl)
all-has_key_iff (x ∷ xs) ys = (
  λ h k n.
      let (a, b) = and_split _ _ h in
      elim n [ inl e ↦ (has_key_iff k ys).0 (rw e a) | inr m ↦ (all-has_key_iff xs ys).0 b k m ],
  λ h.
      and_intro _ _ ((has_key_iff x ys).1 (h x (inl refl)))
        ((all-has_key_iff xs ys).1 (λ k m. h k (inr m))),
)

same_set_iff : (xs ys : List Text) → (same_set xs ys ≡ true) ↔ ((k : Text) → Has k xs ↔ Has k ys)
unfolding same_set
same_set_iff xs ys = (
  λ h.
      let (a, b) = and_split _ _ h in
      λ k. ((all-has_key_iff xs ys).0 a k, (all-has_key_iff ys xs).0 b k),
  λ h.
      and_intro _ _ ((all-has_key_iff xs ys).1 (λ k. (h k).0))
        ((all-has_key_iff ys xs).1 (λ k. (h k).1)),
)

then_check_none : (a b : Option ValidationError) → (a then_check b ≡ none) → (a ≡ none) × (b ≡ none)
then_check_none none b h = (refl, h)
then_check_none (some e) b h = absurd (cc)

set_check_iff : (b : Bool) → ((if b then none else some keys_disagree) ≡ none) ↔ (b ≡ true)
set_check_iff true = (λ _. refl, λ _. refl)
set_check_iff false = (λ h. cc, λ h. cc)

-- The validator accepts a manifest and a dictionary if and only if no raw value that is not empty
-- occurs in the text, every key of both sides occurs in it, the two sides have the same keys, and
-- every key has the shape of a placeholder of its kind.
pub validate_iff :
    (m : DocumentManifest) (private_dict : List PrivateDictEntry)
    → (validate m private_dict ≡ none) ↔ IsClean m private_dict
unfolding validate
validate_iff m d =
    let text = m.redacted_text in
    let leaks = first_error_iff (NoLeak text) (leak_check text) (leak_check_iff text) d in
    let present = first_error_iff _ (entity_check text) (entity_check_iff text) m.entities in
    let listed = first_error_iff _ (entry_check text) (entry_check_iff text) d in
    let shapes =
      first_error_iff (λ (e : EntityRecord). IsPlaceholder e.kind e.redacted_key) _
        (λ e. check_key_shape_iff e.redacted_key e.kind) m.entities in
    let entry_shapes =
      first_error_iff (λ (p : PrivateDictEntry). IsPlaceholder p.kind p.key) _
        (λ p. check_key_shape_iff p.key p.kind) d in
    (
      λ h.
          let (h5, e6) = then_check_none _ _ h in
          let (h4, e5) = then_check_none _ _ h5 in
          let (h3, e4) = then_check_none _ _ h4 in
          let (h2, e3) = then_check_none _ _ h3 in
          let (e1, e2) = then_check_none _ _ h2 in
          record {
            no_leaks = leaks.0 e1;
            entities_present = present.0 e2;
            entries_present = listed.0 e3;
            same_keys = (same_set_iff _ _).0 ((set_check_iff _).0 e4);
            entity_shapes = shapes.0 e5;
            entry_shapes = entry_shapes.0 e6;
          },
      λ c.
          rw
            (
              leaks.1 c.no_leaks,
              present.1 c.entities_present,
              listed.1 c.entries_present,
              (same_set_iff _ _).1 c.same_keys,
              shapes.1 c.entity_shapes,
            )
            (entry_shapes.1 c.entry_shapes),
    )
