-- ===== src/Redactor/Keys.antt =====
-- The keys that `redact` writes: where they stand, and their shape.
use yomotsusaka.Prelude.{
  ℕ, zero, suc, Text, ℤ, ◌+ℤ◌, sub_ℕ, Bool, true, List, [], ◌∷◌, ◌++◌, ◌≡◌, refl, ap, subst, sym,
  ◌∙◌, inl, length, take, all, All, length-take, append_assoc, and_split, and_intro, slice, arith,
}
use yomotsusaka.Schemas.{EntityKind, EntityRecord, PrivateDictEntry}
use yomotsusaka.Redactor.{Span, make_key}
use yomotsusaka.Redactor.Plan.{key_of, weave, records, entries}
use yomotsusaka.Validator.{is_hex, entity_keys, private_keys}
use yomotsusaka.Validator.Spec.{Occurs, IsPlaceholder}

-- `hexdigest()` of SHA-256 is sixty-four lower-case hexadecimal digits.
pub record IsHexDigest (hexdigest : Text → Text) : Type 0 where
  pub digits : (v : Text) → length (hexdigest v) ≡ 64
  pub hexadecimal : (v : Text) → all is_hex (hexdigest v) ≡ true

all-take {ℓ} :
    {A : Type ℓ} (p : A → Bool) (n : ℕ) (xs : List A) → all p xs ≡ true → all p (take n xs) ≡ true
all-take p zero xs h = refl
all-take p (suc n) [] h = refl
all-take p (suc n) (x ∷ xs) h = let (a, b) = and_split _ _ h in and_intro _ _ a (all-take p n xs b)

Occurs-behind : (p a t : Text) → Occurs p t → Occurs p (a ++ t)
Occurs-behind p a t (x, y, e) = (a ++ x, y, ap (λ s. a ++ s) e ∙ sym (append_assoc a x (p ++ y)))

regroup : (a b c d : Text) → (a ++ (b ++ c)) ++ d ≡ a ++ (b ++ (c ++ d))
regroup a b c d = simp append_assoc

module _ (hexdigest : Text → Text) where
  pub make_key-IsPlaceholder :
      IsHexDigest hexdigest
      → (kind : EntityKind) (v : Text) → IsPlaceholder kind (make_key hexdigest kind v)
  unfolding make_key
  make_key-IsPlaceholder h kind v = record {
    hex = take 8 (hexdigest v);
    tail = [];
    shape = refl;
    digits = omega (arith, length-take 8 (hexdigest v), h.digits v);
    hexadecimal = all-take is_hex 8 (hexdigest v) (h.hexadecimal v);
    ending = inl refl;
  }

  module _ (text : Text) where
    -- All that the loop has written in front of a key is still in front of it at the end.
    pub records-Occurs :
        (ss : List Span) (pre : Text) (cursor : ℕ) (offset : ℤ)
        → All
            (λ (e : EntityRecord). Occurs e.redacted_key (pre ++ weave hexdigest text cursor ss))
            (records hexdigest text offset ss)
    unfolding records weave
    records-Occurs [] pre cursor offset = tt
    records-Occurs (s ∷ ss) pre cursor offset =
        let k = key_of hexdigest text s in
        let gap = slice cursor s.start text in
        let offset' = offset +ℤ sub_ℕ (length k) (length (slice s.start s.end text)) in
        (
          (pre ++ gap, weave hexdigest text s.end ss, sym (append_assoc pre gap _)),
          subst
              (λ t.
                All (λ (e : EntityRecord). Occurs e.redacted_key t)
                  (records hexdigest text offset' ss))
              (regroup pre gap k (weave hexdigest text s.end ss))
              (records-Occurs ss (pre ++ (gap ++ k)) s.end offset'),
        )

    pub entries-Occurs :
        (ss : List Span) (pre : Text) (cursor : ℕ)
        → All
            (λ (p : PrivateDictEntry). Occurs p.key (pre ++ weave hexdigest text cursor ss))
            (entries hexdigest text ss)
    unfolding entries weave
    entries-Occurs [] pre cursor = tt
    entries-Occurs (s ∷ ss) pre cursor =
        let k = key_of hexdigest text s in
        let gap = slice cursor s.start text in
        (
          (pre ++ gap, weave hexdigest text s.end ss, sym (append_assoc pre gap _)),
          subst (λ t. All (λ (p : PrivateDictEntry). Occurs p.key t) (entries hexdigest text ss))
              (regroup pre gap k (weave hexdigest text s.end ss))
              (entries-Occurs ss (pre ++ (gap ++ k)) s.end),
        )

    -- The two lists have the same keys, in the same order.
    pub entity_keys-records :
        (ss : List Span) (offset : ℤ)
        → entity_keys (records hexdigest text offset ss) ≡ private_keys (entries hexdigest text ss)
    unfolding records entries
    entity_keys-records [] offset = refl
    entity_keys-records (s ∷ ss) offset =
        ap (λ ks. key_of hexdigest text s ∷ ks) (entity_keys-records ss _)

    pub records-IsPlaceholder :
        IsHexDigest hexdigest
        → (ss : List Span) (offset : ℤ)
        → All
            (λ (e : EntityRecord). IsPlaceholder e.kind e.redacted_key)
            (records hexdigest text offset ss)
    unfolding records
    records-IsPlaceholder h [] offset = tt
    records-IsPlaceholder h (s ∷ ss) offset =
        (make_key-IsPlaceholder h s.kind _, records-IsPlaceholder h ss _)

    pub entries-IsPlaceholder :
        IsHexDigest hexdigest
        → (ss : List Span)
        → All (λ (p : PrivateDictEntry). IsPlaceholder p.kind p.key) (entries hexdigest text ss)
    unfolding entries
    entries-IsPlaceholder h [] = tt
    entries-IsPlaceholder h (s ∷ ss) =
        (make_key-IsPlaceholder h s.kind _, entries-IsPlaceholder h ss)
