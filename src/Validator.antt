-- ===== src/Validator.antt =====
-- The validator of a redacted manifest (src/yomotsusaka/validator.py). `none` means that it passes.
pub mod Spec
pub mod Shape
pub mod Checks
use yomotsusaka.Prelude.{
  ℕ, zero, suc, Text, codes, eq_text, starts_with, contains, Option, none, some, Bool, true, false,
  not, List, [], ◌∷◌, length, drop, any, all, map, ltb, leb, ◌==◌, ◌&&◌, ◌||◌, if◌then◌else◌,
}
use yomotsusaka.Schemas.{
  EntityKind, kind_value, EntityRecord, PrivateDictEntry, DocumentManifest, person, org, location,
  date, id_number, financial, health, custom,
}

-- Each error names the key that the message quotes, and never a raw value.
pub data ValidationError : Type 0 where
  raw_value_leaked entity_key_absent private_key_absent : Text → ValidationError
  keys_disagree : ValidationError
  bad_shape : Text → ValidationError
  kind_disagrees : Text → EntityKind → ValidationError

-- `[0-9a-f]`
unfoldable pub is_hex : ℕ → Bool
is_hex c = leb b'0' c && leb c b'9' || leb b'a' c && leb c b'f'

-- `[0-9a-f]{n}`: what follows the n digits.
unfoldable pub hex_run : ℕ → Text → Option Text
unfolding is_hex
hex_run zero t = some t
hex_run (suc n) [] = none
hex_run (suc n) (c ∷ t) = let rest = hex_run n t in if is_hex c then rest else none

-- `>$`. Without MULTILINE, `$` also matches before a line feed that ends the text.
unfoldable pub ends_key : Text → Bool
ends_key t = eq_text t (codes ">") || eq_text t (b'>' ∷ b'\n' ∷ [])

-- `_[0-9a-f]{8}>$`
unfoldable pub closes_key : Text → Bool
unfolding hex_run ends_key
closes_key [] = false
closes_key (c ∷ t) = c == b'_' && elim (hex_run 8 t) [ none ↦ false | some rest ↦ ends_key rest ]

-- The alternation of the kinds, in the pattern's order: what `match.group(1)` is.
unfoldable pub match_kind : List EntityKind → Text → Option EntityKind
unfolding closes_key starts_with
match_kind [] t = none
match_kind (k ∷ ks) t =
    let rest = match_kind ks t in
    if starts_with (kind_value k) t && closes_key (drop (length (kind_value k)) t)
    then some k
    else rest

abbrev pub entity_kinds : List EntityKind
entity_kinds = person ∷ org ∷ location ∷ date ∷ id_number ∷ financial ∷ health ∷ custom ∷ []

-- `_PLACEHOLDER_PATTERN.match(key)`
unfoldable pub match_placeholder : Text → Option EntityKind
unfolding match_kind
match_placeholder [] = none
match_placeholder (c ∷ t) = if c == b'<' then match_kind entity_kinds t else none

-- `_check_key_shape`
unfoldable pub check_key_shape : Text → EntityKind → Option ValidationError
unfolding match_placeholder eq_text
check_key_shape key kind = elim (match_placeholder key) [
  | none ↦ some (bad_shape key)
  | some prefix_kind ↦
      if eq_text (kind_value prefix_kind) (kind_value kind)
      then none
      else some (kind_disagrees key prefix_kind)
]

-- A `for` loop whose body may raise.
unfoldable pub first_error {ℓ} :
    {A : Type ℓ} → (A → Option ValidationError) → List A → Option ValidationError
first_error check [] = none
first_error check (x ∷ xs) =
    let rest = first_error check xs in elim (check x) [ some e ↦ some e | none ↦ rest ]

infixl 20 ◌then_check◌
-- A statement that may raise, and what follows it.
abbrev pub ◌then_check◌ : Option ValidationError → Option ValidationError → Option ValidationError
some e then_check k = some e
none then_check k = k

abbrev pub is_empty : Text → Bool
is_empty [] = true
is_empty (_ ∷ _) = false

unfoldable pub leak_check : Text → PrivateDictEntry → Option ValidationError
leak_check redacted_text entry =
    if not (is_empty entry.original_value) && contains entry.original_value redacted_text
    then some (raw_value_leaked entry.key)
    else none

unfoldable pub entity_check : Text → EntityRecord → Option ValidationError
entity_check redacted_text e =
    if contains e.redacted_key redacted_text then none else some (entity_key_absent e.redacted_key)

unfoldable pub entry_check : Text → PrivateDictEntry → Option ValidationError
entry_check redacted_text entry =
    if contains entry.key redacted_text then none else some (private_key_absent entry.key)

-- `k in s`, for a set of texts.
unfoldable pub has_key : Text → List Text → Bool
unfolding eq_text
has_key k [] = false
has_key k (j ∷ js) = eq_text k j || has_key k js

-- `xs == ys`, for sets of texts.
unfoldable pub same_set : List Text → List Text → Bool
unfolding has_key
same_set xs ys = all (λ k. has_key k ys) xs && all (λ k. has_key k xs) ys

abbrev pub entity_keys : List EntityRecord → List Text
entity_keys [] = []
entity_keys (e ∷ es) = e.redacted_key ∷ entity_keys es

abbrev pub private_keys : List PrivateDictEntry → List Text
private_keys [] = []
private_keys (p ∷ ps) = p.key ∷ private_keys ps

-- `Validator.validate`
unfoldable pub validate : DocumentManifest → List PrivateDictEntry → Option ValidationError
unfolding first_error leak_check entity_check entry_check same_set check_key_shape contains
validate m private_dict =
    first_error (leak_check m.redacted_text) private_dict
    then_check first_error (entity_check m.redacted_text) m.entities
    then_check first_error (entry_check m.redacted_text) private_dict
    then_check (if same_set (entity_keys m.entities) (private_keys private_dict)
        then none
        else some keys_disagree)
    then_check first_error (λ e. check_key_shape e.redacted_key e.kind) m.entities
    then_check first_error (λ p. check_key_shape p.key p.kind) private_dict
