-- ===== src/Validator/Spec.antt =====
-- What a clean manifest is, said without the validator's tests.
use yomotsusaka.Prelude.{
  Text, true, List, [], ◌∷◌, ◌++◌, ◌≡◌, ◌≢◌, ◌↔◌, ◌⊎◌, length, all, All, is_member, eq_text_iff,
  arith,
}
use yomotsusaka.Schemas.{EntityKind, kind_value, PrivateDictEntry, DocumentManifest}
use yomotsusaka.Validator.{is_hex, entity_keys, private_keys}

-- `p` stands somewhere in `t`.
abbrev pub Occurs : Text → Text → Type 0
Occurs p t = (a : Text) × (b : Text) × (t ≡ a ++ (p ++ b))

abbrev pub Has : Text → List Text → Type 0
Has k [] = ⊥
Has k (j ∷ js) = (k ≡ j) ⊎ Has k js

pub is_member_iff : (t : Text) (ss : List Text) → (is_member t ss ≡ true) ↔ Has t ss
is_member_iff t [] = (λ h. cc, λ h. absurd h)
is_member_iff t (s ∷ ss) = ground (arith, is_member_iff t ss, eq_text_iff t s)

-- `<KIND_xxxxxxxx>` with eight hexadecimal digits, with or without one line feed behind it.
pub record IsPlaceholder (kind : EntityKind) (key : Text) : Type 0 where
  pub hex : Text
  pub tail : Text
  pub shape : key ≡ b'<' ∷ (kind_value kind ++ b'_' ∷ (hex ++ b'>' ∷ tail))
  pub digits : length hex ≡ 8
  pub hexadecimal : all is_hex hex ≡ true
  pub ending : (tail ≡ []) ⊎ (tail ≡ b'\n' ∷ [])

abbrev pub NoLeak : Text → PrivateDictEntry → Type 0
NoLeak text p = p.original_value ≢ [] → ¬ Occurs p.original_value text

-- The five invariants of the module's documentation.
pub record IsClean (m : DocumentManifest) (private_dict : List PrivateDictEntry) : Type 0 where
  pub no_leaks : All (NoLeak m.redacted_text) private_dict
  pub entities_present : All (λ e. Occurs e.redacted_key m.redacted_text) m.entities
  pub entries_present : All (λ p. Occurs p.key m.redacted_text) private_dict
  pub same_keys : (k : Text) → Has k (entity_keys m.entities) ↔ Has k (private_keys private_dict)
  pub entity_shapes : All (λ e. IsPlaceholder e.kind e.redacted_key) m.entities
  pub entry_shapes : All (λ p. IsPlaceholder p.kind p.key) private_dict
