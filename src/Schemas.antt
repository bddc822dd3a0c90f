-- ===== src/Schemas.antt =====
-- The data that the kernel passes round (src/yomotsusaka/schemas.py). Generated identifiers, time
-- stamps, `confidence` and `metadata` are left out: no modelled operation reads them.
use yomotsusaka.Prelude.{Text, codes, ℤ, List}

pub data EntityKind : Type 0 where
  person org location date id_number financial health custom : EntityKind

-- `EntityKind.value`
abbrev pub kind_value : EntityKind → Text
kind_value person = codes "PERSON"
kind_value org = codes "ORG"
kind_value location = codes "LOCATION"
kind_value date = codes "DATE"
kind_value id_number = codes "ID_NUMBER"
kind_value financial = codes "FINANCIAL"
kind_value health = codes "HEALTH"
kind_value custom = codes "CUSTOM"

pub EntityKind-discrete : Discrete EntityKind
EntityKind-discrete = hlevel

pub record EntityRecord : Type 0 where
  pub kind : EntityKind
  pub redacted_key : Text
  pub start_char : ℤ
  pub end_char : ℤ

pub record PrivateDictEntry : Type 0 where
  pub key : Text
  pub original_value : Text
  pub kind : EntityKind

pub record DocumentManifest : Type 0 where
  pub doc_id : Text
  pub source_ref : Text
  pub redacted_text : Text
  pub entities : List EntityRecord
  pub labels : List Text
  pub summary : Text

-- `vault_path` is internal: the boundary drops it. It is kept as the parts of the path.
pub record ArtifactHandle : Type 0 where
  pub doc_id : Text
  pub vault_path : List Text
