-- ===== src/Boundary/Locator.antt =====
-- Public artifact locators (the first part of src/yomotsusaka/boundary.py):
-- private://<exposure_class>/<artifact_kind>/<opaque_id>[#<fragment>]
pub mod Laws
use yomotsusaka.Prelude.{
  ℕ, Text, codes, eq_text, Bool, true, false, not, Option, none, some, List, [], ◌∷◌, ◌++◌, all,
  is_member, break_at, strip_prefix?, leb, ◌==◌, ◌&&◌, ◌||◌, Result, ok, err, ◌>>=◌, ◌>>◌, require,
  if◌then◌else◌,
}
use yomotsusaka.Charset.{is_name, is_traversal}

abbrev pub exposure_classes : List Text
exposure_classes =
    codes "agent_public"
    ∷ codes "agent_redacted"
    ∷ codes "private"
    ∷ codes "restricted"
    ∷ codes "never_expose"
    ∷ []

abbrev pub artifact_kinds : List Text
artifact_kinds =
    codes "manifest"
    ∷ codes "private_dict"
    ∷ codes "search_hit"
    ∷ codes "restoration_request"
    ∷ codes "status_report"
    ∷ []

pub record ParsedLocator : Type 0 where
  pub exposure_class : Text
  pub artifact_kind : Text
  pub opaque_id : Text
  pub fragment : Option Text

-- The `ValueError`s of `build_locator`.
pub data LocatorError : Type 0 where
  bad_exposure_class bad_artifact_kind bad_opaque_id bad_fragment : LocatorError

abbrev pub scheme_prefix : Text
scheme_prefix = codes "private://"

-- `_OPAQUE_ID_PATTERN` and `_FRAGMENT_PATTERN`, with the exclusion of the traversal segments.
abbrev pub is_opaque_id : Text → Bool
is_opaque_id t = is_name 128 t && not (is_traversal t)

abbrev pub is_fragment : Option Text → Bool
is_fragment none = true
is_fragment (some t) = is_name 64 t && not (is_traversal t)

abbrev pub with_fragment : Option Text → Text
with_fragment none = []
with_fragment (some t) = b'#' ∷ t

-- `build_locator`
unfoldable pub build_locator : ParsedLocator → Result LocatorError Text
build_locator p = do
  require (is_member p.exposure_class exposure_classes) bad_exposure_class
  require (is_member p.artifact_kind artifact_kinds) bad_artifact_kind
  require (is_opaque_id p.opaque_id) bad_opaque_id
  require (is_fragment p.fragment) bad_fragment
  ok (
      scheme_prefix
      ++ (p.exposure_class
          ++ b'/' ∷ (p.artifact_kind ++ b'/' ∷ (p.opaque_id ++ with_fragment p.fragment))))

-- `[A-Za-z_]`
abbrev pub is_word_char : ℕ → Bool
is_word_char c = leb b'A' c && leb c b'Z' || (leb b'a' c && leb c b'z' || c == b'_')

-- `[A-Za-z_]+`
unfoldable pub is_word : Text → Bool
is_word [] = false
is_word (c ∷ t) = all is_word_char (c ∷ t)

-- The groups of the pattern. A class never holds the delimiter behind it, so each group ends at
-- the first delimiter.
unfoldable pub split_tail : Text → Text → Text → ParsedLocator
split_tail exposure kind rest = elim (break_at b'#' rest) [
  | none ↦ record {
    exposure_class = exposure;
    artifact_kind = kind;
    opaque_id = rest;
    fragment = none;
  }
  | some (opaque, fragment) ↦ record {
    exposure_class = exposure;
    artifact_kind = kind;
    opaque_id = opaque;
    fragment = some fragment;
  }
]

unfoldable pub split_kind : Text → Option (Text × Text) → Option ParsedLocator
unfolding split_tail
split_kind exposure none = none
split_kind exposure (some (kind, rest)) = some (split_tail exposure kind rest)

unfoldable pub split_exposure : Option (Text × Text) → Option ParsedLocator
unfolding split_kind
split_exposure none = none
split_exposure (some (exposure, rest)) = split_kind exposure (break_at b'/' rest)

unfoldable pub split_locator : Option Text → Option ParsedLocator
unfolding split_exposure break_at
split_locator none = none
split_locator (some rest) = split_exposure (break_at b'/' rest)

-- The character classes and lengths of the pattern, then the tests that follow the match.
unfoldable pub is_locator : ParsedLocator → Bool
unfolding is_word
is_locator p =
    (is_word p.exposure_class && is_word p.artifact_kind)
    && ((is_member p.exposure_class exposure_classes && is_member p.artifact_kind artifact_kinds)
        && (is_opaque_id p.opaque_id && is_fragment p.fragment))

abbrev pub keep_valid : Option ParsedLocator → Option ParsedLocator
keep_valid none = none
keep_valid (some p) = if is_locator p then some p else none

-- `parse_locator`
unfoldable pub parse_locator : Text → Option ParsedLocator
unfolding split_locator strip_prefix? is_locator
parse_locator locator = keep_valid (split_locator (strip_prefix? scheme_prefix locator))
