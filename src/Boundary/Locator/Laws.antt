-- ===== src/Boundary/Locator/Laws.antt =====
-- Building and parsing are inverse to each other.
use yomotsusaka.Prelude.{
  ℕ, Text, Bool, true, not, Option, none, some, List, [], ◌∷◌, ◌++◌, ◌≡◌, refl, sym, ap, ◌∙◌, all,
  is_member, is_member-all, lacks, break_at, break_at_intro, break_at-none, break_at_elim,
  strip_prefix?, strip_prefix?_intro, strip_prefix?_elim, all_imp, and_split, ◌==◌, ◌&&◌, ok, ◌>>◌,
  require, arith, inl, inr, Bool-cases, Option-cases, append-nil,
}
use yomotsusaka.Charset.{is_name, is_name_char}
use yomotsusaka.Boundary.Locator.{
  ParsedLocator, LocatorError, exposure_classes, artifact_kinds, scheme_prefix, is_opaque_id,
  is_fragment, with_fragment, build_locator, is_word, split_tail, split_kind, split_exposure,
  split_locator, is_locator, keep_valid, parse_locator,
}

-- What both directions go through: a locator's parts, and its text.
pub record IsLocator (p : ParsedLocator) : Type 0 where
  pub exposure : is_member p.exposure_class exposure_classes ≡ true
  pub kind : is_member p.artifact_kind artifact_kinds ≡ true
  pub opaque : is_opaque_id p.opaque_id ≡ true
  pub fragment : is_fragment p.fragment ≡ true

abbrev pub text_of : ParsedLocator → Text
text_of p =
    scheme_prefix
    ++ (p.exposure_class
        ++ b'/' ∷ (p.artifact_kind ++ b'/' ∷ (p.opaque_id ++ with_fragment p.fragment)))

pub build_locator_ok : (p : ParsedLocator) → IsLocator p → build_locator p ≡ ok (text_of p)
unfolding build_locator
build_locator_ok p i = rw (i.exposure, i.kind, i.opaque, i.fragment)

four_guards :
    {A : Type 0} (a b c d : Bool) (e f g h : LocatorError) (x y : A)
    → (do require a e; require b f; require c g; require d h; ok x) ≡ ok y
    → (a ≡ true) × (b ≡ true) × (c ≡ true) × (d ≡ true) × (x ≡ y)
four_guards a b c d e f g h x y k = ground arith

pub build_locator_elim :
    (p : ParsedLocator) (s : Text) → build_locator p ≡ ok s → IsLocator p × (text_of p ≡ s)
unfolding build_locator
build_locator_elim p s h =
    let (a, b, c, d, e) = four_guards _ _ _ _ _ _ _ _ _ _ h in
    (record { exposure = a; kind = b; opaque = c; fragment = d }, e)

word_of_member :
    (t : Text) (ss : List Text)
    → all (λ s. is_word s && lacks b'/' s) ss ≡ true
    → is_member t ss ≡ true
    → (is_word t ≡ true) × (lacks b'/' t ≡ true)
word_of_member t ss a m = and_split _ _ (is_member-all (λ s. is_word s && lacks b'/' s) t ss a m)

exposure_words : all (λ s. is_word s && lacks b'/' s) exposure_classes ≡ true
unfolding is_word
exposure_words = refl

kind_words : all (λ s. is_word s && lacks b'/' s) artifact_kinds ≡ true
unfolding is_word
kind_words = refl

name-lacks : (limit : ℕ) (t : Text) → is_name limit t ≡ true → lacks b'#' t ≡ true
unfolding is_name is_name_char
name-lacks limit [] h = cc
name-lacks limit (c ∷ t) h =
    all_imp is_name_char (λ d. not (d == b'#')) (c ∷ t) name_char (and_split _ _ h).0
  where
    name_char : (x : ℕ) → is_name_char x ≡ true → not (x == b'#') ≡ true
    name_char x k = ground arith

split_tail_lem :
    (e k o : Text) (f : Option Text)
    → lacks b'#' o ≡ true
    → split_tail e k (o ++ with_fragment f)
      ≡ record { exposure_class = e; artifact_kind = k; opaque_id = o; fragment = f }
unfolding split_tail
split_tail_lem e k o none h =
    ap (split_tail e k) (append-nil o) ∙ rw (split_tail, break_at-none b'#' o h)
split_tail_lem e k o (some f) h = rw (split_tail, break_at_intro b'#' o f h)

is_locator_intro : (p : ParsedLocator) → IsLocator p → is_locator p ≡ true
unfolding is_locator
is_locator_intro p i = ground (
  arith,
  i.exposure,
  i.kind,
  i.opaque,
  i.fragment,
  (word_of_member p.exposure_class exposure_classes exposure_words i.exposure).0,
  (word_of_member p.artifact_kind artifact_kinds kind_words i.kind).0,
)

is_locator_elim : (p : ParsedLocator) → is_locator p ≡ true → IsLocator p
unfolding is_locator
is_locator_elim p h =
    let (_, a) = and_split _ _ h in
    let (b, c) = and_split _ _ a in
    let (d, e) = and_split _ _ b in
    let (f, g) = and_split _ _ c in record { exposure = d; kind = e; opaque = f; fragment = g }

split_locator_lem :
    (p : ParsedLocator)
    → IsLocator p
    → split_locator (strip_prefix? scheme_prefix (text_of p)) ≡ some p
split_locator_lem p i =
    let (_, e) = word_of_member p.exposure_class exposure_classes exposure_words i.exposure in
    let (_, k) = word_of_member p.artifact_kind artifact_kinds kind_words i.kind in
    let o = name-lacks 128 p.opaque_id (and_split _ _ i.opaque).0 in
    rw strip_prefix?_intro (
      unfold split_locator split_exposure split_kind in
      rw (break_at_intro b'/' p.exposure_class _ e, break_at_intro b'/' p.artifact_kind _ k)
        (ap some (split_tail_lem p.exposure_class p.artifact_kind p.opaque_id p.fragment o)))

-- If `build_locator` accepts the parts of a locator, then the text that it makes parses to the
-- same parts.
pub parse_locator-build_locator :
    (p : ParsedLocator) (s : Text) → build_locator p ≡ ok s → parse_locator s ≡ some p
unfolding parse_locator
parse_locator-build_locator p s h =
    let (i, e) = build_locator_elim p s h in
    rw (← e, split_locator_lem p i, keep_valid, is_locator_intro p i)

keep_valid_elim :
    (o : Option ParsedLocator) (p : ParsedLocator)
    → keep_valid o ≡ some p
    → (o ≡ some p) × (is_locator p ≡ true)
keep_valid_elim none p h = absurd (cc)
keep_valid_elim (some q) p h = elim (Bool-cases (is_locator q)) [
  | inl e ↦ let same : q ≡ p = ground arith in (ap some same, rw same at e)
  | inr e ↦ absurd (ground arith)
]

split_tail_elim :
    (e k rest : Text)
    → let p = split_tail e k rest in
      (p.exposure_class ≡ e)
      × (p.artifact_kind ≡ k)
      × (p.opaque_id ++ with_fragment p.fragment ≡ rest)
unfolding split_tail
split_tail_elim e k rest = elim (Option-cases (break_at b'#' rest)) [
  | inl n ↦ rw (n, split_tail) (refl, refl, append-nil rest)
  | inr ((o, f), s) ↦ rw (s, split_tail) (refl, refl, sym (break_at_elim b'#' rest o f s))
]

split_locator_elim :
    (t : Text) (p : ParsedLocator)
    → split_locator (strip_prefix? scheme_prefix t) ≡ some p
    → text_of p ≡ t
unfolding split_locator split_exposure split_kind
split_locator_elim t p h = elim (Option-cases (strip_prefix? scheme_prefix t)) [
  | inl n ↦ absurd (ground arith)
  | inr (r0, s0) ↦ elim (Option-cases (break_at b'/' r0)) [
    | inl n ↦ absurd (ground arith)
    | inr ((e, r1), s1) ↦ elim (Option-cases (break_at b'/' r1)) [
      | inl n ↦ absurd (ground arith)
      | inr ((k, r2), s2) ↦
          let same : split_tail e k r2 ≡ p = ground arith in
          let (a, b, c) = split_tail_elim e k r2 in
          let parts : r0 ≡ e ++ b'/' ∷ (k ++ b'/' ∷ r2) =
            break_at_elim b'/' r0 e r1 s1
            ∙ ap (λ r. e ++ b'/' ∷ r) (break_at_elim b'/' r1 k r2 s2) in
          rw (← same, a, b, c)
            (sym (strip_prefix?_elim scheme_prefix t r0 s0 ∙ ap (λ r. scheme_prefix ++ r) parts))
    ]
  ]
]

-- If a text parses as a locator, then `build_locator` accepts the parts and makes the same text of
-- them.
pub build_locator-parse_locator :
    (s : Text) (p : ParsedLocator) → parse_locator s ≡ some p → build_locator p ≡ ok s
unfolding parse_locator
build_locator-parse_locator s p h =
    let (split, valid) = keep_valid_elim _ p h in
    build_locator_ok p (is_locator_elim p valid) ∙ ap ok (split_locator_elim s p split)

pub parse_locator-IsLocator :
    (s : Text) (p : ParsedLocator) → parse_locator s ≡ some p → IsLocator p
unfolding parse_locator
parse_locator-IsLocator s p h =
    is_locator_elim p (keep_valid_elim (split_locator (strip_prefix? scheme_prefix s)) p h).1
