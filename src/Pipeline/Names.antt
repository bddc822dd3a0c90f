-- ===== src/Pipeline/Names.antt =====
-- What an accepted document id is, by a description that shares only the table of names with the code.
use yomotsusaka.Prelude.{
  ℕ, ◌+◌, ◌≤◌, ◌<◌, Text, eq_text, eq_text_iff, Bool, true, false, not, List, [], ◌∷◌, ◌++◌, length,
  Mem, All, all, any, lacks, ◌==◌, ==_iff, ◌⊎◌, inl, inr, ◌≡◌, ◌≢◌, ◌↔◌, refl, sym, ap, subst, ◌∙◌,
  arith, ok, ◌>>◌, require, Bool-cases, and_split, and_intro,
}
use yomotsusaka.Charset.{is_name_char, is_name, is_traversal}
use yomotsusaka.Pipeline.{
  bad_doc_id, traversal_doc_id, reserved_doc_id, stem_of, upper, windows_reserved_names,
  validate_doc_id,
}

-- A letter or digit of ASCII, a dot, an underscore or a dash.
abbrev pub IsNameChar : ℕ → Type 0
IsNameChar c =
    ((65 ≤ c) × (c ≤ 90))
    ⊎ ((97 ≤ c) × (c ≤ 122))
    ⊎ ((48 ≤ c) × (c ≤ 57))
    ⊎ (c ≡ 46)
    ⊎ (c ≡ 95)
    ⊎ (c ≡ 45)

-- `d` is `c`, or the capital of the small letter `c`.
abbrev pub IsCapital : ℕ → ℕ → Type 0
IsCapital c d = (((c < 97) ⊎ (122 < c)) × (c ≡ d)) ⊎ ((97 ≤ c) × (c ≤ 122) × (c ≡ d + 32))

-- The second text is the first in capitals.
abbrev pub Capitals : Text → Text → Type 0
Capitals [] [] = Unit
Capitals [] (d ∷ t) = ⊥
Capitals (c ∷ s) [] = ⊥
Capitals (c ∷ s) (d ∷ t) = IsCapital c d × Capitals s t

-- Nothing, or a dot and what follows it.
abbrev pub IsExtension : Text → Type 0
IsExtension [] = Unit
IsExtension (c ∷ t) = c ≡ 46

-- A device name of Windows in small or capital letters, alone or in front of a dot.
pub record IsDevice (t : Text) : Type 0 where
  pub name : Text
  pub reserved : Mem name windows_reserved_names
  pub stem : Text
  pub extension : Text
  pub parts : t ≡ stem ++ extension
  pub dotted : IsExtension extension
  pub first_dot : lacks 46 stem ≡ true
  pub capitals : Capitals stem name

pub record IsDocId (t : Text) : Type 0 where
  pub not_empty : 1 ≤ length t
  pub bounded : length t ≤ 128
  pub name_chars : All IsNameChar t
  pub not_here : t ≢ 46 ∷ []
  pub not_above : t ≢ 46 ∷ 46 ∷ []
  pub no_device : ¬ IsDevice t

is_name_char_iff : (c : ℕ) → (is_name_char c ≡ true) ↔ IsNameChar c
unfolding is_name_char
is_name_char_iff c = ground arith

all-All : (t : Text) → (all is_name_char t ≡ true) ↔ All IsNameChar t
all-All [] = (λ h. tt, λ h. refl)
all-All (c ∷ t) = (
  λ h. let (a, b) = and_split _ _ h in ((is_name_char_iff c).0 a, (all-All t).0 b),
  λ h. and_intro _ _ ((is_name_char_iff c).1 h.0) ((all-All t).1 h.1),
)

is_name_iff :
    (t : Text) → (is_name 128 t ≡ true) ↔ ((1 ≤ length t) × (length t ≤ 128) × All IsNameChar t)
unfolding is_name
is_name_iff [] = ground arith
is_name_iff (c ∷ t) = (
  λ h. let (a, b) = and_split _ _ h in (omega arith, ground arith, (all-All (c ∷ t)).0 a),
  λ (_, b, a). and_intro _ _ ((all-All (c ∷ t)).1 a) (ground arith),
)

is_traversal_iff : (t : Text) → (is_traversal t ≡ false) ↔ ((t ≢ 46 ∷ []) × (t ≢ 46 ∷ 46 ∷ []))
unfolding is_traversal
is_traversal_iff t = ground (arith, eq_text_iff t (46 ∷ []), eq_text_iff t (46 ∷ 46 ∷ []))

upper_iff : (s name : Text) → (upper s ≡ name) ↔ Capitals s name
unfolding upper
upper_iff [] [] = (λ h. tt, λ h. refl)
upper_iff [] (d ∷ name) = (λ h. cc, λ h. absurd h)
upper_iff (c ∷ s) [] = (λ h. cc, λ h. absurd h)
upper_iff (c ∷ s) (d ∷ name) = ground (arith, upper_iff s name)

-- What stands behind the stem.
stem_of-parts :
    (t : Text) → (r : Text) × (t ≡ stem_of t ++ r) × IsExtension r × (lacks 46 (stem_of t) ≡ true)
unfolding stem_of
stem_of-parts [] = ([], refl, tt, refl)
stem_of-parts (c ∷ t) = elim (Bool-cases (c == 46)) [
  | inl e ↦ rw e (c ∷ t, refl, (==_iff c 46).0 e, refl)
  | inr n ↦
      let (r, same, dotted, first) = stem_of-parts t in
      rw n (r, ap (λ x. c ∷ x) same, dotted, rw n first)
]

stem_of-append : (s r : Text) → lacks 46 s ≡ true → IsExtension r → stem_of (s ++ r) ≡ s
unfolding stem_of
stem_of-append [] [] h d = refl
stem_of-append [] (c ∷ r) h d = ground arith
stem_of-append (c ∷ s) r h d = ground (arith, stem_of-append s r)

any-Mem : (t : Text) (names : List Text) → (any (eq_text t) names ≡ true) ↔ Mem t names
any-Mem t [] = (λ h. cc, λ h. absurd h)
any-Mem t (name ∷ names) = ground (arith, any-Mem t names, eq_text_iff t name)

reserved_stem_iff :
    (t : Text) → (any (eq_text (upper (stem_of t))) windows_reserved_names ≡ true) ↔ IsDevice t
reserved_stem_iff t = (
  λ h.
      let (r, same, dotted, first) = stem_of-parts t in
      record {
        name = upper (stem_of t);
        reserved = (any-Mem (upper (stem_of t)) windows_reserved_names).0 h;
        stem = stem_of t;
        extension = r;
        parts = same;
        dotted = dotted;
        first_dot = first;
        capitals = (upper_iff (stem_of t) (upper (stem_of t))).0 refl;
      },
  λ d.
      let stem : stem_of t ≡ d.stem =
        ap stem_of d.parts ∙ stem_of-append d.stem d.extension d.first_dot d.dotted in
      let named : upper (stem_of t) ≡ d.name =
        ap upper stem ∙ (upper_iff d.stem d.name).1 d.capitals in
      (any-Mem (upper (stem_of t)) windows_reserved_names).1
        (subst (λ x. Mem x windows_reserved_names) (sym named) d.reserved),
)

three_guards :
    (a b c : Bool)
    → ((do require a bad_doc_id; require (not b) traversal_doc_id; require (not c) reserved_doc_id)
        ≡ ok tt)
      ↔ ((a ≡ true) × (b ≡ false) × (c ≡ false))
three_guards a b c = ground arith

not_both : (b : Bool) → b ≡ true → ¬ (b ≡ false)
not_both b t f = cc

false_by : (b : Bool) → ¬ (b ≡ true) → b ≡ false
false_by true h = absurd (h refl)
false_by false h = refl

-- The pipeline accepts a document id if and only if it has 1 to 128 characters, each a letter or
-- digit of ASCII, a dot, an underscore or a dash, it is neither one dot nor two, and it is no
-- device name: it does not fall into a part without a dot, which in capitals is a reserved name of
-- Windows, and nothing or a dot with what follows it.
pub validate_doc_id_iff : (t : Text) → (validate_doc_id t ≡ ok tt) ↔ IsDocId t
unfolding validate_doc_id
validate_doc_id_iff t =
    let device = any (eq_text (upper (stem_of t))) windows_reserved_names in
    let (to, from) = three_guards (is_name 128 t) (is_traversal t) device in
    (
      λ h.
          let (a, b, c) = to h in
          let (some_char, few, chars) = (is_name_iff t).0 a in
          let (here, above) = (is_traversal_iff t).0 b in
          record {
            not_empty = some_char;
            bounded = few;
            name_chars = chars;
            not_here = here;
            not_above = above;
            no_device = λ d. not_both device ((reserved_stem_iff t).1 d) c;
          },
      λ d. from (
        (is_name_iff t).1 (d.not_empty, d.bounded, d.name_chars),
        (is_traversal_iff t).1 (d.not_here, d.not_above),
        false_by device (λ h. d.no_device ((reserved_stem_iff t).0 h)),
      ),
    )
