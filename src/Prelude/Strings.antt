-- ===== src/Prelude/Strings.antt =====
-- Python's `str` as the list of its code points, with the operations that the program calls.
use Prim.Native.Nat.{ℕ}
use Prim.Native.Char.{code}
use Prim.Native.String.{String}
use mathlib.Core.Path.{◌≡◌, refl, sym, ap, ◌∙◌}
use mathlib.Core.Logic.{◌↔◌, inl, inr}
use mathlib.Core.Bool.{Bool, true, false, not, ◌&&◌, ◌||◌}
use mathlib.Core.Option.{Option, none, some}
use mathlib.Core.List.{List, [], ◌∷◌, ◌++◌}
use native.Mathlib.Omega.{arith}
use yomotsusaka.Prelude.Tests.{
  ◌==◌, ==_iff, Bool-cases, Option-cases, and_split, and_intro, if◌then◌else◌,
}
use yomotsusaka.Prelude.Lists.{all}

abbrev pub Text : Type 0
Text = List ℕ

-- The code points of a literal.
abbrev pub codes : String → Text
codes String.[] = []
codes (String.◌∷◌ c s) = code c ∷ codes s

-- `s == t`
unfoldable pub eq_text : Text → Text → Bool
eq_text [] [] = true
eq_text (c ∷ s) (d ∷ t) = c == d && eq_text s t
eq_text _ _ = false

-- `t.startswith(p)`
unfoldable pub starts_with : Text → Text → Bool
starts_with [] t = true
starts_with (c ∷ p) [] = false
starts_with (c ∷ p) (d ∷ t) = c == d && starts_with p t

-- `p in t`
unfoldable pub contains : Text → Text → Bool
unfolding starts_with
contains p [] = starts_with p []
contains p (c ∷ t) = starts_with p (c ∷ t) || contains p t

pub eq_text_refl : (s : Text) → eq_text s s ≡ true
unfolding eq_text
eq_text_refl [] = refl
eq_text_refl (c ∷ s) = ground (arith, eq_text_refl s)

pub eq_text_sound : (s t : Text) → eq_text s t ≡ true → s ≡ t
unfolding eq_text
eq_text_sound [] [] h = refl
eq_text_sound [] (d ∷ t) h = cc
eq_text_sound (c ∷ s) [] h = cc
eq_text_sound (c ∷ s) (d ∷ t) h = ground (arith, eq_text_sound s t)

pub eq_text_iff : (s t : Text) → (eq_text s t ≡ true) ↔ (s ≡ t)
eq_text_iff s t = (eq_text_sound s t, λ e. ap (eq_text s) (sym e) ∙ eq_text_refl s)

pub starts_with_intro : (p t : Text) → starts_with p (p ++ t) ≡ true
unfolding starts_with
starts_with_intro [] t = refl
starts_with_intro (c ∷ p) t = ground (arith, starts_with_intro p t)

pub starts_with_elim : (p t : Text) → starts_with p t ≡ true → (r : Text) × (t ≡ p ++ r)
unfolding starts_with
starts_with_elim [] t h = (t, refl)
starts_with_elim (c ∷ p) [] h = absurd (cc)
starts_with_elim (c ∷ p) (d ∷ t) h =
    let (r, e) = starts_with_elim p t (ground arith) in (r, ground arith)

pub contains_intro : (a p b : Text) → contains p (a ++ (p ++ b)) ≡ true
unfolding contains
contains_intro [] [] [] = refl
contains_intro [] [] (c ∷ b) = refl
contains_intro [] (c ∷ p) b = ground (arith, starts_with_intro (c ∷ p) b)
contains_intro (c ∷ a) p b = ground (arith, contains_intro a p b)

pub contains_elim :
    (p t : Text) → contains p t ≡ true → (a : Text) × (b : Text) × (t ≡ a ++ (p ++ b))
unfolding contains
contains_elim p [] h = let (r, e) = starts_with_elim p [] h in ([], r, e)
contains_elim p (c ∷ t) h = elim (Bool-cases (starts_with p (c ∷ t))) [
  | inl s ↦ let (r, e) = starts_with_elim p (c ∷ t) s in ([], r, e)
  | inr n ↦ let (a, b, e) = contains_elim p t (ground arith) in (c ∷ a, b, ap (λ s. c ∷ s) e)
]

-- `t in s`, for a set of texts.
abbrev pub is_member : Text → List Text → Bool
is_member t [] = false
is_member t (s ∷ ss) = eq_text t s || is_member t ss

-- The text before and behind the first `c`, if there is one.
unfoldable pub break_at : ℕ → Text → Option (Text × Text)
break_at c [] = none
break_at c (d ∷ t) =
    let rest = break_at c t in
    if d == c then some ([], t) else elim rest [ none ↦ none | some (a, b) ↦ some (d ∷ a, b) ]

-- `t[len(p):]` if `t` starts with `p`.
unfoldable pub strip_prefix? : Text → Text → Option Text
strip_prefix? [] t = some t
strip_prefix? (c ∷ p) [] = none
strip_prefix? (c ∷ p) (d ∷ t) = let rest = strip_prefix? p t in if c == d then rest else none

abbrev pub lacks : ℕ → Text → Bool
lacks c t = all (λ d. not (d == c)) t

pub all_imp {ℓ} :
    {A : Type ℓ} (p q : A → Bool) (xs : List A)
    → ((x : A) → p x ≡ true → q x ≡ true)
    → all p xs ≡ true
    → all q xs ≡ true
all_imp p q [] h a = refl
all_imp p q (x ∷ xs) h a =
    let (b, c) = and_split _ _ a in and_intro _ _ (h x b) (all_imp p q xs h c)

-- What holds of every element of a set holds of its members.
pub is_member-all :
    (p : Text → Bool) (t : Text) (ss : List Text)
    → all p ss ≡ true
    → is_member t ss ≡ true
    → p t ≡ true
is_member-all p t [] a m = absurd (cc)
is_member-all p t (s ∷ ss) a m = elim (Bool-cases (eq_text t s)) [
  | inl e ↦ rw (eq_text_sound t s e) (and_split _ _ a).0
  | inr n ↦ is_member-all p t ss (and_split _ _ a).1 (ground arith)
]

pub break_at_intro : (c : ℕ) (a b : Text) → lacks c a ≡ true → break_at c (a ++ c ∷ b) ≡ some (a, b)
unfolding break_at
break_at_intro c [] b h = ground arith
break_at_intro c (d ∷ a) b h = ground (arith, break_at_intro c a b)

pub break_at-none : (c : ℕ) (t : Text) → lacks c t ≡ true → break_at c t ≡ none
unfolding break_at
break_at-none c [] h = refl
break_at-none c (d ∷ t) h = ground (arith, break_at-none c t)

pub break_at_elim : (c : ℕ) (t a b : Text) → break_at c t ≡ some (a, b) → t ≡ a ++ c ∷ b
unfolding break_at
break_at_elim c [] a b h = cc
break_at_elim c (d ∷ t) a b h = elim (Bool-cases (d == c)) [
  | inl e ↦
      let here : d ≡ c = (==_iff d c).0 e in
      let nothing : [] ≡ a = ground arith in
      let rest : t ≡ b = ground arith in rw (here, ← nothing, rest)
  | inr n ↦ elim (Option-cases (break_at c t)) [
    | inl e ↦ absurd (ground arith)
    | inr ((x, y), e) ↦
        let front : d ∷ x ≡ a = ground arith in
        let back : y ≡ b = ground arith in
        rw (← front, ← back) (ap (λ s. d ∷ s) (break_at_elim c t x y e))
  ]
]

pub strip_prefix?_intro : (p t : Text) → strip_prefix? p (p ++ t) ≡ some t
unfolding strip_prefix?
strip_prefix?_intro [] t = refl
strip_prefix?_intro (c ∷ p) t = ground (arith, strip_prefix?_intro p t)

pub strip_prefix?_elim : (p t r : Text) → strip_prefix? p t ≡ some r → t ≡ p ++ r
unfolding strip_prefix?
strip_prefix?_elim [] t r h = ground arith
strip_prefix?_elim (c ∷ p) [] r h = cc
strip_prefix?_elim (c ∷ p) (d ∷ t) r h = ground (arith, strip_prefix?_elim p t r)
