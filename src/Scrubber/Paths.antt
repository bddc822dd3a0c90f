-- ===== src/Scrubber/Paths.antt =====
-- No path of the vault's layout is left in a masked text.
use yomotsusaka.Prelude.{
  ℕ, zero, suc, ◌+◌, ◌-◌, ◌≤◌, Text, codes, starts_with, starts_with_intro, strip_prefix?,
  strip_prefix?_intro, true, not, Option, none, some, List, [], ◌∷◌, ◌++◌, ◌≡◌, ◌≢◌, refl, sym, ap,
  ap₂, ◌∙◌, length, drop, drop-length, all, is_member, is_member-all, lacks, all_imp, and_split,
  and_intro, Bool-cases, Option-cases, inl, inr, leb→le, ◌==◌, ==_iff, if◌then◌else◌, arith,
  append_assoc, eq_text, eq_text_sound,
}
use yomotsusaka.Charset.{is_name, is_name_char}
use yomotsusaka.Scrubber.{
  run_length, find_end, match_name, match_dirs, match_vault_path, vault_dirs, vault_path_mask,
  mask_from,
}

-- `/<dir>/<name>.json`, and what follows.
abbrev pub IsVaultPath : Text → Type 0
IsVaultPath t =
    (dir : Text) × (name : Text) × (rest : Text) × (is_member dir vault_dirs ≡ true)
    × (is_name 128 name ≡ true)
    × (t ≡ (b'/' ∷ (dir ++ b'/' ∷ [])) ++ (name ++ (codes ".json" ++ rest)))

run_length-name :
    (limit : ℕ) (name rest : Text)
    → all is_name_char name ≡ true
    → length name ≤ limit
    → length name ≤ run_length limit (name ++ rest)
unfolding run_length
run_length-name limit [] rest a h = omega arith
run_length-name zero (c ∷ name) rest a h = absurd (omega arith)
run_length-name (suc limit) (c ∷ name) rest a h = ground (arith, run_length-name limit name rest)

find_end_some :
    (j k : ℕ) (t : Text)
    → suc j ≤ k
    → starts_with (codes ".json") (drop (suc j) t) ≡ true
    → find_end k t ≢ none
unfolding find_end
find_end_some j zero t h s none_found = absurd (omega arith)
find_end_some j (suc k) t h s none_found = elim (Bool-cases (j == k)) [
  | inl e ↦
      let same : j ≡ k = (==_iff j k).0 e in
      let here : starts_with (codes ".json") (drop (suc k) t) ≡ true =
        ap (λ i. starts_with (codes ".json") (drop (suc i) t)) (sym same) ∙ s in
      cc (ap (λ b. if b then some (suc k) else find_end k t) here, none_found)
  | inr e ↦ elim (Bool-cases (starts_with (codes ".json") (drop (suc k) t))) [
    | inl here ↦ cc (ap (λ b. if b then some (suc k) else find_end k t) here, none_found)
    | inr not_here ↦
        find_end_some j k t (ground arith) s
          (sym (ap (λ b. if b then some (suc k) else find_end k t) not_here) ∙ none_found)
  ]
]

match_name-some :
    (n : ℕ) (name rest : Text)
    → is_name 128 name ≡ true
    → match_name n (some (name ++ (codes ".json" ++ rest))) ≢ none
unfolding match_name is_name
match_name-some n [] rest h none_found = absurd (cc)
match_name-some n (c ∷ name) rest h none_found =
    let (chars, short) = and_split _ _ h in
    let t = (c ∷ name) ++ (codes ".json" ++ rest) in
    let here : starts_with (codes ".json") (drop (length (c ∷ name)) t) ≡ true =
      ap (starts_with (codes ".json")) (drop-length (c ∷ name) (codes ".json" ++ rest))
      ∙ starts_with_intro (codes ".json") rest in
    let long_enough =
      run_length-name 128 (c ∷ name) (codes ".json" ++ rest) chars (leb→le _ _ short) in
    elim (Option-cases (find_end (run_length 128 t) t)) [
      | inl e ↦ find_end_some (length name) (run_length 128 t) t long_enough here e
      | inr (k, e) ↦ cc (ap after e, none_found)
    ]
  where
    after : Option ℕ → Option ℕ
    after o = elim o [ none ↦ none | some k ↦ some (n + k + 5) ]

match_dirs_some :
    (dirs : List Text) (dir name rest : Text)
    → is_member dir dirs ≡ true
    → is_name 128 name ≡ true
    → match_dirs dirs ((b'/' ∷ (dir ++ b'/' ∷ [])) ++ (name ++ (codes ".json" ++ rest))) ≢ none
unfolding match_dirs
match_dirs_some [] dir name rest m h none_found = cc
match_dirs_some (d ∷ dirs) dir name rest m h none_found =
    let t = (b'/' ∷ (dir ++ b'/' ∷ [])) ++ (name ++ (codes ".json" ++ rest)) in
    let first = match_name (length d + 2) (strip_prefix? (b'/' ∷ (d ++ b'/' ∷ [])) t) in
    elim (Option-cases first) [
      | inr (n, e) ↦ cc (ap (choose (match_dirs dirs t)) e, none_found)
      | inl e ↦ elim (Bool-cases (eq_text dir d)) [
        | inl same ↦
            let stripped : strip_prefix? (b'/' ∷ (d ++ b'/' ∷ [])) t
                ≡ some (name ++ (codes ".json" ++ rest)) =
              rw (← eq_text_sound dir d same) (strip_prefix?_intro (b'/' ∷ (dir ++ b'/' ∷ [])) _) in
            match_name-some (length d + 2) name rest h
              (sym (ap (match_name (length d + 2)) stripped) ∙ e)
        | inr differ ↦
            match_dirs_some dirs dir name rest (ground arith) h
              (sym (ap (choose (match_dirs dirs t)) e) ∙ none_found)
      ]
    ]
  where
    choose : Option ℕ → Option ℕ → Option ℕ
    choose others o = elim o [ none ↦ others | some n ↦ some n ]

-- The pattern finds every path of the layout.
pub match_vault_path_some : (t : Text) → IsVaultPath t → match_vault_path t ≢ none
unfolding match_vault_path
match_vault_path_some t (dir, name, rest, m, h, e) none_found =
    match_dirs_some vault_dirs dir name rest m h (sym (ap (match_dirs vault_dirs) e) ∙ none_found)

mask_from-skipped : (d n : ℕ) (t : Text) → mask_from (suc n) (d ∷ t) ≡ mask_from n t
unfolding mask_from
mask_from-skipped d n t = refl

mask_from-kept :
    (d : ℕ) (t : Text) → match_vault_path (d ∷ t) ≡ none → mask_from 0 (d ∷ t) ≡ d ∷ mask_from 0 t
unfolding mask_from
mask_from-kept d t n = rw (n, mask_from)

mask_from-masked :
    (d n : ℕ) (t : Text)
    → match_vault_path (d ∷ t) ≡ some n
    → mask_from 0 (d ∷ t) ≡ vault_path_mask ++ mask_from (n - 1) t
unfolding mask_from
mask_from-masked d n t s = rw (s, mask_from)

cons_parts : {c d : ℕ} {s t : Text} → ◌≡◌ {A = Text} (c ∷ s) (d ∷ t) → (c ≡ d) × (s ≡ t)
cons_parts e = (cc, cc)

-- A text with no `<` at the start of a masked text was at the start of the text before.
before_mask :
    (w t r : Text) → lacks b'<' w ≡ true → mask_from 0 t ≡ w ++ r → (q : Text) × (t ≡ w ++ q)
before_mask [] t r l e = (t, refl)
before_mask (c ∷ w) [] r l e = absurd (unfold mask_from in cc)
before_mask (c ∷ w) (d ∷ t) r l e = elim (Option-cases (match_vault_path (d ∷ t))) [
  | inl n ↦
      let (same, rest) = cons_parts (sym (mask_from-kept d t n) ∙ e) in
      let (q, f) = before_mask w t r (and_split _ _ l).1 rest in (q, ap₂ ◌∷◌ same f)
  | inr (n, s) ↦
      let (same, _) = cons_parts (sym (mask_from-masked d n t s) ∙ e) in absurd (ground arith)
]

lacks-append : (c : ℕ) (s t : Text) → lacks c s ≡ true → lacks c t ≡ true → lacks c (s ++ t) ≡ true
lacks-append c [] t h k = k
lacks-append c (d ∷ s) t h k =
    let (a, b) = and_split _ _ h in and_intro _ _ a (lacks-append c s t b k)

name-lacks : (name : Text) → is_name 128 name ≡ true → lacks b'<' name ≡ true
unfolding is_name is_name_char
name-lacks [] h = cc
name-lacks (c ∷ name) h =
    all_imp is_name_char (λ d. not (d == b'<')) (c ∷ name) name_char (and_split _ _ h).0
  where
    name_char : (x : ℕ) → is_name_char x ≡ true → not (x == b'<') ≡ true
    name_char x k = ground arith

-- A path of the layout in a text that is kept up to it was there before.
IsVaultPath-before_mask : (d : ℕ) (t : Text) → IsVaultPath (d ∷ mask_from 0 t) → IsVaultPath (d ∷ t)
IsVaultPath-before_mask d t (dir, name, rest, m, h, e) =
    let w = (dir ++ b'/' ∷ []) ++ (name ++ codes ".json") in
    let clean : lacks b'<' w ≡ true =
      lacks-append b'<' (dir ++ b'/' ∷ []) (name ++ codes ".json")
        (lacks-append b'<' dir (b'/' ∷ []) (is_member-all (lacks b'<') dir vault_dirs refl m) refl)
        (lacks-append b'<' name (codes ".json") (name-lacks name h) refl) in
    let (slash, behind) = cons_parts e in
    let (q, f) = before_mask w t rest clean (behind ∙ regroup dir name rest) in
    (dir, name, q, m, h, ap₂ ◌∷◌ slash (f ∙ sym (regroup dir name q)))
  where
    regroup :
        (a b c : Text)
        → (a ++ b'/' ∷ []) ++ (b ++ (codes ".json" ++ c))
          ≡ ((a ++ b'/' ∷ []) ++ (b ++ codes ".json")) ++ c
    regroup a b c = simp append_assoc

-- No path of the layout begins anywhere in the text.
abbrev pub NoVaultPath : Text → Type 0
NoVaultPath t = (a b : Text) → t ≡ a ++ b → ¬ IsVaultPath b

pub NoVaultPath-nil : NoVaultPath []
NoVaultPath-nil [] b e (dir, name, rest, m, h, f) = cc
NoVaultPath-nil (x ∷ a) b e p = cc

NoVaultPath-cons : (c : ℕ) (t : Text) → NoVaultPath t → ¬ IsVaultPath (c ∷ t) → NoVaultPath (c ∷ t)
NoVaultPath-cons c t h k [] b e p = k (rw e p)
NoVaultPath-cons c t h k (x ∷ a) b e p = h a b (cons_parts e).1 p

NoVaultPath-append : (m t : Text) → lacks b'/' m ≡ true → NoVaultPath t → NoVaultPath (m ++ t)
NoVaultPath-append [] t l h = h
NoVaultPath-append (c ∷ m) t l h =
    NoVaultPath-cons c (m ++ t) (NoVaultPath-append m t (and_split _ _ l).1 h)
      λ (dir, name, rest, _, _, e). let (slash, _) = cons_parts e in ground arith

-- Masking leaves no path of the vault's layout in any text, from any point of the scan.
pub mask_from-NoVaultPath : (n : ℕ) (t : Text) → NoVaultPath (mask_from n t)
mask_from-NoVaultPath zero [] = unfold mask_from in NoVaultPath-nil
mask_from-NoVaultPath (suc n) [] = unfold mask_from in NoVaultPath-nil
mask_from-NoVaultPath (suc n) (d ∷ t) = rw mask_from-skipped (mask_from-NoVaultPath n t)
mask_from-NoVaultPath zero (d ∷ t) =
    let kept = mask_from-NoVaultPath 0 t in
    let masked = λ (n : ℕ). mask_from-NoVaultPath n t in
    elim (Option-cases (match_vault_path (d ∷ t))) [
      | inl n ↦ rw (mask_from-kept d t n) (
          NoVaultPath-cons d (mask_from 0 t) kept
            (λ p. match_vault_path_some (d ∷ t) (IsVaultPath-before_mask d t p) n))
      | inr (n, s) ↦
          rw (mask_from-masked d n t s) (NoVaultPath-append vault_path_mask _ refl (masked (n - 1)))
    ]
