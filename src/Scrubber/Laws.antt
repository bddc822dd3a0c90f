-- ===== src/Scrubber/Laws.antt =====
-- What a scrubbed text holds.
use yomotsusaka.Prelude.{
  Text, List, [], ◌∷◌, ◌≡◌, ◌≢◌, refl, subst, All, length, ok, Bool-cases, inl, inr, arith, leb,
  if◌then◌else◌,
}
use yomotsusaka.Schemas.{PrivateDictEntry}
use yomotsusaka.Validator.Spec.{Occurs, NoLeak}
use yomotsusaka.Validator.Checks.{contains_iff, is_empty-false}
use yomotsusaka.Scrubber.{insert_entry, sort_entries, mask_values, recheck, scrub_stream}
use yomotsusaka.Scrubber.Paths.{NoVaultPath, NoVaultPath-nil, mask_from-NoVaultPath}

recheck_ok :
    (es : List PrivateDictEntry) (t out : Text)
    → recheck es t ≡ ok out
    → (t ≡ out) × All (NoLeak t) es
unfolding recheck
recheck_ok [] t out h = (ground arith, tt)
recheck_ok (e ∷ es) t out h =
    let (same, rest) = recheck_ok es t out (ground arith) in
    (
      same,
      (
        (λ ne o.
            ground
              (arith, is_empty-false e.original_value ne, (contains_iff e.original_value t).1 o)),
        rest,
      ),
    )

-- A property of all the sorted entries is one of all the entries.
insert_entry-All :
    (P : PrivateDictEntry → Type 0) (e : PrivateDictEntry) (es : List PrivateDictEntry)
    → All P (insert_entry e es)
    → P e × All P es
unfolding insert_entry
insert_entry-All P e [] h = (h.0, tt)
insert_entry-All P e (x ∷ xs) h =
    elim (Bool-cases (leb (length x.original_value) (length e.original_value))) [
      | inl c ↦ subst (λ b. All P (if b then e ∷ x ∷ xs else x ∷ insert_entry e xs)) c h
      | inr c ↦
          let (px, rest) =
            subst (λ b. All P (if b then e ∷ x ∷ xs else x ∷ insert_entry e xs)) c h in
          let (pe, pxs) = insert_entry-All P e xs rest in (pe, (px, pxs))
    ]

sort_entries-All :
    (P : PrivateDictEntry → Type 0) (es : List PrivateDictEntry)
    → All P (sort_entries es)
    → All P es
unfolding sort_entries
sort_entries-All P [] h = tt
sort_entries-All P (e ∷ es) h =
    let (a, b) = insert_entry-All P e (sort_entries es) h in (a, sort_entries-All P es b)

nothing-Occurs : (v : Text) → v ≢ [] → ¬ Occurs v []
nothing-Occurs [] ne o = ne refl
nothing-Occurs (c ∷ v) ne ([], b, e) = cc
nothing-Occurs (c ∷ v) ne (x ∷ a, b, e) = cc

NoLeak-nil : (d : List PrivateDictEntry) → All (NoLeak []) d
NoLeak-nil [] = tt
NoLeak-nil (e ∷ d) = (nothing-Occurs e.original_value, NoLeak-nil d)

-- A text that `scrub_stream` returns holds no raw value of the dictionary that is not empty, and
-- no path of the vault's layout.
pub scrub_stream_clean :
    (t : Text) (private_dict : List PrivateDictEntry) {out : Text}
    → scrub_stream t private_dict ≡ ok out
    → All (NoLeak out) private_dict × NoVaultPath out
unfolding scrub_stream
scrub_stream_clean [] d {out} h =
    let e : [] ≡ out = cc in (rw (← e) (NoLeak-nil d), rw (← e) NoVaultPath-nil)
scrub_stream_clean (c ∷ t) d h =
    let (same, clean) = recheck_ok (sort_entries d) _ _ h in
    (
      sort_entries-All (NoLeak _) d (rw same at clean),
      rw same at (mask_from-NoVaultPath 0 (mask_values (sort_entries d) (c ∷ t))),
    )
