-- ===== src/SearchGateway/Snippets.antt =====
-- What a snippet shows of a text.
use yomotsusaka.Prelude.{
  ℕ, ◌+◌, ◌-◌, ◌≤◌, min, Text, List, [], ◌∷◌, ◌++◌, length, length-take, take, drop, slice,
  take-append-drop, ◌⊎◌, inl, inr, refl, sym, ap, ◌∙◌, append_assoc, arith, Option-cases,
}
use yomotsusaka.Schemas.{PrivateDictEntry}
use yomotsusaka.Validator.Spec.{Occurs, Has, NoLeak}
use yomotsusaka.SearchGateway.{find_in, snippet_from, redacted_snippet}

slice-Occurs : (m n : ℕ) (t : Text) → Occurs (slice m n t) t
slice-Occurs m n t = (
  take m t,
  drop (n - m) (drop m t),
  sym (take-append-drop m t) ∙ ap (λ r. take m t ++ r) (sym (take-append-drop (n - m) (drop m t))),
)

-- A part of a part is a part.
pub Occurs-trans : (s t u : Text) → Occurs s t → Occurs t u → Occurs s u
Occurs-trans s t u (a, b, e) (c, d, f) = (c ++ a, b ++ d, rw (f, e) (simp append_assoc))

-- What holds no raw value holds none in any part.
pub NoLeak-part :
    (snippet text : Text) (p : PrivateDictEntry)
    → Occurs snippet text
    → NoLeak text p
    → NoLeak snippet p
NoLeak-part snippet text p part clean ne o =
    clean ne (Occurs-trans p.original_value snippet text o part)

module _ (lower : Text → Text) (text : Text) where
  -- The part of the text that a snippet is, and how long it is at most.
  abbrev pub IsSnippet : ℕ → ℕ → List Text → Text → Type 0
  IsSnippet window half needles snippet =
      Occurs snippet text
      × ((length snippet ≤ window)
          ⊎ ((needle : Text) × Has needle needles × (length snippet ≤ length needle + half + half)))

  wider :
      (window half : ℕ) (needle : Text) (needles : List Text) (snippet : Text)
      → IsSnippet window half needles snippet
      → IsSnippet window half (needle ∷ needles) snippet
  wider window half needle needles snippet (part, inl short) = (part, inl short)
  wider window half needle needles snippet (part, inr (n, there, short)) =
      (part, inr (n, inr there, short))

  snippet_from-IsSnippet :
      (window half : ℕ) (needles : List Text)
      → IsSnippet window half needles (snippet_from lower text window half needles)
  unfolding snippet_from
  snippet_from-IsSnippet window half [] = (
    ([], drop window text, sym (take-append-drop window text)),
    inl (omega (arith, length-take window text)),
  )
  snippet_from-IsSnippet window half ([] ∷ needles) =
      wider window half [] needles _ (snippet_from-IsSnippet window half needles)
  snippet_from-IsSnippet window half ((c ∷ needle) ∷ needles) =
      elim (Option-cases (find_in (lower (c ∷ needle)) (lower text))) [
        | inl e ↦
            rw (e, snippet_from)
              (wider window half (c ∷ needle) needles _
                (snippet_from-IsSnippet window half needles))
        | inr (idx, e) ↦
            let start = idx - half in
            let end = min (length text) (idx + length (c ∷ needle) + half) in
            rw (e, snippet_from)
              (
                slice-Occurs start end text,
                inr (
                  c ∷ needle,
                  inl refl,
                  omega (arith, length-take (end - start) (drop start text)),
                ),
              )
      ]

  pub redacted_snippet-IsSnippet :
      (needles : List Text) → IsSnippet 60 30 needles (redacted_snippet lower text needles)
  unfolding redacted_snippet
  redacted_snippet-IsSnippet needles = snippet_from-IsSnippet 60 30 needles
