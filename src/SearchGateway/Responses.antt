-- ===== src/SearchGateway/Responses.antt =====
-- What a search request is answered with.
use yomotsusaka.Prelude.{
  ℕ, ◌≤◌, zero, suc, Text, eq_text, Bool, true, Option, none, some, List, [], ◌∷◌, keep, length,
  length-take, take, All, Mem, ◌≡◌, inl, inr, refl, ap, arith, Bool-cases, ok,
}
use yomotsusaka.Schemas.{DocumentManifest, PrivateDictEntry}
use yomotsusaka.Validator.Spec.{Occurs, NoLeak}
use yomotsusaka.QueryResolver.{Registry, ResolvedQuery}
use yomotsusaka.QueryResolver.Translation.{translate-Walk}
use yomotsusaka.Boundary.Locator.{parse_locator, is_opaque_id}
use yomotsusaka.Boundary.Locator.Laws.{
  build_locator_ok, parse_locator-build_locator, text_of, IsLocator,
}
use yomotsusaka.Boundary.Resolver.{public_handle_for, handle_parts}
use yomotsusaka.SearchGateway.{
  SearchGateway, SearchHit, is_hit, search, redacted_snippet, with_handle, hits_of, needles_of,
  or_query, snippet_needles, search_request,
}
use yomotsusaka.SearchGateway.Results.{IsHit, search_resolved}
use yomotsusaka.SearchGateway.Snippets.{redacted_snippet-IsSnippet, NoLeak-part}

keep-Mem :
    (p : DocumentManifest → Bool) (m : DocumentManifest) (ms : List DocumentManifest)
    → Mem m (keep p ms)
    → Mem m ms
keep-Mem p m [] h = absurd h
keep-Mem p m (n ∷ ms) h = elim (Bool-cases (p n)) [
  | inl e ↦ elim (rw (e, keep) at h) [ inl same ↦ inl same | inr k ↦ inr (keep-Mem p m ms k) ]
  | inr e ↦ inr (keep-Mem p m ms (rw (e, keep) at h))
]

All-Mem :
    (ms all_ms : List DocumentManifest)
    → ((m : DocumentManifest) → Mem m ms → Mem m all_ms)
    → All (λ m. Mem m all_ms) ms
All-Mem [] all_ms h = tt
All-Mem (m ∷ ms) all_ms h = (h m (inl refl), All-Mem ms all_ms (λ n k. h n (inr k)))

take-Mem :
    (n : ℕ) (m : DocumentManifest) (ms : List DocumentManifest) → Mem m (take n ms) → Mem m ms
take-Mem zero m ms h = absurd h
take-Mem (suc n) m [] h = h
take-Mem (suc n) m (k ∷ ms) (inl e) = inl e
take-Mem (suc n) m (k ∷ ms) (inr h) = inr (take-Mem n m ms h)

hit-Mem :
    (lower : Text → Text) (gateway : SearchGateway) (query : Text) (top_k : ℕ) (needles : List Text)
    (ms : List DocumentManifest)
    → All (IsHit lower gateway query top_k needles) ms
    → All (λ m. Mem m gateway.manifests) ms
hit-Mem lower gateway query top_k needles [] h = tt
hit-Mem lower gateway query top_k needles (m ∷ ms) h =
    (h.0.0, hit-Mem lower gateway query top_k needles ms h.1)

All-of :
    (ms : List DocumentManifest) (m : DocumentManifest)
    → All (λ k. is_opaque_id k.doc_id ≡ true) ms
    → Mem m ms
    → is_opaque_id m.doc_id ≡ true
All-of [] m h k = absurd k
All-of (n ∷ ms) m h (inl e) = rw e h.0
All-of (n ∷ ms) m h (inr k) = All-of ms m h.1 k

module _ (lower : Text → Text) where
  -- What a hit shows of the manifest that it stands for.
  pub record Shows (m : DocumentManifest) (hit : SearchHit) : Type 0 where
    pub handle : parse_locator hit.handle ≡ some (handle_parts m.doc_id)
    pub labels : hit.labels ≡ m.labels
    pub part : Occurs hit.redacted_snippet m.redacted_text
    pub clean : (p : PrivateDictEntry) → NoLeak m.redacted_text p → NoLeak hit.redacted_snippet p

  handled :
      (m : DocumentManifest) (needles : List Text)
      → is_opaque_id m.doc_id ≡ true
      → (hit : SearchHit) × (with_handle lower m needles (public_handle_for m.doc_id) ≡ ok hit)
        × Shows m hit
  unfolding public_handle_for eq_text
  handled m needles opaque =
      let locator : IsLocator (handle_parts m.doc_id) = record {
        exposure = refl;
        kind = refl;
        opaque = opaque;
        fragment = refl;
      } in
      let snippet = redacted_snippet lower m.redacted_text needles in
      let part = (redacted_snippet-IsSnippet lower m.redacted_text needles).0 in
      (
        record {
          handle = text_of (handle_parts m.doc_id);
          redacted_snippet = snippet;
          labels = m.labels;
        },
        rw (build_locator_ok (handle_parts m.doc_id) locator) refl,
        record {
          handle =
              parse_locator-build_locator (handle_parts m.doc_id) _
                (build_locator_ok (handle_parts m.doc_id) locator);
          labels = refl;
          part = part;
          clean = λ p. NoLeak-part snippet m.redacted_text p part;
        },
      )

  -- Hits that each stand for a manifest of the list.
  abbrev pub AllShow : List DocumentManifest → List SearchHit → Type 0
  AllShow manifests hits = All (λ hit. (m : DocumentManifest) × Mem m manifests × Shows m hit) hits

  hits_of-AllShow :
      (needles : List Text) (manifests ms : List DocumentManifest)
      → All (λ m. is_opaque_id m.doc_id ≡ true) manifests
      → All (λ m. Mem m manifests) ms
      → (hits : List SearchHit) × (hits_of lower needles ms ≡ ok hits)
        × AllShow manifests hits
        × (length hits ≡ length ms)
  unfolding hits_of
  hits_of-AllShow needles manifests [] opaque h = ([], refl, tt, refl)
  hits_of-AllShow needles manifests (m ∷ ms) opaque h =
      let (hit, made, shows) = handled m needles (All-of manifests m opaque h.0) in
      let (hits, rest, show, same) = hits_of-AllShow needles manifests ms opaque h.1 in
      (hit ∷ hits, rw (made, rest) refl, ((m, h.0, shows), show), ap suc same)

  found_always :
      (gateway : SearchGateway) (query : Text) (top_k : ℕ) (resolver : Option Registry)
      → gateway.resolver ≡ resolver
      → 1 ≤ top_k
      → (found : List DocumentManifest) × (search lower gateway query top_k ≡ some found)
        × All (λ m. Mem m gateway.manifests) found
        × (length found ≤ top_k)
  unfolding search
  found_always gateway query top_k none e positive =
      let hits = keep (is_hit lower query) gateway.manifests in
      (
        take top_k hits,
        rw (e, search) refl,
        All-Mem _ gateway.manifests
            (λ m k. keep-Mem (is_hit lower query) m gateway.manifests (take-Mem top_k m hits k)),
        omega (arith, length-take top_k hits),
      )
  found_always gateway query top_k (some entries) e positive =
      let (resolved, found, translated, searched, sound, unique, few, complete) =
        search_resolved lower gateway query top_k e positive in
      (found, searched, hit-Mem lower gateway query top_k _ found sound, few)

  needles_always :
      (resolver : Option Registry) (query : Text)
      → (needles : List Text) × (snippet_needles resolver query ≡ some needles)
  needles_always none query = (query ∷ [], refl)
  needles_always (some entries) query =
      let (keys, terms, residual, e, _, _, _) = translate-Walk entries query in
      let resolved : ResolvedQuery = record { translated_terms = terms; residual = residual } in
      (or_query (needles_of resolved) query, rw e refl)

  -- If `top_k` is at least one and all indexed ids are opaque ids, then a search request is always
  -- answered, with at most `top_k` hits. Each hit is of an indexed manifest: its handle parses as
  -- the manifest's locator, its labels are the manifest's, and its snippet is a part of the
  -- manifest's text, and so free of every raw value of which that text is free.
  pub search_request-AllShow :
      (gateway : SearchGateway) (query : Text) (top_k : ℕ)
      → 1 ≤ top_k
      → All (λ m. is_opaque_id m.doc_id ≡ true) gateway.manifests
      → (hits : List SearchHit) × (search_request lower gateway query top_k ≡ ok hits)
        × (length hits ≤ top_k)
        × AllShow gateway.manifests hits
  unfolding search_request
  search_request-AllShow gateway query top_k positive opaque =
      let (found, searched, there, few) =
        found_always gateway query top_k gateway.resolver refl positive in
      let (needles, e) = needles_always gateway.resolver query in
      let (hits, made, show, same) = hits_of-AllShow needles gateway.manifests found opaque there in
      (hits, rw (searched, e) made, omega (arith, same), show)
