-- ===== src/Boundary/Restoration/Requests.antt =====
-- What a request that passed its validators asks for.
use yomotsusaka.Prelude.{
  Text, Bool, true, false, not, Option, none, some, List, [], ◌∷◌, ◌≡◌, ◌≢◌, ◌⊎◌, ◌↔◌, inl, inr,
  refl, subst, ap, ◌∙◌, arith, ok, >>=-eq-ok, require, and_split, and_intro, keep, ◌&&◌, ◌||◌,
}
use yomotsusaka.Schemas.{EntityKind, EntityKind-discrete, PrivateDictEntry}
use yomotsusaka.Validator.Spec.{Has, is_member_iff}
use yomotsusaka.Policy.{PolicyRequest, is_nil}
use yomotsusaka.Boundary.Locator.{ParsedLocator, parse_locator, is_opaque_id}
use yomotsusaka.Boundary.Locator.Laws.{parse_locator-IsLocator}
use yomotsusaka.Boundary.Resolver.{is_blank}
use yomotsusaka.Boundary.Restoration.{
  Target, target_public_handle, document_id, RestorationRequest, blank_caller, blank_reason,
  naive_timestamp, bad_document_id, no_filter, valid_document, choose_target, make_request,
  has_kind, matches, manifest_id, document_of,
}

require_elim : {E : Type 0} (b : Bool) (e : E) → require b e ≡ ok tt → b ≡ true
require_elim true e h = refl
require_elim false e h = cc

manifest_id_elim :
    (o : Option ParsedLocator) (id : Text)
    → manifest_id o ≡ some id
    → (p : ParsedLocator) × (o ≡ some p) × (p.opaque_id ≡ id)
manifest_id_elim none id h = absurd (cc)
manifest_id_elim (some p) id h = (p, refl, ground arith)

abbrev pub HasKind : EntityKind → List EntityKind → Type 0
HasKind k [] = ⊥
HasKind k (x ∷ xs) = (k ≡ x) ⊎ HasKind k xs

choose_target_opaque :
    (handle doc : Option Text) (t : Target) (id : Text)
    → choose_target handle doc ≡ ok t
    → valid_document doc ≡ true
    → document_of t ≡ some id
    → is_opaque_id id ≡ true
unfolding document_of
choose_target_opaque (some h) (some x) t id chosen valid found = absurd (cc)
choose_target_opaque none none t id chosen valid found = absurd (cc)
choose_target_opaque none (some x) t id chosen valid found =
    let same : document_id x ≡ t = cc in
    let at : x ≡ id = cc (ap document_of same) in subst (λ q. is_opaque_id q ≡ true) at valid
choose_target_opaque (some h) none t id chosen valid found =
    let same : target_public_handle h ≡ t = cc in
    let by_handle : manifest_id (parse_locator h) ≡ some id = ap document_of same ∙ found in
    let (p, parsed, at) = manifest_id_elim (parse_locator h) id by_handle in
    subst (λ q. is_opaque_id q ≡ true) at (parse_locator-IsLocator h p parsed).opaque

-- If the validators accept a request and a document id comes out of it, by a locator or directly,
-- then that id is an opaque id: one of 1 to 128 characters of the shared set that is no path
-- traversal segment.
pub make_request-document_of :
    (caller : Text) (handle doc : Option Text) (keys : List Text) (kinds : List EntityKind)
    (reason : Text) (aware : Bool) (reserved : PolicyRequest) (r : RestorationRequest) (id : Text)
    → make_request caller handle doc keys kinds reason aware reserved ≡ ok r
    → document_of r.target ≡ some id
    → is_opaque_id id ≡ true
unfolding make_request
make_request-document_of caller handle doc keys kinds reason aware reserved r id made found =
    let (_, _, h1) = >>=-eq-ok (require (not (is_blank caller)) blank_caller) _ made in
    let (_, valid, h2) = >>=-eq-ok (require (valid_document doc) bad_document_id) _ h1 in
    let (_, _, h3) = >>=-eq-ok (require (not (is_blank reason)) blank_reason) _ h2 in
    let (_, _, h4) = >>=-eq-ok (require aware naive_timestamp) _ h3 in
    let (t, chosen, h5) = >>=-eq-ok (choose_target handle doc) _ h4 in
    let (_, _, h6) =
      >>=-eq-ok
        (require (not (is_nil (keep (λ k. not (is_blank k)) keys) && is_nil kinds)) no_filter) _
        h5 in
    let target : t ≡ r.target = cc in
    choose_target_opaque handle doc t id chosen (require_elim _ _ valid)
      (ap document_of target ∙ found)

or_iff :
    {P Q : Type 0} (p : Dec P) (b : Bool)
    → (b ≡ true) ↔ Q
    → ((elim p [ yes _ ↦ true | no _ ↦ b ]) ≡ true) ↔ (P ⊎ Q)
or_iff (yes h) b e = (λ _. inl h, λ _. refl)
or_iff (no n) b e = (λ h. inr (e.0 h), λ h. elim h [ inl x ↦ absurd (n x) | inr y ↦ e.1 y ])

-- A test that an empty list skips.
unless_nil_iff :
    {A Q : Type 0} (xs : List A) (b : Bool)
    → (b ≡ true) ↔ Q
    → ((is_nil xs || b) ≡ true) ↔ (xs ≢ [] → Q)
unless_nil_iff [] b e = (λ _ n. absurd (n refl), λ _. refl)
unless_nil_iff (x ∷ xs) b e = (λ h _. e.0 h, λ f. e.1 (f λ h. cc))

has_kind_iff : (k : EntityKind) (ks : List EntityKind) → (has_kind k ks ≡ true) ↔ HasKind k ks
has_kind_iff k [] = (λ h. cc, λ h. absurd h)
has_kind_iff k (x ∷ xs) = or_iff (EntityKind-discrete k x) (has_kind k xs) (has_kind_iff k xs)

-- The filter of a request keeps an entry if and only if the entry's key is among the requested
-- keys, or none are requested, and its kind is among the requested kinds, or none are requested.
pub matches_iff :
    (r : RestorationRequest) (e : PrivateDictEntry)
    → (matches r e ≡ true) ↔ (
        (r.requested_keys ≢ [] → Has e.key r.requested_keys)
        × (r.requested_entity_kinds ≢ [] → HasKind e.kind r.requested_entity_kinds))
unfolding matches
matches_iff r e =
    let keys = unless_nil_iff r.requested_keys _ (is_member_iff e.key r.requested_keys) in
    let kinds =
      unless_nil_iff r.requested_entity_kinds _ (has_kind_iff e.kind r.requested_entity_kinds) in
    (
      λ h. let (a, b) = and_split _ _ h in (keys.0 a, kinds.0 b),
      λ h. and_intro _ _ (keys.1 h.0) (kinds.1 h.1),
    )
