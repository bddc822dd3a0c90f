-- ===== src/Boundary/Resolver/Laws.antt =====
-- What the resolver gives to whom, and that a processed document is found under its locator.
use yomotsusaka.Prelude.{
  Text, codes, eq_text, eq_text_iff, true, false, Option, none, some, List, ◌≡◌, ◌↔◌, inl, inr,
  refl, ap, subst, ◌∙◌, arith, Bool-cases, Option-cases,
}
use yomotsusaka.Schemas.{PrivateDictEntry}
use yomotsusaka.Vault.{FilePath, Disk, Codec, manifest_path, private_path}
use yomotsusaka.Boundary.Locator.{ParsedLocator, parse_locator}
use yomotsusaka.Boundary.Resolver.{
  ResolverScope, ordinary_agent, private_boundary, audit_reviewer, PrivateState, ResolverSuccess,
  success, is_blank, exists, parse_entries, with_entries, materialise, resolve_parsed, resolve,
}

exists_iff :
    (p : FilePath) (d : Disk) → (exists p d ≡ true) ↔ ((raw : Text) × (d.files p ≡ some raw))
exists_iff p d = elim (Option-cases (d.files p)) [
  | inl e ↦ (λ h. absurd (ground arith), λ (r, h). cc)
  | inr (raw, e) ↦ (λ h. (raw, e), λ _. rw (e, exists))
]

module _ (codec : Codec) where
  -- What a caller gets to see of the private side: the dictionary inside the private boundary, and
  -- nothing outside.
  abbrev pub StateFor :
      ResolverScope → ParsedLocator → FilePath → Disk → Option PrivateState → Type 0
  StateFor private_boundary parsed root d state =
      (raw : Text) × (entries : List PrivateDictEntry) × (d.files
          (private_path root parsed.opaque_id)
        ≡ some raw)
      × (codec.load_entries raw ≡ some entries)
      × (some (record {
        manifest_path = manifest_path root parsed.opaque_id;
        private_dict_path = private_path root parsed.opaque_id;
        private_entries = entries;
      })
          ≡ state)
  StateFor ordinary_agent parsed root d state = none ≡ state
  StateFor audit_reviewer parsed root d state = none ≡ state

  pub record Resolves (locator : Text) (scope : ResolverScope) (purpose : Text) (root : FilePath)
      (d : Disk) (s : ResolverSuccess) : Type 0 where
    pub stated : is_blank purpose ≡ false
    pub parses : parse_locator locator ≡ some s.parsed
    pub kind : s.parsed.artifact_kind ≡ codes "manifest"
    pub manifest : (raw : Text) × (d.files (manifest_path root s.parsed.opaque_id) ≡ some raw)
    pub state : StateFor scope s.parsed root d s.private_state
    pub echoed : (locator ≡ s.locator) × (purpose ≡ s.purpose)

  module _ (locator purpose : Text) (root : FilePath) (d : Disk) (s : ResolverSuccess) where
    materialise_elim :
        (parsed : ParsedLocator) (scope : ResolverScope)
        → materialise codec locator parsed scope purpose root d ≡ success s
        → StateFor scope parsed root d s.private_state
          × ((parsed ≡ s.parsed) × (locator ≡ s.locator) × (purpose ≡ s.purpose))
    unfolding materialise
    materialise_elim parsed ordinary_agent h = (cc, (cc, cc, cc))
    materialise_elim parsed audit_reviewer h = (cc, (cc, cc, cc))
    materialise_elim parsed private_boundary h =
        elim (Option-cases (d.files (private_path root parsed.opaque_id))) [
          | inl e ↦ absurd (cc (rw e at h))
          | inr (raw, e) ↦ elim (Option-cases (codec.load_entries raw)) [
            | inl l ↦ absurd (ground arith)
            | inr (entries, l) ↦
                let h' = rw (e, parse_entries, l, with_entries) at h in
                ((raw, entries, e, l, cc), (cc, cc, cc))
          ]
        ]

    resolve_parsed_elim :
        (o : Option ParsedLocator) (scope : ResolverScope)
        → resolve_parsed codec locator o scope purpose root d ≡ success s
        → (parsed : ParsedLocator) × (o ≡ some parsed)
          × (parsed.artifact_kind ≡ codes "manifest")
          × (exists (manifest_path root parsed.opaque_id) d ≡ true)
          × (materialise codec locator parsed scope purpose root d ≡ success s)
    unfolding resolve_parsed
    resolve_parsed_elim none scope h = absurd (cc)
    resolve_parsed_elim (some parsed) scope h =
        elim (Bool-cases (eq_text parsed.artifact_kind (codes "manifest"))) [
          | inl k ↦ elim (Bool-cases (exists (manifest_path root parsed.opaque_id) d)) [
            | inl x ↦ (parsed, refl, (eq_text_iff _ _).0 k, x, ground arith)
            | inr x ↦ absurd (ground arith)
          ]
          | inr k ↦ absurd (ground arith)
        ]

    -- If `resolve` succeeds, then the purpose is not blank, the locator parses and is of a
    -- manifest that is on the disk, the result repeats locator and purpose, and its private state
    -- is the dictionary stored for that manifest if the caller stands inside the private boundary
    -- and nothing if it does not.
    pub resolve-Resolves :
        (scope : ResolverScope)
        → resolve codec locator scope purpose root d ≡ success s
        → Resolves locator scope purpose root d s
    unfolding resolve
    resolve-Resolves scope h = elim (Bool-cases (is_blank purpose)) [
      | inl b ↦ absurd (ground arith)
      | inr b ↦
          let h' : resolve_parsed codec locator (parse_locator locator) scope purpose root d
              ≡ success s =
            ground arith in
          let (parsed, p, k, x, m) = resolve_parsed_elim (parse_locator locator) scope h' in
          let (state, (same, l, w)) = materialise_elim parsed scope m in
          record {
            stated = b;
            parses = p ∙ ap some same;
            kind = rw same at k;
            manifest = (exists_iff _ d).0 (rw same at x);
            state = subst (λ q. StateFor scope q root d s.private_state) same state;
            echoed = (l, w);
          }
    ]
