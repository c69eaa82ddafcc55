-- ===== src/Context/Accounting.antt =====
-- engine/open_hollywood_engine/context/compiler.py: every source of a packet is accounted for.
use open_hollywood.Context.Budget.{select_context-keeps, trial-cases}
use open_hollywood.Context.Partition.{
  partition_summaries-counts, partition_artifacts-counts, in_omitted, in_summaries, in_artifacts,
}
use open_hollywood.Context.Manifests.{IsManifest, AgentDependencyManifest}
use open_hollywood.Context.Compiler.{
  count, render, used_ids, add_summaries, add_artifacts, add_summary, add_artifact, select_context,
  mandatory, Selection, ContextTools,
}
use open_hollywood.Context.Sources.{
  sections_named, select_sections, section_named, summary_ids, partition_summaries, omit_summary,
  artifact_ids, partition_artifacts, summary_leq, omit_artifact, validate_unique_sources, bible_ids,
  select_story_bible_sections, prepare_parts, CompilationParts,
}
use open_hollywood.Context.Contracts.{
  StoryBibleSnapshot, packet_tokens, NearbySummary, VersionedArtifact, StoryBibleSection,
  ContextPacketRequest, token_budget,
}
use open_hollywood.Prelude.{
  ◌≤◌, opt_list, Option-cases, count_if-map, count_if-sort_by, count_if-append, ok-injective,
  occurrences, ℕ, ◌+◌, ◌≡◌, sym, ◌∙◌, subst, ap, inl, inr, true, Option, none, some, List, [], ◌∷◌,
  ◌++◌, arith, ok, >>=-eq-ok, guard-bind, string_eq, nat_eq, leb, nat_beq, String, is_some, all,
}

module _ (tools : ContextTools) (r : ContextPacketRequest) (m : AgentDependencyManifest)
    (v : ℕ) where
  abbrev total : Selection → ℕ
  total c =
      in_artifacts v c.included_artifacts
      + in_summaries v c.included_summaries
      + in_omitted v c.omitted

  module _ (sections : List StoryBibleSection) where
    add_artifact-total :
        (c d : Selection) (x : VersionedArtifact)
        → add_artifact tools r m sections c x ≡ ok d
        → total d ≡ total c + in_artifacts v (x ∷ [])
    unfolding add_artifact
    add_artifact-total c d x h = elim (trial-cases tools r m _ sections _ _ _ h) [
      | inl (text, tokens, p, q, b, e) ↦
          subst (λ s. total s ≡ total c + in_artifacts v (x ∷ [])) e
            (omega
              (arith, count_if-append (λ a. nat_beq v a.version_id) c.included_artifacts (x ∷ [])))
      | inr e ↦
          subst (λ s. total s ≡ total c + in_artifacts v (x ∷ [])) e
            (omega (
              arith,
              count_if-append (λ o. nat_beq v o.identifier) c.omitted (omit_artifact x ∷ []),
            ))
    ]

    add_summary-total :
        (c d : Selection) (x : NearbySummary)
        → add_summary tools r m sections c x ≡ ok d
        → total d ≡ total c + in_summaries v (x ∷ [])
    unfolding add_summary
    add_summary-total c d x h = elim (trial-cases tools r m _ sections _ _ _ h) [
      | inl (text, tokens, p, q, b, e) ↦
          subst (λ s. total s ≡ total c + in_summaries v (x ∷ [])) e
            (omega (
              arith,
              count_if-sort_by summary_leq (λ s. nat_beq v s.summary_version_id)
                  (c.included_summaries ++ x ∷ []),
              count_if-append (λ s. nat_beq v s.summary_version_id) c.included_summaries (x ∷ []),
            ))
      | inr e ↦
          subst (λ s. total s ≡ total c + in_summaries v (x ∷ [])) e
            (omega (
              arith,
              count_if-append (λ o. nat_beq v o.identifier) c.omitted
                  (omit_summary token_budget x ∷ []),
            ))
    ]

    add_artifacts-total :
        (c d : Selection) (xs : List VersionedArtifact)
        → add_artifacts tools r m sections c xs ≡ ok d
        → total d ≡ total c + in_artifacts v xs
    unfolding add_artifacts
    add_artifacts-total c d [] h = omega (arith, ap total (ok-injective h))
    add_artifacts-total c d (x ∷ xs) h =
        let (e, he, rest) = >>=-eq-ok (add_artifact tools r m sections c x) _ h in
        omega (arith, add_artifact-total c e x he, add_artifacts-total e d xs rest)

    add_summaries-total :
        (c d : Selection) (xs : List NearbySummary)
        → add_summaries tools r m sections c xs ≡ ok d
        → total d ≡ total c + in_summaries v xs
    unfolding add_summaries
    add_summaries-total c d [] h = omega (arith, ap total (ok-injective h))
    add_summaries-total c d (x ∷ xs) h =
        let (e, he, rest) = >>=-eq-ok (add_summary tools r m sections c x) _ h in
        omega (arith, add_summary-total c e x he, add_summaries-total e d xs rest)

  abbrev of_parts : CompilationParts → ℕ
  of_parts parts =
      in_artifacts v parts.required_artifacts
      + in_artifacts v parts.optional_artifacts
      + (in_summaries v parts.required_summaries
          + in_summaries v parts.optional_summaries
          + in_omitted v parts.parts_omitted)

  mandatory-total :
      (parts : CompilationParts) (c : Selection)
      → mandatory tools r m parts ≡ ok c
      → total c
        ≡ in_artifacts v parts.required_artifacts
          + in_summaries v parts.required_summaries
          + in_omitted v parts.parts_omitted
  unfolding mandatory
  mandatory-total parts c h =
      let (text, p, h1) =
        >>=-eq-ok
          (render tools r m parts.required_artifacts parts.bible_sections parts.required_summaries)
          _ h in
      let (tokens, q, h2) = >>=-eq-ok (count tools text) _ h1 in
      let (fits, h3) = guard-bind (leb tokens (packet_tokens r.budget)) _ _ h2 in
      ap total (sym (ok-injective h3))

  select_context-total :
      (parts : CompilationParts) (c : Selection)
      → select_context tools r m parts ≡ ok c
      → total c ≡ of_parts parts
  unfolding select_context
  select_context-total parts c h =
      let (start, hs, h1) = >>=-eq-ok (mandatory tools r m parts) _ h in
      let (middle, hm, h2) =
        >>=-eq-ok (add_artifacts tools r m parts.bible_sections start parts.optional_artifacts) _
          h1 in
      omega (
        arith,
        mandatory-total parts start hs,
        add_artifacts-total parts.bible_sections start middle parts.optional_artifacts hm,
        add_summaries-total parts.bible_sections middle c parts.optional_summaries h2,
      )

  -- What is mandatory stays in the selection.
  pub select_context-mandatory :
      (parts : CompilationParts) (c : Selection)
      → select_context tools r m parts ≡ ok c
      → in_artifacts v parts.required_artifacts ≤ in_artifacts v c.included_artifacts
  unfolding mandatory add_artifact add_summary
  select_context-mandatory parts c =
      let least = in_artifacts v parts.required_artifacts in
      let at = λ (s : Selection). in_artifacts v s.included_artifacts in
      select_context-keeps tools r m (λ s. least ≤ at s) parts c
        (λ s h.
          let (text, p, h1) =
            >>=-eq-ok
              (render tools r m parts.required_artifacts parts.bible_sections
                parts.required_summaries)
              _ h in
          let (tokens, q, h2) = >>=-eq-ok (count tools text) _ h1 in
          let (fits, h3) = guard-bind (leb tokens (packet_tokens r.budget)) _ _ h2 in
          subst (λ s. least ≤ at s) (ok-injective h3) (omega arith))
        (λ s t x k h. elim (trial-cases tools r m _ parts.bible_sections _ _ _ h) [
          | inl (text, tokens, p, q, b, e) ↦
              subst (λ s. least ≤ at s) e
                (omega (
                  arith,
                  k,
                  count_if-append (λ a. nat_beq v a.version_id) s.included_artifacts (x ∷ []),
                ))
          | inr e ↦ subst (λ s. least ≤ at s) e k
        ])
        (λ s t x k h. elim (trial-cases tools r m _ parts.bible_sections _ _ _ h) [
          | inl (text, tokens, p, q, b, e) ↦ subst (λ s. least ≤ at s) e k
          | inr e ↦ subst (λ s. least ≤ at s) e k
        ])

  prepare_parts-counts :
      (parts : CompilationParts)
      → IsManifest m
      → prepare_parts r m ≡ ok parts
      → of_parts parts ≡ in_artifacts v r.artifacts + in_summaries v r.nearby_summaries
  unfolding prepare_parts
  prepare_parts-counts parts valid h =
      let (u, fresh, h1) = >>=-eq-ok (validate_unique_sources r) _ h in
      let (split, ha, h2) =
        >>=-eq-ok (partition_artifacts r.artifacts m.artifact_dependencies) _ h1 in
      let (sections, hs, h3) = >>=-eq-ok (select_story_bible_sections r m) _ h2 in
      let (rest, hr, h4) = >>=-eq-ok (partition_summaries r.nearby_summaries m) _ h3 in
      subst (λ q. of_parts q ≡ in_artifacts v r.artifacts + in_summaries v r.nearby_summaries)
        (ok-injective h4)
        (omega (
          arith,
          partition_artifacts-counts v r.artifacts m.artifact_dependencies valid.distinct_kinds ha,
          partition_summaries-counts v r.nearby_summaries m rest hr,
        ))

  -- The version of the story bible, when the manifest selects sections of it.
  abbrev pub bible_used : {A : Type 0} → List A → ℕ
  bible_used [] = 0
  bible_used (x ∷ xs) = occurrences v (bible_ids r.story_bible)

  pub used_ids-counts :
      (artifacts : List VersionedArtifact) (sections : List StoryBibleSection)
      (summaries : List NearbySummary)
      → occurrences v (used_ids r artifacts sections summaries)
        ≡ in_artifacts v artifacts + in_summaries v summaries + bible_used sections
  used_ids-counts artifacts [] summaries = omega (
    arith,
    count_if-append (nat_beq v) (artifact_ids artifacts) (summary_ids summaries),
    count_if-map (nat_beq v) (λ a. a.version_id) artifacts,
    count_if-map (nat_beq v) (λ s. s.summary_version_id) summaries,
  )
  used_ids-counts artifacts (x ∷ xs) summaries = omega (
    arith,
    count_if-append (nat_beq v) (artifact_ids artifacts)
        (bible_ids r.story_bible ++ summary_ids summaries),
    count_if-append (nat_beq v) (bible_ids r.story_bible) (summary_ids summaries),
    count_if-map (nat_beq v) (λ a. a.version_id) artifacts,
    count_if-map (nat_beq v) (λ s. s.summary_version_id) summaries,
  )

  -- What is selected and what is omitted, together.
  pub selected_counts :
      (parts : CompilationParts) (c : Selection)
      → IsManifest m
      → prepare_parts r m ≡ ok parts
      → select_context tools r m parts ≡ ok c
      → occurrences v (used_ids r c.included_artifacts parts.bible_sections c.included_summaries)
          + in_omitted v c.omitted
        ≡ in_artifacts v r.artifacts
          + in_summaries v r.nearby_summaries
          + bible_used parts.bible_sections
  selected_counts parts c valid prepared selected = omega (
    arith,
    select_context-total parts c selected,
    prepare_parts-counts parts valid prepared,
    used_ids-counts c.included_artifacts parts.bible_sections c.included_summaries,
  )

  sections_named-used :
      (n : String) (ns : List String) (xs : List StoryBibleSection)
      → is_some (section_named n xs) ≡ true
      → bible_used (sections_named (n ∷ ns) xs) ≡ occurrences v (bible_ids r.story_bible)
  sections_named-used n ns xs h = elim (Option-cases (section_named n xs)) [
    | inl e ↦ cc
    | inr (x, e) ↦ rw (ap (λ o. bible_used (opt_list o ++ sections_named ns xs)) e)
  ]

  select_sections-used :
      (names : List String) (bible : Option StoryBibleSnapshot) (xs : List StoryBibleSection)
      → select_sections names bible ≡ ok xs
      → bible_used xs ≡ bible_used names
  unfolding select_sections
  select_sections-used [] bible xs h = sym (ap bible_used (ok-injective h))
  select_sections-used (n ∷ ns) none xs h = cc
  select_sections-used (n ∷ ns) (some snapshot) xs h =
      let (known, h1) =
        guard-bind (all (λ x. is_some (section_named x snapshot.sections)) (n ∷ ns)) _ _ h in
      sym (ap bible_used (ok-injective h1))
      ∙ sections_named-used n ns snapshot.sections (ground (arith, known))

  -- The snapshot is used exactly when the manifest names sections.
  pub prepared_bible :
      (parts : CompilationParts)
      → prepare_parts r m ≡ ok parts
      → bible_used parts.bible_sections ≡ bible_used m.story_bible_sections
  unfolding prepare_parts
  prepared_bible parts h =
      let (u, fresh, h1) = >>=-eq-ok (validate_unique_sources r) _ h in
      let (split, ha, h2) =
        >>=-eq-ok (partition_artifacts r.artifacts m.artifact_dependencies) _ h1 in
      let (sections, hs, h3) = >>=-eq-ok (select_story_bible_sections r m) _ h2 in
      let (rest, hr, h4) = >>=-eq-ok (partition_summaries r.nearby_summaries m) _ h3 in
      subst (λ q. bible_used q.bible_sections ≡ bible_used m.story_bible_sections) (ok-injective h4)
        (select_sections-used m.story_bible_sections r.story_bible sections hs)
