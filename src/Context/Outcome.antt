-- ===== src/Context/Outcome.antt =====
-- engine/open_hollywood_engine/context/compiler.py: when a compilation succeeds. Once the sources pass
-- the checks of the manifest, only the size of the mandatory packet decides.
use open_hollywood.Context.Partition.{in_summaries, in_artifacts}
use open_hollywood.Context.Accounting.{selected_counts, bible_used}
use open_hollywood.Context.Manifests.{manifest_for, Registry, IsManifest, AgentDependencyManifest}
use open_hollywood.Context.Contracts.{
  packet_tokens, NearbySummary, VersionedArtifact, StoryBibleSnapshot, StoryBibleSection,
  ContextPacketRequest, ContextError,
}
use open_hollywood.Context.Compiler.{
  compile, compile_with, mandatory, used_ids, select_context, Selection, input_version_ids,
  add_summary, add_artifact, add_summaries, add_artifacts, render, bible_payload, count,
  ContextTools,
}
use open_hollywood.Context.Sources.{
  partition_summaries, bible_ids, select_story_bible_sections, summary_ids, partition_artifacts,
  artifact_ids, validate_unique_sources, prepare_parts, CompilationParts, select_sections,
}
use open_hollywood.Context.Contracts.{reused_input, budget_exceeded, reused_source}
use open_hollywood.Prelude.{
  inr, inl, lt→leb-false, le-or-lt, if-false, ◌⊎◌, ◌<◌, le→leb, ap, if-true, count_if-map,
  distinct-occurrences, count_if-append, distinct_of, occurrences, guard-eq-ok,
  is_unique-eq-distinct, is_unique, distinct, ok-injective, ℕ, ◌+◌, ◌≤◌, ◌≡◌, refl, sym, ◌∙◌, subst,
  true, Option, none, some, List, [], ◌∷◌, ◌++◌, map, arith, Result, ok, raise, ◌>>=◌, ◌>>◌, guard,
  >>=-eq-ok, guard-bind, string_eq, nat_eq, leb, nat_beq, String,
}

-- A token counter that returns a natural number for every text.
pub record IsCounter (tools : ContextTools) : Type 0 where
  pub size : String → ℕ
  pub count_size : (text : String) → count tools text ≡ ok (size text)

abbrev pub Returns {ℓ} : {A : Type ℓ} → Result ContextError A → Type ℓ
Returns call = (a : _) × (call ≡ ok a)

bind-Returns :
    {A B : Type 0} (call : Result ContextError A) (next : A → Result ContextError B)
    → Returns call
    → ((a : A) → call ≡ ok a → Returns (next a))
    → Returns (call >>= next)
bind-Returns (ok a) next returned rest = rest a refl
bind-Returns (raise e) next returned rest = cc (returned.1)

module _ (tools : ContextTools) (counter : IsCounter tools) (r : ContextPacketRequest)
    (m : AgentDependencyManifest) where
  select_sections-payload :
      (names : List String) (bible : Option StoryBibleSnapshot) (xs : List StoryBibleSection)
      → r.story_bible ≡ bible
      → select_sections names bible ≡ ok xs
      → Returns (bible_payload r xs)
  unfolding select_sections
  select_sections-payload [] bible xs e h =
      subst (λ ys. Returns (bible_payload r ys)) (ok-injective h) (none, refl)
  select_sections-payload (n ∷ ns) none xs e h = cc h
  select_sections-payload (n ∷ ns) (some snapshot) [] e h = (none, refl)
  select_sections-payload (n ∷ ns) (some snapshot) (x ∷ xs) e h = rw e (_, refl)

  module _ (sections : List StoryBibleSection) (payload : Returns (bible_payload r sections)) where
    render-Returns :
        (artifacts : List VersionedArtifact) (summaries : List NearbySummary)
        → Returns (render tools r m artifacts sections summaries)
    unfolding render
    render-Returns artifacts summaries =
        bind-Returns (bible_payload r sections) _ payload (λ b hb. (_, refl))

    trial-Returns :
        {B : Type 0} (artifacts : List VersionedArtifact) (summaries : List NearbySummary)
        (next : String → ℕ → B)
        → Returns (
            render tools r m artifacts sections summaries >>= λ text.
            count tools text >>= λ tokens. ok (next text tokens))
    trial-Returns artifacts summaries next =
        bind-Returns (render tools r m artifacts sections summaries) _
          (render-Returns artifacts summaries)
          (λ text ht.
            bind-Returns (count tools text) _ (counter.size text, counter.count_size text)
              (λ tokens hn. (_, refl)))

    add_artifacts-Returns :
        (c : Selection) (xs : List VersionedArtifact)
        → Returns (add_artifacts tools r m sections c xs)
    unfolding add_artifacts add_artifact
    add_artifacts-Returns c [] = (c, refl)
    add_artifacts-Returns c (x ∷ xs) =
        bind-Returns (add_artifact tools r m sections c x) _ (trial-Returns _ _ _)
          (λ d hd. add_artifacts-Returns d xs)

    add_summaries-Returns :
        (c : Selection) (xs : List NearbySummary) → Returns (add_summaries tools r m sections c xs)
    unfolding add_summaries add_summary
    add_summaries-Returns c [] = (c, refl)
    add_summaries-Returns c (x ∷ xs) =
        bind-Returns (add_summary tools r m sections c x) _ (trial-Returns _ _ _)
          (λ d hd. add_summaries-Returns d xs)

  module _ (parts : CompilationParts) (valid : IsManifest m)
      (prepared : prepare_parts r m ≡ ok parts) where
    prepared_payload : Returns (bible_payload r parts.bible_sections)
    unfolding prepare_parts
    prepared_payload =
        let (u, fresh, h1) = >>=-eq-ok (validate_unique_sources r) _ prepared in
        let (split, ha, h2) =
          >>=-eq-ok (partition_artifacts r.artifacts m.artifact_dependencies) _ h1 in
        let (sections, hs, h3) = >>=-eq-ok (select_story_bible_sections r m) _ h2 in
        let (rest, hr, h4) = >>=-eq-ok (partition_summaries r.nearby_summaries m) _ h3 in
        subst (λ q. Returns (bible_payload r q.bible_sections)) (ok-injective h4)
          (select_sections-payload m.story_bible_sections r.story_bible sections refl hs)

    abbrev sources : List ℕ
    sources =
        artifact_ids r.artifacts ++ (summary_ids r.nearby_summaries ++ bible_ids r.story_bible)

    distinct-sources : distinct sources ≡ true
    unfolding prepare_parts validate_unique_sources
    distinct-sources =
        let (u, fresh, h1) = >>=-eq-ok (validate_unique_sources r) _ prepared in
        let (keys, h2) = guard-bind (is_unique (map (λ a. a.artifact_key) r.artifacts)) _ _ fresh in
        sym (is_unique-eq-distinct sources) ∙ guard-eq-ok (is_unique sources) reused_source h2

    sources-counts :
        (v : ℕ)
        → occurrences v sources
          ≡ in_artifacts v r.artifacts
            + in_summaries v r.nearby_summaries
            + occurrences v (bible_ids r.story_bible)
    sources-counts v = omega (
      arith,
      count_if-append (nat_beq v) (artifact_ids r.artifacts)
          (summary_ids r.nearby_summaries ++ bible_ids r.story_bible),
      count_if-append (nat_beq v) (summary_ids r.nearby_summaries) (bible_ids r.story_bible),
      count_if-map (nat_beq v) (λ a. a.version_id) r.artifacts,
      count_if-map (nat_beq v) (λ s. s.summary_version_id) r.nearby_summaries,
    )

    bible_used-le :
        (v : ℕ) (xs : List StoryBibleSection)
        → bible_used tools r m v xs ≤ occurrences v (bible_ids r.story_bible)
    bible_used-le v [] = omega arith
    bible_used-le v (x ∷ xs) = omega arith

    inputs-Returns :
        (c : Selection)
        → select_context tools r m parts ≡ ok c
        → Returns
            (input_version_ids r c.included_artifacts parts.bible_sections c.included_summaries)
    unfolding input_version_ids
    inputs-Returns c selected =
        let used = used_ids r c.included_artifacts parts.bible_sections c.included_summaries in
        let fresh =
          is_unique-eq-distinct used
          ∙ distinct_of used (λ v. omega (
            arith,
            selected_counts tools r m v parts c valid prepared selected,
            distinct-occurrences v sources distinct-sources,
            sources-counts v,
            bible_used-le v parts.bible_sections,
          )) in
        bind-Returns (guard (is_unique used) reused_input) _
          (tt, if-true _ _ (is_unique used) fresh) (λ passed h. (used, refl))

    mandatory_text :
        Returns
          (render tools r m parts.required_artifacts parts.bible_sections parts.required_summaries)
    mandatory_text =
        render-Returns parts.bible_sections prepared_payload parts.required_artifacts
          parts.required_summaries

    -- The tokens of the mandatory packet.
    abbrev required_tokens : ℕ
    required_tokens = counter.size mandatory_text.0

    abbrev mandatory_selection : Selection
    mandatory_selection = record {
      included_artifacts = parts.required_artifacts;
      included_summaries = parts.required_summaries;
      content_text = mandatory_text.0;
      content_tokens = required_tokens;
      omitted = parts.parts_omitted;
    }

    mandatory-eq : mandatory tools r m parts ≡ (
        guard
          (leb required_tokens (packet_tokens r.budget))
          (budget_exceeded required_tokens (packet_tokens r.budget))
        >> ok mandatory_selection)
    unfolding mandatory
    mandatory-eq = rw (mandatory_text.1, counter.count_size mandatory_text.0) refl

    select_fits :
        required_tokens ≤ packet_tokens r.budget → Returns (select_context tools r m parts)
    unfolding select_context
    select_fits fits =
        bind-Returns (mandatory tools r m parts) _
          (
            mandatory_selection,
            mandatory-eq
                ∙ ap (λ check. check >> ok mandatory_selection)
                    (if-true _ _ _ (le→leb required_tokens (packet_tokens r.budget) fits)),
          )
          (λ c hc.
            bind-Returns (add_artifacts tools r m parts.bible_sections c parts.optional_artifacts) _
              (add_artifacts-Returns parts.bible_sections prepared_payload c
                parts.optional_artifacts)
              (λ d hd.
                add_summaries-Returns parts.bible_sections prepared_payload d
                  parts.optional_summaries))

    compile_fits : required_tokens ≤ packet_tokens r.budget → Returns (compile_with tools r m)
    unfolding compile_with
    compile_fits fits = rw prepared (
        bind-Returns (select_context tools r m parts) _ (select_fits fits) (λ c hc.
          bind-Returns
            (input_version_ids r c.included_artifacts parts.bible_sections c.included_summaries) _
            (inputs-Returns c hc) (λ ids hi. (_, refl))))

    compile_exceeds :
        packet_tokens r.budget < required_tokens
        → compile_with tools r m ≡ raise (budget_exceeded required_tokens (packet_tokens r.budget))
    unfolding compile_with select_context
    compile_exceeds over =
        rw
          (
            prepared,
            mandatory-eq
                ∙ ap (λ check. check >> ok mandatory_selection)
                    (if-false _ _ _ (lt→leb-false (packet_tokens r.budget) required_tokens over)),
          )
          refl

-- Where the sources pass the checks, the mandatory context has a rendering; compilation returns a packet
-- if the rendering fits the budget, and otherwise raises the error with the tokens it needs and has.
pub compile-outcome :
    (tools : ContextTools) (counter : IsCounter tools) (manifests : Registry)
    (r : ContextPacketRequest) (m : AgentDependencyManifest) (parts : CompilationParts)
    → manifest_for r.specialist_role manifests ≡ ok m
    → IsManifest m
    → prepare_parts r m ≡ ok parts
    → (text : String) × (render tools r m parts.required_artifacts parts.bible_sections
          parts.required_summaries
        ≡ ok text)
      × (((counter.size text ≤ packet_tokens r.budget) × Returns (compile tools manifests r))
          ⊎ ((packet_tokens r.budget < counter.size text)
              × (compile tools manifests r
                  ≡ raise (budget_exceeded (counter.size text) (packet_tokens r.budget)))))
unfolding compile
compile-outcome tools counter manifests r m parts known valid prepared =
    let mandatory_part = mandatory_text tools counter r m parts valid prepared in
    (
      mandatory_part.0,
      mandatory_part.1,
      elim (le-or-lt (counter.size mandatory_part.0) (packet_tokens r.budget)) [
        | inl fits ↦ inl (fits, rw known (compile_fits tools counter r m parts valid prepared fits))
        | inr over ↦
            inr (over, rw known (compile_exceeds tools counter r m parts valid prepared over))
      ],
    )
