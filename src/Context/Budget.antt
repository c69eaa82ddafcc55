-- ===== src/Context/Budget.antt =====
-- engine/open_hollywood_engine/context/compiler.py: what a compiled packet holds, and that it fits.
use open_hollywood.Context.Manifests.{manifest_for, AgentDependencyManifest, Registry}
use open_hollywood.Context.Contracts.{
  packet_tokens, NearbySummary, ContextPacket, StoryBibleSection, VersionedArtifact,
  ContextPacketRequest,
}
use open_hollywood.Context.Compiler.{
  used_ids, packet_of, count, input_version_ids, render, add_summaries, add_artifacts, add_summary,
  add_artifact, compile, compile_with, mandatory, select_context, Selection, ContextTools,
}
use open_hollywood.Context.Sources.{prepare_parts, CompilationParts}
use open_hollywood.Prelude.{
  if-false, if-true, leb→le, Bool-cases, is_unique, ok-injective, ℕ, ◌≤◌, ◌≡◌, refl, sym, ◌∙◌,
  subst, ap, ◌⊎◌, inl, inr, List, [], ◌∷◌, ok, ◌>>=◌, >>=-eq-ok, guard-bind, if◌then◌else◌,
  string_eq, nat_eq, leb, String,
}

module _ (tools : ContextTools) (r : ContextPacketRequest) (m : AgentDependencyManifest) where
  -- A trial is kept when it fits; otherwise the loop goes on from `other`.
  pub trial-cases :
      (artifacts : List VersionedArtifact) (sections : List StoryBibleSection)
      (summaries : List NearbySummary) (keep : String → ℕ → Selection) (other : Selection)
      {next : Selection}
      → (render tools r m artifacts sections summaries >>= λ text. count tools text >>= λ tokens.
          ok (if leb tokens (packet_tokens r.budget) then keep text tokens else other))
        ≡ ok next
      → ((text : String) × (tokens : ℕ) × (render tools r m artifacts sections summaries ≡ ok text)
          × (count tools text ≡ ok tokens)
          × (tokens ≤ packet_tokens r.budget)
          × (keep text tokens ≡ next))
        ⊎ (other ≡ next)
  trial-cases artifacts sections summaries keep other h =
      let (text, rendered, h1) = >>=-eq-ok (render tools r m artifacts sections summaries) _ h in
      let (tokens, counted_as, h2) = >>=-eq-ok (count tools text) _ h1 in
      elim (Bool-cases (leb tokens (packet_tokens r.budget))) [
        | inl fits ↦ inl (
          text,
          tokens,
          rendered,
          counted_as,
          leb→le _ _ fits,
          sym (if-true _ _ _ fits) ∙ ok-injective h2,
        )
        | inr over ↦ inr (sym (if-false _ _ _ over) ∙ ok-injective h2)
      ]

  -- The selection's text is what it includes, its tokens are those of the text, and they fit.
  pub record Fits (sections : List StoryBibleSection) (chosen : Selection) : Type 0 where
    pub bounded : chosen.content_tokens ≤ packet_tokens r.budget
    pub rendered :
        render tools r m chosen.included_artifacts sections chosen.included_summaries
        ≡ ok chosen.content_text
    pub counted_as : count tools chosen.content_text ≡ ok chosen.content_tokens

  module _ (sections : List StoryBibleSection) where
    add_artifact-Fits :
        (chosen next : Selection) (artifact : VersionedArtifact)
        → Fits sections chosen
        → add_artifact tools r m sections chosen artifact ≡ ok next
        → Fits sections next
    unfolding add_artifact
    add_artifact-Fits chosen next artifact fits h = elim (trial-cases _ sections _ _ _ h) [
      | inl (text, tokens, rendered, counted_as, bounded, e) ↦
          subst (Fits sections) e
            (record { bounded = bounded; rendered = rendered; counted_as = counted_as })
      | inr e ↦ subst (Fits sections) e (record {
        bounded = fits.bounded;
        rendered = fits.rendered;
        counted_as = fits.counted_as;
      })
    ]

    add_summary-Fits :
        (chosen next : Selection) (summary : NearbySummary)
        → Fits sections chosen
        → add_summary tools r m sections chosen summary ≡ ok next
        → Fits sections next
    unfolding add_summary
    add_summary-Fits chosen next summary fits h = elim (trial-cases _ sections _ _ _ h) [
      | inl (text, tokens, rendered, counted_as, bounded, e) ↦
          subst (Fits sections) e
            (record { bounded = bounded; rendered = rendered; counted_as = counted_as })
      | inr e ↦ subst (Fits sections) e (record {
        bounded = fits.bounded;
        rendered = fits.rendered;
        counted_as = fits.counted_as;
      })
    ]

  -- A property that each trial keeps is kept by the loops.
  module _ (P : Selection → Type 0) (sections : List StoryBibleSection) where
    pub add_artifacts-keeps :
        (chosen next : Selection) (xs : List VersionedArtifact)
        → ((c d : Selection) (x : VersionedArtifact)
            → P c
            → add_artifact tools r m sections c x ≡ ok d
            → P d)
        → P chosen
        → add_artifacts tools r m sections chosen xs ≡ ok next
        → P next
    unfolding add_artifacts
    add_artifacts-keeps chosen next [] kept p h = subst P (ok-injective h) p
    add_artifacts-keeps chosen next (x ∷ xs) kept p h =
        let (d, hd, rest) = >>=-eq-ok (add_artifact tools r m sections chosen x) _ h in
        add_artifacts-keeps d next xs kept (kept chosen d x p hd) rest

    pub add_summaries-keeps :
        (chosen next : Selection) (xs : List NearbySummary)
        → ((c d : Selection) (x : NearbySummary)
            → P c
            → add_summary tools r m sections c x ≡ ok d
            → P d)
        → P chosen
        → add_summaries tools r m sections chosen xs ≡ ok next
        → P next
    unfolding add_summaries
    add_summaries-keeps chosen next [] kept p h = subst P (ok-injective h) p
    add_summaries-keeps chosen next (x ∷ xs) kept p h =
        let (d, hd, rest) = >>=-eq-ok (add_summary tools r m sections chosen x) _ h in
        add_summaries-keeps d next xs kept (kept chosen d x p hd) rest

  -- A property of the mandatory packet that each trial keeps holds of what is selected.
  pub select_context-keeps :
      (P : Selection → Type 0) (parts : CompilationParts) (chosen : Selection)
      → ((c : Selection) → mandatory tools r m parts ≡ ok c → P c)
      → ((c d : Selection) (x : VersionedArtifact)
          → P c
          → add_artifact tools r m parts.bible_sections c x ≡ ok d
          → P d)
      → ((c d : Selection) (x : NearbySummary)
          → P c
          → add_summary tools r m parts.bible_sections c x ≡ ok d
          → P d)
      → select_context tools r m parts ≡ ok chosen
      → P chosen
  unfolding select_context
  select_context-keeps P parts chosen start keep_artifact keep_summary h =
      let (c, hc, h1) = >>=-eq-ok (mandatory tools r m parts) _ h in
      let (d, hd, h2) =
        >>=-eq-ok (add_artifacts tools r m parts.bible_sections c parts.optional_artifacts) _ h1 in
      add_summaries-keeps P parts.bible_sections d chosen parts.optional_summaries keep_summary
        (add_artifacts-keeps P parts.bible_sections c d parts.optional_artifacts keep_artifact
          (start c hc) hd)
        h2

  mandatory-Fits :
      (parts : CompilationParts) (c : Selection)
      → mandatory tools r m parts ≡ ok c
      → Fits parts.bible_sections c
  unfolding mandatory
  mandatory-Fits parts c h =
      let (text, rendered, h1) =
        >>=-eq-ok
          (render tools r m parts.required_artifacts parts.bible_sections parts.required_summaries)
          _ h in
      let (tokens, counted_as, h2) = >>=-eq-ok (count tools text) _ h1 in
      let (fits, h3) = guard-bind (leb tokens (packet_tokens r.budget)) _ _ h2 in
      subst (Fits parts.bible_sections) (ok-injective h3)
        (record { bounded = leb→le _ _ fits; rendered = rendered; counted_as = counted_as })

  pub select_context-Fits :
      (parts : CompilationParts) (chosen : Selection)
      → select_context tools r m parts ≡ ok chosen
      → Fits parts.bible_sections chosen
  select_context-Fits parts chosen =
      select_context-keeps (Fits parts.bible_sections) parts chosen (mandatory-Fits parts)
        (add_artifact-Fits parts.bible_sections) (add_summary-Fits parts.bible_sections)

  -- What a packet is made of.
  pub record MadeOf (p : ContextPacket) : Type 0 where
    pub parts : CompilationParts
    pub prepared : prepare_parts r m ≡ ok parts
    pub chosen : Selection
    pub selected : select_context tools r m parts ≡ ok chosen
    pub same_packet :
        packet_of tools r m chosen
          (used_ids r chosen.included_artifacts parts.bible_sections chosen.included_summaries)
        ≡ p

  compile_with-MadeOf : (p : ContextPacket) → compile_with tools r m ≡ ok p → MadeOf p
  unfolding compile_with input_version_ids
  compile_with-MadeOf p h =
      let (parts, prepared, h1) = >>=-eq-ok (prepare_parts r m) _ h in
      let (chosen, selected, h2) = >>=-eq-ok (select_context tools r m parts) _ h1 in
      let (ids, hi, h3) =
        >>=-eq-ok
          (input_version_ids r chosen.included_artifacts parts.bible_sections
            chosen.included_summaries)
          _ h2 in
      let (fresh, h4) =
        guard-bind
          (is_unique
            (used_ids r chosen.included_artifacts parts.bible_sections chosen.included_summaries))
          _ _ hi in
      record {
        parts = parts;
        prepared = prepared;
        chosen = chosen;
        selected = selected;
        same_packet = ap (packet_of tools r m chosen) (ok-injective h4) ∙ ok-injective h3;
      }

  pub compile-MadeOf :
      (manifests : Registry) (p : ContextPacket)
      → manifest_for r.specialist_role manifests ≡ ok m
      → compile tools manifests r ≡ ok p
      → MadeOf p
  unfolding compile
  compile-MadeOf manifests p known h =
      compile_with-MadeOf p (subst (λ x. (x >>= compile_with tools r) ≡ ok p) known h)

-- What a packet promises of its content.
pub record IsBounded (tools : ContextTools) (r : ContextPacketRequest) (m : AgentDependencyManifest)
    (p : ContextPacket) : Type 0 where
  pub artifacts : List VersionedArtifact
  pub sections : List StoryBibleSection
  pub summaries : List NearbySummary
  pub content_of : render tools r m artifacts sections summaries ≡ ok p.packet_content
  pub ids_of : used_ids r artifacts sections summaries ≡ p.input_artifact_version_ids
  pub tokens_of : count tools p.packet_content ≡ ok p.estimated_tokens
  pub bounded_by : p.estimated_tokens ≤ packet_tokens r.budget

-- A compiled packet is the rendering of some artifacts, sections and summaries; its version IDs are
-- exactly theirs, its estimate is the counter's, and the estimate is within the request's budget.
pub compile-IsBounded :
    (tools : ContextTools) (manifests : Registry) (r : ContextPacketRequest)
    (m : AgentDependencyManifest) (p : ContextPacket)
    → manifest_for r.specialist_role manifests ≡ ok m
    → compile tools manifests r ≡ ok p
    → IsBounded tools r m p
compile-IsBounded tools manifests r m p known h =
    let made = compile-MadeOf tools r m manifests p known h in
    let fits = select_context-Fits tools r m made.parts made.chosen made.selected in
    subst (IsBounded tools r m) made.same_packet (record {
      artifacts = made.chosen.included_artifacts;
      sections = made.parts.bible_sections;
      summaries = made.chosen.included_summaries;
      content_of = fits.rendered;
      ids_of = refl;
      tokens_of = fits.counted_as;
      bounded_by = fits.bounded;
    })
