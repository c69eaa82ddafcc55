-- ===== src/Context/Packets.antt =====
-- engine/open_hollywood_engine/context/compiler.py: what becomes of every source that a request
-- supplies.
use open_hollywood.Context.Budget.{compile-MadeOf}
use open_hollywood.Context.Accounting.{prepared_bible, selected_counts, bible_used}
use open_hollywood.Context.Contracts.{ContextPacket, ContextPacketRequest}
use open_hollywood.Context.Manifests.{IsManifest, manifest_for, AgentDependencyManifest, Registry}
use open_hollywood.Context.Compiler.{compile, ContextTools}
use open_hollywood.Context.Sources.{summary_ids, artifact_ids}
use open_hollywood.Prelude.{
  count_if-map, occurrences, ℕ, ◌+◌, ◌≡◌, subst, map, arith, ok, string_eq, nat_eq, nat_beq,
}

-- For every version ID, a packet lists it among its inputs and its omissions, together, exactly as often
-- as the request supplies it among the artifacts, the nearby summaries and, when the manifest names
-- sections, the story bible.
pub compile-accounts :
    (tools : ContextTools) (manifests : Registry) (r : ContextPacketRequest)
    (m : AgentDependencyManifest) (p : ContextPacket) (v : ℕ)
    → manifest_for r.specialist_role manifests ≡ ok m
    → IsManifest m
    → compile tools manifests r ≡ ok p
    → occurrences v p.input_artifact_version_ids
        + occurrences v (map (λ o. o.identifier) p.omitted_context)
      ≡ occurrences v (artifact_ids r.artifacts)
        + occurrences v (summary_ids r.nearby_summaries)
        + bible_used tools r m v m.story_bible_sections
compile-accounts tools manifests r m p v known valid h =
    let made = compile-MadeOf tools r m manifests p known h in
    subst
      (λ q.
        occurrences v q.input_artifact_version_ids
          + occurrences v (map (λ o. o.identifier) q.omitted_context)
        ≡ occurrences v (artifact_ids r.artifacts)
          + occurrences v (summary_ids r.nearby_summaries)
          + bible_used tools r m v m.story_bible_sections)
      made.same_packet
      (omega (
        arith,
        selected_counts tools r m v made.parts made.chosen valid made.prepared made.selected,
        prepared_bible tools r m v made.parts made.prepared,
        count_if-map (nat_beq v) (λ o. o.identifier) made.chosen.omitted,
        count_if-map (nat_beq v) (λ a. a.version_id) r.artifacts,
        count_if-map (nat_beq v) (λ s. s.summary_version_id) r.nearby_summaries,
      ))
