-- ===== src/Production/Rules.antt =====
-- The `__post_init__` rules of production_contracts.py, and the envelope on graph steps.
use open_hollywood.Prelude.{
  ℕ, ◌+◌, ◌*◌, String, Bool, false, Option, none, some, List, [], ◌∷◌, ◌++◌, map, ◌&&◌, not, ◌==◌,
  nat_eq, string_eq, is_unique, is_blank, all, leb, length, subset, opt_list,
}
use open_hollywood.Artifacts.{
  ArtifactReference, kind_eq, character, scene_plan, story_blueprint, story_bible, scene_draft,
  critique, continuity_report, story_bible_update, reference_is,
}
use open_hollywood.Artifacts.BibleRules.{counts_from}
use open_hollywood.Models.{call_budget_valid}
use open_hollywood.Dialogue.{unique_text, default_max_dialogue_rounds}
use open_hollywood.Production.Contracts.{
  ProductionCharacterReference, DialoguePassConfiguration, ProductionUnitInput,
  SceneProductionInput, AcceptedProductionUnit, SceneProductionResult, min_production_units,
  max_production_units, max_revision_cycles,
}

-- `_require_unique_versions`
abbrev pub unique_versions : List ArtifactReference → Bool
unique_versions references = is_unique (map (λ r. r.version_id) references)

-- `ProductionCharacterReference.__post_init__`
abbrev pub character_valid : ProductionCharacterReference → Bool
character_valid c = not (is_blank c.character_id) && c.artifact.kind == character

-- `DialoguePassConfiguration.__post_init__`
abbrev pub configuration_valid : DialoguePassConfiguration → Bool
configuration_valid d =
    unique_text (d.first_id ∷ d.second_id ∷ [])
    && unique_text d.ending_options
    && leb 1 d.minimum_rounds
    && leb d.minimum_rounds d.maximum_rounds
    && leb d.maximum_rounds default_max_dialogue_rounds

abbrev pub configured_ids : Option DialoguePassConfiguration → List String
configured_ids none = []
configured_ids (some d) = d.first_id ∷ d.second_id ∷ []

-- `ProductionUnitInput.__post_init__`, with the rules of its parts.
unfoldable pub unit_valid : ProductionUnitInput → Bool
unit_valid u =
    let character_ids = map (λ c. c.character_id) u.characters in
    all character_valid u.characters
    && all configuration_valid (opt_list u.dialogue_configuration)
    && not (is_blank u.unit_id)
    && leb 1 u.unit_number
    && u.plan.kind == scene_plan
    && unique_text character_ids
    && subset (configured_ids u.dialogue_configuration) character_ids
    && unique_versions (u.plan ∷ (map (λ c. c.artifact) u.characters ++ u.context_artifacts))

-- `SceneProductionInput.__post_init__`, with the rules of its parts.
unfoldable pub production_valid : SceneProductionInput → Bool
production_valid p =
    all unit_valid p.units
    && call_budget_valid p.call_budget
    && p.approved_blueprint.kind == story_blueprint
    && p.initial_story_bible.kind == story_bible
    && not (is_blank p.prompt_template_version)
    && leb min_production_units (length p.units)
    && leb (length p.units) max_production_units
    && counts_from 1 (map (λ u. u.unit_number) p.units)
    && unique_text (map (λ u. u.unit_id) p.units)
    && leb p.maximum_revision_cycles max_revision_cycles
    && unique_versions (
        p.approved_blueprint
        ∷ p.initial_story_bible
        ∷ (p.global_context_artifacts ++ map (λ u. u.plan) p.units))

-- The steps of the dialogue subgraph of one attempt, with its integration.
abbrev pub dialogue_steps : Option DialoguePassConfiguration → ℕ
dialogue_steps none = 0
dialogue_steps (some d) = 1 + d.maximum_rounds * 3 + 1

abbrev pub steps_of_units : ℕ → List ProductionUnitInput → ℕ
steps_of_units attempts [] = 0
steps_of_units attempts (u ∷ us) =
    attempts * (3 + dialogue_steps u.dialogue_configuration) + 3 + steps_of_units attempts us

-- `SceneProductionInput.max_graph_steps`
unfoldable pub max_graph_steps : SceneProductionInput → ℕ
max_graph_steps p = steps_of_units (1 + p.maximum_revision_cycles) p.units

-- `AcceptedProductionUnit.__post_init__`
abbrev pub accepted_valid : AcceptedProductionUnit → Bool
accepted_valid a =
    not (is_blank a.unit_id)
    && leb 1 a.unit_number
    && a.artifact.kind == scene_draft
    && a.critique_artifact.kind == critique
    && a.continuity_artifact.kind == continuity_report
    && a.story_bible_update_artifact.kind == story_bible_update
    && a.story_bible_artifact.kind == story_bible

abbrev pub last_bible_is : ArtifactReference → List AcceptedProductionUnit → Bool
last_bible_is b [] = false
last_bible_is b (a ∷ []) = reference_is b a.story_bible_artifact
last_bible_is b (a ∷ c ∷ as') = last_bible_is b (c ∷ as')

-- `SceneProductionResult.__post_init__`
abbrev pub result_valid : SceneProductionResult → Bool
result_valid r =
    counts_from 1 (map (λ a. a.unit_number) r.accepted_units)
    && r.final_story_bible.kind == story_bible
    && last_bible_is r.final_story_bible r.accepted_units
