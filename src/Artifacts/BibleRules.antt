-- ===== src/Artifacts/BibleRules.antt =====
-- The model validators of `StoryBibleThread`, `StoryBible` and `StoryBibleUpdate`.
use open_hollywood.Prelude.{
  nat_eq, string_eq, ℕ, suc, String, Bool, true, List, [], ◌∷◌, ◌++◌, map, ◌&&◌, ◌||◌, not, ◌==◌,
  all, is_unique, subset, is_none, is_some, Result, require, opt_list,
}
use open_hollywood.Artifacts.Bible.{
  StoryBibleTimelineEvent, StoryBibleFact, StoryBibleCharacterState, StoryBibleRelationshipState,
  StoryBibleLocationState, StoryBibleThread, StoryBible, StoryBibleUpdate, is_resolved,
}

-- What a `ValueError` of the validators reports, with the label that its message carries.
pub data SchemaError : Type 0 where
  not_unique : String → SchemaError
  unknown_ids : String → SchemaError
  not_contiguous : String → SchemaError
  open_with_resolution resolved_without_resolution : SchemaError
  foreign_event foreign_fact foreign_state foreign_resolution : SchemaError
  empty_field : String → SchemaError

abbrev pub Check : Type 0
Check = Bool × SchemaError

-- `_unique_key`, `_unique_text` and `_unique_ids`, which all compare a sequence with its set.
abbrev pub unique_key : List String → String → Check
unique_key items label = (is_unique items, not_unique label)

abbrev pub require_known : List String → List String → String → Check
require_known references known label = (subset references known, unknown_ids label)

-- `values == list(range(k, k + len(values)))`
abbrev pub counts_from : ℕ → List ℕ → Bool
counts_from k [] = true
counts_from k (x ∷ xs) = x == k && counts_from (suc k) xs

abbrev pub require_contiguous : List ℕ → String → Check
require_contiguous values label = (counts_from 1 values, not_contiguous label)

-- The guards of a `for` loop, item by item.
abbrev pub for_each {ℓ} : {A : Type ℓ} → (A → List Check) → List A → List Check
for_each f [] = []
for_each f (x ∷ xs) = f x ++ for_each f xs

abbrev pub thread_checks : StoryBibleThread → List Check
thread_checks t =
    (
      is_resolved t.status || (is_none t.resolved_scene_id && is_none t.resolution),
      open_with_resolution,
    )
    ∷ (
      not (is_resolved t.status) || (is_some t.resolved_scene_id && is_some t.resolution),
      resolved_without_resolution,
    )
    ∷ []

-- `StoryBibleThread.resolution_must_match_status`
unfoldable pub resolution_must_match_status : StoryBibleThread → Result SchemaError (Unit {0})
resolution_must_match_status t = require (thread_checks t)

abbrev pub scene_ids : StoryBible → List String
scene_ids b = map (λ s. s.scene_id) b.accepted_scenes

abbrev pub event_checks : StoryBible → StoryBibleTimelineEvent → List Check
event_checks b event =
    require_known (event.scene_id ∷ []) (scene_ids b) "timeline event scene"
    ∷ require_known event.character_ids b.character_ids "timeline event character"
    ∷ require_known (opt_list event.location_id) b.location_ids "timeline event location"
    ∷ []

abbrev pub fact_checks : StoryBible → StoryBibleFact → List Check
fact_checks b fact =
    require_known (fact.established_scene_id ∷ []) (scene_ids b) "fact scene"
    ∷ require_known fact.character_ids b.character_ids "fact character"
    ∷ require_known fact.location_ids b.location_ids "fact location"
    ∷ []

abbrev pub character_state_checks : StoryBible → StoryBibleCharacterState → List Check
character_state_checks b s =
    require_known (s.character_id ∷ []) b.character_ids "character state character"
    ∷ require_known (s.last_updated_scene_id ∷ []) (scene_ids b) "character state scene"
    ∷ require_known s.knowledge_fact_ids (map (λ f. f.id) b.established_facts)
        "character state fact"
    ∷ require_known (opt_list s.current_location_id) b.location_ids "character state location"
    ∷ []

abbrev pub relationship_state_checks : StoryBible → StoryBibleRelationshipState → List Check
relationship_state_checks b s =
    require_known (s.relationship_id ∷ []) b.relationship_ids "relationship state relationship"
    ∷ require_known (s.last_updated_scene_id ∷ []) (scene_ids b) "relationship state scene"
    ∷ []

abbrev pub location_state_checks : StoryBible → StoryBibleLocationState → List Check
location_state_checks b s =
    require_known (s.location_id ∷ []) b.location_ids "location state location"
    ∷ require_known (s.last_updated_scene_id ∷ []) (scene_ids b) "location state scene"
    ∷ []

abbrev pub thread_reference_checks : StoryBible → StoryBibleThread → List Check
thread_reference_checks b t =
    require_known (t.introduced_scene_id ∷ []) (scene_ids b) "story thread introduction"
    ∷ require_known (opt_list t.resolved_scene_id) (scene_ids b) "story thread resolution"
    ∷ []

-- The guards on the shape of the state: no repeated key, no gap in the numbering.
abbrev pub shape_checks : StoryBible → List Check
shape_checks b =
    unique_key b.character_ids "story-bible character IDs"
    ∷ unique_key b.relationship_ids "story-bible relationship IDs"
    ∷ unique_key b.location_ids "story-bible location IDs"
    ∷ unique_key b.world_rule_ids "story-bible world-rule IDs"
    ∷ unique_key (scene_ids b) "accepted scene IDs"
    ∷ (
      is_unique (map (λ s. s.artifact_version_id) b.accepted_scenes),
      not_unique "accepted scene artifact versions",
    )
    ∷ require_contiguous (map (λ s. s.scene_number) b.accepted_scenes) "accepted scene number"
    ∷ unique_key (map (λ e. e.id) b.timeline) "timeline event"
    ∷ require_contiguous (map (λ e. e.sequence) b.timeline) "timeline event sequence"
    ∷ unique_key (map (λ f. f.id) b.established_facts) "established fact"
    ∷ unique_key (map (λ s. s.character_id) b.character_states) "character state IDs"
    ∷ unique_key (map (λ s. s.relationship_id) b.relationship_states) "relationship state IDs"
    ∷ unique_key (map (λ s. s.location_id) b.location_states) "location state IDs"
    ∷ unique_key (map (λ t. t.id) b.threads) "story thread"
    ∷ unique_key b.prohibited_contradictions "prohibited contradictions"
    ∷ []

-- The guards on references: each names something that the state holds.
abbrev pub reference_checks : StoryBible → List Check
reference_checks b =
    for_each (event_checks b) b.timeline
    ++ (for_each (fact_checks b) b.established_facts
        ++ (for_each (character_state_checks b) b.character_states
            ++ (for_each (relationship_state_checks b) b.relationship_states
                ++ (for_each (location_state_checks b) b.location_states
                    ++ for_each (thread_reference_checks b) b.threads))))

-- `StoryBible.validate_canonical_state`
unfoldable pub validate_canonical_state : StoryBible → Result SchemaError (Unit {0})
validate_canonical_state b = require (shape_checks b ++ reference_checks b)

-- `StoryBibleUpdate.updates_must_be_tied_to_accepted_scene`
unfoldable pub updates_must_be_tied_to_accepted_scene :
    StoryBibleUpdate → Result SchemaError (Unit {0})
updates_must_be_tied_to_accepted_scene u =
    let scene_id = u.accepted_scene.scene_id in
    require (
      (all (λ e. e.scene_id == scene_id) u.timeline_events, foreign_event)
      ∷ (all (λ f. f.established_scene_id == scene_id) u.established_facts, foreign_fact)
      ∷ (
        all (λ s. s.last_updated_scene_id == scene_id) u.character_states
            && all (λ s. s.last_updated_scene_id == scene_id) u.relationship_states
            && all (λ s. s.last_updated_scene_id == scene_id) u.location_states,
        foreign_state,
      )
      ∷ (
        all (λ t. all (λ r. r == scene_id) (opt_list t.resolved_scene_id)) u.thread_changes,
        foreign_resolution,
      )
      ∷ [])
