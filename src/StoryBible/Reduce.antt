-- ===== src/StoryBible/Reduce.antt =====
-- `apply_story_bible_update` and `validate_story_bible_transition`.
use open_hollywood.Prelude.{
  ◌+◌, String, Bool, true, false, Option, none, some, List, [], ◌∷◌, ◌++◌, map, ◌&&◌, ◌||◌, not,
  ◌==◌, string_eq, nat_eq, elem, is_unique, disjoint, subset, length, Result, ok, raise, ◌>>=◌,
  ◌>>◌, require, guard, Dict, get, collect,
}
use open_hollywood.Artifacts.{
  StoryBibleThread, StoryBible, StoryBibleUpdate, thread_kind_is, is_resolved,
}
use open_hollywood.Artifacts.BibleRules.{
  SchemaError, counts_from, scene_ids, validate_canonical_state,
}
use open_hollywood.StoryBible.Upsert.{upsert, sorted}

-- The messages of `StoryBibleInvariantError`, and `invalid` for the `ValidationError` of the
-- `StoryBible` constructor, which is another class.
pub data ReduceError : Type 0 where
  wrong_scene_number scene_already_present version_already_present : ReduceError
  timeline_out_of_sequence : ReduceError
  repeated_ids : String → ReduceError
  existing_ids : String → ReduceError
  unknown_ids : String → ReduceError
  unknown_introduction changed_identity cannot_reopen changed_resolution : ReduceError
  repeated_prohibition known_prohibition repeated_update_keys not_the_transition : ReduceError
  invalid : SchemaError → ReduceError

abbrev pub Check : Type 0
Check = Bool × ReduceError

-- `_require_new_ids`
abbrev pub require_new_ids : List String → List String → String → List Check
require_new_ids proposed existing label =
    (is_unique proposed, repeated_ids label) ∷ (disjoint proposed existing, existing_ids label) ∷ []

-- `_require_known_ids`
abbrev pub require_known_ids : List String → List String → String → List Check
require_known_ids proposed known label =
    (is_unique proposed, repeated_ids label) ∷ (subset proposed known, unknown_ids label) ∷ []

-- Equality of optional texts.
abbrev pub optional_is : Option String → Option String → Bool
optional_is none none = true
optional_is (some a) (some b) = a == b
optional_is _ _ = false

-- The body of the loop over `update.thread_changes`, for a thread that is known.
abbrev pub known_thread_checks : StoryBibleThread → StoryBibleThread → List Check
known_thread_checks existing thread =
    (
      thread_kind_is thread.kind existing.kind
          && thread.statement == existing.statement
          && thread.introduced_scene_id == existing.introduced_scene_id,
      changed_identity,
    )
    ∷ (not (is_resolved existing.status && not (is_resolved thread.status)), cannot_reopen)
    ∷ (
      not (is_resolved existing.status)
          || (optional_is thread.resolved_scene_id existing.resolved_scene_id
              && optional_is thread.resolution existing.resolution),
      changed_resolution,
    )
    ∷ []

abbrev pub thread_change_checks :
    List String → Option StoryBibleThread → StoryBibleThread → List Check
thread_change_checks accepted none thread =
    (elem thread.introduced_scene_id accepted, unknown_introduction) ∷ []
thread_change_checks accepted (some existing) thread = known_thread_checks existing thread

abbrev pub all_thread_checks :
    List String → Dict String StoryBibleThread → List StoryBibleThread → List Check
all_thread_checks accepted current [] = []
all_thread_checks accepted current (t ∷ ts) =
    thread_change_checks accepted (get t.id current) t ++ all_thread_checks accepted current ts

-- The guards above the final constructor call, in order.
abbrev pub history_checks : StoryBible → StoryBibleUpdate → List Check
history_checks current update =
    let scene = update.accepted_scene in
    (scene.scene_number == length current.accepted_scenes + 1, wrong_scene_number)
    ∷ (not (elem scene.scene_id (scene_ids current)), scene_already_present)
    ∷ (
      not (
          elem scene.artifact_version_id
            (map (λ s. s.artifact_version_id) current.accepted_scenes)),
      version_already_present,
    )
    ∷ []

abbrev pub timeline_checks : StoryBible → StoryBibleUpdate → List Check
timeline_checks current update =
    require_new_ids (map (λ e. e.id) update.timeline_events) (map (λ e. e.id) current.timeline)
      "timeline event"
    ++ (
      counts_from (length current.timeline + 1) (map (λ e. e.sequence) update.timeline_events),
      timeline_out_of_sequence,
    )
      ∷ require_new_ids (map (λ f. f.id) update.established_facts)
          (map (λ f. f.id) current.established_facts) "established fact"

abbrev pub entity_checks : StoryBible → StoryBibleUpdate → List Check
entity_checks current update =
    require_known_ids (map (λ s. s.character_id) update.character_states) current.character_ids
      "character-state character"
    ++ (require_known_ids (map (λ s. s.relationship_id) update.relationship_states)
          current.relationship_ids "relationship-state relationship"
        ++ require_known_ids (map (λ s. s.location_id) update.location_states) current.location_ids
            "location-state location")

abbrev pub thread_checks : StoryBible → StoryBibleUpdate → List Check
thread_checks current update =
    all_thread_checks (update.accepted_scene.scene_id ∷ scene_ids current)
      (collect (λ t. t.id) [] current.threads) update.thread_changes

abbrev pub prohibition_checks : StoryBible → StoryBibleUpdate → List Check
prohibition_checks current update =
    (is_unique update.prohibited_contradictions, repeated_prohibition)
    ∷ (
      disjoint update.prohibited_contradictions current.prohibited_contradictions,
      known_prohibition,
    )
    ∷ []

-- The successor, before the validator of its class has run.
unfoldable pub reduce : StoryBible → StoryBibleUpdate → Result ReduceError StoryBible
reduce current update = do
  require (history_checks current update)
  require (timeline_checks current update)
  require (entity_checks current update)
  require (thread_checks current update)
  require (prohibition_checks current update)
  character_states ←
      upsert (λ s. s.character_id) repeated_update_keys current.character_states
        update.character_states
  relationship_states ←
      upsert (λ s. s.relationship_id) repeated_update_keys current.relationship_states
        update.relationship_states
  location_states ←
      upsert (λ s. s.location_id) repeated_update_keys current.location_states
        update.location_states
  threads ← upsert (λ t. t.id) repeated_update_keys current.threads update.thread_changes
  ok (record current {
    accepted_scenes = current.accepted_scenes ++ update.accepted_scene ∷ [];
    timeline = current.timeline ++ update.timeline_events;
    established_facts = current.established_facts ++ update.established_facts;
    character_states = character_states;
    relationship_states = relationship_states;
    location_states = location_states;
    threads = threads;
    prohibited_contradictions =
        current.prohibited_contradictions ++ sorted update.prohibited_contradictions;
  })

-- The verdict of the class's validator, as a result of the constructor.
abbrev pub constructed : Result SchemaError (Unit {0}) → StoryBible → Result ReduceError StoryBible
constructed (ok _) b = ok b
constructed (raise e) b = raise (invalid e)

-- Construction runs the class's validator.
unfoldable pub construct : StoryBible → Result ReduceError StoryBible
construct b = constructed (validate_canonical_state b) b

-- `apply_story_bible_update`
unfoldable pub apply_story_bible_update :
    StoryBible → StoryBibleUpdate → Result ReduceError StoryBible
apply_story_bible_update current update = do next ← reduce current update; construct next

-- `validate_story_bible_transition`, over the equality of two snapshots.
unfoldable pub validate_story_bible_transition :
    (StoryBible → StoryBible → Bool)
    → StoryBible
    → StoryBibleUpdate
    → StoryBible
    → Result ReduceError (Unit {0})
validate_story_bible_transition same current update candidate = do
  expected ← apply_story_bible_update current update
  guard (same candidate expected) not_the_transition
