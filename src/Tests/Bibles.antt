-- ===== src/Tests/Bibles.antt =====
-- A story bible of two scenes, with a thread that the second resolves.
use open_hollywood.StoryBible.{
  apply_story_bible_update, reduce, construct, constructed, upsert, replace_known, ReduceError,
  invalid,
}
use open_hollywood.StoryBible.History.{
  here, next, Extends, Evolves-Extends, Evolves-Continues, apply-character_states,
}
use open_hollywood.StoryBible.Threads.{Continues}
use open_hollywood.StoryBible.Canonical.{apply-eq-reference_checks}
use open_hollywood.Artifacts.BibleRules.{SchemaError, validate_canonical_state, reference_checks}
use open_hollywood.Artifacts.{
  mystery, open_thread, resolved, StoryThreadStatus, StoryBibleThread, StoryBible, StoryBibleUpdate,
}
use open_hollywood.Prelude.{
  find, or_else, require, ℕ, ◌+◌, ◌≡◌, refl, Option, none, some, [], ◌∷◌, Result, ok, raise,
  string_eq, nat_eq, String,
}
use open_hollywood.Tests.Samples.{bible_with}

abbrev mystery_of : StoryThreadStatus → Option String → Option String → StoryBibleThread
mystery_of status scene resolution = record {
  id = "who";
  kind = mystery;
  statement = "Who rang the bell?";
  introduced_scene_id = "arrival";
  status = status;
  resolved_scene_id = scene;
  resolution = resolution;
}

abbrev update_of : String → ℕ → String → StoryBibleThread → StoryBibleUpdate
update_of id number mood thread = record {
  source_story_bible_version_id = 4;
  continuity_report_version_id = 5;
  accepted_scene = record {
    scene_id = id;
    scene_number = number;
    artifact_version_id = 100 + number;
  };
  timeline_events =
      record {
        id = id;
        sequence = number;
        scene_id = id;
        time_context = "night";
        summary = "Rain.";
        character_ids = "ada" ∷ [];
        location_id = some "dock";
      }
      ∷ [];
  established_facts = [];
  character_states =
      record {
        character_id = "ada";
        current_location_id = some "dock";
        physical_state = "wet";
        emotional_state = mood;
        current_goal = "home";
        knowledge_fact_ids = [];
        last_updated_scene_id = id;
      }
      ∷ [];
  relationship_states = [];
  location_states = [];
  thread_changes = thread ∷ [];
  prohibited_contradictions = [];
}

abbrev first_update : StoryBibleUpdate
first_update = update_of "arrival" 1 "wary" (mystery_of open_thread none none)

abbrev second_update : StoryBibleUpdate
second_update =
    update_of "storm" 2 "calm" (mystery_of resolved (some "storm") (some "The ferryman."))

abbrev applied : Result ReduceError StoryBible → StoryBible
applied (ok b) = b
applied (raise e) = bible_with []

abbrev after_first : StoryBible
after_first = applied (apply_story_bible_update (bible_with []) first_update)

abbrev after_second : StoryBible
after_second = applied (apply_story_bible_update after_first second_update)

first_applies : apply_story_bible_update (bible_with []) first_update ≡ ok after_first
unfolding apply_story_bible_update reduce construct validate_canonical_state upsert replace_known
first_applies = refl

second_applies : apply_story_bible_update after_first second_update ≡ ok after_second
unfolding apply_story_bible_update reduce construct validate_canonical_state upsert replace_known
second_applies = refl

Evolves-Extends_example : Extends (bible_with []) after_second
Evolves-Extends_example =
    Evolves-Extends (next (next here first_update first_applies) second_update second_applies)

first_valid : validate_canonical_state after_first ≡ ok tt
unfolding apply_story_bible_update reduce construct validate_canonical_state upsert replace_known
first_valid = refl

thread_there : find (λ x. x.id) "who" after_first.threads ≡ some (mystery_of open_thread none none)
unfolding apply_story_bible_update reduce construct validate_canonical_state upsert replace_known
thread_there = refl

Evolves-Continues_example :
    (t' : StoryBibleThread) × (find (λ x. x.id) "who" after_second.threads ≡ some t')
    × Continues (mystery_of open_thread none none) t'
Evolves-Continues_example =
    Evolves-Continues "who" (mystery_of open_thread none none) first_valid
      (next here second_update second_applies) thread_there

apply-character_states_example :
    find (λ s. s.character_id) "ada" after_second.character_states
    ≡ or_else
        (find (λ s. s.character_id) "ada" second_update.character_states)
        (find (λ s. s.character_id) "ada" after_first.character_states)
apply-character_states_example =
    apply-character_states after_first second_update after_second "ada" second_applies

-- A fact that cites a character the bible does not have: the reducer's guards pass, the class's do not.
abbrev foreign_update : StoryBibleUpdate
foreign_update = record second_update {
  established_facts =
      record {
        id = "fact";
        statement = "Cleo lied.";
        established_scene_id = "storm";
        character_ids = "cleo" ∷ [];
        location_ids = [];
      }
      ∷ [];
}

abbrev foreign_bible : StoryBible
foreign_bible = applied (reduce after_first foreign_update)

foreign_reduces : reduce after_first foreign_update ≡ ok foreign_bible
unfolding apply_story_bible_update reduce construct validate_canonical_state upsert replace_known
foreign_reduces = refl

apply-eq-reference_checks_example :
    apply_story_bible_update after_first foreign_update
    ≡ constructed (require (reference_checks foreign_bible)) foreign_bible
apply-eq-reference_checks_example =
    apply-eq-reference_checks after_first foreign_update foreign_bible first_valid foreign_reduces

-- What that application raises.
foreign_raises :
    apply_story_bible_update after_first foreign_update
    ≡ raise (invalid (SchemaError.unknown_ids "fact character"))
unfolding apply_story_bible_update reduce construct validate_canonical_state upsert replace_known
foreign_raises = refl
