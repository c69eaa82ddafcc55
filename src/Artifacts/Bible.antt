-- ===== src/Artifacts/Bible.antt =====
-- The canonical story state of artifacts/schemas.py: `StoryBible` and `StoryBibleUpdate`.
use open_hollywood.Prelude.{ℕ, String, Bool, true, false, Option, List}

pub data StoryThreadKind : Type 0 where
  mystery promise : StoryThreadKind

pub data StoryThreadStatus : Type 0 where
  open_thread resolved : StoryThreadStatus

pub record StoryBibleScene : Type 0 where
  pub scene_id : String
  pub scene_number : ℕ
  pub artifact_version_id : ℕ

pub record StoryBibleTimelineEvent : Type 0 where
  pub id : String
  pub sequence : ℕ
  pub scene_id : String
  pub time_context : String
  pub summary : String
  pub character_ids : List String
  pub location_id : Option String

pub record StoryBibleFact : Type 0 where
  pub id : String
  pub statement : String
  pub established_scene_id : String
  pub character_ids : List String
  pub location_ids : List String

pub record StoryBibleCharacterState : Type 0 where
  pub character_id : String
  pub current_location_id : Option String
  pub physical_state : String
  pub emotional_state : String
  pub current_goal : String
  pub knowledge_fact_ids : List String
  pub last_updated_scene_id : String

pub record StoryBibleRelationshipState : Type 0 where
  pub relationship_id : String
  pub state : String
  pub last_updated_scene_id : String

pub record StoryBibleLocationState : Type 0 where
  pub location_id : String
  pub state : String
  pub last_updated_scene_id : String

pub record StoryBibleThread : Type 0 where
  pub id : String
  pub kind : StoryThreadKind
  pub statement : String
  pub introduced_scene_id : String
  pub status : StoryThreadStatus
  pub resolved_scene_id : Option String
  pub resolution : Option String

pub record StoryBible : Type 0 where
  pub source_blueprint_version_id : ℕ
  pub character_ids : List String
  pub relationship_ids : List String
  pub location_ids : List String
  pub world_rule_ids : List String
  pub accepted_scenes : List StoryBibleScene
  pub timeline : List StoryBibleTimelineEvent
  pub established_facts : List StoryBibleFact
  pub character_states : List StoryBibleCharacterState
  pub relationship_states : List StoryBibleRelationshipState
  pub location_states : List StoryBibleLocationState
  pub threads : List StoryBibleThread
  pub prohibited_contradictions : List String

pub record StoryBibleUpdate : Type 0 where
  pub source_story_bible_version_id : ℕ
  pub continuity_report_version_id : ℕ
  pub accepted_scene : StoryBibleScene
  pub timeline_events : List StoryBibleTimelineEvent
  pub established_facts : List StoryBibleFact
  pub character_states : List StoryBibleCharacterState
  pub relationship_states : List StoryBibleRelationshipState
  pub location_states : List StoryBibleLocationState
  pub thread_changes : List StoryBibleThread
  pub prohibited_contradictions : List String

abbrev pub thread_kind_is : StoryThreadKind → StoryThreadKind → Bool
thread_kind_is mystery mystery = true
thread_kind_is promise promise = true
thread_kind_is _ _ = false

abbrev pub is_resolved : StoryThreadStatus → Bool
is_resolved resolved = true
is_resolved _ = false
