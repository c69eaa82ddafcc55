-- ===== src/Tests/Samples.antt =====
-- A production of three scenes, the first with a dialogue, and executors that answer each task.
use open_hollywood.Dialogue.{
  DirectorEvaluationResult, CharacterTurnResult, DialogueSceneInput, DialogueExecutor,
  DirectorEvaluationTask, CharacterTurnTask,
}
use open_hollywood.Production.{
  StoryBibleUpdateResult, ContinuityCheckResult, SceneCritiqueResult, SceneDraftResult,
  SceneProductionExecutor, StoryBibleUpdateTask, ContinuityCheckTask, SceneCritiqueTask,
  ProductionUnitInput, SceneProductionInput, DialoguePassConfiguration,
  ProductionCharacterReference,
}
use open_hollywood.Models.{Decimal, ModelCallBudget}
use open_hollywood.Artifacts.{
  StoryBible, StoryBibleScene, CritiqueVerdict, scene_plan, scene_draft, story_blueprint,
  story_bible, story_bible_update, character, dialogue_briefing, dialogue_turn, dialogue_evaluation,
  opening, critique, continuity_report, kind_eq, ArtifactKind, ArtifactReference,
}
use open_hollywood.Prelude.{
  ℕ, ◌+◌, true, false, ◌&&◌, Option, none, some, List, [], ◌∷◌, ◌++◌, ok, if◌then◌else◌, ◌==◌,
  string_eq, nat_eq, String,
}

abbrev pub ref : ArtifactKind → ℕ → ArtifactReference
ref kind version = record {
  kind = kind;
  artifact_key = "artifact";
  version_id = version;
  schema_version = "1";
}

abbrev pub call_budget : ModelCallBudget
call_budget = record {
  max_input_tokens = 8000;
  max_output_tokens = 2000;
  max_cost_usd = Decimal.amount 25;
}

abbrev pub ada : ProductionCharacterReference
ada = record { character_id = "ada"; artifact = ref character 11 }

abbrev pub ben : ProductionCharacterReference
ben = record { character_id = "ben"; artifact = ref character 12 }

abbrev pub short_quarrel : DialoguePassConfiguration
short_quarrel = record {
  first_id = "ada";
  second_id = "ben";
  ending_options = "parting" ∷ "truce" ∷ [];
  minimum_rounds = 1;
  maximum_rounds = 2;
}

abbrev pub scene_unit : String → ℕ → Option DialoguePassConfiguration → ProductionUnitInput
scene_unit id number dialogue = record {
  unit_id = id;
  unit_number = number;
  plan = ref scene_plan (20 + number);
  characters = ada ∷ ben ∷ [];
  context_artifacts = [];
  dialogue_configuration = dialogue;
}

abbrev pub assignment : SceneProductionInput
assignment = record {
  workflow_run_id = 1;
  model_profile_id = 2;
  approved_blueprint = ref story_blueprint 3;
  initial_story_bible = ref story_bible 4;
  units =
      scene_unit "arrival" 1 (some short_quarrel)
      ∷ scene_unit "storm" 2 none
      ∷ scene_unit "harbour" 3 none
      ∷ [];
  global_context_artifacts = [];
  call_budget = call_budget;
  prompt_template_version = "1";
  maximum_revision_cycles = 2;
}

abbrev draft_for : ProductionUnitInput → ℕ → ℕ → SceneDraftResult
draft_for unit revision version = record {
  content = record {
    scene_id = unit.unit_id;
    scene_number = unit.unit_number;
    title = "A scene";
    revision_number = revision;
    prose = "Rain.";
    is_complete = true;
  };
  artifact = ref scene_draft version;
}

-- The second scene is sent back once.
abbrev verdict_for : ProductionUnitInput → ℕ → CritiqueVerdict
verdict_for unit revision =
    if unit.unit_number == 2 && revision == 0 then CritiqueVerdict.revise else CritiqueVerdict.pass

abbrev critique_for : SceneCritiqueTask → ℕ → SceneCritiqueResult
critique_for task version = record {
  content = record {
    target_artifact_kind = scene_draft;
    target_artifact_key = task.draft_artifact.artifact_key;
    target_artifact_version_id = task.draft_artifact.version_id;
    rubric_name = "scene";
    rubric_version = "1";
    summary = "Fine.";
    strengths = [];
    issues = [];
    scores = [];
    verdict = verdict_for task.unit task.revision_number;
  };
  artifact = ref critique version;
}

abbrev report_for : ContinuityCheckTask → ℕ → ContinuityCheckResult
report_for task version = record {
  report = record {
    story_bible_version_id = task.story_bible.version_id;
    scene_version_id = task.draft_artifact.version_id;
    scene_plan_version_id = task.unit.plan.version_id;
    scene_id = task.unit.unit_id;
    scene_number = task.unit.unit_number;
    checked_categories = [];
    findings = [];
  };
  artifact = ref continuity_report version;
}

abbrev scenes_of : List ProductionUnitInput → List ArtifactReference → List StoryBibleScene
scenes_of (u ∷ us) (a ∷ as') =
    record {
      scene_id = u.unit_id;
      scene_number = u.unit_number;
      artifact_version_id = a.version_id;
    }
    ∷ scenes_of us as'
scenes_of _ _ = []

abbrev pub bible_with : List StoryBibleScene → StoryBible
bible_with scenes = record {
  source_blueprint_version_id = 3;
  character_ids = "ada" ∷ "ben" ∷ [];
  relationship_ids = [];
  location_ids = "dock" ∷ [];
  world_rule_ids = [];
  accepted_scenes = scenes;
  timeline = [];
  established_facts = [];
  character_states = [];
  relationship_states = [];
  location_states = [];
  threads = [];
  prohibited_contradictions = [];
}

abbrev update_for : StoryBibleUpdateTask → ℕ → StoryBibleUpdateResult
update_for task n =
    let before = scenes_of task.production.units task.accepted_units in
    let scene : StoryBibleScene = record {
      scene_id = task.unit.unit_id;
      scene_number = task.unit.unit_number;
      artifact_version_id = task.accepted_draft.version_id;
    } in
    record {
      source_story_bible = bible_with before;
      update = record {
        source_story_bible_version_id = task.source_story_bible.version_id;
        continuity_report_version_id = task.continuity_report.version_id;
        accepted_scene = scene;
        timeline_events = [];
        established_facts = [];
        character_states = [];
        relationship_states = [];
        location_states = [];
        thread_changes = [];
        prohibited_contradictions = [];
      };
      story_bible = bible_with (before ++ scene ∷ []);
      update_artifact = ref story_bible_update (300 + n);
      story_bible_artifact = ref story_bible (400 + n);
    }

abbrev pub executor : SceneProductionExecutor
executor = record {
  write = λ n task. ok (draft_for task.unit task.revision_number (100 + n));
  integrate_dialogue = λ n task. ok (draft_for task.unit task.revision_number (100 + n));
  critique_scene = λ n task. ok (critique_for task (200 + n));
  check_continuity = λ n task. ok (report_for task (200 + n));
  update_story_bible = λ n task. ok (update_for task n);
}

abbrev turn_for : CharacterTurnTask → ℕ → CharacterTurnResult
turn_for task n = record {
  turn = record {
    scene_id = task.scene.scene_id;
    round_number = task.round_number;
    sequence_number = task.sequence_number;
    character_id = task.character.character_id;
    dialogue = "You came.";
    director_instruction = none;
  };
  artifact = ref dialogue_turn (500 + n);
}

abbrev evaluation_for : DirectorEvaluationTask → ℕ → DirectorEvaluationResult
evaluation_for task n = record {
  evaluation = record {
    round_number = task.round_number;
    emotional_arc = opening;
    arc_stages_hit = [];
    unresolved_threads = [];
    resolved_threads = [];
    closure_detected = false;
    ending_type = none;
    stage_direction = none;
    scene_end = false;
  };
  artifact = ref dialogue_evaluation (500 + n);
}

-- Actors who talk on, and a director who never ends the scene.
abbrev pub actors : DialogueExecutor
actors = record {
  brief = λ n task. ok (record {
    briefing = record { chosen_ending = "truce"; pacing_notes = "Slow." };
    artifact = ref dialogue_briefing (500 + n);
  });
  perform = λ n task. ok (turn_for task n);
  evaluate = λ n task. ok (evaluation_for task n);
}

-- A dialogue of two rounds.
abbrev pub quarrel : DialogueSceneInput
quarrel = record {
  workflow_run_id = 1;
  model_profile_id = 2;
  scene_id = "arrival";
  scene_plan_artifact = ref scene_plan 21;
  first = record { character_id = "ada"; artifact = ref character 11 };
  second = record { character_id = "ben"; artifact = ref character 12 };
  context_artifacts = [];
  ending_options = "parting" ∷ "truce" ∷ [];
  call_budget = call_budget;
  prompt_template_version = "1";
  minimum_rounds = 2;
  maximum_rounds = 2;
}
