-- ===== src/Tests/Productions.antt =====
-- Runs of the production graph, and decisions of its review gate.
use open_hollywood.Prelude.{
  ◌≤◌, ◌≡◌, ◌≢◌, refl, true, false, Option, none, some, List, [], ◌∷◌, arith, Result, ok, raise,
  if◌then◌else◌, string_eq, nat_eq, run, Bool-cases, is_blank,
}
use open_hollywood.Production.Bounded.{produce-ne-recursion_limit, produce-ne-not_terminal}
use open_hollywood.Production.Progress.{produce-AllAccepted, AllAccepted}
use open_hollywood.Production.Gates.{review_disposition-accepts}
use open_hollywood.Production.{
  review_disposition, accepted_as, revise, eligible, revision_limit_reached, passed_rubric,
  adjudication_status, writing_task, with_dialogue, validate_story_bible_update, validate_draft,
  validate_critique, validate_continuity, update_task, unique_references_from, unique_references,
  story_bible_update_node, production_from_state, previous_inputs, is_update_for, is_critic_gate,
  is_continuity_gate, integration_task, integrated, has_known_versions, has_known_identities,
  drafted, draft_node, disputed_critique_task, dispose, dialogue_scene_input, dialogue_pass_node,
  dialogue_outcome, dialogue_integration_node, dialogue_character, current_unit,
  current_critique_history, critiqued, critique_task, critique_node, critic_adjudication_node,
  critic_adjudicated, continuity_task, continuity_outcome, continuity_node,
  continuity_adjudication_node, checked, blocking_indexes, blocking_count, bible_updated,
  adjudicated, adjudicable_count, accepted_artifacts, accept_unit, accept_node,
  initial_production_state, produce, max_graph_steps, production_valid, unit_valid, ProductionError,
  ProductionState,
}
use open_hollywood.Artifacts.{
  ContinuityFinding, ContinuityReport, ContinuitySeverity, ContinuityCategory, contradiction,
  has_blocking_findings, Nat-discrete, bible_is, StoryBible-discrete, String-discrete,
}
use mathlib.Core.Bool.{decide}
use open_hollywood.Artifacts.BibleRules.{validate_canonical_state}
use open_hollywood.Dialogue.{
  DialogueError, validate_turn, validate_evaluation, validate_briefing, scene_from_state,
  is_round_complete, is_actor_turn, initial_dialogue_state, director_task, director_node,
  dialogue_result_from_state, close_round, character_task, character_node, briefing_node,
}
use open_hollywood.StoryBible.{
  validate_story_bible_transition, upsert, replace_known, reduce, construct,
  apply_story_bible_update,
}
use open_hollywood.Tests.Samples.{actors, executor, assignment}
use open_hollywood.Production
use open_hollywood.Dialogue

abbrev produced : Result ProductionError ProductionState → ProductionState
produced (ok s) = s
produced (raise e) = initial_production_state assignment

abbrev finished : ProductionState
finished = produced (produce executor actors 20 (initial_production_state assignment))

envelope : max_graph_steps assignment ≡ 60
unfolding max_graph_steps
envelope = refl

assignment_valid : production_valid assignment ≡ true
unfolding production_valid unit_valid is_blank
assignment_valid = refl

abbrev failure : Result ProductionError ProductionState → Option ProductionError
failure (ok s) = none
failure (raise e) = some e

without_failure :
    (r : Result ProductionError ProductionState) → failure r ≡ none → r ≡ ok (produced r)
without_failure (ok s) h = refl
without_failure (raise e) h = cc h

-- The run takes 20 steps, seven of them for the scene with a dialogue and eight for the revised one.
finishes : failure (produce executor actors 20 (initial_production_state assignment)) ≡ none
unfolding bible_is StoryBible-discrete String-discrete Nat-discrete accept_node accept_unit
    accepted_artifacts adjudicable_count adjudicated adjudication_status apply_story_bible_update
    bible_updated blocking_count blocking_indexes briefing_node character_node character_task
    checked close_round construct continuity_adjudication_node continuity_node continuity_outcome
    continuity_task critic_adjudicated critic_adjudication_node critique_node critique_task
    critiqued current_critique_history current_unit dialogue_character dialogue_integration_node
    dialogue_outcome dialogue_pass_node dialogue_result_from_state dialogue_scene_input
    director_node director_task dispose disputed_critique_task draft_node drafted
    has_blocking_findings has_known_identities has_known_versions initial_dialogue_state
    initial_production_state integrated integration_task is_actor_turn is_blank is_continuity_gate
    is_critic_gate is_round_complete is_update_for previous_inputs produce production_from_state
    production_valid reduce replace_known review_disposition run scene_from_state
    story_bible_update_node unique_references unique_references_from unit_valid update_task upsert
    validate_briefing validate_canonical_state validate_continuity validate_critique validate_draft
    validate_evaluation validate_story_bible_transition validate_story_bible_update validate_turn
    with_dialogue writing_task decide Bool-cases Production.node_step Production.route
    Dialogue.node_step Dialogue.route
finishes = refl

produce-AllAccepted_example : AllAccepted assignment finished
produce-AllAccepted_example =
    produce-AllAccepted assignment executor actors 20 (without_failure _ finishes)

within_envelope : max_graph_steps assignment ≤ 60
within_envelope = omega (arith, envelope)

produce-ne-recursion_limit_example :
    (produce executor actors 60 (initial_production_state assignment)
      ≢ raise ProductionError.recursion_limit)
    × (produce executor actors 60 (initial_production_state assignment)
        ≢ raise (ProductionError.dialogue_failed DialogueError.recursion_limit))
produce-ne-recursion_limit_example =
    produce-ne-recursion_limit assignment executor actors 60 assignment_valid within_envelope

produce-ne-not_terminal_example :
    (produce executor actors 60 (initial_production_state assignment)
      ≢ raise ProductionError.critic_adjudication_not_terminal)
    × (produce executor actors 60 (initial_production_state assignment)
        ≢ raise ProductionError.adjudication_not_terminal)
produce-ne-not_terminal_example =
    produce-ne-not_terminal assignment executor actors 60 within_envelope

abbrev finding : ContinuityFinding
finding = record {
  id = "f1";
  severity = ContinuitySeverity.error;
  category = ContinuityCategory.location;
  basis = some contradiction;
  related_scene_ids = [];
  blocks_approval = true;
  recheck_disposition = none;
}

abbrev report : List ContinuityFinding → ContinuityReport
report findings = record {
  story_bible_version_id = 4;
  scene_version_id = 100;
  scene_plan_version_id = 21;
  scene_id = "arrival";
  scene_number = 1;
  checked_categories = [];
  findings = findings;
}

-- A scene at the limit of its revisions, whose critique asks for another.
abbrev unhappy : ProductionState
unhappy = record (initial_production_state assignment) {
  current_revision_number = 2;
  critique_requires_revision = true;
}

unhappy_accepted :
    review_disposition unhappy 2 (report []) ≡ ok (accepted_as revision_limit_reached)
unfolding review_disposition initial_production_state has_blocking_findings
unhappy_accepted = refl

unhappy_sound :
    unhappy.critique_requires_revision ≡ false → unhappy.critique_blocking_issue_count ≡ 0
unfolding initial_production_state
unhappy_sound h = refl

review_disposition-accepts_example :
    (has_blocking_findings (report []) ≡ false)
    × (unhappy.critique_blocking_issue_count ≡ 0)
    × (revision_limit_reached
        ≡ (if unhappy.critique_requires_revision then revision_limit_reached else passed_rubric))
    × (unhappy.critique_requires_revision ≡ true → unhappy.production.maximum_revision_cycles ≤ 2)
review_disposition-accepts_example =
    review_disposition-accepts unhappy 2 (report []) revision_limit_reached unhappy_sound
      unhappy_accepted

contradicted : adjudication_status unhappy 2 (report (finding ∷ [])) ≡ eligible
unfolding adjudication_status initial_production_state has_blocking_findings
contradicted = refl
