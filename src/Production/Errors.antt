-- ===== src/Production/Errors.antt =====
-- The errors that the nodes of the production graph raise: none is a limit on steps, and an adjudication
-- whose gate is open does not say that it is not terminal.
use open_hollywood.Prelude.{
  ℕ, ◌≡◌, refl, Bool, true, false, Option, none, some, List, arith, Result, ok, raise, ◌>>=◌, ◌>>◌,
  guard, if◌then◌else◌, string_eq, nat_eq, get_elem?, String, Spares, Spares-ok, Spares-raise,
  Spares-bind, Spares-guard,
}
use open_hollywood.Production.Review.{review_disposition}
use open_hollywood.StoryBible.{ReduceError}
use open_hollywood.Artifacts.{ContinuityReport, ArtifactReference}
use open_hollywood.Production.Validate.{
  lift_transition, validate_story_bible_update, validate_continuity, validate_critique,
  validate_draft,
}
use open_hollywood.Production.Tasks.{dialogue_scene_input, dialogue_character, previous_inputs}
use open_hollywood.Production.Rules.{production_valid}
use open_hollywood.Dialogue.{DialogueState, dialogue_result_from_state, DialogueError}
use open_hollywood.Production.State.{
  current_critique_history, accepted_artifacts, current_unit, production_from_state, lift, found,
  ProductionState,
}
use open_hollywood.Production.Nodes.{
  lift_dialogue, accept_node, story_bible_update_node, continuity_node, dialogue_integration_node,
  draft_node, with_dialogue, critique_node, continuity_outcome,
}
use open_hollywood.Production.Adjudications.{
  is_critic_gate, is_continuity_gate, continuity_adjudication_node, critic_adjudication_node,
}
use open_hollywood.Production.Contracts.{
  DialoguePassConfiguration, StoryBibleUpdateResult, SceneCritiqueResult, ContinuityCheckResult,
  StoryBibleUpdateTask, ContinuityCheckTask, SceneCritiqueTask, SceneDraftResult,
  ProductionUnitInput, SceneProductionExecutor, ProductionError, SceneProductionInput,
}

-- The errors that no node raises in a run: the limits on steps, and those of the gates of the two
-- adjudications.
abbrev pub is_unreachable : ProductionError → Bool
is_unreachable ProductionError.recursion_limit = true
is_unreachable (ProductionError.dialogue_failed DialogueError.recursion_limit) = true
is_unreachable ProductionError.critic_adjudication_not_terminal = true
is_unreachable ProductionError.adjudication_not_terminal = true
is_unreachable _ = false

-- A result whose error, if it has one, is none of those.
abbrev pub Avoids : {A : Type 0} → Result ProductionError A → Type 0
Avoids r = Spares is_unreachable r

-- A guard that is known to hold.
avoid_open :
    {B : Type 0} (c : Bool) (e : ProductionError) (k : Result ProductionError B)
    → c ≡ true
    → Avoids k
    → Avoids (guard c e >> k)
avoid_open true e k h ak = ak
avoid_open false e k h ak = cc h

avoid_if :
    {B : Type 0} (c : Bool) (a b : Result ProductionError B)
    → Avoids a
    → Avoids b
    → Avoids (if c then a else b)
avoid_if true a b p q = p
avoid_if false a b p q = q

avoid_found :
    {A : Type 0} (e : ProductionError) (o : Option A)
    → is_unreachable e ≡ false
    → Avoids (found e o)
avoid_found e none l = Spares-raise is_unreachable e l
avoid_found e (some a) l = Spares-ok is_unreachable a

avoid_lift : {A : Type 0} (r : Result ℕ A) → Avoids (lift r)
avoid_lift (ok a) = Spares-ok is_unreachable a
avoid_lift (raise c) = Spares-raise is_unreachable (ProductionError.executor_failed c) refl

-- Every node but the subgraph begins in this way.
avoid_opening :
    {B : Type 0} (s : ProductionState)
    (f : SceneProductionInput → ProductionUnitInput → Result ProductionError B)
    → ((p : SceneProductionInput) (u : ProductionUnitInput) → Avoids (f p u))
    → Avoids (production_from_state s >>= λ p. current_unit s p >>= λ u. f p u)
unfolding production_from_state current_unit
avoid_opening s f af =
    Spares-bind is_unreachable _ _
      (Spares-guard is_unreachable (production_valid s.production) ProductionError.invalid_run_input
        _ refl (Spares-ok is_unreachable s.production))
      (λ p.
        Spares-bind is_unreachable _ _
          (avoid_found ProductionError.no_current_unit (get_elem? p.units s.current_unit_index)
            refl)
          (af p))

avoid_accepted : (s : ProductionState) → Avoids (accepted_artifacts s)
unfolding accepted_artifacts
avoid_accepted s = record { spares = λ e h. ground arith }

avoid_previous : (s : ProductionState) → Avoids (previous_inputs s)
unfolding previous_inputs
avoid_previous s = record { spares = λ e h. ground arith }

avoid_history :
    (history : List ArtifactReference) (r : ℕ) → Avoids (current_critique_history history r)
unfolding current_critique_history
avoid_history history r = record { spares = λ e h. ground arith }

avoid_validate_draft :
    (unit : ProductionUnitInput) (r : ℕ) (output : SceneDraftResult)
    (inputs : List ArtifactReference)
    → Avoids (validate_draft unit r output inputs)
unfolding validate_draft
avoid_validate_draft unit r output inputs = record { spares = λ e h. ground arith }

avoid_validate_critique :
    (task : SceneCritiqueTask) (output : SceneCritiqueResult)
    → Avoids (validate_critique task output)
unfolding validate_critique
avoid_validate_critique task output = record { spares = λ e h. ground arith }

avoid_validate_continuity :
    (task : ContinuityCheckTask) (output : ContinuityCheckResult)
    → Avoids (validate_continuity task output)
unfolding validate_continuity
avoid_validate_continuity task output = record { spares = λ e h. ground arith }

avoid_transition : (r : Result ReduceError (Unit {0})) → Avoids (lift_transition r)
avoid_transition r = record { spares = λ e h. ground arith }

avoid_validate_update :
    (task : StoryBibleUpdateTask) (output : StoryBibleUpdateResult)
    → Avoids (validate_story_bible_update task output)
unfolding validate_story_bible_update
avoid_validate_update task output = record {
  spares = λ e h. ground (arith, (avoid_transition _).spares);
}

avoid_disposition :
    (s : ProductionState) (r : ℕ) (report : ContinuityReport)
    → Avoids (review_disposition s r report)
unfolding review_disposition
avoid_disposition s r report = record { spares = λ e h. ground arith }

avoid_outcome :
    (s : ProductionState) (output : ContinuityCheckResult) → Avoids (continuity_outcome s output)
unfolding continuity_outcome
avoid_outcome s output = avoid_if _ _ _ (Spares-ok is_unreachable _) (
    Spares-bind is_unreachable _ _ (avoid_disposition s _ output.report)
      (λ d. Spares-ok is_unreachable _))

avoid_lift_dialogue : (d : DialogueState) → Avoids (lift_dialogue (dialogue_result_from_state d))
unfolding dialogue_result_from_state
avoid_lift_dialogue d = record { spares = λ e h. ground arith }

avoid_character :
    (unit : ProductionUnitInput) (wanted : String) → Avoids (dialogue_character unit wanted)
unfolding dialogue_character
avoid_character unit wanted = record { spares = λ e h. ground arith }

avoid_scene_input :
    (s : ProductionState) (p : SceneProductionInput) (unit : ProductionUnitInput)
    (d : DialoguePassConfiguration) (candidate : ArtifactReference)
    (accepted : List ArtifactReference)
    → Avoids (dialogue_scene_input s p unit d candidate accepted)
unfolding dialogue_scene_input
avoid_scene_input s p unit d candidate accepted =
    search (Spares-bind, avoid_character, Spares-guard, Spares-ok) depth 20

avoid_with_dialogue :
    (s : ProductionState) (p : SceneProductionInput) (unit : ProductionUnitInput)
    (accepted : List ArtifactReference) (output : SceneDraftResult)
    (o : Option DialoguePassConfiguration) (t : ProductionState)
    → Avoids (with_dialogue s p unit accepted output o t)
unfolding with_dialogue
avoid_with_dialogue s p unit accepted output none t = Spares-ok is_unreachable t
avoid_with_dialogue s p unit accepted output (some d) t =
    Spares-bind is_unreachable _ _ (avoid_scene_input s p unit d output.artifact accepted)
      (λ scene. Spares-ok is_unreachable _)

ruleset avoiding = (
  Spares-bind, Spares-guard, avoid_found, avoid_lift, Spares-ok, avoid_accepted, avoid_history,
  avoid_previous, avoid_validate_draft, avoid_validate_critique, avoid_validate_continuity,
  avoid_validate_update, avoid_outcome, avoid_disposition, avoid_lift_dialogue, avoid_with_dialogue,
)

module _ (ex : SceneProductionExecutor) (n : ℕ) (s : ProductionState) where
  pub avoid_draft : Avoids (draft_node ex n s)
  unfolding draft_node
  avoid_draft = search (avoid_opening, avoiding) depth 25

  pub avoid_dialogue_integration : Avoids (dialogue_integration_node ex n s)
  unfolding dialogue_integration_node
  avoid_dialogue_integration = search (avoid_opening, avoiding) depth 25

  pub avoid_critique : Avoids (critique_node ex n s)
  unfolding critique_node
  avoid_critique = search (avoid_opening, avoiding) depth 25

  pub avoid_continuity : Avoids (continuity_node ex n s)
  unfolding continuity_node
  avoid_continuity = search (avoid_opening, avoiding) depth 25

  pub avoid_critic_adjudication : is_critic_gate s ≡ true → Avoids (critic_adjudication_node ex n s)
  unfolding critic_adjudication_node
  avoid_critic_adjudication gate =
      avoid_opening s _
        (λ p unit. avoid_open (is_critic_gate s) _ _ gate (search (avoiding) depth 25))

  pub avoid_continuity_adjudication :
      is_continuity_gate s ≡ true → Avoids (continuity_adjudication_node ex n s)
  unfolding continuity_adjudication_node
  avoid_continuity_adjudication gate =
      avoid_opening s _
        (λ p unit. avoid_open (is_continuity_gate s) _ _ gate (search (avoiding) depth 25))

  pub avoid_story_bible_update : Avoids (story_bible_update_node ex n s)
  unfolding story_bible_update_node
  avoid_story_bible_update = search (avoid_opening, avoiding) depth 25

  pub avoid_accept : Avoids (accept_node s)
  unfolding accept_node
  avoid_accept = search (avoid_opening, avoiding) depth 25
