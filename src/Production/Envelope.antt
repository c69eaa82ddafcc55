-- ===== src/Production/Envelope.antt =====
-- The measure of a production run: the steps that it may still take, and what its states keep.
use open_hollywood.Production.Graph.{route}
use open_hollywood.Production.Adjudications.{is_critic_gate, is_continuity_gate}
use open_hollywood.Production.Steps.{Placed}
use open_hollywood.Dialogue.{
  dialogue_max_graph_steps, initial_dialogue_state, DialogueSceneInput, DialogueState,
}
use open_hollywood.Production.State.{ProductionState}
use open_hollywood.Production.Rules.{max_graph_steps, steps_of_units, dialogue_steps}
use open_hollywood.Production.Contracts.{
  draft, dialogue_pass, dialogue_integration, critique, continuity, critic_adjudication,
  continuity_adjudication, story_bible_update, accept, DialoguePassConfiguration, ProductionNode,
  SceneProductionInput, ProductionUnitInput,
}
use open_hollywood.Prelude.{
  true, ap, Option-cases, ◌⊎◌, inl, inr, ◌∙◌, ◌<◌, ℕ, zero, suc, ◌+◌, ◌-◌, ◌*◌, ◌≤◌, ◌≡◌, Option,
  none, some, List, [], ◌∷◌, arith, string_eq, nat_eq, get_elem?, drop,
}

abbrev pub unit_configuration : Option ProductionUnitInput → Option DialoguePassConfiguration
unit_configuration none = none
unit_configuration (some unit) = unit.dialogue_configuration

-- The steps of one attempt at the unit with the index `i`.
unfoldable pub attempt : SceneProductionInput → ℕ → ℕ
attempt p i = 3 + dialogue_steps (unit_configuration (get_elem? p.units i))

-- The steps that a run may take from a node to the acceptance of its unit: `left` revisions remain, and
-- an attempt has `a` steps.
abbrev pub cost : ProductionNode → ℕ → ℕ → ℕ
cost draft left a = a + left * a + 3
cost dialogue_pass left a = left * a + 7
cost dialogue_integration left a = left * a + 6
cost critique left a = left * a + 5
cost continuity left a = left * a + 4
cost critic_adjudication left a = 3
cost continuity_adjudication left a = 3
cost story_bible_update left a = 2
cost accept left a = 1

abbrev pub cost_at : ProductionNode → SceneProductionInput → ℕ → ℕ → ℕ
cost_at node p i r =
    cost node (p.maximum_revision_cycles - r) (attempt p i)
    + steps_of_units (1 + p.maximum_revision_cycles) (drop (suc i) p.units)

unfoldable pub remaining : ProductionNode → ProductionState → ℕ
remaining node s = cost_at node s.production s.current_unit_index s.current_revision_number

-- What a node finds in the checkpoint: the subgraph, a fresh dialogue that fits the envelope; an
-- adjudication, the conditions of its own gate.
unfoldable pub Ready : ProductionNode → ProductionState → Type 0
Ready dialogue_pass s =
    (old : Option DialogueState) × (scene : DialogueSceneInput) × (s.dialogue
      ≡ some (initial_dialogue_state old scene))
    × (1 ≤ scene.maximum_rounds)
    × (dialogue_max_graph_steps scene ≤ max_graph_steps s.production)
Ready critic_adjudication s = is_critic_gate s ≡ true
Ready continuity_adjudication s = is_continuity_gate s ≡ true
Ready _ s = Unit

pub record Within (p : SceneProductionInput) (node : ProductionNode) (s : ProductionState)
    : Type 0 where
  pub same : s.production ≡ p
  pub bounded : s.current_revision_number ≤ s.production.maximum_revision_cycles
  pub ready : Ready node s

pub one_more : (n a : ℕ) → (1 + n) * a ≡ a + n * a
one_more n a = grind arith

-- A unit's dialogue fits within the envelope of the whole run.
pub steps_of_units-get_elem? :
    (attempts : ℕ) (us : List ProductionUnitInput) (i : ℕ) (unit : ProductionUnitInput)
    → get_elem? us i ≡ some unit
    → dialogue_steps unit.dialogue_configuration ≤ steps_of_units (1 + attempts) us
steps_of_units-get_elem? n [] i unit h = ground arith
steps_of_units-get_elem? n (u ∷ us) zero unit h =
    ground (arith, one_more n (3 + dialogue_steps u.dialogue_configuration))
steps_of_units-get_elem? n (u ∷ us) (suc i) unit h =
    let rest = steps_of_units-get_elem? n us i unit h in omega arith

-- What the nodes leave as it is.
pub record Same (s s' : ProductionState) : Type 0 where
  pub production : s'.production ≡ s.production
  pub index : s'.current_unit_index ≡ s.current_unit_index
  pub revision : s'.current_revision_number ≡ s.current_revision_number

-- A step to a node with a lower cost, with the same unit and revision.
pub onward :
    (p : SceneProductionInput) (node node' : ProductionNode) (s s' : ProductionState)
    → Within p node s
    → Same s s'
    → Ready node' s'
    → cost node'
        (s.production.maximum_revision_cycles - s.current_revision_number)
        (attempt s.production s.current_unit_index)
      < cost node
          (s.production.maximum_revision_cycles - s.current_revision_number)
          (attempt s.production s.current_unit_index)
    → Within p node' s' × (remaining node' s' < remaining node s)
unfolding remaining
onward p node node' s s' w same ready lt = (
  record {
    same = same.production ∙ w.same;
    bounded = ground (arith, same.production, same.revision, w.bounded);
    ready = ready;
  },
  rw (same.production, same.index, same.revision) (omega arith),
)

pub result-Same :
    (s s' t : ProductionState)
    → s' ≡ t
    → t.production ≡ s.production
    → t.current_unit_index ≡ s.current_unit_index
    → t.current_revision_number ≡ s.current_revision_number
    → Same s s'
result-Same s s' t h a b c = record {
  production = ap (λ x. x.production) h ∙ a;
  index = ap (λ x. x.current_unit_index) h ∙ b;
  revision = ap (λ x. x.current_revision_number) h ∙ c;
}

abbrev pub Advance :
    SceneProductionInput
    → ProductionNode
    → ProductionNode
    → ProductionState
    → ProductionState
    → Type 0
Advance p node node' s s' = Within p node' s' × (remaining node' s' < remaining node s)

pub route-draft :
    (s s' : ProductionState) (unit : ProductionUnitInput) (node' : ProductionNode)
    → Placed s unit
    → Same s s'
    → route draft s' ≡ some node'
    → ((node' ≡ dialogue_pass)
        × (d : DialoguePassConfiguration) × (unit.dialogue_configuration ≡ some d))
      ⊎ (node' ≡ critique)
unfolding route
route-draft s s' unit node' placed same r =
    let here : get_elem? s'.production.units s'.current_unit_index ≡ some unit =
      rw (same.production, same.index) placed.here in
    elim (Option-cases unit.dialogue_configuration) [
      | inl e ↦ inr (ground (arith, here, e))
      | inr (d, e) ↦ inl (ground (arith, here, e), d, e)
    ]

pub attempt-eq :
    (p : SceneProductionInput) (i : ℕ) (unit : ProductionUnitInput)
    → get_elem? p.units i ≡ some unit
    → attempt p i ≡ 3 + dialogue_steps unit.dialogue_configuration
unfolding attempt
attempt-eq p i unit h = rw h

pub fits_envelope :
    (p : SceneProductionInput) (i : ℕ) (unit : ProductionUnitInput) (d : DialoguePassConfiguration)
    (scene : DialogueSceneInput)
    → get_elem? p.units i ≡ some unit
    → unit.dialogue_configuration ≡ some d
    → scene.maximum_rounds ≡ d.maximum_rounds
    → dialogue_max_graph_steps scene ≤ max_graph_steps p
unfolding max_graph_steps dialogue_max_graph_steps
fits_envelope p i unit d scene here e rounds =
    let fits = steps_of_units-get_elem? p.maximum_revision_cycles p.units i unit here in
    let steps : dialogue_steps unit.dialogue_configuration ≡ 1 + d.maximum_rounds * 3 + 1 =
      ap dialogue_steps e in
    omega (arith, fits, steps, rounds)

-- An attempt with a dialogue has room for the subgraph and its integration.
pub attempt-dialogue :
    (p : SceneProductionInput) (i : ℕ) (unit : ProductionUnitInput) (d : DialoguePassConfiguration)
    → get_elem? p.units i ≡ some unit
    → unit.dialogue_configuration ≡ some d
    → 5 ≤ attempt p i
attempt-dialogue p i unit d here e =
    let steps : dialogue_steps unit.dialogue_configuration ≡ 1 + d.maximum_rounds * 3 + 1 =
      ap dialogue_steps e in
    omega (arith, attempt-eq p i unit here, steps)
