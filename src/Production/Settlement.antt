-- ===== src/Production/Settlement.antt =====
-- The steps of the production graph in which a unit is settled: the continuity check, its adjudication
-- and the acceptance.
use open_hollywood.Production.Openings.{opened-Ready}
use open_hollywood.Production.Acceptance.{accept_node-Accepted}
use mathlib.Core.Option.{some-injective}
use open_hollywood.Artifacts.{ContinuityReport}
use open_hollywood.Production.Decisions.{
  continuity_adjudication_node-Adjudicated, continuity_node-Checked, continuity_outcome-eq-ok,
}
use open_hollywood.Production.Review.{dispose, revise, accepted_as, Disposition, review_disposition}
use open_hollywood.Production.Envelope.{
  cost_at, one_more, attempt, remaining, Same, onward, attempt-eq, result-Same, Advance, Within,
  Ready,
}
use open_hollywood.Production.Graph.{route}
use open_hollywood.Production.Nodes.{
  accept_node, accept_unit, continuity_node, checked, continuity_outcome,
}
use open_hollywood.Production.Adjudications.{
  continuity_adjudication_node, is_continuity_gate, adjudicated,
}
use open_hollywood.Production.State.{ProductionState}
use open_hollywood.Production.Rules.{dialogue_steps, steps_of_units}
use open_hollywood.Production.Contracts.{
  AcceptedProductionUnit, ProductionUnitInput, ContinuityCheckResult, continuity_adjudication,
  UnitAcceptanceReason, accept, continuity, story_bible_update, critic_adjudication,
  SceneProductionExecutor, draft, ProductionNode, SceneProductionInput,
}
use open_hollywood.Prelude.{
  ◌≤◌, false, suc, get_elem?, if-false, get_elem?-next, drop-get_elem?, none, drop, length, ◌-◌,
  ltb, Bool-cases, ◌⊎◌, ◌+◌, true, ◌<◌, nat_beq, refl, ap, subst, sym, inl, inr, ok, ◌∙◌, ℕ, ◌≡◌,
  some, arith, string_eq, nat_eq,
}

-- A continuity adjudication at the limit ends in an acceptance or in an error.
disposition-terminal :
    (s : ProductionState) (r : ℕ) (report : ContinuityReport) (d : Disposition)
    → review_disposition s r report ≡ ok d
    → nat_beq r s.production.maximum_revision_cycles ≡ true
    → (reason : UnitAcceptanceReason) × (d ≡ accepted_as reason)
unfolding review_disposition
disposition-terminal s r report revise h e = ground arith
disposition-terminal s r report (accepted_as reason) h e = (reason, refl)

-- Where a continuity check leads.
data Next (node' : ProductionNode) (s s' : ProductionState) : Type 0 where
  repair :
      node' ≡ draft
      → s.current_revision_number < s.production.maximum_revision_cycles
      → s'.current_revision_number ≡ s.current_revision_number + 1
      → Next node' s s'
  settle :
      (node' ≡ critic_adjudication)
        ⊎ (node' ≡ continuity_adjudication)
        ⊎ (node' ≡ story_bible_update)
      → s'.current_revision_number ≡ s.current_revision_number
      → Ready node' s'
      → Next node' s s'

-- A repair is scheduled only while a revision is left.
disposition-revise :
    (s : ProductionState) (r : ℕ) (report : ContinuityReport)
    → review_disposition s r report ≡ ok revise
    → r < s.production.maximum_revision_cycles
unfolding review_disposition
disposition-revise s r report h = ground arith

route-required :
    (s : ProductionState) (node' : ProductionNode)
    → s.adjudication_required ≡ true
    → route continuity s ≡ some node'
    → (node' ≡ critic_adjudication)
      ⊎ (node' ≡ continuity_adjudication)
      ⊎ (node' ≡ story_bible_update)
unfolding route
route-required s node' a r = elim (Bool-cases (ltb 0 s.critique_blocking_issue_count)) [
  | inl e ↦ inl (ground arith)
  | inr e ↦ inr (inl (ground arith))
]

abbrev Settled : ProductionNode → ProductionState → ProductionState → Type 0
Settled node' s s' =
    Next node' s s'
    × (s'.production ≡ s.production)
    × (s'.current_unit_index ≡ s.current_unit_index)

continuity_outcome-Next :
    (s s' : ProductionState) (output : ContinuityCheckResult) (node' : ProductionNode)
    → s.current_revision_number ≤ s.production.maximum_revision_cycles
    → continuity_outcome s output ≡ ok s'
    → route continuity s' ≡ some node'
    → Settled node' s s'
unfolding route checked dispose Ready
continuity_outcome-Next s s' output node' le h r = elim (continuity_outcome-eq-ok s s' output h) [
  | inl (e, result) ↦ (
    settle (route-required s' node' (ap (λ x. x.adjudication_required) result) r)
        (ap (λ x. x.current_revision_number) result)
        (subst (Ready node') (sym result) (
          opened-Ready s output node' le e
            (subst (λ x. route continuity x ≡ some node') result r))),
    ap (λ x. x.production) result,
    ap (λ x. x.current_unit_index) result,
  )
  | inr (e, revise, decided, result) ↦ (
    repair (some-injective _ _ (sym r ∙ ap (route continuity) result))
        (disposition-revise s _ output.report decided) (ap (λ x. x.current_revision_number) result),
    ap (λ x. x.production) result,
    ap (λ x. x.current_unit_index) result,
  )
  | inr (e, accepted_as reason, decided, result) ↦ (
    let to = some-injective _ _ (sym r ∙ ap (route continuity) result) in
        settle (inr (inr to)) (ap (λ x. x.current_revision_number) result)
          (subst (λ x. Ready x s') (sym to) tt),
    ap (λ x. x.production) result,
    ap (λ x. x.current_unit_index) result,
  )
]

repair-onward :
    (p : SceneProductionInput) (s s' : ProductionState)
    → Within p continuity s
    → s'.production ≡ s.production
    → s'.current_unit_index ≡ s.current_unit_index
    → s.current_revision_number < s.production.maximum_revision_cycles
    → s'.current_revision_number ≡ s.current_revision_number + 1
    → Advance p continuity draft s s'
unfolding remaining Ready
repair-onward p s s' w sp si lt sr =
    let left = s.production.maximum_revision_cycles - (s.current_revision_number + 1) in
    let a = attempt s.production s.current_unit_index in
    let fewer : s.production.maximum_revision_cycles - s.current_revision_number ≡ 1 + left =
      omega arith in
    (
      record { same = sp ∙ w.same; bounded = rw (sp, sr) (omega arith); ready = tt },
      rw (sp, si, sr, fewer) (omega (arith, one_more left a)),
    )

-- A unit that is not the last is followed by the first draft of the next one.
pub accept-next :
    (s : ProductionState) (unit : ProductionUnitInput) (a : AcceptedProductionUnit)
    (node' : ProductionNode)
    → get_elem? s.production.units s.current_unit_index ≡ some unit
    → route accept (accept_unit s s.production a) ≡ some node'
    → (node' ≡ draft)
      × (next : ProductionUnitInput) × (get_elem? s.production.units (suc s.current_unit_index)
          ≡ some next)
unfolding route accept_unit
accept-next s unit a node' here r =
    let more : nat_beq (s.current_unit_index + 1) (length s.production.units) ≡ false =
      ground arith in
    let (next, there) = get_elem?-next s.production.units s.current_unit_index unit here more in
    (sym (some-injective _ _ (sym (if-false none (some draft) _ more) ∙ r)), next, there)

next-cost :
    (p : SceneProductionInput) (i : ℕ) (unit : ProductionUnitInput)
    → get_elem? p.units (suc i) ≡ some unit
    → cost_at draft p (suc i) 0
      < 1 + steps_of_units (1 + p.maximum_revision_cycles) (drop (suc i) p.units)
next-cost p i unit h =
    let all_left : p.maximum_revision_cycles - 0 ≡ p.maximum_revision_cycles = omega arith in
    rw (drop-get_elem? p.units (suc i) unit h, attempt-eq p (suc i) unit h, all_left)
      (omega (
        arith,
        one_more p.maximum_revision_cycles (3 + dialogue_steps unit.dialogue_configuration),
      ))

module _ (p : SceneProductionInput) (ex : SceneProductionExecutor) (n : ℕ) (node' : ProductionNode)
    (s s' : ProductionState) where
  pub continuity-Advance :
      Within p continuity s
      → continuity_node ex n s ≡ ok s'
      → route continuity s' ≡ some node'
      → Advance p continuity node' s s'
  unfolding Ready
  continuity-Advance w h r =
      let b = continuity_node-Checked ex n s s' h in
      let (next, sp, si) = continuity_outcome-Next s s' b.output node' w.bounded b.result r in
      let settled : s'.current_revision_number ≡ s.current_revision_number → Same s s' =
        λ sr. record { production = sp; index = si; revision = sr } in
      elim next [
        | repair to lt sr ↦
            subst (λ x. Advance p continuity x s s') (sym to) (repair-onward p s s' w sp si lt sr)
        | settle (inl to) sr ready ↦
            subst (λ x. Advance p continuity x s s') (sym to)
              (onward p continuity critic_adjudication s s' w (settled sr)
                (subst (λ x. Ready x s') to ready) (omega arith))
        | settle (inr (inl to)) sr ready ↦
            subst (λ x. Advance p continuity x s s') (sym to)
              (onward p continuity continuity_adjudication s s' w (settled sr)
                (subst (λ x. Ready x s') to ready) (omega arith))
        | settle (inr (inr to)) sr ready ↦
            subst (λ x. Advance p continuity x s s') (sym to)
              (onward p continuity story_bible_update s s' w (settled sr) tt (omega arith))
      ]

  pub continuity_adjudication-Advance :
      Within p continuity_adjudication s
      → continuity_adjudication_node ex n s ≡ ok s'
      → route continuity_adjudication s' ≡ some node'
      → Advance p continuity_adjudication node' s s'
  unfolding Ready route adjudicated dispose is_continuity_gate
  continuity_adjudication-Advance w h r =
      let b = continuity_adjudication_node-Adjudicated ex n s s' h in
      let at_limit : nat_beq s.current_revision_number s.production.maximum_revision_cycles ≡ true =
        ground (arith, b.gate) in
      let (reason, e) =
        disposition-terminal (record s { adjudication_completed = true }) s.current_revision_number
          b.output.report b.disposition b.decided at_limit in
      let same =
        result-Same s s' _
          (b.result ∙ ap (λ d. adjudicated (dispose d s.current_revision_number s) b.output) e) refl
          refl refl in
      subst (λ x. Advance p continuity_adjudication x s s') (some-injective _ _ r)
        (onward p continuity_adjudication story_bible_update s s' w same tt (omega arith))

  -- The acceptance of a unit that is not the last leaves a next one.
  pub accept-Advance :
      Within p accept s
      → accept_node s ≡ ok s'
      → route accept s' ≡ some node'
      → Advance p accept node' s s'
  unfolding Ready route accept_unit remaining
  accept-Advance w h r =
      let b = accept_node-Accepted s s' h in
      let next_index : suc s.current_unit_index ≡ s.current_unit_index + 1 = omega arith in
      let (to, next, there) =
        accept-next s b.unit b.accepted node' b.placed.here
          (subst (λ x. route accept x ≡ some node') b.result r) in
      subst (λ x. Advance p accept x s s') (sym to)
        (subst (Advance p accept draft s) (sym b.result) (
          record { same = w.same; bounded = omega arith; ready = tt },
          subst (λ i. cost_at draft s.production i 0 < remaining accept s) next_index
              (next-cost s.production s.current_unit_index next there),
        ))
