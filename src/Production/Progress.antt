-- ===== src/Production/Progress.antt =====
-- A production run accepts every unit of its assignment, once and in order, within the limit on
-- revisions.
use open_hollywood.Production.Untouched.{Untouched, is_accept, untouched}
use open_hollywood.Production.Bounded.{advance}
use open_hollywood.Production.Envelope.{Ready, Within}
use mathlib.Core.List.{map-append}
use open_hollywood.Production.Contracts.{
  AcceptedProductionUnit, ProductionError, SceneProductionExecutor, ProductionNode,
  SceneProductionInput, draft, dialogue_pass, dialogue_integration, critique, continuity,
  critic_adjudication, continuity_adjudication, story_bible_update, accept,
}
use open_hollywood.Production.Acceptance.{accept_node-Accepted, Accepted}
use open_hollywood.Dialogue.{DialogueExecutor}
use open_hollywood.Production.Nodes.{accept_unit}
use open_hollywood.Production.State.{initial_production_state, ProductionState}
use open_hollywood.Production.Graph.{produce, node_step, route}
use open_hollywood.Prelude.{
  length, none, map, ◌++◌, ◌+◌, ◌≤◌, sym, ◌∙◌, subst, run_inv, arith, List, ℕ, zero, suc, ◌≡◌, refl,
  ap, Bool, true, some, [], ◌∷◌, ok, string_eq, nat_eq, leb, get_elem?, take, all,
}

-- What the accepted units are: the first `current_unit_index` units of the assignment.
record Accounted (p : SceneProductionInput) (s : ProductionState) : Type 0 where
  same_ids :
      map (λ a. a.unit_id) s.accepted_units
      ≡ map (λ u. u.unit_id) (take s.current_unit_index p.units)
  same_numbers :
      map (λ a. a.unit_number) s.accepted_units
      ≡ map (λ u. u.unit_number) (take s.current_unit_index p.units)
  cycles : all (λ a. leb a.revision_cycles_used p.maximum_revision_cycles) s.accepted_units ≡ true

take-next :
    {A : Type 0} {B : Type 0} (f : A → B) (xs : List A) (i : ℕ) (a : A)
    → get_elem? xs i ≡ some a
    → map f (take (suc i) xs) ≡ map f (take i xs) ++ f a ∷ []
take-next f [] i a h = ground arith
take-next f (x ∷ xs) zero a h = ground arith
take-next f (x ∷ xs) (suc i) a h = ap (λ rest. f x ∷ rest) (take-next f xs i a h)

take-all : {A : Type 0} (xs : List A) → take (length xs) xs ≡ xs
take-all [] = refl
take-all (x ∷ xs) = ap (λ rest. x ∷ rest) (take-all xs)

all-snoc :
    {A : Type 0} (f : A → Bool) (xs : List A) (a : A)
    → all f xs ≡ true
    → f a ≡ true
    → all f (xs ++ a ∷ []) ≡ true
all-snoc f [] a h e = rw e
all-snoc f (x ∷ xs) a h e = ground (arith, all-snoc f xs a)

Accounted-accept :
    (p : SceneProductionInput) (s s' : ProductionState)
    → Within p accept s
    → Accounted p s
    → Accepted s s'
    → Accounted p s'
unfolding accept_unit
Accounted-accept p s s' w c b =
    let here : get_elem? p.units s.current_unit_index ≡ some b.unit =
      subst (λ q. get_elem? q.units s.current_unit_index ≡ some b.unit) w.same b.placed.here in
    let next_index : suc s.current_unit_index ≡ s.current_unit_index + 1 = omega arith in
    let within : b.accepted.revision_cycles_used ≤ p.maximum_revision_cycles =
      rw b.cycles
        (subst (λ q. s.current_revision_number ≤ q.maximum_revision_cycles) w.same w.bounded) in
    subst (Accounted p) (sym b.result) (record {
      same_ids =
          map-append (λ a. a.unit_id) s.accepted_units (b.accepted ∷ [])
          ∙ ap (λ xs. xs ++ b.accepted.unit_id ∷ []) c.same_ids
          ∙ ap (λ x. map (λ u. u.unit_id) (take s.current_unit_index p.units) ++ x ∷ []) b.same_id
          ∙ sym (take-next (λ u. u.unit_id) p.units s.current_unit_index b.unit here)
          ∙ ap (λ i. map (λ u. u.unit_id) (take i p.units)) next_index;
      same_numbers =
          map-append (λ a. a.unit_number) s.accepted_units (b.accepted ∷ [])
          ∙ ap (λ xs. xs ++ b.accepted.unit_number ∷ []) c.same_numbers
          ∙ ap (λ x. map (λ u. u.unit_number) (take s.current_unit_index p.units) ++ x ∷ [])
              b.same_number
          ∙ sym (take-next (λ u. u.unit_number) p.units s.current_unit_index b.unit here)
          ∙ ap (λ i. map (λ u. u.unit_number) (take i p.units)) next_index;
      cycles =
          all-snoc (λ a. leb a.revision_cycles_used p.maximum_revision_cycles) s.accepted_units
            b.accepted c.cycles (ground arith);
    })

Accounted-other :
    (p : SceneProductionInput) (s s' : ProductionState)
    → Accounted p s
    → Untouched s s'
    → Accounted p s'
Accounted-other p s s' c u = record {
  same_ids = rw (u.accepted, u.index) c.same_ids;
  same_numbers = rw (u.accepted, u.index) c.same_numbers;
  cycles = rw u.accepted c.cycles;
}

Accounted-step :
    (p : SceneProductionInput) (ex : SceneProductionExecutor) (actors : DialogueExecutor)
    (top n : ℕ) (node : ProductionNode) (s s' : ProductionState)
    → Within p node s
    → Accounted p s
    → node_step ex actors top n node s ≡ ok s'
    → Accounted p s'
unfolding node_step is_accept
Accounted-step p ex actors top n accept s s' w c h =
    Accounted-accept p s s' w c (accept_node-Accepted s s' h)
Accounted-step p ex actors top n draft s s' w c h =
    Accounted-other p s s' c (untouched ex actors top n draft s s' refl h)
Accounted-step p ex actors top n dialogue_pass s s' w c h =
    Accounted-other p s s' c (untouched ex actors top n dialogue_pass s s' refl h)
Accounted-step p ex actors top n dialogue_integration s s' w c h =
    Accounted-other p s s' c (untouched ex actors top n dialogue_integration s s' refl h)
Accounted-step p ex actors top n critique s s' w c h =
    Accounted-other p s s' c (untouched ex actors top n critique s s' refl h)
Accounted-step p ex actors top n continuity s s' w c h =
    Accounted-other p s s' c (untouched ex actors top n continuity s s' refl h)
Accounted-step p ex actors top n critic_adjudication s s' w c h =
    Accounted-other p s s' c (untouched ex actors top n critic_adjudication s s' refl h)
Accounted-step p ex actors top n continuity_adjudication s s' w c h =
    Accounted-other p s s' c (untouched ex actors top n continuity_adjudication s s' refl h)
Accounted-step p ex actors top n story_bible_update s s' w c h =
    Accounted-other p s s' c (untouched ex actors top n story_bible_update s s' refl h)

-- What a run that returns has accepted.
abbrev pub AllAccepted : SceneProductionInput → ProductionState → Type 0
AllAccepted p t =
    (map (λ a. a.unit_id) t.accepted_units ≡ map (λ u. u.unit_id) p.units)
    × (map (λ a. a.unit_number) t.accepted_units ≡ map (λ u. u.unit_number) p.units)
    × (all (λ a. leb a.revision_cycles_used p.maximum_revision_cycles) t.accepted_units ≡ true)
    × (t.production_complete ≡ true)

route-accept : (s : ProductionState) → route accept s ≡ none → s.production_complete ≡ true
unfolding route
route-accept s r = ground arith

accept_unit_complete :
    (s : ProductionState) (a : AcceptedProductionUnit)
    → (accept_unit s s.production a).production_complete ≡ true
    → (accept_unit s s.production a).current_unit_index ≡ length s.production.units
unfolding accept_unit
accept_unit_complete s a h = ground arith

-- Only the acceptance of the last unit ends a run.
ending :
    (p : SceneProductionInput) (ex : SceneProductionExecutor) (actors : DialogueExecutor)
    (top n : ℕ) (node : ProductionNode) (s s' : ProductionState)
    → Within p node s
    → Accounted p s
    → node_step ex actors top n node s ≡ ok s'
    → route node s' ≡ none
    → AllAccepted p s'
unfolding route node_step
ending p ex actors top n accept s s' w c h r =
    let b = accept_node-Accepted s s' h in
    let c' = Accounted-accept p s s' w c b in
    let complete = route-accept s' r in
    let last : s'.current_unit_index ≡ length p.units =
      subst (λ q. s'.current_unit_index ≡ length q.units) w.same
        (ap (λ x. x.current_unit_index) b.result
          ∙ accept_unit_complete s b.accepted
              (sym (ap (λ x. x.production_complete) b.result) ∙ complete)) in
    let everything : take s'.current_unit_index p.units ≡ p.units =
      ap (λ i. take i p.units) last ∙ take-all p.units in
    (
      c'.same_ids ∙ ap (map (λ u. u.unit_id)) everything,
      c'.same_numbers ∙ ap (map (λ u. u.unit_number)) everything,
      c'.cycles,
      complete,
    )
ending p ex actors top n node s s' w c h r = ground arith

module _ (p : SceneProductionInput) (ex : SceneProductionExecutor) (actors : DialogueExecutor)
    (top : ℕ) where
  -- A production run that returns has accepted exactly the units of its assignment, in their order and
  -- with their identifiers and numbers, each after at most the allowed number of revisions, and has
  -- marked the production as complete.
  pub produce-AllAccepted :
      {t : ProductionState}
      → produce ex actors top (initial_production_state p) ≡ ok t
      → AllAccepted p t
  unfolding produce initial_production_state Ready
  produce-AllAccepted h =
      run_inv (node_step ex actors top) route ProductionError.recursion_limit
        (λ node s. Within p node s × Accounted p s) (AllAccepted p)
        (λ n node node' s s' (w, c) h r. (
          (advance p ex actors top n node node' s s' w h r).0,
          Accounted-step p ex actors top n node s s' w c h,
        ))
        (λ n node s s' (w, c) h r. ending p ex actors top n node s s' w c h r) top 0 draft _
        (
          record { same = refl; bounded = omega arith; ready = tt },
          record { same_ids = refl; same_numbers = refl; cycles = refl },
        )
        h
