-- ===== src/RunControls/Commands.antt =====
-- `RunControlCommand`: one command, and the checks of its constructor.
use open_hollywood.RunControls.Contracts.{Value}
use open_hollywood.Prelude.{
  is_blank, Dict, ℕ, Bool, true, false, ◌||◌, not, Option, none, some, [], ◌∷◌, Result, ok, ◌>>◌,
  guard, string_eq, nat_eq, nat_beq, String, is_none,
}

pub data RunControlAction : Type 0 where
  pause resume stop retry_from_node update_budget : RunControlAction

abbrev pub action_index : RunControlAction → ℕ
action_index pause = 0
action_index resume = 1
action_index stop = 2
action_index retry_from_node = 3
action_index update_budget = 4

-- `a is b`
abbrev pub action_is : RunControlAction → RunControlAction → Bool
action_is a b = nat_beq (action_index a) (action_index b)

pub data RunControlStatus : Type 0 where
  command_pending command_applied command_failed : RunControlStatus

pub record RunControlCommand : Type 0 where
  pub command_id : ℕ
  pub command_action : RunControlAction
  pub command_target : Option String
  pub command_updates : Option (Dict String Value)

pub data CommandError : Type 0 where
  target_required target_not_valid updates_required updates_not_valid : CommandError

-- `not (target is None or not target.strip())`
abbrev pub names_target : Option String → Bool
names_target none = false
names_target (some target) = not (is_blank target)

-- `bool(updates)`
abbrev pub has_updates : Option (Dict String Value) → Bool
has_updates none = false
has_updates (some []) = false
has_updates (some (entry ∷ entries)) = true

-- `RunControlCommand.__post_init__`
unfoldable pub run_control_command : RunControlCommand → Result CommandError RunControlCommand
run_control_command c = do
  guard (not (action_is c.command_action retry_from_node) || names_target c.command_target)
      target_required
  guard (action_is c.command_action retry_from_node || is_none c.command_target) target_not_valid
  guard (not (action_is c.command_action update_budget) || has_updates c.command_updates)
      updates_required
  guard
      (action_is c.command_action update_budget
        || action_is c.command_action retry_from_node
        || is_none c.command_updates)
      updates_not_valid
  ok c
