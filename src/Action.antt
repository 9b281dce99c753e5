-- ===== src/Action.antt =====
-- Corrective actions, modules/workflow-action/action_lifecycle.go: the data. `Action.Decide` has
-- what a method decides about one action, `Action.Manager` the operations on the manager's map.
pub mod Decide
pub mod Manager
pub mod Sound
pub mod Run
pub mod Frame
pub mod Parties
mod Tests
pub mod Moves
pub mod Keeps
pub mod Closing
use Prim.Native.String.{◌++◌, len}
use oshe_platform.Prelude.{
  ℕ, ◌+◌, String, Bool, true, false, not, ◌&&◌, Option, none, some, List, [], ◌∷◌, wrap, int_lt,
  ltb, eqb, length, push, if◌then◌else◌,
}
use oshe_platform.Prelude.Map.{Map, lookup, insert, empty, string_eq, ◌==◌}
use oshe_platform.Prelude.Strings.{trim_space}

pub data ActionState : Type 0 where
  assigned in_progress in_review rejected overdue closed reopened : ActionState

pub data ActionError : Type 0 where
  blank_action_id blank_tenant_id blank_owner blank_reviewer blank_title : ActionError
  action_not_found duplicate_action_id unauthorized_action cross_tenant_denied : ActionError
  invalid_preceding_state insufficient_evidence action_closed blank_reason : ActionError
  duplicate_evidence_id invalid_evidence_digest blank_evidence_id : ActionError

-- `none` is the empty state that the first entry starts from.
pub record ActionHistoryEntry : Type 0 where
  pub sequence : ℕ
  pub from_state : Option ActionState
  pub to_state : ActionState
  pub actor : String
  pub reason : String
  pub evidence_ids : List String
  pub timestamp : ℕ

pub record EvidenceAttachment : Type 0 where
  pub evidence_id : String
  pub tenant_id : String
  pub digest : String
  pub attached_by : String
  pub attached_at : ℕ

-- A snapshot has the same fields, but for the set of evidence identifiers.
pub record Action : Type 0 where
  pub id : String
  pub tenant_id : String
  pub title : String
  pub owner : String
  pub reviewer : String
  pub due_date : ℕ
  pub required_evidence_count : ℕ
  pub state : ActionState
  pub evidence : List EvidenceAttachment
  pub evidence_ids : Map String Bool
  pub history : List ActionHistoryEntry
  pub closed_at : Option ℕ
  pub closed_by : String
