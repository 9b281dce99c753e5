-- ===== src/Action/Manager.antt =====
-- The operations of the manager of modules/workflow-action/action_lifecycle.go. Actions are stored
-- under a pair of a tenant and an identifier (`actionKey` of action_governance.go).
use oshe_platform.Prelude.{
  ℕ, String, ◌≡◌, ◌↔◌, Bool, true, not, ◌&&◌, Option, none, some, [], ◌∷◌, Result, ok, err, arith,
  eq_iff, if◌then◌else◌,
}
use oshe_platform.Prelude.Map.{Map, Eq, lookup, insert, empty, string_eq, ◌==◌}
use oshe_platform.Prelude.Strings.{trim_space}
use oshe_platform.Action.{
  assigned, ActionError, blank_action_id, blank_tenant_id, blank_owner, blank_reviewer, blank_title,
  action_not_found, duplicate_action_id, cross_tenant_denied, EvidenceAttachment, Action,
}
use oshe_platform.Action.Decide.{
  Verdict, refuse, leave, update, is_closed, start_work_of, attach_evidence_of,
  submit_for_review_of, reject_review_of, close_action_of, reopen_action_of, is_past_due,
  check_overdue_of,
}

pub record ActionKey : Type 0 where
  pub tenant_id : String
  pub action_id : String

abbrev pub key_beq : ActionKey → ActionKey → Bool
key_beq a b = a.tenant_id == b.tenant_id && a.action_id == b.action_id

pub key_beq_iff : (a b : ActionKey) → (key_beq a b ≡ true) ↔ (a ≡ b)
key_beq_iff a b = ground (arith, eq_iff a.tenant_id b.tenant_id, eq_iff a.action_id b.action_id)

instance abbrev pub key_eq : Eq ActionKey
key_eq = record { beq = key_beq; beq_iff = key_beq_iff }

pub record ActionManager : Type 0 where
  pub actions : Map ActionKey Action

abbrev pub new_action_manager : ActionManager
new_action_manager = record { actions = empty }

pub record CreateActionRequest : Type 0 where
  pub id : String
  pub tenant_id : String
  pub title : String
  pub owner : String
  pub reviewer : String
  pub due_date : ℕ
  pub required_evidence_count : ℕ
  pub creator : String

-- The action that a request with its checks passed makes, assigned and with its first entry.
unfoldable pub new_action : String → CreateActionRequest → ℕ → Action
new_action tenant req now =
    let reviewer = trim_space req.reviewer in
    let creator = if trim_space req.creator == "" then reviewer else trim_space req.creator in
    record {
      id = trim_space req.id;
      tenant_id = tenant;
      title = trim_space req.title;
      owner = trim_space req.owner;
      reviewer = reviewer;
      due_date = req.due_date;
      required_evidence_count = req.required_evidence_count;
      state = assigned;
      evidence = [];
      evidence_ids = empty;
      history =
          record {
            sequence = 1;
            from_state = none;
            to_state = assigned;
            actor = creator;
            reason = "Action created and assigned";
            evidence_ids = [];
            timestamp = now;
          }
          ∷ [];
      closed_at = none;
      closed_by = "";
    }

unfoldable pub check_create : ActionManager → String → CreateActionRequest → Option ActionError
check_create m tenant req =
    if tenant == ""
    then some blank_tenant_id
    else if not (trim_space req.tenant_id == "") && not (trim_space req.tenant_id == tenant)
    then some cross_tenant_denied
    else if trim_space req.id == ""
    then some blank_action_id
    else elim (lookup (record { tenant_id = tenant; action_id = trim_space req.id }) m.actions) [
      | some _ ↦ some duplicate_action_id
      | none ↦
          if trim_space req.owner == ""
          then some blank_owner
          else if trim_space req.reviewer == ""
          then some blank_reviewer
          else if trim_space req.title == ""
          then some blank_title
          else none
    ]

unfoldable pub create_action :
    ActionManager → String → CreateActionRequest → ℕ → ActionManager × Result ActionError Action
create_action m trusted_tenant_id req now =
    let tenant = trim_space trusted_tenant_id in
    elim (check_create m tenant req) [
      | some x ↦ (m, err x)
      | none ↦
          let act = new_action tenant req now in
          (
            record {
              actions =
                  insert (record { tenant_id = tenant; action_id = trim_space req.id }) act
                    m.actions;
            },
            ok act,
          )
    ]

-- The start of every method on one action: the two identifiers and the lookup.
unfoldable pub find_action : ActionManager → String → String → Result ActionError Action
find_action m tenant_id action_id =
    if trim_space tenant_id == ""
    then err blank_tenant_id
    else if trim_space action_id == ""
    then err blank_action_id
    else elim (lookup
        (record { tenant_id = trim_space tenant_id; action_id = trim_space action_id }) m.actions) [
          | none ↦ err action_not_found
          | some act ↦ ok act
        ]

unfoldable pub get_action : ActionManager → String → String → Result ActionError Action
get_action m tenant_id id = find_action m tenant_id id

-- Go writes through the pointer that it looked up: the new value goes to the same key.
unfoldable pub settle :
    ActionManager → String → String → Verdict → ActionManager × Option ActionError
settle m tenant_id action_id (refuse x) = (m, some x)
settle m tenant_id action_id leave = (m, none)
settle m tenant_id action_id (update act) = (
  record {
    actions =
        insert (record { tenant_id = trim_space tenant_id; action_id = trim_space action_id }) act
          m.actions;
  },
  none,
)

unfoldable pub on_action :
    ActionManager → String → String → (Action → Verdict) → ActionManager × Option ActionError
unfolding find_action settle
on_action m tenant_id action_id decide = elim (find_action m tenant_id action_id) [
  | err x ↦ (m, some x)
  | ok act ↦ settle m tenant_id action_id (decide act)
]

unfoldable pub start_work :
    ActionManager → String → String → String → ℕ → ActionManager × Option ActionError
unfolding on_action
start_work m tenant_id action_id caller now =
    on_action m tenant_id action_id (start_work_of caller now)

unfoldable pub attach_evidence :
    ActionManager
    → String
    → String
    → String
    → EvidenceAttachment
    → ℕ
    → ActionManager × Option ActionError
unfolding on_action
attach_evidence m tenant_id action_id caller ev now =
    on_action m tenant_id action_id (attach_evidence_of caller ev now)

unfoldable pub submit_for_review :
    ActionManager → String → String → String → String → ℕ → ActionManager × Option ActionError
unfolding on_action
submit_for_review m tenant_id action_id caller notes now =
    on_action m tenant_id action_id (submit_for_review_of caller notes now)

unfoldable pub reject_review :
    ActionManager → String → String → String → String → ℕ → ActionManager × Option ActionError
unfolding on_action
reject_review m tenant_id action_id caller reason now =
    on_action m tenant_id action_id (reject_review_of caller reason now)

unfoldable pub close_action :
    ActionManager → String → String → String → String → ℕ → ActionManager × Option ActionError
unfolding on_action
close_action m tenant_id action_id caller notes now =
    on_action m tenant_id action_id (close_action_of caller notes now)

unfoldable pub reopen_action :
    ActionManager → String → String → String → String → ℕ → ActionManager × Option ActionError
unfolding on_action
reopen_action m tenant_id action_id caller reason now =
    on_action m tenant_id action_id (reopen_action_of caller reason now)

unfoldable pub check_overdue :
    (ℕ → String) → ActionManager → String → String → ℕ → ActionManager × Result ActionError Bool
unfolding find_action settle
check_overdue rfc3339 m tenant_id action_id now = elim (find_action m tenant_id action_id) [
  | err x ↦ (m, err x)
  | ok act ↦ (
    (settle m tenant_id action_id (check_overdue_of rfc3339 now act)).0,
    ok (not (is_closed act.state) && is_past_due act now),
  )
]
