-- ===== src/Finding/Kept.antt =====
-- That the operations of modules/workflow-action/finding_lifecycle.go keep a finding sound.
use mathlib.Core.Path.{subst}
use oshe_platform.Prelude.{
  ℕ, ◌<◌, String, ◌≡◌, refl, ap, ◌∙◌, Bool, true, false, none, some, ok, ok-inj, arith, Bool-cases,
  Option-cases, eq_iff, inl, inr,
}
use oshe_platform.Prelude.Map.{string_eq, ◌==◌}
use oshe_platform.Prelude.Strings.{trim_space}
use oshe_platform.Finding.{
  FindingState, FindingSeverity, finding_state_open, finding_state_closed, FindingRule,
  FindingRuleCatalog, get_rule, FindingRecord, FindingCreationRequest, Caller, severity_rank,
  is_human_closure_authorized, is_autonomous,
}
use oshe_platform.Finding.Manager.{chosen_severity, check_rule, new_finding}
use oshe_platform.Finding.Changes.{
  record_entry, check_severity, change_severity, is_mandatory, check_critical, change_critical_flag,
  check_closure, is_allowed_move, close_fields, change_state,
}
use oshe_platform.Finding.Run.{Change, by_severity, by_critical, by_state}
use oshe_platform.Finding.Sound.{
  Numbered-push, replayed-push, IsClosedByHuman, IsSoundFinding, not_closed,
}

severity_ranked :
    (old : FindingRecord) (s : FindingSeverity) (who : Caller)
    → check_severity old s who ≡ none
    → 0 < severity_rank s
unfolding check_severity
severity_ranked old s who h = ground (arith, h)

severity-IsSoundFinding :
    (c : FindingRuleCatalog) (t f : String) (old new : FindingRecord) (s : FindingSeverity)
    (who : Caller) (now : ℕ)
    → (old.state == finding_state_closed) ≡ false
    → IsSoundFinding c t f old
    → change_severity s who now old ≡ ok new
    → IsSoundFinding c t f new
unfolding change_severity record_entry
severity-IsSoundFinding c t f old new s who now live h done =
    elim (Option-cases (check_severity old s who)) [
      | inr e ↦ absurd (cc (rw (change_severity, e.1) at done))
      | inl e ↦ subst (IsSoundFinding c t f) (ok-inj (rw (change_severity, e) at done)) (record {
        own_tenant = h.own_tenant;
        own_id = h.own_id;
        numbered = Numbered-push 0 old.history _ h.numbered (omega arith);
        replays = replayed-push "" old.history _ ∙ h.replays;
        closed = λ k. absurd (not_closed old live k);
        ranked = severity_ranked old s who e;
        critical = h.critical;
        controlled = h.controlled;
      })
    ]

stays_critical :
    (c : FindingRuleCatalog) (old : FindingRecord) (b : Bool) (who : Caller)
    → check_critical c old b who ≡ none
    → is_mandatory c old.rule_id ≡ true
    → b ≡ true
unfolding check_critical
stays_critical c old b who h m = ground (arith, h, m)

closure_lawful :
    (s : FindingState) (who : Caller)
    → check_closure s who ≡ none
    → s ≡ finding_state_closed
    → (is_human_closure_authorized who.actor_role ≡ true)
      × (is_autonomous who.actor who.actor_role ≡ false)
      × ((trim_space who.rationale == "") ≡ false)
unfolding check_closure
closure_lawful s who h k =
    let y : (s == finding_state_closed) ≡ true = (eq_iff s finding_state_closed).1 k in
    (ground (arith, h, y), ground (arith, h, y), ground (arith, h, y))

no_move_to_nothing : (a : FindingState) → is_allowed_move a "" ≡ true → ⊥
unfolding is_allowed_move
no_move_to_nothing a h = ground (arith, h)

move_named : (a s : FindingState) → is_allowed_move a s ≡ true → (s == "") ≡ false
unfolding is_allowed_move
move_named a s h = elim (Bool-cases (s == "")) [
  | inr e ↦ e
  | inl e ↦ absurd (
      no_move_to_nothing a
        (subst (λ (x : String). is_allowed_move a x ≡ true) ((eq_iff s "").0 e) h))
]

critical-IsSoundFinding :
    (c : FindingRuleCatalog) (t f : String) (old new : FindingRecord) (b : Bool) (who : Caller)
    (now : ℕ)
    → (old.state == finding_state_closed) ≡ false
    → IsSoundFinding c t f old
    → change_critical_flag c b who now old ≡ ok new
    → IsSoundFinding c t f new
unfolding change_critical_flag record_entry
critical-IsSoundFinding c t f old new b who now live h done =
    elim (Option-cases (check_critical c old b who)) [
      | inr e ↦ absurd (cc (rw (change_critical_flag, e.1) at done))
      | inl e ↦
          subst (IsSoundFinding c t f) (ok-inj (rw (change_critical_flag, e) at done)) (record {
            own_tenant = h.own_tenant;
            own_id = h.own_id;
            numbered = Numbered-push 0 old.history _ h.numbered (omega arith);
            replays = replayed-push "" old.history _ ∙ h.replays;
            closed = λ k. absurd (not_closed old live k);
            ranked = h.ranked;
            critical = stays_critical c old b who e;
            controlled = h.controlled;
          })
    ]

-- A move names its state, which is not empty.
closed_by_caller :
    (rec : FindingRecord) (s : FindingState) (who : Caller) (now : ℕ) (details : String)
    → check_closure s who ≡ none
    → s ≡ finding_state_closed
    → IsClosedByHuman (
        close_fields s who now
          (record (record_entry rec who "STATE_TRANSITION" rec.state s details now) { state = s }))
unfolding close_fields record_entry
closed_by_caller rec s who now details e k =
    let g = closure_lawful s who e k in
    rw k (record {
      before = rec.history;
      entry = _;
      last = refl;
      closes = refl;
      authorized = g.0;
      human = g.1;
      closed_by = refl;
      closed_at = refl;
      reasoned = g.2;
    })

moved-IsSoundFinding :
    (c : FindingRuleCatalog) (t f : String) (old : FindingRecord) (s : FindingState) (who : Caller)
    (now : ℕ) (details : String)
    → IsSoundFinding c t f old
    → check_closure s who ≡ none
    → is_allowed_move old.state s ≡ true
    → IsSoundFinding c t f (
        close_fields s who now
          (record (record_entry old who "STATE_TRANSITION" old.state s details now) { state = s }))
unfolding record_entry close_fields
moved-IsSoundFinding c t f old s who now details h e move =
    elim (Bool-cases (s == finding_state_closed)) [
      | inr n ↦
          rw (close_fields, n)
            (record {
              own_tenant = h.own_tenant;
              own_id = h.own_id;
              numbered = Numbered-push 0 old.history _ h.numbered (omega arith);
              replays = replayed-push "" old.history _ ∙ rw (move_named old.state s move) refl;
              closed = λ k. absurd (ground (arith, eq_iff s finding_state_closed, n, k));
              ranked = h.ranked;
              critical = h.critical;
              controlled = h.controlled;
            })
      | inl y ↦
          let by_human =
            closed_by_caller old s who now details e ((eq_iff s finding_state_closed).0 y) in
          rw (close_fields, y)
            (record {
              own_tenant = h.own_tenant;
              own_id = h.own_id;
              numbered = Numbered-push 0 old.history _ h.numbered (omega arith);
              replays = replayed-push "" old.history _ ∙ rw (move_named old.state s move) refl;
              closed = λ k. rw (close_fields, y) at by_human;
              ranked = h.ranked;
              critical = h.critical;
              controlled = h.controlled;
            })
    ]

state-IsSoundFinding :
    (c : FindingRuleCatalog) (t f : String) (old new : FindingRecord) (s : FindingState)
    (who : Caller) (now : ℕ)
    → IsSoundFinding c t f old
    → change_state s who now old ≡ ok new
    → IsSoundFinding c t f new
unfolding change_state
state-IsSoundFinding c t f old new s who now h done = elim (Option-cases (check_closure s who)) [
  | inr e ↦ absurd (cc (rw (change_state, e.1) at done))
  | inl e ↦ elim (Bool-cases (is_allowed_move old.state s)) [
    | inr g ↦ absurd (cc (rw (change_state, e, g) at done))
    | inl g ↦
        subst (IsSoundFinding c t f) (ok-inj (rw (change_state, e, g) at done))
          (moved-IsSoundFinding c t f old s who now _ h e g)
  ]
]

pub Change-IsSoundFinding :
    (c : FindingRuleCatalog) (t f : String) (old new : FindingRecord)
    → (old.state == finding_state_closed) ≡ false
    → Change c old new
    → IsSoundFinding c t f old
    → IsSoundFinding c t f new
Change-IsSoundFinding c t f old new live (by_severity s who now e) h =
    severity-IsSoundFinding c t f old new s who now live h e
Change-IsSoundFinding c t f old new live (by_critical b who now e) h =
    critical-IsSoundFinding c t f old new b who now live h e
Change-IsSoundFinding c t f old new live (by_state s who now e) h =
    state-IsSoundFinding c t f old new s who now h e

-- A catalog keeps a rule under its own identifier.
unfoldable pub IsKeyed : FindingRuleCatalog → Type 0
IsKeyed c = (k : String) (rule : FindingRule) → get_rule c k ≡ some rule → rule.rule_id ≡ k

created_mandatory :
    (c : FindingRuleCatalog) (k : String) (rule : FindingRule)
    → IsKeyed c
    → get_rule c k ≡ some rule
    → is_mandatory c rule.rule_id ≡ true
    → rule.mandatory_critical ≡ true
unfolding IsKeyed is_mandatory
created_mandatory c k rule keyed found h =
    let at : get_rule c rule.rule_id ≡ some rule = ap (get_rule c) (keyed k rule found) ∙ found in
    rw (is_mandatory, at) at h

open_not_closed : finding_state_open ≡ finding_state_closed → ⊥
open_not_closed h = cc ((eq_iff finding_state_open finding_state_closed).1 h)

creation_ranked :
    (req : FindingCreationRequest) (rule : FindingRule)
    → check_rule req rule ≡ none
    → 0 < severity_rank (chosen_severity req rule)
unfolding check_rule
creation_ranked req rule h = ground (arith, h)

creation_controlled :
    (req : FindingCreationRequest) (rule : FindingRule)
    → check_rule req rule ≡ none
    → rule.mandatory_critical ≡ true
    → (trim_space req.immediate_control == "") ≡ false
unfolding check_rule
creation_controlled req rule h k = ground (arith, h, k)

pub new_finding-IsSoundFinding :
    (c : FindingRuleCatalog) (req : FindingCreationRequest) (rule : FindingRule) (now : ℕ)
    → IsKeyed c
    → get_rule c (trim_space req.rule_id) ≡ some rule
    → check_rule req rule ≡ none
    → IsSoundFinding c
        (trim_space req.tenant_id)
        (trim_space req.finding_id)
        (new_finding req rule now)
unfolding new_finding
new_finding-IsSoundFinding c req rule now keyed found checks =
    let mandatory = created_mandatory c (trim_space req.rule_id) rule keyed found in
    record {
      own_tenant = refl;
      own_id = refl;
      numbered = (refl, tt);
      replays = refl;
      closed = λ k. absurd (open_not_closed k);
      ranked = creation_ranked req rule checks;
      critical = λ h. rw (mandatory h) refl;
      controlled = λ h. creation_controlled req rule checks (mandatory h);
    }
