-- ===== src/Action/Keeps.antt =====
-- Each method of modules/workflow-action/action_lifecycle.go keeps an action sound.
use Prim.Native.String.{len}
use oshe_platform.Prelude.{ℕ, String, ◌≡◌, refl, not, none, some, eqb, arith, Bool-cases, inl, inr}
use oshe_platform.Prelude.Map.{same_text, string_eq, ◌==◌}
use oshe_platform.Prelude.Strings.{trim_space}
use oshe_platform.Action.{
  in_progress, in_review, rejected, overdue, action_closed, unauthorized_action,
  invalid_preceding_state, insufficient_evidence, blank_reason, cross_tenant_denied,
  blank_evidence_id, duplicate_evidence_id, invalid_evidence_digest, EvidenceAttachment, Action,
}
use oshe_platform.Action.Decide.{
  refuse, leave, log_entry, move_to, is_closed, is_in_review, can_start, is_in_progress, can_submit,
  start_work_of, has_evidence, attach, attach_evidence_of, lacks_evidence, submit_for_review_of,
  reject_review_of, close_action_of, reopen_action_of, is_past_due, is_overdue, check_overdue_of,
}
use oshe_platform.Action.Manager.{key_eq}
use oshe_platform.Action.Sound.{
  HasTrail-push, IsSoundAction, Keeps, by_refusal, by_leave, by_update,
}
use oshe_platform.Action.Moves.{
  Keeps-if, unstamped_when_open, open_when_unstamped, move_to-Keeps, in_review_state, closed_state,
  open_state, may_stay,
}

pub start_work-Keeps :
    (caller : String) (now : ℕ) (act : Action)
    → IsSoundAction act
    → Keeps act (start_work_of caller now act)
unfolding start_work_of
start_work-Keeps caller now act h =
    Keeps-if act (is_closed act.state) (refuse action_closed) _ (by_refusal _) (λ o.
      Keeps-if act (not (trim_space caller == act.owner)) (refuse unauthorized_action) _
        (by_refusal _)
        (λ c. elim (Bool-cases (can_start act.state)) [
          | inl e ↦ rw e (
              move_to-Keeps act in_progress caller _ now h o refl
                (same_text (trim_space caller) act.owner c, inl e))
          | inr e ↦
              rw e (Keeps-if act (is_in_progress act.state) leave _ by_leave (λ _. by_refusal _))
        ]))

pub submit_for_review-Keeps :
    (caller notes : String) (now : ℕ) (act : Action)
    → IsSoundAction act
    → Keeps act (submit_for_review_of caller notes now act)
unfolding submit_for_review_of
submit_for_review-Keeps caller notes now act h =
    Keeps-if act (is_closed act.state) (refuse action_closed) _ (by_refusal _) (λ o.
      Keeps-if act (not (trim_space caller == act.owner)) (refuse unauthorized_action) _
        (by_refusal _)
        (λ c.
          Keeps-if act (not (can_submit act.state)) (refuse invalid_preceding_state) _
            (by_refusal _)
            (λ s.
              Keeps-if act (lacks_evidence act) (refuse insufficient_evidence) _ (by_refusal _)
                (λ e.
                  move_to-Keeps act in_review caller notes now h o refl
                    (same_text (trim_space caller) act.owner c, inl (ground arith))))))

pub reject_review-Keeps :
    (caller reason : String) (now : ℕ) (act : Action)
    → IsSoundAction act
    → Keeps act (reject_review_of caller reason now act)
unfolding reject_review_of
reject_review-Keeps caller reason now act h =
    Keeps-if act (is_closed act.state) (refuse action_closed) _ (by_refusal _) (λ o.
      Keeps-if act (not (trim_space caller == act.reviewer)) (refuse unauthorized_action) _
        (by_refusal _)
        (λ c.
          Keeps-if act (not (is_in_review act.state)) (refuse invalid_preceding_state) _
            (by_refusal _)
            (λ s.
              Keeps-if act (trim_space reason == "") (refuse blank_reason) _ (by_refusal _) (λ e.
                move_to-Keeps act rejected caller _ now h o refl (
                  inl (
                    same_text (trim_space caller) act.reviewer c,
                    in_review_state act.state (ground arith),
                  ))))))

pub check_overdue-Keeps :
    (rfc3339 : ℕ → String) (now : ℕ) (act : Action)
    → IsSoundAction act
    → Keeps act (check_overdue_of rfc3339 now act)
unfolding check_overdue_of
check_overdue-Keeps rfc3339 now act h = Keeps-if act (is_closed act.state) leave _ by_leave (λ o.
    Keeps-if act (not (is_past_due act now)) leave _ by_leave (λ c.
      Keeps-if act (is_overdue act.state) leave _ by_leave (λ s.
        move_to-Keeps act overdue "system_timer" _ now h o refl
          (inl (refl, open_state act.state o)))))

pub attach_evidence-Keeps :
    (caller : String) (ev : EvidenceAttachment) (now : ℕ) (act : Action)
    → IsSoundAction act
    → Keeps act (attach_evidence_of caller ev now act)
unfolding attach_evidence_of attach log_entry
attach_evidence-Keeps caller ev now act h =
    Keeps-if act (is_closed act.state) (refuse action_closed) _ (by_refusal _) (λ o.
      Keeps-if act (not (trim_space caller == act.owner)) (refuse unauthorized_action) _
        (by_refusal _)
        (λ c.
          Keeps-if act (not (trim_space ev.tenant_id == act.tenant_id)) (refuse cross_tenant_denied)
            _ (by_refusal _)
            (λ t.
              Keeps-if act (trim_space ev.evidence_id == "") (refuse blank_evidence_id) _
                (by_refusal _)
                (λ b.
                  Keeps-if act (has_evidence act (trim_space ev.evidence_id))
                    (refuse duplicate_evidence_id) _ (by_refusal _)
                    (λ d.
                      Keeps-if act (not (eqb (len (trim_space ev.digest)) 64))
                        (refuse invalid_evidence_digest) _ (by_refusal _)
                        (λ l.
                          by_update _
                            (record {
                              trail =
                                  HasTrail-push act.owner act.reviewer act.state act.history _
                                    h.trail refl refl
                                    (may_stay act.owner act.reviewer act.state caller o
                                      (same_text (trim_space caller) act.owner c));
                              closure =
                                  open_when_unstamped act.state _ o
                                    (unstamped_when_open act.state act o h.closure);
                            })
                            refl refl refl refl))))))

pub close_action-Keeps :
    (caller notes : String) (now : ℕ) (act : Action)
    → IsSoundAction act
    → Keeps act (close_action_of caller notes now act)
unfolding close_action_of move_to log_entry lacks_evidence
close_action-Keeps caller notes now act h =
    Keeps-if act (is_closed act.state) (refuse action_closed) _ (by_refusal _) (λ o.
      Keeps-if act (not (trim_space caller == act.reviewer)) (refuse unauthorized_action) _
        (by_refusal _)
        (λ c.
          Keeps-if act (not (is_in_review act.state)) (refuse invalid_preceding_state) _
            (by_refusal _)
            (λ s.
              Keeps-if act (lacks_evidence act) (refuse insufficient_evidence) _ (by_refusal _)
                (λ e.
                  let r = same_text (trim_space caller) act.reviewer c in
                  by_update _
                    (record {
                      trail =
                          HasTrail-push act.owner act.reviewer act.state act.history _ h.trail refl
                            refl (r, in_review_state act.state (ground arith));
                      closure = record {
                        evidence = e;
                        closer = r;
                        stamp = λ (w : some now ≡ none). absurd (ground arith);
                      };
                    })
                    refl refl refl refl))))

pub reopen_action-Keeps :
    (caller reason : String) (now : ℕ) (act : Action)
    → IsSoundAction act
    → Keeps act (reopen_action_of caller reason now act)
unfolding reopen_action_of move_to log_entry
reopen_action-Keeps caller reason now act h =
    Keeps-if act (not (is_closed act.state)) (refuse invalid_preceding_state) _ (by_refusal _) (λ s.
      Keeps-if act (not (trim_space caller == act.reviewer)) (refuse unauthorized_action) _
        (by_refusal _)
        (λ c. Keeps-if act (trim_space reason == "") (refuse blank_reason) _ (by_refusal _) (λ e.
          by_update _
            (record {
              trail =
                  HasTrail-push act.owner act.reviewer act.state act.history _ h.trail refl refl (
                    inl (
                      same_text (trim_space caller) act.reviewer c,
                      closed_state act.state (ground arith),
                    ));
              closure = (refl, refl);
            })
            refl refl refl refl)))
