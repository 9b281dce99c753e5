-- ===== src/Publication/Sound.antt =====
-- What a publication of modules/publication-snapshot/publication_lifecycle.go must have behind it.
use mathlib.Core.Path.{subst}
use oshe_platform.Prelude.{
  ℕ, String, ◌≡◌, refl, sym, ap, ◌∙◌, Bool, true, false, ◌||◌, none, some, List, [], ◌∷◌, arith,
  Option-cases, eq_iff, inl, inr, ◌⊎◌,
}
use oshe_platform.Prelude.Map.{
  Map, lookup, insert, string_eq, ◌==◌, lookup-insert_cases, lookup-empty,
}
use oshe_platform.Publication.{
  LifecycleState, state_approved, state_published, state_withdrawn, state_replaced,
  state_superseded, ApprovalEvidence, EffectiveWindow, validate_window, LifecycleManagedSnapshot,
  LifecycleAuditRecord, is_authorized_role,
}
use oshe_platform.Publication.Controller.{
  LifecycleController, new_lifecycle_controller, draft_of, check_approve, check_publish,
  check_withdraw, check_published,
}
use oshe_platform.Publication.Run.{
  Call, exec, run, Move, to_review, to_approved, to_published, to_withdrawn, to_replaced,
  to_superseded, Step, unchanged, registers, moves, exec-Step,
}

-- The states after an approval, and those after a publication.
abbrev pub was_approved : LifecycleState → Bool
was_approved s =
    s == state_approved
    || s == state_published
    || s == state_withdrawn
    || s == state_replaced
    || s == state_superseded

abbrev pub was_published : LifecycleState → Bool
was_published s = s == state_published || s == state_replaced || s == state_superseded

pub record IsSoundSnapshot (s : LifecycleManagedSnapshot) : Type 0 where
  pub by_authorized :
      was_approved s.state ≡ true → is_authorized_role s.approval.approver_role ≡ true
  pub of_content : was_approved s.state ≡ true → s.approval.content_digest ≡ s.content_digest
  pub windowed : was_published s.state ≡ true → validate_window s.window ≡ none
  pub reasoned : s.state ≡ state_withdrawn → (s.withdrawal_reason == "") ≡ false
  pub succeeded :
      s.state ≡ state_replaced ⊎ s.state ≡ state_superseded → (s.successor_id == "") ≡ false

-- Two of the named states are not one.
apart : {a b : LifecycleState} → (a == b) ≡ false → a ≡ b → ⊥
apart {a} {b} h k = cc (sym h ∙ (eq_iff a b).1 k)

neither : {a b c : LifecycleState} → (a == b) ≡ false → (a == c) ≡ false → (a ≡ b) ⊎ (a ≡ c) → ⊥
neither h k (inl e) = apart h e
neither h k (inr e) = apart k e

approval_lawful :
    (e : ApprovalEvidence) (now : ℕ) (s : LifecycleManagedSnapshot)
    → check_approve e now s ≡ none
    → (is_authorized_role e.approver_role ≡ true) × (e.content_digest ≡ s.content_digest)
unfolding check_approve
approval_lawful e now s h =
    (ground (arith, h), ground (arith, h, eq_iff e.content_digest s.content_digest))

publication_lawful :
    (role : String) (w : EffectiveWindow) (now : ℕ) (s : LifecycleManagedSnapshot)
    → check_publish role w now s ≡ none
    → (was_approved s.state ≡ true) × (validate_window w ≡ none)
unfolding check_publish
publication_lawful role w now s h = elim (Option-cases (validate_window w)) [
  | inl e ↦ (ground (arith, h), e)
  | inr e ↦ absurd (ground (arith, rw (check_publish, e.1) at h))
]

withdrawal_lawful :
    (s : LifecycleManagedSnapshot) → check_withdraw s ≡ none → was_approved s.state ≡ true
unfolding check_withdraw
withdrawal_lawful s h = ground (arith, h)

published_lawful :
    (s : LifecycleManagedSnapshot)
    → check_published s ≡ none
    → (was_approved s.state ≡ true) × (was_published s.state ≡ true)
unfolding check_published
published_lawful s h = (ground (arith, h), ground (arith, h))

draft-IsSoundSnapshot :
    (t s : String) (version : ℕ) (d : String) (now : ℕ)
    → IsSoundSnapshot (draft_of t s version d now)
unfolding draft_of
draft-IsSoundSnapshot t s version d now = record {
  by_authorized = λ h. absurd (cc h);
  of_content = λ h. absurd (cc h);
  windowed = λ h. absurd (cc h);
  reasoned = λ h. absurd (apart refl h);
  succeeded = λ h. absurd (neither refl refl h);
}

Move-IsSoundSnapshot :
    (s s' : LifecycleManagedSnapshot) → Move s s' → IsSoundSnapshot s → IsSoundSnapshot s'
Move-IsSoundSnapshot s _ (to_review now c) h = record {
  by_authorized = λ k. absurd (cc k);
  of_content = λ k. absurd (cc k);
  windowed = λ k. absurd (cc k);
  reasoned = λ k. absurd (apart refl k);
  succeeded = λ k. absurd (neither refl refl k);
}
Move-IsSoundSnapshot s _ (to_approved e now c) h = record {
  by_authorized = λ k. (approval_lawful e now s c).0;
  of_content = λ k. (approval_lawful e now s c).1;
  windowed = λ k. absurd (cc k);
  reasoned = λ k. absurd (apart refl k);
  succeeded = λ k. absurd (neither refl refl k);
}
Move-IsSoundSnapshot s _ (to_published role w now c) h = record {
  by_authorized = λ k. h.by_authorized (publication_lawful role w now s c).0;
  of_content = λ k. h.of_content (publication_lawful role w now s c).0;
  windowed = λ k. (publication_lawful role w now s c).1;
  reasoned = λ k. absurd (apart refl k);
  succeeded = λ k. absurd (neither refl refl k);
}
Move-IsSoundSnapshot s _ (to_withdrawn reason who given c) h = record {
  by_authorized = λ k. h.by_authorized (withdrawal_lawful s c);
  of_content = λ k. h.of_content (withdrawal_lawful s c);
  windowed = λ k. absurd (cc k);
  reasoned = λ k. given;
  succeeded = λ k. absurd (neither refl refl k);
}
Move-IsSoundSnapshot s _ (to_replaced successor reason now given c) h = record {
  by_authorized = λ k. h.by_authorized (published_lawful s c).0;
  of_content = λ k. h.of_content (published_lawful s c).0;
  windowed = λ k. h.windowed (published_lawful s c).1;
  reasoned = λ k. absurd (apart refl k);
  succeeded = λ k. given;
}
Move-IsSoundSnapshot s _ (to_superseded successor now given c) h = record {
  by_authorized = λ k. h.by_authorized (published_lawful s c).0;
  of_content = λ k. h.of_content (published_lawful s c).0;
  windowed = λ k. h.windowed (published_lawful s c).1;
  reasoned = λ k. absurd (apart refl k);
  succeeded = λ k. given;
}

unfoldable pub IsSoundController : LifecycleController → Type 0
IsSoundController c =
    (key : String) (s : LifecycleManagedSnapshot)
    → lookup key c.snapshots ≡ some s
    → IsSoundSnapshot s

written-IsSoundSnapshot :
    (m : Map String LifecycleManagedSnapshot) (key : String) (new : LifecycleManagedSnapshot)
    → IsSoundSnapshot new
    → ((k : String) (s : LifecycleManagedSnapshot) → lookup k m ≡ some s → IsSoundSnapshot s)
    → (m' : Map String LifecycleManagedSnapshot) → m' ≡ insert key new m
    → (k : String) (s : LifecycleManagedSnapshot) → lookup k m' ≡ some s
    → IsSoundSnapshot s
written-IsSoundSnapshot m key new h old m' e k s found =
    elim (lookup-insert_cases key k new m (sym (ap (lookup k) e) ∙ found)) [
      | inl (at, same) ↦ subst IsSoundSnapshot same h
      | inr (other, before) ↦ old k s before
    ]

Step-IsSoundController :
    (c c' : LifecycleController)
    → Step c c'
    → IsSoundController c
    → (key : String) (s : LifecycleManagedSnapshot) → lookup key c'.snapshots ≡ some s
    → IsSoundSnapshot s
unfolding IsSoundController
Step-IsSoundController c _ unchanged h = h
Step-IsSoundController c _ (registers c' key t s version d now fresh e) h =
    written-IsSoundSnapshot c.snapshots key (draft_of t s version d now)
      (draft-IsSoundSnapshot t s version d now) h c'.snapshots e
Step-IsSoundController c _ (moves c' key s s' at m e) h =
    written-IsSoundSnapshot c.snapshots key s' (Move-IsSoundSnapshot s s' m (h key s at)) h
      c'.snapshots e

pub run-IsSoundController :
    (digest : LifecycleAuditRecord → String) (c : LifecycleController) (xs : List Call)
    → IsSoundController c
    → IsSoundController (run digest c xs)
unfolding run IsSoundController
run-IsSoundController digest c [] h = h
run-IsSoundController digest c (x ∷ xs) h =
    run-IsSoundController digest (exec digest c x) xs
      (Step-IsSoundController c (exec digest c x) (exec-Step digest c x) h)

pub new-IsSoundController : IsSoundController new_lifecycle_controller
unfolding IsSoundController
new-IsSoundController key s h = absurd (cc (sym (lookup-empty key) ∙ h))
