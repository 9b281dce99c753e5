-- ===== src/Publication/Run.antt =====
-- The calls on the controller of modules/publication-snapshot/publication_lifecycle.go, and what
-- they change.
use oshe_platform.Prelude.{
  ℕ, String, ◌≡◌, refl, false, Option, none, some, List, [], ◌∷◌, Bool-cases, Option-cases, inl,
  inr,
}
use oshe_platform.Prelude.Map.{lookup, insert, string_eq, ◌==◌}
use oshe_platform.Prelude.Strings.{trim_space}
use oshe_platform.Publication.{
  LifecycleError, ApprovalEvidence, EffectiveWindow, LifecycleManagedSnapshot, LifecycleAuditRecord,
  is_authorized_role,
}
use oshe_platform.Publication.Controller.{
  LifecycleController, make_lifecycle_key, Actor, draft_of, check_draft, check_submit,
  check_approve, check_publish, check_withdraw, check_published, submitted, approved, published,
  withdrawn, replaced, superseded,
}
use oshe_platform.Publication.Transitions.{
  log, transition, register_draft, submit_for_review, approve, publish, withdraw, replace,
  supersede,
}

pub data Call : Type 0 where
  draft : String → String → ℕ → String → String → ℕ → Call
  submit : String → String → Actor → Call
  approve_with : String → String → ApprovalEvidence → ℕ → Call
  publish_in : String → String → Actor → EffectiveWindow → Call
  withdraw_for : String → String → Actor → String → Call
  replace_by : String → String → String → Actor → String → Call
  supersede_by : String → String → String → Actor → Call

-- A move of a snapshot by one of the transitions.
pub data Move (s : LifecycleManagedSnapshot) : LifecycleManagedSnapshot → Type 0 where
  to_review : (now : ℕ) → check_submit s ≡ none → Move s (submitted now s)
  to_approved :
      (e : ApprovalEvidence) (now : ℕ) → check_approve e now s ≡ none → Move s (approved e now s)
  to_published :
      (role : String) (w : EffectiveWindow) (now : ℕ)
      → check_publish role w now s ≡ none
      → Move s (published w now s)
  to_withdrawn :
      (reason : String) (who : Actor)
      → (trim_space reason == "") ≡ false
      → check_withdraw s ≡ none
      → Move s (withdrawn reason who s)
  to_replaced :
      (successor reason : String) (now : ℕ)
      → (trim_space successor == "") ≡ false
      → check_published s ≡ none
      → Move s (replaced successor reason now s)
  to_superseded :
      (successor : String) (now : ℕ)
      → (trim_space successor == "") ≡ false
      → check_published s ≡ none
      → Move s (superseded successor now s)

-- What a call does to the snapshots.
pub data Step (c : LifecycleController) : LifecycleController → Type 0 where
  unchanged : Step c c
  registers :
      (c' : LifecycleController) (key tenant snapshot : String) (version : ℕ) (digest : String)
      (now : ℕ)
      → lookup key c.snapshots ≡ none
      → c'.snapshots ≡ insert key (draft_of tenant snapshot version digest now) c.snapshots
      → Step c c'
  moves :
      (c' : LifecycleController) (key : String) (s s' : LifecycleManagedSnapshot)
      → lookup key c.snapshots ≡ some s
      → Move s s'
      → c'.snapshots ≡ insert key s' c.snapshots
      → Step c c'

module _ (digest : LifecycleAuditRecord → String) where
  abbrev pub exec : LifecycleController → Call → LifecycleController
  exec c (draft t s version d creator now) = (register_draft digest c t s version d creator now).0
  exec c (submit t s who) = (submit_for_review digest c t s who).0
  exec c (approve_with t s e now) = (approve digest c t s e now).0
  exec c (publish_in t s who w) = (publish digest c t s who w).0
  exec c (withdraw_for t s who reason) = (withdraw digest c t s who reason).0
  exec c (replace_by t s successor who reason) = (replace digest c t s successor who reason).0
  exec c (supersede_by t s successor who) = (supersede digest c t s successor who).0

  unfoldable pub run : LifecycleController → List Call → LifecycleController
  run c [] = c
  run c (x ∷ xs) = run (exec c x) xs

  transition-Step :
      (c : LifecycleController) (t s : String)
      (check : LifecycleManagedSnapshot → Option LifecycleError)
      (change : LifecycleManagedSnapshot → LifecycleManagedSnapshot) (who : Actor) (reason : String)
      (approval : LifecycleManagedSnapshot → String)
      → ((x : LifecycleManagedSnapshot) → check x ≡ none → Move x (change x))
      → Step c (transition digest c t s check change who reason approval).0
  unfolding transition log
  transition-Step c t s check change who reason approval lawful =
      elim (Option-cases (lookup (make_lifecycle_key t s) c.snapshots)) [
        | inl e ↦ rw (transition, e) unchanged
        | inr (x, e) ↦ elim (Option-cases (check x)) [
          | inr g ↦ rw (transition, e, g.1) unchanged
          | inl g ↦
              rw (transition, e, g)
                (moves _ (make_lifecycle_key t s) x (change x) e (lawful x g) refl)
        ]
      ]

  register_draft-Step :
      (c : LifecycleController) (t s : String) (version : ℕ) (d creator : String) (now : ℕ)
      → Step c (register_draft digest c t s version d creator now).0
  unfolding register_draft log
  register_draft-Step c t s version d creator now =
      elim (Option-cases (check_draft t s version d)) [
        | inr e ↦ rw (register_draft, e.1) unchanged
        | inl e ↦
            elim (Option-cases
              (lookup (make_lifecycle_key (trim_space t) (trim_space s)) c.snapshots)) [
                | inr g ↦ rw (register_draft, e, g.1) unchanged
                | inl g ↦
                    rw (register_draft, e, g)
                      (registers _ (make_lifecycle_key (trim_space t) (trim_space s)) t s version d
                        now g refl)
              ]
      ]

  withdraw-Step :
      (c : LifecycleController) (t s : String) (who : Actor) (reason : String)
      → Step c (withdraw digest c t s who reason).0
  unfolding withdraw
  withdraw-Step c t s who reason = elim (Bool-cases (trim_space reason == "")) [
    | inl e ↦ rw (withdraw, e) unchanged
    | inr e ↦ elim (Bool-cases (is_authorized_role who.role)) [
      | inr g ↦ rw (withdraw, e, g) unchanged
      | inl g ↦
          rw (withdraw, e, g)
            (transition-Step c t s check_withdraw (withdrawn reason who) who (trim_space reason)
              (λ x. "") (λ x h. to_withdrawn reason who e h))
    ]
  ]

  replace-Step :
      (c : LifecycleController) (t s successor : String) (who : Actor) (reason : String)
      → Step c (replace digest c t s successor who reason).0
  unfolding replace
  replace-Step c t s successor who reason = elim (Bool-cases (trim_space successor == "")) [
    | inl e ↦ rw (replace, e) unchanged
    | inr e ↦ elim (Bool-cases (trim_space reason == "")) [
      | inl g ↦ rw (replace, e, g) unchanged
      | inr g ↦
          rw (replace, e, g)
            (transition-Step c t s check_published (replaced successor reason who.now) who
              (trim_space reason) (λ x. "") (λ x h. to_replaced successor reason who.now e h))
    ]
  ]

  supersede-Step :
      (c : LifecycleController) (t s successor : String) (who : Actor)
      → Step c (supersede digest c t s successor who).0
  unfolding supersede
  supersede-Step c t s successor who = elim (Bool-cases (trim_space successor == "")) [
    | inl e ↦ rw (supersede, e) unchanged
    | inr e ↦
        rw (supersede, e)
          (transition-Step c t s check_published (superseded successor who.now) who _ (λ x. "")
            (λ x h. to_superseded successor who.now e h))
  ]

  pub exec-Step : (c : LifecycleController) (x : Call) → Step c (exec c x)
  unfolding submit_for_review approve publish
  exec-Step c (draft t s version d creator now) = register_draft-Step c t s version d creator now
  exec-Step c (submit t s who) =
      transition-Step c t s check_submit (submitted who.now) who _ _ (λ x h. to_review who.now h)
  exec-Step c (approve_with t s e now) =
      transition-Step c t s (check_approve e now) (approved e now) _ _ _
        (λ x h. to_approved e now h)
  exec-Step c (publish_in t s who w) =
      transition-Step c t s (check_publish who.role w who.now) (published w who.now) who _ _
        (λ x h. to_published who.role w who.now h)
  exec-Step c (withdraw_for t s who reason) = withdraw-Step c t s who reason
  exec-Step c (replace_by t s successor who reason) = replace-Step c t s successor who reason
  exec-Step c (supersede_by t s successor who) = supersede-Step c t s successor who
