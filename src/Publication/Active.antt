-- ===== src/Publication/Active.antt =====
-- What GetActivePublishedSnapshot of modules/publication-snapshot/publication_lifecycle.go returns.
use mathlib.Core.Path.{subst}
use oshe_platform.Prelude.{
  ℕ, ◌+◌, ◌*◌, ◌<◌, ◌≤◌, String, ◌≡◌, refl, sym, ap, ◌∙◌, true, ◌&&◌, none, some, List, ok, ok-inj,
  arith, Bool-cases, Option-cases, eq_iff, inl, inr,
}
use oshe_platform.Prelude.Map.{lookup, string_eq, ◌==◌}
use oshe_platform.Publication.{
  state_published, state_expired, EffectiveWindow, validate_window, is_effective, is_expired,
  LifecycleManagedSnapshot, effective_state, LifecycleAuditRecord, is_authorized_role, sub_time,
  hour,
}
use oshe_platform.Publication.Controller.{
  LifecycleController, new_lifecycle_controller, make_lifecycle_key,
}
use oshe_platform.Publication.Transitions.{
  get_snapshot, check_active, get_active_published_snapshot,
}
use oshe_platform.Publication.Run.{Call, run}
use oshe_platform.Publication.Sound.{
  was_approved, was_published, IsSoundSnapshot, IsSoundController, run-IsSoundController,
  new-IsSoundController,
}

-- The snapshot is published at the time: an authorized role approved just its content, and the time
-- lies in its window, which is not longer than 365 days.
pub record IsActiveAt (s : LifecycleManagedSnapshot) (now : ℕ) : Type 0 where
  pub is_published : s.state ≡ state_published
  pub by_authorized : is_authorized_role s.approval.approver_role ≡ true
  pub of_content : s.approval.content_digest ≡ s.content_digest
  pub started : s.window.effective_from ≤ now
  pub not_over : now < s.window.expires_at
  pub within_a_year : s.window.expires_at ≤ s.window.effective_from + 365 * 24 * hour

window_bounds :
    (w : EffectiveWindow)
    → validate_window w ≡ none
    → w.expires_at ≤ w.effective_from + 365 * 24 * hour
unfolding validate_window sub_time
window_bounds w h = ground (arith, h)

active_parts :
    (s : LifecycleManagedSnapshot) (now : ℕ)
    → check_active s now ≡ none
    → (s.state ≡ state_published) × (s.window.effective_from ≤ now)
unfolding check_active is_effective
active_parts s now h = (ground (arith, h, eq_iff s.state state_published), ground (arith, h))

expired_is_not_published : state_published ≡ state_expired → ⊥
expired_is_not_published h = cc ((eq_iff state_published state_expired).1 h)

effective_parts :
    (s : LifecycleManagedSnapshot) (now : ℕ)
    → effective_state s now ≡ state_published
    → (s.state ≡ state_published) × (now < s.window.expires_at)
unfolding effective_state is_expired
effective_parts s now h =
    elim (Bool-cases (s.state == state_published && is_expired s.window now)) [
      | inl e ↦ absurd (expired_is_not_published (sym (rw (effective_state, e) at h)))
      | inr e ↦
          let own : s.state ≡ state_published = rw (effective_state, e) at h in
          (own, ground (arith, e, (eq_iff s.state state_published).1 own))
    ]

found_active :
    (c : LifecycleController) (t n : String) (now : ℕ) (s' : LifecycleManagedSnapshot)
    → get_active_published_snapshot c t n now ≡ ok s'
    → (s : LifecycleManagedSnapshot) × (lookup (make_lifecycle_key t n) c.snapshots ≡ some s)
      × (record s { state = effective_state s now } ≡ s')
      × (check_active s' now ≡ none)
unfolding get_active_published_snapshot get_snapshot
found_active c t n now s' h = elim (Option-cases (lookup (make_lifecycle_key t n) c.snapshots)) [
  | inl e ↦ absurd (cc (rw (get_active_published_snapshot, get_snapshot, e) at h))
  | inr (s, e) ↦
      let s'' : LifecycleManagedSnapshot = record s { state = effective_state s now } in
      elim (Option-cases (check_active s'' now)) [
        | inr g ↦ absurd (cc (rw (get_active_published_snapshot, get_snapshot, e, g.1) at h))
        | inl g ↦
            let same : s'' ≡ s' =
              ok-inj (rw (get_active_published_snapshot, get_snapshot, e, g) at h) in
            (s, e, same, ap (λ (x : LifecycleManagedSnapshot). check_active x now) (sym same) ∙ g)
      ]
]

sound_and_active :
    (s s' : LifecycleManagedSnapshot) (now : ℕ)
    → IsSoundSnapshot s
    → record s { state = effective_state s now } ≡ s'
    → check_active s' now ≡ none
    → IsActiveAt s' now
sound_and_active s s' now h same check =
    let (p, started) = active_parts s' now check in
    let (own, over) =
      effective_parts s now (ap (λ (x : LifecycleManagedSnapshot). x.state) same ∙ p) in
    let approved : was_approved s.state ≡ true = rw own refl in
    let published_once : was_published s.state ≡ true = rw own refl in
    let window_kept : s.window ≡ s'.window = ap (λ (x : LifecycleManagedSnapshot). x.window) same in
    subst (λ (x : LifecycleManagedSnapshot). IsActiveAt x now) same
      (record {
        is_published = ap (λ (x : LifecycleManagedSnapshot). x.state) same ∙ p;
        by_authorized = h.by_authorized approved;
        of_content = h.of_content approved;
        started = subst (λ (w : EffectiveWindow). w.effective_from ≤ now) (sym window_kept) started;
        not_over = over;
        within_a_year = window_bounds s.window (h.windowed published_once);
      })

-- After any calls on a new controller, a snapshot that GetActivePublishedSnapshot returns at a time
-- is published then: its approval came from an authorized role and is for just its content, and the
-- time lies in its window, which is at most 365 days long.
pub get_active_published_snapshot-IsActiveAt :
    (digest : LifecycleAuditRecord → String) (xs : List Call) (tenant snapshot : String) (now : ℕ)
    (s : LifecycleManagedSnapshot)
    → get_active_published_snapshot (run digest new_lifecycle_controller xs) tenant snapshot now
      ≡ ok s
    → IsActiveAt s now
unfolding IsSoundController
get_active_published_snapshot-IsActiveAt digest xs tenant snapshot now s h =
    let c = run digest new_lifecycle_controller xs in
    let (stored, found, same, check) = found_active c tenant snapshot now s h in
    sound_and_active stored s now
      (run-IsSoundController digest new_lifecycle_controller xs new-IsSoundController
        (make_lifecycle_key tenant snapshot) stored found)
      same check
