-- ===== src/Publication/Kept.antt =====
-- What later calls do to a snapshot of modules/publication-snapshot/publication_lifecycle.go.
use mathlib.Core.Path.{subst}
use oshe_platform.Prelude.{
  ℕ, ◌<◌, String, ◌≡◌, refl, sym, ap, ◌∙◌, none, some, List, [], ◌∷◌, if◌then◌else◌, arith,
  Bool-cases, eq_iff, inl, inr, ◌⊎◌,
}
use oshe_platform.Prelude.Map.{
  Map, lookup, insert, string_eq, ◌==◌, lookup-insert, lookup-insert_other,
}
use oshe_platform.Publication.{
  LifecycleState, state_draft, state_under_review, state_approved, state_published,
  ApprovalEvidence, EffectiveWindow, LifecycleManagedSnapshot, LifecycleAuditRecord,
}
use oshe_platform.Publication.Controller.{
  LifecycleController, draft_of, check_submit, check_approve, check_publish, check_withdraw,
  check_published,
}
use oshe_platform.Publication.Run.{
  Call, exec, run, Move, to_review, to_approved, to_published, to_withdrawn, to_replaced,
  to_superseded, Step, unchanged, registers, moves, exec-Step,
}

-- How far a snapshot is: the three ways to end come last.
abbrev pub rank : LifecycleState → ℕ
rank s =
    if s == state_draft
    then 0
    else if s == state_under_review
    then 1
    else if s == state_approved
    then 2
    else if s == state_published
    then 3
    else 4

-- The same publication, unchanged or further on.
pub record IsLater (s s' : LifecycleManagedSnapshot) : Type 0 where
  pub own_tenant : s'.tenant_id ≡ s.tenant_id
  pub own_id : s'.snapshot_id ≡ s.snapshot_id
  pub own_version : s'.version ≡ s.version
  pub own_content : s'.content_digest ≡ s.content_digest
  pub own_creation : s'.created_at ≡ s.created_at
  pub further : (s' ≡ s) ⊎ (rank s.state < rank s'.state)

IsLater-refl : (s : LifecycleManagedSnapshot) → IsLater s s
IsLater-refl s = record {
  own_tenant = refl;
  own_id = refl;
  own_version = refl;
  own_content = refl;
  own_creation = refl;
  further = inl refl;
}

later_rank : (a b c : ℕ) → a < b → b < c → a < c
later_rank a b c h k = omega (arith, h, k)

further_on :
    (a b c : LifecycleManagedSnapshot)
    → (b ≡ a) ⊎ (rank a.state < rank b.state)
    → (c ≡ b) ⊎ (rank b.state < rank c.state)
    → (c ≡ a) ⊎ (rank a.state < rank c.state)
further_on a b c (inl h) (inl k) = inl (k ∙ h)
further_on a b c (inr h) (inl k) =
    inr (subst (λ (x : LifecycleManagedSnapshot). rank a.state < rank x.state) (sym k) h)
further_on a b c (inl h) (inr k) =
    inr (subst (λ (x : LifecycleManagedSnapshot). rank x.state < rank c.state) h k)
further_on a b c (inr h) (inr k) = inr (later_rank (rank a.state) (rank b.state) (rank c.state) h k)

IsLater-trans : (a b c : LifecycleManagedSnapshot) → IsLater a b → IsLater b c → IsLater a c
IsLater-trans a b c h k = record {
  own_tenant = k.own_tenant ∙ h.own_tenant;
  own_id = k.own_id ∙ h.own_id;
  own_version = k.own_version ∙ h.own_version;
  own_content = k.own_content ∙ h.own_content;
  own_creation = k.own_creation ∙ h.own_creation;
  further = further_on a b c h.further k.further;
}

-- Each check lets through only states below the one that follows.
submit_rank : (s : LifecycleManagedSnapshot) → check_submit s ≡ none → rank s.state < 1
unfolding check_submit
submit_rank s h = ground (arith, h)

approve_rank :
    (e : ApprovalEvidence) (now : ℕ) (s : LifecycleManagedSnapshot)
    → check_approve e now s ≡ none
    → rank s.state < 2
unfolding check_approve
approve_rank e now s h =
    let at : s.state ≡ state_under_review = ground (arith, h, eq_iff s.state state_under_review) in
    subst (λ (x : LifecycleState). rank x < 2) (sym at) (omega arith)

publish_rank :
    (role : String) (w : EffectiveWindow) (now : ℕ) (s : LifecycleManagedSnapshot)
    → check_publish role w now s ≡ none
    → rank s.state < 3
unfolding check_publish
publish_rank role w now s h =
    let at : s.state ≡ state_approved = ground (arith, h, eq_iff s.state state_approved) in
    subst (λ (x : LifecycleState). rank x < 3) (sym at) (omega arith)

published_rank : (s : LifecycleManagedSnapshot) → check_published s ≡ none → rank s.state < 4
unfolding check_published
published_rank s h =
    let at : s.state ≡ state_published = ground (arith, h, eq_iff s.state state_published) in
    subst (λ (x : LifecycleState). rank x < 4) (sym at) (omega arith)

withdraw_rank : (s : LifecycleManagedSnapshot) → check_withdraw s ≡ none → rank s.state < 4
unfolding check_withdraw
withdraw_rank s h =
    let at : (s.state ≡ state_published) ⊎ (s.state ≡ state_approved) =
      ground (arith, h, eq_iff s.state state_published, eq_iff s.state state_approved) in
    elim at [
      | inl e ↦ subst (λ (x : LifecycleState). rank x < 4) (sym e) (omega arith)
      | inr e ↦ subst (λ (x : LifecycleState). rank x < 4) (sym e) (omega arith)
    ]

-- A move to a state of a greater rank that keeps the five fields.
moved_on :
    (s s' : LifecycleManagedSnapshot)
    → s'.tenant_id ≡ s.tenant_id
    → s'.snapshot_id ≡ s.snapshot_id
    → s'.version ≡ s.version
    → s'.content_digest ≡ s.content_digest
    → s'.created_at ≡ s.created_at
    → rank s.state < rank s'.state
    → IsLater s s'
moved_on s s' a b c d e h = record {
  own_tenant = a;
  own_id = b;
  own_version = c;
  own_content = d;
  own_creation = e;
  further = inr h;
}

Move-IsLater : (s s' : LifecycleManagedSnapshot) → Move s s' → IsLater s s'
Move-IsLater s _ (to_review now c) = moved_on s _ refl refl refl refl refl (submit_rank s c)
Move-IsLater s _ (to_approved e now c) =
    moved_on s _ refl refl refl refl refl (approve_rank e now s c)
Move-IsLater s _ (to_published role w now c) =
    moved_on s _ refl refl refl refl refl (publish_rank role w now s c)
Move-IsLater s _ (to_withdrawn reason who given c) =
    moved_on s _ refl refl refl refl refl (withdraw_rank s c)
Move-IsLater s _ (to_replaced successor reason now given c) =
    moved_on s _ refl refl refl refl refl (published_rank s c)
Move-IsLater s _ (to_superseded successor now given c) =
    moved_on s _ refl refl refl refl refl (published_rank s c)

-- A later version of the snapshot is found under its key.
pub Kept : LifecycleController → String → LifecycleManagedSnapshot → Type 0
Kept c key s = (s' : LifecycleManagedSnapshot) × (lookup key c.snapshots ≡ some s') × IsLater s s'

written-Kept :
    (m m' : Map String LifecycleManagedSnapshot) (k key : String) (s new : LifecycleManagedSnapshot)
    → m' ≡ insert k new m
    → lookup key m ≡ some s
    → (lookup k m ≡ some s → IsLater s new)
    → (s' : LifecycleManagedSnapshot) × (lookup key m' ≡ some s') × IsLater s s'
written-Kept m m' k key s new e found later = elim (Bool-cases (k == key)) [
  | inr other ↦
      (s, ap (lookup key) e ∙ lookup-insert_other k key new m other ∙ found, IsLater-refl s)
  | inl at ↦ (
    new,
    ap (lookup key) e ∙ lookup-insert k key new m ∙ rw at refl,
    later (ap (λ (x : String). lookup x m) ((eq_iff k key).0 at) ∙ found),
  )
]

one_snapshot : {a b : LifecycleManagedSnapshot} → some a ≡ some b → a ≡ b
one_snapshot h = cc h

Step-Kept :
    (c c' : LifecycleController)
    → Step c c'
    → (key : String) (s : LifecycleManagedSnapshot) → lookup key c.snapshots ≡ some s
    → Kept c' key s
unfolding Kept
Step-Kept c _ unchanged key s found = (s, found, IsLater-refl s)
Step-Kept c _ (registers c' k t n version d now fresh e) key s found =
    written-Kept c.snapshots c'.snapshots k key s (draft_of t n version d now) e found
      (λ at. absurd (cc (sym fresh ∙ at)))
Step-Kept c _ (moves c' k old new at m e) key s found =
    written-Kept c.snapshots c'.snapshots k key s new e found (λ here.
      subst (λ (x : LifecycleManagedSnapshot). IsLater x new) (one_snapshot (sym at ∙ here))
        (Move-IsLater old new m))

Kept-trans :
    (c : LifecycleController) (key : String) (s : LifecycleManagedSnapshot)
    (c' : LifecycleController)
    → Kept c key s
    → ((x : LifecycleManagedSnapshot) → lookup key c.snapshots ≡ some x → Kept c' key x)
    → Kept c' key s
unfolding Kept
Kept-trans c key s c' (x, found, later) f =
    let (y, found', later') = f x found in (y, found', IsLater-trans s x y later later')

-- A snapshot that the controller has is still found under its key after any calls, with the same
-- tenant, identifier, version, content and creation, and it is unchanged or in a state further on
-- the way from DRAFT over UNDER_REVIEW, APPROVED and PUBLISHED to the other states.
pub run-Kept :
    (digest : LifecycleAuditRecord → String) (c : LifecycleController) (xs : List Call)
    (key : String) (s : LifecycleManagedSnapshot)
    → lookup key c.snapshots ≡ some s
    → Kept (run digest c xs) key s
unfolding run Kept
run-Kept digest c [] key s found = (s, found, IsLater-refl s)
run-Kept digest c (x ∷ xs) key s found =
    Kept-trans (exec digest c x) key s (run digest (exec digest c x) xs)
      (Step-Kept c (exec digest c x) (exec-Step digest c x) key s found)
      (λ y h. run-Kept digest (exec digest c x) xs key y h)
