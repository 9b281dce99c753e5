-- ===== src/Finding/Run.antt =====
-- The calls on the manager of modules/workflow-action/finding_lifecycle.go, and what they change.
use mathlib.Core.Path.{subst}
use oshe_platform.Prelude.{
  ℕ, String, ◌≡◌, refl, sym, ap, ◌∙◌, Bool, false, ◌&&◌, Option, none, some, List, [], ◌∷◌, Result,
  ok, if◌then◌else◌, Bool-cases, Option-cases, Result-cases, eq_iff, inl, inr,
}
use oshe_platform.Prelude.Map.{
  Map, lookup, insert, empty, string_eq, ◌==◌, lookup-insert, lookup-insert_same,
  lookup-insert_other, lookup-empty,
}
use oshe_platform.Prelude.Strings.{trim_space}
use oshe_platform.Finding.{
  FindingState, FindingSeverity, finding_state_closed, FindingError, FindingRule,
  FindingRuleCatalog, get_rule, FindingRecord, FindingCreationRequest, Caller,
}
use oshe_platform.Finding.Manager.{
  FindingManager, in_tenant, or_made, find, tenant_map, store, ensure_tenant, check_rule,
  check_request, new_finding, check_stored, create_with_rule, create_finding,
}
use oshe_platform.Finding.Changes.{
  on_finding, change_severity, update_severity, change_critical_flag, update_critical_flag,
  change_state, transition_state,
}

pub data Call : Type 0 where
  create : FindingCreationRequest → ℕ → Call
  set_severity : String → String → FindingSeverity → Caller → ℕ → Call
  set_critical : String → String → Bool → Caller → ℕ → Call
  move_to : String → String → FindingState → Caller → ℕ → Call

abbrev pub exec : FindingManager → Call → FindingManager
exec m (create req now) = (create_finding m req now).0
exec m (set_severity t f new who now) = (update_severity m t f new who now).0
exec m (set_critical t f critical who now) = (update_critical_flag m t f critical who now).0
exec m (move_to t f to_state who now) = (transition_state m t f to_state who now).0

unfoldable pub run : FindingManager → List Call → FindingManager
run m [] = m
run m (c ∷ cs) = run (exec m c) cs

-- A change of a record by one of the three operations.
pub data Change (c : FindingRuleCatalog) (old new : FindingRecord) : Type 0 where
  by_severity :
      (s : FindingSeverity) (who : Caller) (now : ℕ)
      → change_severity s who now old ≡ ok new
      → Change c old new
  by_critical :
      (b : Bool) (who : Caller) (now : ℕ)
      → change_critical_flag c b who now old ≡ ok new
      → Change c old new
  by_state :
      (s : FindingState) (who : Caller) (now : ℕ)
      → change_state s who now old ≡ ok new
      → Change c old new

-- What a call does to the findings.
pub data Step (m : FindingManager) : FindingManager → Type 0 where
  same :
      (m' : FindingManager)
      → m'.catalog ≡ m.catalog
      → ((t f : String) → find m'.findings t f ≡ find m.findings t f)
      → Step m m'
  created :
      (req : FindingCreationRequest) (rule : FindingRule) (now : ℕ)
      → get_rule m.catalog (trim_space req.rule_id) ≡ some rule
      → check_rule req rule ≡ none
      → find m.findings (trim_space req.tenant_id) (trim_space req.finding_id) ≡ none
      → Step m (record m {
        findings =
            store m.findings
              (trim_space req.tenant_id)
              (trim_space req.finding_id)
              (new_finding req rule now);
      })
  changed :
      (t f : String) (old new : FindingRecord)
      → find m.findings t f ≡ some old
      → (old.state == finding_state_closed) ≡ false
      → Change m.catalog old new
      → Step m (record m { findings = store m.findings t f new })

unchanged : (m : FindingManager) → Step m m
unchanged m = same m refl (λ t f. refl)

on_finding-Step :
    (m : FindingManager) (t f : String) (change : FindingRecord → Result FindingError FindingRecord)
    → ((old new : FindingRecord) → change old ≡ ok new → Change m.catalog old new)
    → Step m (on_finding m t f change).0
unfolding on_finding
on_finding-Step m t f change lawful =
    elim (Option-cases (find m.findings (trim_space t) (trim_space f))) [
      | inl e ↦ rw (on_finding, e) (unchanged m)
      | inr (rec, e) ↦ elim (Bool-cases (rec.state == finding_state_closed)) [
        | inl c ↦ rw (on_finding, e, c) (unchanged m)
        | inr c ↦ elim (Result-cases (change rec)) [
          | inr (x, g) ↦ rw (on_finding, e, c, g) (unchanged m)
          | inl (new, g) ↦
              rw (on_finding, e, c, g)
                (changed (trim_space t) (trim_space f) rec new e c (lawful rec new g))
        ]
      ]
    ]

find-ensure_tenant :
    (m : Map String (Map String FindingRecord)) (tenant t f : String)
    → find (ensure_tenant m tenant) t f ≡ find m t f
unfolding find ensure_tenant
find-ensure_tenant m tenant t f = elim (Option-cases (lookup tenant m)) [
  | inr e ↦ rw (ensure_tenant, e.1) refl
  | inl e ↦ elim (Bool-cases (tenant == t)) [
    | inr apart ↦
        rw (ensure_tenant, e) (ap (λ o. in_tenant o f) (lookup-insert_other tenant t empty m apart))
    | inl s ↦
        let gone : lookup t m ≡ none =
          ap (λ (k : String). lookup k m) (sym ((eq_iff tenant t).0 s)) ∙ e in
        let made : lookup t (insert tenant empty m) ≡ some empty =
          lookup-insert tenant t empty m ∙ rw s refl in
        rw (ensure_tenant, e)
          (ap (λ o. in_tenant o f) made ∙ lookup-empty f ∙ sym (ap (λ o. in_tenant o f) gone))
  ]
]

is_new :
    (m : Map String (Map String FindingRecord)) (req : FindingCreationRequest)
    → check_stored m req ≡ none
    → find m (trim_space req.tenant_id) (trim_space req.finding_id) ≡ none
unfolding check_stored
is_new m req h =
    elim (Option-cases (find m (trim_space req.tenant_id) (trim_space req.finding_id))) [
      | inl e ↦ e
      | inr e ↦ absurd (cc (rw (check_stored, e.1) at h))
    ]

create-Step :
    (m : FindingManager) (req : FindingCreationRequest) (rule : FindingRule) (now : ℕ)
    → get_rule m.catalog (trim_space req.rule_id) ≡ some rule
    → Step m (create_with_rule m req rule now).0
unfolding create_with_rule
create-Step m req rule now known = elim (Option-cases (check_rule req rule)) [
  | inr e ↦ rw (create_with_rule, e.1) (unchanged m)
  | inl e ↦ elim (Option-cases (check_stored m.findings req)) [
    | inr g ↦
        rw (create_with_rule, e, g.1)
          (same _ refl (λ t f. find-ensure_tenant m.findings (trim_space req.tenant_id) t f))
    | inl g ↦ rw (create_with_rule, e, g) (created req rule now known e (is_new m.findings req g))
  ]
]

create_finding-Step :
    (m : FindingManager) (req : FindingCreationRequest) (now : ℕ)
    → Step m (create_finding m req now).0
unfolding create_finding
create_finding-Step m req now = elim (Option-cases (check_request req)) [
  | inr e ↦ rw (create_finding, e.1) (unchanged m)
  | inl e ↦ elim (Option-cases (get_rule m.catalog (trim_space req.rule_id))) [
    | inl g ↦ rw (create_finding, e, g) (unchanged m)
    | inr (rule, g) ↦ rw (create_finding, e, g) (create-Step m req rule now g)
  ]
]

pub exec-Step : (m : FindingManager) (c : Call) → Step m (exec m c)
unfolding update_severity update_critical_flag transition_state
exec-Step m (create req now) = create_finding-Step m req now
exec-Step m (set_severity t f s who now) =
    on_finding-Step m t f (change_severity s who now) (λ old new h. by_severity s who now h)
exec-Step m (set_critical t f b who now) =
    on_finding-Step m t f (change_critical_flag m.catalog b who now)
      (λ old new h. by_critical b who now h)
exec-Step m (move_to t f s who now) =
    on_finding-Step m t f (change_state s who now) (λ old new h. by_state s who now h)

lookup-or_made :
    (o : Option (Map String FindingRecord)) (f : String) → lookup f (or_made o) ≡ in_tenant o f
lookup-or_made none f = lookup-empty f
lookup-or_made (some x) f = refl

find-store_in :
    (m : Map String (Map String FindingRecord)) (t f : String) (rec : FindingRecord) (f' : String)
    → find (store m t f rec) t f' ≡ (if f == f' then some rec else find m t f')
unfolding find store tenant_map
find-store_in m t f rec f' =
    ap (λ o. in_tenant o f') (lookup-insert_same t (insert f rec (or_made (lookup t m))) m)
    ∙ lookup-insert f f' rec (or_made (lookup t m))
    ∙ ap (λ o. if f == f' then some rec else o) (lookup-or_made (lookup t m) f')

-- What a write of a finding leaves to be found.
pub find-store :
    (m : Map String (Map String FindingRecord)) (t f : String) (rec : FindingRecord)
    (t' f' : String)
    → find (store m t f rec) t' f' ≡ (if t == t' && f == f' then some rec else find m t' f')
unfolding find store tenant_map
find-store m t f rec t' f' = elim (Bool-cases (t == t')) [
  | inr apart ↦ rw apart (
      ap (λ o. in_tenant o f')
        (lookup-insert_other t t' (insert f rec (or_made (lookup t m))) m apart))
  | inl e ↦ rw e (
      subst
        (λ (k : String). find (store m t f rec) k f' ≡ (if f == f' then some rec else find m k f'))
        ((eq_iff t t').0 e) (find-store_in m t f rec f'))
]
