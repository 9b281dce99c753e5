-- ===== src/Finding/Lifecycle.antt =====
-- What holds of every finding of modules/workflow-action/finding_lifecycle.go after any calls.
use mathlib.Core.Path.{subst}
use oshe_platform.Prelude.{
  String, ◌≡◌, refl, sym, ap, ◌∙◌, false, some, List, [], ◌∷◌, Bool-cases, eq_iff, inl, inr, ◌⊎◌,
}
use oshe_platform.Prelude.Map.{Map, empty, string_eq, ◌==◌, lookup-empty, lookup-insert_cases}
use oshe_platform.Prelude.Strings.{trim_space}
use oshe_platform.Finding.{
  finding_state_closed, FindingRule, FindingRuleCatalog, register_rule, get_rule,
  new_finding_rule_catalog, FindingRecord,
}
use oshe_platform.Finding.Manager.{
  FindingManager, new_finding_manager, in_tenant, find, store, new_finding,
}
use oshe_platform.Finding.Run.{
  Call, exec, run, Step, same, created, changed, exec-Step, Change, find-store,
}
use oshe_platform.Finding.Sound.{IsSoundFinding}
use oshe_platform.Finding.Kept.{IsKeyed, Change-IsSoundFinding, new_finding-IsSoundFinding}

-- The catalog that `RegisterRule` makes of rules, on top of one.
unfoldable pub register_rules : FindingRuleCatalog → List FindingRule → FindingRuleCatalog
register_rules c [] = c
register_rules c (r ∷ rs) = register_rules (register_rule c r) rs

register_rule-IsKeyed :
    (c : FindingRuleCatalog) (r : FindingRule) → IsKeyed c → IsKeyed (register_rule c r)
unfolding IsKeyed register_rule get_rule
register_rule-IsKeyed c r h k rule found = elim (lookup-insert_cases r.rule_id k r c.rules found) [
  | inl (at, e) ↦ sym (ap (λ (x : FindingRule). x.rule_id) e) ∙ at
  | inr (apart, old) ↦ h k rule old
]

register_rules-IsKeyed :
    (c : FindingRuleCatalog) (rs : List FindingRule) → IsKeyed c → IsKeyed (register_rules c rs)
unfolding register_rules
register_rules-IsKeyed c [] h = h
register_rules-IsKeyed c (r ∷ rs) h =
    register_rules-IsKeyed (register_rule c r) rs (register_rule-IsKeyed c r h)

empty-IsKeyed : IsKeyed (record { rules = empty })
unfolding IsKeyed get_rule
empty-IsKeyed k rule h = absurd (cc (sym (lookup-empty k) ∙ h))

new_catalog-IsKeyed : IsKeyed new_finding_rule_catalog
unfolding new_finding_rule_catalog
new_catalog-IsKeyed =
    register_rule-IsKeyed _ _ (register_rule-IsKeyed _ _ (register_rule-IsKeyed _ _ empty-IsKeyed))

-- Every finding that the manager finds is sound, under the names that it is found by.
pub IsSoundFindings : FindingManager → Type 0
IsSoundFindings m =
    (t f : String) (rec : FindingRecord)
    → find m.findings t f ≡ some rec
    → IsSoundFinding m.catalog t f rec

-- A finding after a write is the one written, under its names, or one that was there before.
find-store_cases :
    (m : Map String (Map String FindingRecord)) (t f : String) (new : FindingRecord)
    (t' f' : String) (rec : FindingRecord)
    → find (store m t f new) t' f' ≡ some rec
    → ((t ≡ t') × (f ≡ f') × (new ≡ rec)) ⊎ (find m t' f' ≡ some rec)
find-store_cases m t f new t' f' rec h =
    let g = sym (find-store m t f new t' f') ∙ h in
    elim (Bool-cases (t == t')) [
      | inr a ↦ inr (rw a at g)
      | inl a ↦ elim (Bool-cases (f == f')) [
        | inr b ↦ inr (rw (a, b) at g)
        | inl b ↦ inl ((eq_iff t t').0 a, (eq_iff f f').0 b, cc (rw (a, b) at g))
      ]
    ]

written-IsSoundFindings :
    (m : FindingManager) (t f : String) (new : FindingRecord)
    → IsSoundFindings m
    → IsSoundFinding m.catalog t f new
    → IsSoundFindings (record m { findings = store m.findings t f new })
unfolding IsSoundFindings
written-IsSoundFindings m t f new h k t' f' rec found =
    elim (find-store_cases m.findings t f new t' f' rec found) [
      | inr old ↦ h t' f' rec old
      | inl (a, b, e) ↦ subst (IsSoundFinding m.catalog t' f') e (
          subst (λ (x : String). IsSoundFinding m.catalog t' x new) b
            (subst (λ (x : String). IsSoundFinding m.catalog x f new) a k))
    ]

same-IsSoundFindings :
    (m m' : FindingManager)
    → m'.catalog ≡ m.catalog
    → ((t f : String) → find m'.findings t f ≡ find m.findings t f)
    → IsSoundFindings m
    → IsSoundFindings m'
unfolding IsSoundFindings
same-IsSoundFindings m m' e g h t f rec found =
    subst (λ (c : FindingRuleCatalog). IsSoundFinding c t f rec) (sym e)
      (h t f rec (sym (g t f) ∙ found))

changed-IsSoundFindings :
    (m : FindingManager) (t f : String) (old new : FindingRecord)
    → find m.findings t f ≡ some old
    → (old.state == finding_state_closed) ≡ false
    → Change m.catalog old new
    → IsSoundFindings m
    → IsSoundFindings (record m { findings = store m.findings t f new })
unfolding IsSoundFindings
changed-IsSoundFindings m t f old new found live c h =
    written-IsSoundFindings m t f new h
      (Change-IsSoundFinding m.catalog t f old new live c (h t f old found))

Step-IsSoundFindings :
    (m m' : FindingManager) → Step m m' → IsKeyed m.catalog → IsSoundFindings m → IsSoundFindings m'
Step-IsSoundFindings m _ (same m' e g) keyed h = same-IsSoundFindings m m' e g h
Step-IsSoundFindings m _ (created req rule now found checks fresh) keyed h =
    written-IsSoundFindings m (trim_space req.tenant_id) (trim_space req.finding_id)
      (new_finding req rule now) h
      (new_finding-IsSoundFinding m.catalog req rule now keyed found checks)
Step-IsSoundFindings m _ (changed t f old new found live c) keyed h =
    changed-IsSoundFindings m t f old new found live c h

kept_catalog : (m m' : FindingManager) → Step m m' → m'.catalog ≡ m.catalog
kept_catalog m _ (same m' e g) = e
kept_catalog m _ (created req rule now found checks fresh) = refl
kept_catalog m _ (changed t f old new found live c) = refl

run_catalog : (m : FindingManager) (cs : List Call) → (run m cs).catalog ≡ m.catalog
unfolding run
run_catalog m [] = refl
run_catalog m (c ∷ cs) = run_catalog (exec m c) cs ∙ kept_catalog m (exec m c) (exec-Step m c)

run-IsSoundFindings :
    (m : FindingManager) (cs : List Call)
    → IsKeyed m.catalog
    → IsSoundFindings m
    → IsSoundFindings (run m cs)
unfolding run
run-IsSoundFindings m [] keyed h = h
run-IsSoundFindings m (c ∷ cs) keyed h =
    run-IsSoundFindings (exec m c) cs
      (subst IsKeyed (sym (kept_catalog m (exec m c) (exec-Step m c))) keyed)
      (Step-IsSoundFindings m (exec m c) (exec-Step m c) keyed h)

new-IsSoundFindings : (c : FindingRuleCatalog) → IsSoundFindings (new_finding_manager c)
unfolding IsSoundFindings find
new-IsSoundFindings c t f rec h = absurd (cc (sym (ap (λ o. in_tenant o f) (lookup-empty t)) ∙ h))

-- After any calls on a new manager, whose catalog has the three given rules and any registered after
-- them, each finding stands under its own tenant and identifier; its history is numbered from 1 in
-- 64-bit integers and leads to its state; if it is closed, the last entry is the closure, by a
-- caller who is no AI and whose role may close a finding, with a rationale; its severity is one of
-- the four; and if its rule is mandatory-critical, it is critical and has an immediate control.
pub findings_sound :
    (rules : List FindingRule) (cs : List Call) (t f : String) (rec : FindingRecord)
    → find
        (run (new_finding_manager (register_rules new_finding_rule_catalog rules)) cs).findings
        t
        f
      ≡ some rec
    → IsSoundFinding (register_rules new_finding_rule_catalog rules) t f rec
unfolding IsSoundFindings
findings_sound rules cs t f rec h =
    let c = register_rules new_finding_rule_catalog rules in
    let keyed = register_rules-IsKeyed new_finding_rule_catalog rules new_catalog-IsKeyed in
    subst (λ (x : FindingRuleCatalog). IsSoundFinding x t f rec)
      (run_catalog (new_finding_manager c) cs)
      (run-IsSoundFindings (new_finding_manager c) cs keyed (new-IsSoundFindings c) t f rec h)
