-- ===== src/Finding/Sound.antt =====
-- What every record of modules/workflow-action/finding_lifecycle.go satisfies.
use oshe_platform.Prelude.{
  ℕ, suc, ◌+◌, ◌<◌, String, ◌≡◌, refl, ◌∙◌, true, false, some, List, [], ◌∷◌, length, push, wrap,
  if◌then◌else◌, arith, eq_iff,
}
use oshe_platform.Prelude.Map.{string_eq, ◌==◌}
use oshe_platform.Prelude.Strings.{trim_space}
use oshe_platform.Finding.{
  FindingState, finding_state_closed, FindingRuleCatalog, FindingAuditEntry, FindingRecord,
  severity_rank, is_human_closure_authorized, is_autonomous,
}
use oshe_platform.Finding.Changes.{is_mandatory}

-- Entries are numbered from the number after `n`, in 64-bit integers.
abbrev pub Numbered : ℕ → List FindingAuditEntry → Type 0
Numbered n [] = Unit
Numbered n (e ∷ es) = (e.sequence ≡ wrap (n + 1)) × Numbered (suc n) es

pub Numbered-push :
    (n : ℕ) (es : List FindingAuditEntry) (e : FindingAuditEntry)
    → Numbered n es
    → e.sequence ≡ wrap (n + length es + 1)
    → Numbered n (push es e)
Numbered-push n [] e h k = (k ∙ omega arith, tt)
Numbered-push n (x ∷ es) e h k = (h.0, Numbered-push (suc n) es e h.1 (k ∙ omega arith))

-- The state that a history leads to: that of the last entry that names one.
abbrev pub replayed : FindingState → List FindingAuditEntry → FindingState
replayed s [] = s
replayed s (e ∷ es) = replayed (if e.to_state == "" then s else e.to_state) es

pub replayed-push :
    (s : FindingState) (es : List FindingAuditEntry) (e : FindingAuditEntry)
    → replayed s (push es e) ≡ (if e.to_state == "" then replayed s es else e.to_state)
replayed-push s [] e = refl
replayed-push s (x ∷ es) e = replayed-push (if x.to_state == "" then s else x.to_state) es e

-- The last entry of the history is the closure, made by a caller whose role may close a finding and
-- who is no AI, with a rationale.
pub record IsClosedByHuman (rec : FindingRecord) : Type 0 where
  pub before : List FindingAuditEntry
  pub entry : FindingAuditEntry
  pub last : rec.history ≡ push before entry
  pub closes : entry.to_state ≡ finding_state_closed
  pub authorized : is_human_closure_authorized entry.actor_role ≡ true
  pub human : is_autonomous entry.actor entry.actor_role ≡ false
  pub closed_by : rec.closed_by ≡ entry.actor
  pub closed_at : rec.closed_at ≡ some entry.timestamp
  pub reasoned : (trim_space rec.closure_rationale == "") ≡ false

pub record IsSoundFinding (c : FindingRuleCatalog) (t f : String) (rec : FindingRecord)
    : Type 0 where
  pub own_tenant : rec.tenant_id ≡ t
  pub own_id : rec.finding_id ≡ f
  pub numbered : Numbered 0 rec.history
  pub replays : replayed "" rec.history ≡ rec.state
  pub closed : rec.state ≡ finding_state_closed → IsClosedByHuman rec
  pub ranked : 0 < severity_rank rec.severity
  pub critical : is_mandatory c rec.rule_id ≡ true → rec.critical_flag ≡ true
  pub controlled : is_mandatory c rec.rule_id ≡ true → (rec.immediate_control == "") ≡ false

pub not_closed :
    (rec : FindingRecord)
    → (rec.state == finding_state_closed) ≡ false
    → rec.state ≡ finding_state_closed
    → ⊥
not_closed rec h k = ground (arith, eq_iff rec.state finding_state_closed, h, k)
