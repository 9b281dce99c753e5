-- ===== src/Finding/Closed.antt =====
-- What later calls do to a closed finding of modules/workflow-action/finding_lifecycle.go.
use oshe_platform.Prelude.{
  String, ◌≡◌, sym, ap, ◌∙◌, false, Option, some, List, [], ◌∷◌, Bool-cases, eq_iff, inl, inr,
}
use oshe_platform.Prelude.Map.{Map, string_eq, ◌==◌}
use oshe_platform.Prelude.Strings.{trim_space}
use oshe_platform.Finding.{finding_state_closed, FindingRecord}
use oshe_platform.Finding.Manager.{FindingManager, find, store, new_finding}
use oshe_platform.Finding.Run.{Call, exec, run, Step, same, created, changed, exec-Step, find-store}

write_keeps :
    (m : Map String (Map String FindingRecord)) (a b : String) (new : FindingRecord) (t f : String)
    (rec : FindingRecord)
    → find m t f ≡ some rec
    → (a ≡ t → b ≡ f → ⊥)
    → find (store m a b new) t f ≡ some rec
write_keeps m a b new t f rec found apart = elim (Bool-cases (a == t)) [
  | inr e ↦ find-store m a b new t f ∙ rw e found
  | inl e ↦ elim (Bool-cases (b == f)) [
    | inr g ↦ find-store m a b new t f ∙ rw (e, g) found
    | inl g ↦ absurd (apart ((eq_iff a t).0 e) ((eq_iff b f).0 g))
  ]
]

at_place :
    (m : Map String (Map String FindingRecord)) (a b t f : String)
    → a ≡ t
    → b ≡ f
    → find m a b ≡ find m t f
at_place m a b t f h k = ap (λ (x : String). find m x b) h ∙ ap (find m t) k

not_live :
    (old rec : FindingRecord)
    → (old.state == finding_state_closed) ≡ false
    → old ≡ rec
    → rec.state ≡ finding_state_closed
    → ⊥
not_live old rec live e k = cc (
    sym live
    ∙ (eq_iff old.state finding_state_closed).1 (ap (λ (x : FindingRecord). x.state) e ∙ k))

same_finding : (o : Option FindingRecord) (a b : FindingRecord) → o ≡ some a → o ≡ some b → a ≡ b
same_finding o a b h k = cc (sym h ∙ k)

kept_closed :
    (m m' : FindingManager)
    → Step m m'
    → (t f : String) (rec : FindingRecord) → find m.findings t f ≡ some rec
    → rec.state ≡ finding_state_closed
    → find m'.findings t f ≡ some rec
kept_closed m _ (same m' e g) t f rec found k = g t f ∙ found
kept_closed m _ (created req rule now at checks fresh) t f rec found k =
    write_keeps m.findings (trim_space req.tenant_id) (trim_space req.finding_id)
      (new_finding req rule now) t f rec found
      (λ p q. absurd (
        cc (
          sym fresh
          ∙ at_place m.findings (trim_space req.tenant_id) (trim_space req.finding_id) t f p q
          ∙ found)))
kept_closed m _ (changed a b old new at live c) t f rec found k =
    write_keeps m.findings a b new t f rec found (λ p q.
      not_live old rec live
        (same_finding (find m.findings a b) old rec at (at_place m.findings a b t f p q ∙ found)) k)

-- A closed finding is the same record after any further calls.
pub closed_stays :
    (m : FindingManager) (cs : List Call) (t f : String) (rec : FindingRecord)
    → find m.findings t f ≡ some rec
    → rec.state ≡ finding_state_closed
    → find (run m cs).findings t f ≡ some rec
unfolding run
closed_stays m [] t f rec found k = found
closed_stays m (c ∷ cs) t f rec found k =
    closed_stays (exec m c) cs t f rec (kept_closed m (exec m c) (exec-Step m c) t f rec found k) k
