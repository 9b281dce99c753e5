-- ===== src/Identity/Revocation/Subjects.antt =====
-- What RevokeSubject of modules/identity-authorization/session_revocation.go does to later decisions.
use oshe_platform.Prelude.{
  ℕ, ◌+◌, ◌≤◌, ◌<◌, ◌^◌, String, ◌≡◌, refl, ap, ◌∙◌, true, false, none, some, List, [], ◌∷◌, length,
  arith, Bool-cases, Option-cases, inl, inr,
}
use oshe_platform.Prelude.Map.{lookup, lookup-insert, lookup-insert_same, nat_eq, string_eq, ◌==◌}
use oshe_platform.Identity.Revocation.{
  TokenDigest, SubjectRevocationRecord, RevocationRegistry, audit, check_revocation, subject_key,
  revoke_subject, is_stale, evaluate_session,
}
use oshe_platform.Identity.Revocation.Run.{
  Call, exec, run, Step, unchanged, revokes_token, revokes_subject, bumps, exec-Step,
}

-- A revocation of the key is on record that reaches the generation `g`.
IsCovered : RevocationRegistry → String → ℕ → Type 0
IsCovered r key g =
    (g ≤ r.global_generation)
    × ((rev : SubjectRevocationRecord) × (lookup key r.subject_revocations ≡ some rev)
        × (g ≤ rev.generation)
        × (rev.generation < 2 ^ 63))

Step-IsCovered :
    (r r' : RevocationRegistry)
    → Step r r'
    → (key : String) (g : ℕ) → r.global_generation + 1 < 2 ^ 63
    → IsCovered r key g
    → IsCovered r' key g × (r'.global_generation ≤ r.global_generation + 1)
unfolding IsCovered
Step-IsCovered r _ unchanged key g small h = (h, omega arith)
Step-IsCovered r _ (revokes_token r' k rec e s n t) key g small (low, (rev, found, reaches, top)) =
    ((omega (arith, e), (rev, ap (lookup key) n ∙ found, reaches, top)), omega (arith, e))
Step-IsCovered r _ (revokes_subject r' k new e s gen n t) key g small
      (low, (rev, found, reaches, top)) =
    elim (Bool-cases (k == key)) [
      | inl same ↦ (
        (
          omega (arith, e),
          (
            new,
            ap (lookup key) n ∙ lookup-insert k key new r.subject_revocations ∙ rw same refl,
            omega (arith, gen),
            omega (arith, gen),
          ),
        ),
        omega (arith, e),
      )
      | inr apart ↦ (
        (
          omega (arith, e),
          (
            rev,
            ap (lookup key) n ∙ lookup-insert k key new r.subject_revocations ∙ rw apart found,
            reaches,
            top,
          ),
        ),
        omega (arith, e),
      )
    ]
Step-IsCovered r _ (bumps r' tenant e s n t) key g small (low, (rev, found, reaches, top)) =
    ((omega (arith, e), (rev, ap (lookup key) n ∙ found, reaches, top)), omega (arith, e))

run-IsCovered :
    (r : RevocationRegistry) (cs : List Call) (key : String) (g : ℕ)
    → r.global_generation + length cs < 2 ^ 63
    → IsCovered r key g
    → IsCovered (run r cs) key g
unfolding run
run-IsCovered r [] key g small h = h
run-IsCovered r (c ∷ cs) key g small h =
    let s = Step-IsCovered r (exec r c) (exec-Step r c) key g (omega arith) h in
    run-IsCovered (exec r c) cs key g (omega (arith, s.1)) s.0

revoke_subject-IsCovered :
    (r : RevocationRegistry) (tenant subject reason : String) (now : ℕ)
    → r.global_generation + 1 < 2 ^ 63
    → (revoke_subject r tenant subject reason now).1 ≡ none
    → IsCovered
        (revoke_subject r tenant subject reason now).0
        (subject_key tenant subject)
        (r.global_generation + 1)
      × ((revoke_subject r tenant subject reason now).0.global_generation ≤ r.global_generation + 1)
unfolding IsCovered revoke_subject audit
revoke_subject-IsCovered r tenant subject reason now small h =
    elim (Option-cases (check_revocation tenant subject reason)) [
      | inr e ↦ absurd (ground (arith, rw (revoke_subject, e.1) at h))
      | inl e ↦
          rw (revoke_subject, e)
            (
              (
                omega arith,
                (
                  _,
                  lookup-insert_same (subject_key tenant subject) _ r.subject_revocations,
                  omega arith,
                  omega arith,
                ),
              ),
              omega arith,
            )
    ]

is_stale-IsCovered :
    (r : RevocationRegistry) (key : String) (g : ℕ) (caller who : String) (session : ℕ)
    → IsCovered r key g
    → subject_key caller who ≡ key
    → session ≤ g
    → is_stale r.subject_revocations caller who session ≡ true
unfolding IsCovered is_stale
is_stale-IsCovered r key g caller who session (low, (rev, found, reaches, top)) same old =
    rw (is_stale, same, found) (ground (arith, reaches, top, old))

denied_if_stale :
    (r : RevocationRegistry) (digest : TokenDigest) (caller target who : String) (session : ℕ)
    → is_stale r.subject_revocations caller who session ≡ true
    → (evaluate_session r digest caller target who session).allowed ≡ false
unfolding evaluate_session
denied_if_stale r digest caller target who session h = ground arith

-- Once RevokeSubject has succeeded, a session of that subject and tenant which was opened at the
-- registry's generation of that moment or before is denied, whatever its token and target tenant,
-- after any further calls, as long as the generation does not reach 2^63.
pub revoked_subject_denied :
    (r : RevocationRegistry) (tenant subject reason : String) (now : ℕ) (cs : List Call)
    (digest : TokenDigest) (caller target who : String) (session : ℕ)
    → (revoke_subject r tenant subject reason now).1 ≡ none
    → r.global_generation + 1 + length cs < 2 ^ 63
    → subject_key caller who ≡ subject_key tenant subject
    → session ≤ r.global_generation + 1
    → (evaluate_session
        (run (revoke_subject r tenant subject reason now).0 cs)
        digest
        caller
        target
        who
        session).allowed
      ≡ false
revoked_subject_denied r tenant subject reason now cs digest caller target who session done small
      same old =
    let r' = (revoke_subject r tenant subject reason now).0 in
    let key = subject_key tenant subject in
    let c = revoke_subject-IsCovered r tenant subject reason now (omega arith) done in
    denied_if_stale (run r' cs) digest caller target who session (
      is_stale-IsCovered (run r' cs) key (r.global_generation + 1) caller who session
        (run-IsCovered r' cs key (r.global_generation + 1) (omega (arith, c.1)) c.0) same old)
