-- ===== src/Identity/Revocation/Run.antt =====
-- The calls on the registry of modules/identity-authorization/session_revocation.go, and what they
-- do to its generations.
use oshe_platform.Prelude.{
  ℕ, ◌+◌, String, ◌≡◌, refl, ap, ◌∙◌, true, false, none, List, [], ◌∷◌, wrap, if◌then◌else◌, arith,
  Bool-cases, Option-cases, inl, inr,
}
use oshe_platform.Prelude.Map.{Map, insert, lookup-insert, beq_refl, nat_eq, string_eq, ◌==◌}
use oshe_platform.Prelude.Strings.{trim_space}
use oshe_platform.Identity.Revocation.{
  TokenDigest, SessionRevocationRecord, SubjectRevocationRecord, RevocationRegistry, next_global,
  audit, check_revocation, revoke_session_token, subject_key, revoke_subject, generation_of,
  check_bump, bump_tenant_policy_generation, is_revoked, evaluate_session,
}

pub data Call : Type 0 where
  revoke_token : TokenDigest → String → String → String → ℕ → Call
  revoke_all : String → String → String → ℕ → Call
  bump : String → String → ℕ → Call

abbrev pub exec : RevocationRegistry → Call → RevocationRegistry
exec r (revoke_token digest tenant subject reason now) =
    (revoke_session_token r digest tenant subject reason now).0
exec r (revoke_all tenant subject reason now) = (revoke_subject r tenant subject reason now).0
exec r (bump tenant reason now) = (bump_tenant_policy_generation r tenant reason now).0

unfoldable pub run : RevocationRegistry → List Call → RevocationRegistry
run r [] = r
run r (c ∷ cs) = run (exec r c) cs

-- What a call does to the parts that a decision reads.
pub data Step (r : RevocationRegistry) : RevocationRegistry → Type 0 where
  unchanged : Step r r
  revokes_token :
      (r' : RevocationRegistry) (digest : TokenDigest) (rec : SessionRevocationRecord)
      → r'.global_generation ≡ next_global r
      → r'.revoked_sessions ≡ insert digest rec r.revoked_sessions
      → r'.subject_revocations ≡ r.subject_revocations
      → r'.tenant_generations ≡ r.tenant_generations
      → Step r r'
  revokes_subject :
      (r' : RevocationRegistry) (key : String) (rev : SubjectRevocationRecord)
      → r'.global_generation ≡ next_global r
      → r'.revoked_sessions ≡ r.revoked_sessions
      → rev.generation ≡ next_global r
      → r'.subject_revocations ≡ insert key rev r.subject_revocations
      → r'.tenant_generations ≡ r.tenant_generations
      → Step r r'
  bumps :
      (r' : RevocationRegistry) (tenant : String)
      → r'.global_generation ≡ next_global r
      → r'.revoked_sessions ≡ r.revoked_sessions
      → r'.subject_revocations ≡ r.subject_revocations
      → r'.tenant_generations
        ≡ insert tenant (wrap (generation_of r.tenant_generations tenant + 1)) r.tenant_generations
      → Step r r'

bump-Step :
    (r : RevocationRegistry) (tenant reason : String) (now : ℕ)
    → Step r (bump_tenant_policy_generation r tenant reason now).0
unfolding bump_tenant_policy_generation audit
bump-Step r tenant reason now = elim (Option-cases (check_bump tenant reason)) [
  | inr e ↦ rw (bump_tenant_policy_generation, e.1) unchanged
  | inl e ↦ rw (bump_tenant_policy_generation, e) (bumps _ (trim_space tenant) refl refl refl refl)
]

revoke_token-Step :
    (r : RevocationRegistry) (digest : TokenDigest) (tenant subject reason : String) (now : ℕ)
    → Step r (revoke_session_token r digest tenant subject reason now).0
unfolding revoke_session_token audit
revoke_token-Step r digest tenant subject reason now =
    elim (Option-cases (check_revocation tenant subject reason)) [
      | inr e ↦ rw (revoke_session_token, e.1) unchanged
      | inl e ↦ rw (revoke_session_token, e) (revokes_token _ digest _ refl refl refl refl)
    ]

revoke_all-Step :
    (r : RevocationRegistry) (tenant subject reason : String) (now : ℕ)
    → Step r (revoke_subject r tenant subject reason now).0
unfolding revoke_subject audit
revoke_all-Step r tenant subject reason now =
    elim (Option-cases (check_revocation tenant subject reason)) [
      | inr e ↦ rw (revoke_subject, e.1) unchanged
      | inl e ↦
          rw (revoke_subject, e)
            (revokes_subject _ (subject_key tenant subject) _ refl refl refl refl refl)
    ]

pub exec-Step : (r : RevocationRegistry) (c : Call) → Step r (exec r c)
exec-Step r (revoke_token digest tenant subject reason now) =
    revoke_token-Step r digest tenant subject reason now
exec-Step r (revoke_all tenant subject reason now) = revoke_all-Step r tenant subject reason now
exec-Step r (bump tenant reason now) = bump-Step r tenant reason now

is_revoked-insert :
    (m : Map TokenDigest SessionRevocationRecord) (k d : TokenDigest)
    (rec : SessionRevocationRecord)
    → is_revoked (insert k rec m) d ≡ (if k == d then true else is_revoked m d)
unfolding is_revoked
is_revoked-insert m k d rec = elim (Bool-cases (k == d)) [
  | inl e ↦ rw (is_revoked, lookup-insert, e)
  | inr e ↦ rw (is_revoked, lookup-insert, e)
]

Step-is_revoked :
    (r r' : RevocationRegistry)
    → Step r r'
    → (d : TokenDigest) → is_revoked r.revoked_sessions d ≡ true
    → is_revoked r'.revoked_sessions d ≡ true
Step-is_revoked r _ unchanged d h = h
Step-is_revoked r _ (revokes_token r' k rec g e s t) d h =
    ap (λ m. is_revoked m d) e ∙ is_revoked-insert r.revoked_sessions k d rec ∙ ground (arith, h)
Step-is_revoked r _ (revokes_subject r' key rev g e n s t) d h = ap (λ m. is_revoked m d) e ∙ h
Step-is_revoked r _ (bumps r' tenant g e s t) d h = ap (λ m. is_revoked m d) e ∙ h

run_revoked :
    (r : RevocationRegistry) (cs : List Call) (d : TokenDigest)
    → is_revoked r.revoked_sessions d ≡ true
    → is_revoked (run r cs).revoked_sessions d ≡ true
unfolding run
run_revoked r [] d h = h
run_revoked r (c ∷ cs) d h =
    run_revoked (exec r c) cs d (Step-is_revoked r (exec r c) (exec-Step r c) d h)

denied_if_revoked :
    (r : RevocationRegistry) (digest : TokenDigest) (caller target subject : String) (g : ℕ)
    → is_revoked r.revoked_sessions digest ≡ true
    → (evaluate_session r digest caller target subject g).allowed ≡ false
unfolding evaluate_session
denied_if_revoked r digest caller target subject g h = ground arith

now_revoked :
    (r : RevocationRegistry) (digest : TokenDigest) (tenant subject reason : String) (now : ℕ)
    → (revoke_session_token r digest tenant subject reason now).1 ≡ none
    → is_revoked (revoke_session_token r digest tenant subject reason now).0.revoked_sessions digest
      ≡ true
unfolding revoke_session_token audit
now_revoked r digest tenant subject reason now h =
    elim (Option-cases (check_revocation tenant subject reason)) [
      | inr e ↦ absurd (ground (arith, rw (revoke_session_token, e.1) at h))
      | inl e ↦
          rw (revoke_session_token, e)
            (is_revoked-insert r.revoked_sessions digest digest _ ∙ rw beq_refl refl)
    ]

-- A token whose revocation succeeded is denied after any further calls, whoever presents it, for
-- whatever tenant and subject, and whatever generation its session has.
pub revoked_token_denied :
    (r : RevocationRegistry) (digest : TokenDigest) (tenant subject reason : String) (now : ℕ)
    (cs : List Call) (caller target who : String) (g : ℕ)
    → (revoke_session_token r digest tenant subject reason now).1 ≡ none
    → (evaluate_session
        (run (revoke_session_token r digest tenant subject reason now).0 cs)
        digest
        caller
        target
        who
        g).allowed
      ≡ false
revoked_token_denied r digest tenant subject reason now cs caller target who g h =
    let r' = (revoke_session_token r digest tenant subject reason now).0 in
    denied_if_revoked (run r' cs) digest caller target who g
      (run_revoked r' cs digest (now_revoked r digest tenant subject reason now h))
