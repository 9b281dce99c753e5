-- ===== src/Identity/Revocation/Policy.antt =====
-- The policy generations of modules/identity-authorization/session_revocation.go.
use oshe_platform.Prelude.{
  ℕ, ◌+◌, ◌≤◌, ◌<◌, ◌^◌, String, ◌≡◌, refl, ap, true, false, List, [], ◌∷◌, length, wrap,
  if◌then◌else◌, arith, Bool-cases, Option-cases, inl, inr,
}
use oshe_platform.Prelude.Map.{Map, insert, lookup-insert, lookup-empty, nat_eq, string_eq, ◌==◌}
use oshe_platform.Prelude.Strings.{trim_space}
use oshe_platform.Identity.Revocation.{
  TokenDigest, RevocationRegistry, new_revocation_registry, next_global, audit, generation_of,
  check_bump, bump_tenant_policy_generation, is_stale, is_policy_stale, is_revoked,
  evaluate_session,
}
use oshe_platform.Identity.Revocation.Run.{
  Call, bump, exec, run, Step, unchanged, revokes_token, revokes_subject, bumps, exec-Step,
}

-- The generation of every tenant is below that of the registry.
IsAhead : RevocationRegistry → Type 0
IsAhead r = (tenant : String) → generation_of r.tenant_generations tenant < r.global_generation

generation_of-insert :
    (m : Map String ℕ) (k t : String) (g : ℕ)
    → generation_of (insert k g m) t ≡ (if k == t then g else generation_of m t)
unfolding generation_of
generation_of-insert m k t g = elim (Bool-cases (k == t)) [
  | inl e ↦ rw (generation_of, lookup-insert, e)
  | inr e ↦ rw (generation_of, lookup-insert, e)
]

bump-IsAhead :
    (r r' : RevocationRegistry) (k : String)
    → r'.global_generation ≡ next_global r
    → r'.tenant_generations
      ≡ insert k (wrap (generation_of r.tenant_generations k + 1)) r.tenant_generations
    → r.global_generation + 1 < 2 ^ 63
    → IsAhead r
    → IsAhead r'
unfolding IsAhead
bump-IsAhead r r' k e t small h tenant =
    let next = wrap (generation_of r.tenant_generations k + 1) in
    ground (
      arith,
      e,
      ap (λ m. generation_of m tenant) t,
      generation_of-insert r.tenant_generations k tenant next,
      h tenant,
      h k,
    )

Step-IsAhead :
    (r r' : RevocationRegistry)
    → Step r r'
    → r.global_generation + 1 < 2 ^ 63
    → IsAhead r
    → IsAhead r' × (r'.global_generation ≤ r.global_generation + 1)
unfolding IsAhead
Step-IsAhead r _ unchanged small h = (h, omega arith)
Step-IsAhead r _ (revokes_token r' k rec e s n t) small h =
    ((λ tenant. omega (arith, e, ap (λ m. generation_of m tenant) t, h tenant)), omega (arith, e))
Step-IsAhead r _ (revokes_subject r' k new e s gen n t) small h =
    ((λ tenant. omega (arith, e, ap (λ m. generation_of m tenant) t, h tenant)), omega (arith, e))
Step-IsAhead r _ (bumps r' k e s n t) small h = (bump-IsAhead r r' k e t small h, omega (arith, e))

run-IsAhead :
    (r : RevocationRegistry) (cs : List Call)
    → r.global_generation + length cs < 2 ^ 63
    → IsAhead r
    → IsAhead (run r cs) × ((run r cs).global_generation ≤ r.global_generation + length cs)
unfolding run
run-IsAhead r [] small h = (h, omega arith)
run-IsAhead r (c ∷ cs) small h =
    let s = Step-IsAhead r (exec r c) (exec-Step r c) (omega arith) h in
    let rest = run-IsAhead (exec r c) cs (omega (arith, s.1)) s.0 in
    (rest.0, omega (arith, rest.1, s.1))

new_registry-IsAhead : IsAhead new_revocation_registry
unfolding IsAhead generation_of
new_registry-IsAhead tenant = rw (generation_of, lookup-empty) (omega arith)

below_global :
    (r r' : RevocationRegistry)
    → IsAhead r' × (r'.global_generation ≤ r.global_generation + 1)
    → (tenant : String) → generation_of r'.tenant_generations tenant ≤ r.global_generation
unfolding IsAhead
below_global r r' h tenant = omega (arith, h.0 tenant, h.1)

is_policy_stale-IsAhead :
    (m : Map String ℕ) (caller : String) (session : ℕ)
    → session < 2 ^ 63
    → generation_of m (trim_space caller) ≤ session
    → is_policy_stale m caller session ≡ false
unfolding is_policy_stale
is_policy_stale-IsAhead m caller session small h = ground (arith, small, h)

-- A bump leaves the other two grounds for a refusal as they are.
bump_keeps :
    (r : RevocationRegistry) (tenant reason : String) (now : ℕ)
    → ((bump_tenant_policy_generation r tenant reason now).0.revoked_sessions ≡ r.revoked_sessions)
      × ((bump_tenant_policy_generation r tenant reason now).0.subject_revocations
          ≡ r.subject_revocations)
unfolding bump_tenant_policy_generation audit
bump_keeps r tenant reason now = elim (Option-cases (check_bump tenant reason)) [
  | inr e ↦ rw (bump_tenant_policy_generation, e.1) (refl, refl)
  | inl e ↦ rw (bump_tenant_policy_generation, e) (refl, refl)
]

allowed_if :
    (r r' : RevocationRegistry) (digest : TokenDigest) (caller target who : String) (session : ℕ)
    → r'.revoked_sessions ≡ r.revoked_sessions
    → r'.subject_revocations ≡ r.subject_revocations
    → is_policy_stale r'.tenant_generations caller session ≡ false
    → (evaluate_session r digest caller target who session).allowed ≡ true
    → (evaluate_session r' digest caller target who session).allowed ≡ true
unfolding evaluate_session
allowed_if r r' digest caller target who session a b fresh before = ground (
  arith,
  ap (λ m. is_revoked m digest) a,
  ap (λ m. is_stale m caller who session) b,
  fresh,
  before,
)

-- From a new registry, a session that holds the registry's generation and is allowed stays allowed
-- when the policy generation of any tenant, its own included, is bumped, as long as the generation
-- does not reach 2^63.
pub bump_spares_session :
    (cs : List Call) (tenant reason : String) (now : ℕ) (digest : TokenDigest)
    (caller target who : String)
    → length cs + 2 < 2 ^ 63
    → (evaluate_session
        (run new_revocation_registry cs)
        digest
        caller
        target
        who
        (run new_revocation_registry cs).global_generation).allowed
      ≡ true
    → (evaluate_session
        (bump_tenant_policy_generation (run new_revocation_registry cs) tenant reason now).0
        digest
        caller
        target
        who
        (run new_revocation_registry cs).global_generation).allowed
      ≡ true
bump_spares_session cs tenant reason now digest caller target who small before =
    let r = run new_revocation_registry cs in
    let a = run-IsAhead new_revocation_registry cs (omega arith) new_registry-IsAhead in
    let s =
      Step-IsAhead r (exec r (bump tenant reason now)) (exec-Step r (bump tenant reason now))
        (omega (arith, a.1)) a.0 in
    let k = bump_keeps r tenant reason now in
    allowed_if r (bump_tenant_policy_generation r tenant reason now).0 digest caller target who
      r.global_generation k.0 k.1
      (is_policy_stale-IsAhead
        (bump_tenant_policy_generation r tenant reason now).0.tenant_generations caller
        r.global_generation (omega (arith, a.1)) (below_global r _ s (trim_space caller)))
      before
