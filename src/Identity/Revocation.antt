-- ===== src/Identity/Revocation.antt =====
-- The registry of modules/identity-authorization/session_revocation.go.
pub mod Run
pub mod Subjects
pub mod Policy
mod Tests
use Prim.Native.String.{◌++◌}
use oshe_platform.Prelude.{
  ℕ, ◌+◌, String, Bool, true, false, not, ◌||◌, ◌&&◌, Option, none, some, List, [], ◌∷◌, push, keep,
  wrap, int_lt, int_le, Result, ok, err, if◌then◌else◌,
}
use oshe_platform.Prelude.Map.{Map, lookup, insert, empty, nat_eq, string_eq, ◌==◌}
use oshe_platform.Prelude.Strings.{trim_space}

pub data RevocationError : Type 0 where
  blank_tenant_id blank_subject blank_reason : RevocationError

-- The 32 bytes of a digest, as the number that they write.
abbrev pub TokenDigest : Type 0
TokenDigest = ℕ

pub data DiagnosticDenialCategory : Type 0 where
  category_none session_revoked session_stale policy_stale : DiagnosticDenialCategory
  cross_tenant_denied identity_inactive default_deny : DiagnosticDenialCategory

pub record DecisionDiagnostic : Type 0 where
  pub allowed : Bool
  pub denial_category : DiagnosticDenialCategory
  pub decision_generation : ℕ
  pub summary : String

pub data RevocationAuditEventType : Type 0 where
  event_session_revoked event_subject_revoked : RevocationAuditEventType
  event_policy_generation_bump event_staleness_evaluated : RevocationAuditEventType

-- `none` is the zero digest of an event that is not about a token.
pub record RevocationAuditEvent : Type 0 where
  pub sequence_number : ℕ
  pub event_type : RevocationAuditEventType
  pub tenant_id : String
  pub subject : String
  pub token_digest : Option TokenDigest
  pub generation : ℕ
  pub reason : String
  pub timestamp : ℕ

pub record SessionRevocationRecord : Type 0 where
  pub token_digest : TokenDigest
  pub tenant_id : String
  pub subject : String
  pub generation : ℕ
  pub revoked_at : ℕ

pub record SubjectRevocationRecord : Type 0 where
  pub tenant_id : String
  pub subject : String
  pub generation : ℕ
  pub revoked_at : ℕ

pub record RevocationRegistry : Type 0 where
  pub global_generation : ℕ
  pub revoked_sessions : Map TokenDigest SessionRevocationRecord
  pub subject_revocations : Map String SubjectRevocationRecord
  pub tenant_generations : Map String ℕ
  pub audit_log : List RevocationAuditEvent
  pub seq_counter : ℕ

abbrev pub new_revocation_registry : RevocationRegistry
new_revocation_registry = record {
  global_generation = 1;
  revoked_sessions = empty;
  subject_revocations = empty;
  tenant_generations = empty;
  audit_log = [];
  seq_counter = 0;
}

-- `r.globalGeneration++`
abbrev pub next_global : RevocationRegistry → ℕ
next_global r = wrap (r.global_generation + 1)

-- `r.seqCounter++` and the append of an event with that number.
unfoldable pub audit :
    RevocationRegistry
    → RevocationAuditEventType
    → String
    → String
    → Option TokenDigest
    → ℕ
    → String
    → ℕ
    → RevocationRegistry
audit r event tenant subject digest generation reason now = record r {
  seq_counter = wrap (r.seq_counter + 1);
  audit_log = push r.audit_log (record {
    sequence_number = wrap (r.seq_counter + 1);
    event_type = event;
    tenant_id = tenant;
    subject = subject;
    token_digest = digest;
    generation = generation;
    reason = reason;
    timestamp = now;
  });
}

unfoldable pub check_revocation : String → String → String → Option RevocationError
check_revocation tenant subject reason =
    if trim_space tenant == ""
    then some blank_tenant_id
    else if trim_space subject == ""
    then some blank_subject
    else if trim_space reason == ""
    then some blank_reason
    else none

unfoldable pub revoke_session_token :
    RevocationRegistry
    → TokenDigest
    → String
    → String
    → String
    → ℕ
    → RevocationRegistry × Option RevocationError
unfolding audit
revoke_session_token r digest tenant subject reason now =
    elim (check_revocation tenant subject reason) [
      | some x ↦ (r, some x)
      | none ↦ (
        record (audit r event_session_revoked (trim_space tenant) (trim_space subject) (some digest)
            (next_global r) (trim_space reason) now) {
              global_generation = next_global r;
              revoked_sessions =
                  insert digest
                    (record {
                      token_digest = digest;
                      tenant_id = trim_space tenant;
                      subject = trim_space subject;
                      generation = next_global r;
                      revoked_at = now;
                    })
                    r.revoked_sessions;
            },
        none,
      )
    ]

abbrev pub subject_key : String → String → String
subject_key tenant subject = trim_space tenant ++ ":" ++ trim_space subject

unfoldable pub revoke_subject :
    RevocationRegistry → String → String → String → ℕ → RevocationRegistry × Option RevocationError
unfolding audit
revoke_subject r tenant subject reason now = elim (check_revocation tenant subject reason) [
  | some x ↦ (r, some x)
  | none ↦ (
    record (audit r event_subject_revoked (trim_space tenant) (trim_space subject) none
        (next_global r) (trim_space reason) now) {
          global_generation = next_global r;
          subject_revocations =
              insert (subject_key tenant subject)
                (record {
                  tenant_id = trim_space tenant;
                  subject = trim_space subject;
                  generation = next_global r;
                  revoked_at = now;
                })
                r.subject_revocations;
        },
    none,
  )
]

-- A missing key reads as 0.
unfoldable pub generation_of : Map String ℕ → String → ℕ
generation_of m tenant = elim (lookup tenant m) [ none ↦ 0 | some g ↦ g ]

unfoldable pub check_bump : String → String → Option RevocationError
check_bump tenant reason =
    if trim_space tenant == ""
    then some blank_tenant_id
    else if trim_space reason == ""
    then some blank_reason
    else none

unfoldable pub bump_tenant_policy_generation :
    RevocationRegistry → String → String → ℕ → RevocationRegistry × Result RevocationError ℕ
unfolding audit
bump_tenant_policy_generation r tenant reason now = elim (check_bump tenant reason) [
  | some x ↦ (r, err x)
  | none ↦
      let next_gen = wrap (generation_of r.tenant_generations (trim_space tenant) + 1) in
      (
        record (audit r event_policy_generation_bump (trim_space tenant) "" none next_gen
            (trim_space reason) now) {
              global_generation = next_global r;
              tenant_generations = insert (trim_space tenant) next_gen r.tenant_generations;
            },
        ok next_gen,
      )
]

abbrev pub deny : RevocationRegistry → DiagnosticDenialCategory → String → DecisionDiagnostic
deny r category summary = record {
  allowed = false;
  denial_category = category;
  decision_generation = r.global_generation;
  summary = summary;
}

-- Part 1: the tenants of the caller and of the target.
abbrev pub tenants_differ : String → String → Bool
tenants_differ caller target =
    trim_space caller == ""
    || trim_space target == ""
    || not (trim_space caller == trim_space target)

-- Part 3: a revocation of the subject that covers the session's generation.
unfoldable pub is_stale : Map String SubjectRevocationRecord → String → String → ℕ → Bool
is_stale m caller subject session_generation = elim (lookup (subject_key caller subject) m) [
  | none ↦ false
  | some rev ↦ int_le session_generation rev.generation
]

-- Part 4: a policy generation of the tenant that is past the session's.
unfoldable pub is_policy_stale : Map String ℕ → String → ℕ → Bool
is_policy_stale m caller session_generation =
    let g = generation_of m (trim_space caller) in int_lt 0 g && int_lt session_generation g

unfoldable pub is_revoked : Map TokenDigest SessionRevocationRecord → TokenDigest → Bool
is_revoked m digest = elim (lookup digest m) [ none ↦ false | some _ ↦ true ]

unfoldable pub evaluate_session :
    RevocationRegistry → TokenDigest → String → String → String → ℕ → DecisionDiagnostic
evaluate_session r digest caller target subject session_generation =
    if tenants_differ caller target
    then deny r cross_tenant_denied "tenant context mismatch"
    else if trim_space subject == ""
    then deny r default_deny "subject identifier required"
    else if is_revoked r.revoked_sessions digest
    then deny r session_revoked "session token has been explicitly revoked"
    else if is_stale r.subject_revocations caller subject session_generation
    then deny r session_stale "session invalidated by subject revocation event"
    else if is_policy_stale r.tenant_generations caller session_generation
    then deny r policy_stale "session invalidated by tenant policy generation progression"
    else record {
      allowed = true;
      denial_category = category_none;
      decision_generation = r.global_generation;
      summary = "session is valid and active";
    }

unfoldable pub audit_trail :
    RevocationRegistry → String → Result RevocationError (List RevocationAuditEvent)
audit_trail r caller =
    if trim_space caller == ""
    then err blank_tenant_id
    else ok (keep (λ (e : RevocationAuditEvent). e.tenant_id == trim_space caller) r.audit_log)
