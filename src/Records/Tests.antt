-- ===== src/Records/Tests.antt =====
-- Calls of the record store at concrete inputs.
use Prim.Native.String.{◌++◌}
use oshe_platform.Prelude.{String, ◌≡◌, refl, some, List, [], ◌∷◌, All, Result, ok, err, arith}
use oshe_platform.Prelude.Map.{lookup, insert, lookup-empty, string_eq}
use oshe_platform.Prelude.Strings.{trim_space}
use oshe_platform.Records.{
  archived, RecordError, record_archived, AuditEntry, DeclaredRecord, RecordStore, new_record_store,
  make_record_key, has_prefix, validate_tracking_ids, validate_digest,
}
use oshe_platform.Records.Store.{
  declare_record, snapshots_at, create_new_version, transition_record_state, record_access_denied,
  get_record, get_audit_trail,
}
use oshe_platform.Records.Checks.{
  Caller, check_declare, check_version, check_caller, journal, snapshot_of,
}
use oshe_platform.Prelude.Strings.{all_chars}
use oshe_platform.Events.Identifier.{is_hex_char}
use oshe_platform.Records.Run.{Call, declare, new_version, transition_to, deny, exec, run}
use oshe_platform.Records.Sound.{IsSoundStore, run-IsSoundStore}
use oshe_platform.Records.History.{IsLater, run-IsLater}
use oshe_platform.Records.Refused.{call_refused}
use oshe_platform.Records.Readers.{get_audit_trail-IsOwn, get_record_crosses_tenants}

abbrev digest : String
digest = "0123456789abcdef0123456789abcdef0123456789abcdef0123456789abcdef"

abbrev acme_eu : Caller
acme_eu = record {
  tenant_id = " acme:eu";
  record_id = "r1 ";
  actor_id = "ann";
  corr_id = "corr_1";
  caus_id = "caus_1";
}

abbrev story : List Call
story =
    declare acme_eu "REPORT" "v1" digest 10
    ∷ new_version acme_eu "v2" digest 20
    ∷ deny acme_eu "not a reviewer" 25
    ∷ transition_to acme_eu archived 30
    ∷ []

abbrev final : RecordStore
final = run new_record_store story

abbrev report : DeclaredRecord
report = record {
  record_id = "r1";
  tenant_id = "acme:eu";
  record_type = "REPORT";
  current_version = "v2";
  state = archived;
  created_at = 10;
  updated_at = 30;
}

story_stored : lookup "acme:eu:r1" final.records ≡ some report
unfolding run declare_record create_new_version transition_record_state record_access_denied
    check_declare check_version check_caller validate_digest validate_tracking_ids has_prefix
    all_chars is_hex_char journal snapshot_of snapshots_at make_record_key lookup insert trim_space
story_stored = refl

-- The tenant `acme` is given the record of the tenant `acme:eu`.
acme_reads : get_record final "acme" "eu:r1" ≡ ok report
unfolding run declare_record create_new_version transition_record_state record_access_denied
    check_declare check_version check_caller validate_digest validate_tracking_ids has_prefix
    all_chars is_hex_char journal snapshot_of snapshots_at make_record_key lookup insert trim_space
    get_record
acme_reads = refl

new_record_store-IsSoundStore : IsSoundStore new_record_store
new_record_store-IsSoundStore = record {
  counted = refl;
  numbered = tt;
  kept = λ k rec h. absurd (ground (arith, lookup-empty {V = DeclaredRecord} k));
}

run-IsSoundStore_example : IsSoundStore final
run-IsSoundStore_example = run-IsSoundStore new_record_store story new_record_store-IsSoundStore

run-IsLater_example : IsLater final (run final (new_version acme_eu "v3" digest 40 ∷ []))
run-IsLater_example = run-IsLater final (new_version acme_eu "v3" digest 40 ∷ [])

version_refused : (exec final (new_version acme_eu "v3" digest 40)).1 ≡ some record_archived
unfolding run declare_record create_new_version transition_record_state record_access_denied
    check_declare check_version check_caller validate_digest validate_tracking_ids has_prefix
    all_chars is_hex_char journal snapshot_of snapshots_at make_record_key lookup insert trim_space
version_refused = refl

call_refused_test : (exec final (new_version acme_eu "v3" digest 40)).0 ≡ final
call_refused_test =
    call_refused final (new_version acme_eu "v3" digest 40) record_archived version_refused

abbrev trail_of : Result RecordError (List AuditEntry) → List AuditEntry
trail_of (ok l) = l
trail_of (err _) = []

trail_read :
    get_audit_trail final "acme:eu" "r1" ≡ ok (trail_of (get_audit_trail final "acme:eu" "r1"))
unfolding run declare_record create_new_version transition_record_state record_access_denied
    check_declare check_version check_caller validate_digest validate_tracking_ids has_prefix
    all_chars is_hex_char journal snapshot_of snapshots_at make_record_key lookup insert trim_space
    get_record get_audit_trail
trail_read = refl

get_audit_trail-IsOwn_test :
    All
      (λ (e : AuditEntry). (e.tenant_id ≡ trim_space "acme:eu") × (e.record_id ≡ trim_space "r1"))
      (trail_of (get_audit_trail final "acme:eu" "r1"))
get_audit_trail-IsOwn_test =
    get_audit_trail-IsOwn final "acme:eu" "r1" (trail_of (get_audit_trail final "acme:eu" "r1"))
      trail_read

trimmed_acme : trim_space "acme" ≡ "acme"
unfolding trim_space
trimmed_acme = refl

trimmed_r1 : trim_space "r1" ≡ "r1"
unfolding trim_space
trimmed_r1 = refl

trimmed_acme_eu : trim_space ("acme" ++ ":" ++ "eu") ≡ "acme" ++ ":" ++ "eu"
unfolding trim_space
trimmed_acme_eu = refl

trimmed_eu_r1 : trim_space ("eu" ++ ":" ++ "r1") ≡ "eu" ++ ":" ++ "r1"
unfolding trim_space
trimmed_eu_r1 = refl

get_record_crosses_tenants_test :
    get_record final "acme" ("eu" ++ ":" ++ "r1") ≡ get_record final ("acme" ++ ":" ++ "eu") "r1"
get_record_crosses_tenants_test =
    get_record_crosses_tenants final "acme" "eu" "r1" trimmed_acme trimmed_r1 trimmed_acme_eu
      trimmed_eu_r1 refl refl
