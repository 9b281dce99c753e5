-- ===== src/Identity/Revocation/Tests.antt =====
-- Calls of the revocation registry at concrete inputs.
use oshe_platform.Prelude.{◌≡◌, refl, true, false, List, [], ◌∷◌, arith}
use oshe_platform.Prelude.Map.{lookup, insert, nat_eq, string_eq}
use oshe_platform.Prelude.Strings.{trim_space}
use oshe_platform.Identity.Revocation.{
  new_revocation_registry, audit, check_revocation, revoke_session_token, revoke_subject,
  generation_of, check_bump, bump_tenant_policy_generation, is_stale, is_policy_stale, is_revoked,
  evaluate_session,
}
use oshe_platform.Identity.Revocation.Run.{Call, revoke_all, bump, run, revoked_token_denied}
use oshe_platform.Identity.Revocation.Subjects.{revoked_subject_denied}
use oshe_platform.Identity.Revocation.Policy.{bump_spares_session}

abbrev later : List Call
later = bump "acme" "policy review" 7 ∷ revoke_all "acme" "lee" "left" 8 ∷ []

revoked_token_denied_example :
    (evaluate_session
      (run (revoke_session_token new_revocation_registry 77 " acme" "kim" "lost phone" 5).0 later)
      77
      "acme"
      "acme"
      "kim"
      9).allowed
    ≡ false
unfolding revoke_session_token check_revocation trim_space
revoked_token_denied_example =
    revoked_token_denied new_revocation_registry 77 " acme" "kim" "lost phone" 5 later "acme" "acme"
      "kim" 9 refl

revoked_subject_denied_example :
    (evaluate_session
      (run (revoke_subject new_revocation_registry " acme" "kim" "left" 5).0 later)
      77
      "acme"
      "acme"
      "kim "
      1).allowed
    ≡ false
unfolding revoke_subject check_revocation trim_space
revoked_subject_denied_example =
    revoked_subject_denied new_revocation_registry " acme" "kim" "left" 5 later 77 "acme" "acme"
      "kim " 1 refl (omega arith) refl (omega arith)

bump_spares_session_example :
    (evaluate_session
      (bump_tenant_policy_generation
        (run new_revocation_registry later)
        "acme"
        "stricter rules"
        9).0
      77
      "acme"
      "acme"
      "kim"
      (run new_revocation_registry later).global_generation).allowed
    ≡ true
unfolding evaluate_session trim_space run revoke_subject check_revocation
    bump_tenant_policy_generation check_bump audit generation_of is_revoked is_stale is_policy_stale
    lookup insert
bump_spares_session_example =
    bump_spares_session later "acme" "stricter rules" 9 77 "acme" "acme" "kim" (omega arith) refl
