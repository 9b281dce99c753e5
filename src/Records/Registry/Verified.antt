-- ===== src/Records/Registry/Verified.antt =====
-- What `VerifyIntegrityLinkage` of modules/records-audit/immutable_objects.go has checked.
use mathlib.Core.Path.{subst}
use oshe_platform.Prelude.{String, ◌≡◌, false, not, none, some, ok, arith, Option-cases, inl, inr}
use oshe_platform.Prelude.Map.{same_text, lookup, string_eq, ◌==◌}
use oshe_platform.Prelude.Strings.{trim_space}
use oshe_platform.Records.{accepted, state_eqb, validate_digest}
use oshe_platform.Records.Registry.{
  DerivedRecord, object_key_eq, IntegrityLinkage, IntegrityRegistry, key_at, bad_digest,
}
use oshe_platform.Records.Registry.Operations.{check_names, check_parent, verify_integrity_linkage}
use oshe_platform.Records.Registry.Run.{parent_key}
use oshe_platform.Records.Registry.Steps.{OkHas, OkHas-if, accepted_state}

-- The linkage is of the derived object that was asked for, with the digest that was expected, and
-- of the accepted original of the same tenant that it names.
pub record IsVerified (reg : IntegrityRegistry) (derived_id caller expected : String)
    (l : IntegrityLinkage) : Type 0 where
  pub stored : lookup (key_at caller derived_id) reg.derived ≡ some l.derived
  pub tenant : l.derived.tenant_id ≡ trim_space caller
  pub well_formed : validate_digest expected ≡ none
  pub digest : l.derived.sha256_digest ≡ expected
  pub parent : lookup (parent_key l.derived) reg.originals ≡ some l.original
  pub parent_tenant : l.original.tenant_id ≡ l.derived.tenant_id
  pub parent_accepted : l.original.state ≡ accepted

good_digest : (d : String) → bad_digest d ≡ false → validate_digest d ≡ none
good_digest d h = ground arith

module _ (reg : IntegrityRegistry) (derived_id caller expected : String) (d : DerivedRecord) where
  check_parent-OkHas :
      lookup (key_at caller derived_id) reg.derived ≡ some d
      → d.tenant_id ≡ trim_space caller
      → validate_digest expected ≡ none
      → d.sha256_digest ≡ expected
      → OkHas (IsVerified reg derived_id caller expected) (check_parent reg d)
  unfolding check_parent
  check_parent-OkHas s t w g = elim (Option-cases (lookup (parent_key d) reg.originals)) [
    | inl f ↦ rw (check_parent, f) tt
    | inr f ↦
        rw (check_parent, f.1)
          (OkHas-if (IsVerified reg derived_id caller expected) (not (f.0.tenant_id == d.tenant_id))
            _ _
            (λ p.
              OkHas-if (IsVerified reg derived_id caller expected)
                (not (state_eqb f.0.state accepted)) _ _
                (λ a. record {
                  stored = s;
                  tenant = t;
                  well_formed = w;
                  digest = g;
                  parent = f.1;
                  parent_tenant = same_text f.0.tenant_id d.tenant_id p;
                  parent_accepted = accepted_state f.0.state (ground arith);
                })))
  ]

verify_integrity_linkage-OkHas :
    (reg : IntegrityRegistry) (derived_id caller expected : String)
    → OkHas
        (IsVerified reg derived_id caller expected)
        (verify_integrity_linkage reg derived_id caller expected)
unfolding verify_integrity_linkage
verify_integrity_linkage-OkHas reg derived_id caller expected =
    elim (Option-cases (check_names caller derived_id)) [
      | inr e ↦ rw (verify_integrity_linkage, e.1) tt
      | inl e ↦ elim (Option-cases (lookup (key_at caller derived_id) reg.derived)) [
        | inl f ↦ rw (verify_integrity_linkage, e, f) tt
        | inr f ↦
            rw (verify_integrity_linkage, e, f.1)
              (OkHas-if (IsVerified reg derived_id caller expected)
                (not (f.0.tenant_id == trim_space caller)) _ _
                (λ t.
                  OkHas-if (IsVerified reg derived_id caller expected) (bad_digest expected) _ _
                    (λ b.
                      OkHas-if (IsVerified reg derived_id caller expected)
                        (not (f.0.sha256_digest == expected)) _ _
                        (λ g.
                          check_parent-OkHas reg derived_id caller expected f.0 f.1
                            (same_text f.0.tenant_id (trim_space caller) t) (good_digest expected b)
                            (same_text f.0.sha256_digest expected g)))))
      ]
    ]

-- A linkage that `VerifyIntegrityLinkage` returns holds the stored derived object of the caller's
-- tenant, whose digest is the expected well-formed one, and the stored original which it names, of
-- the same tenant and ACCEPTED.
pub verify_integrity_linkage-IsVerified :
    (reg : IntegrityRegistry) (derived_id caller expected : String) (l : IntegrityLinkage)
    → verify_integrity_linkage reg derived_id caller expected ≡ ok l
    → IsVerified reg derived_id caller expected l
verify_integrity_linkage-IsVerified reg derived_id caller expected l e =
    subst (OkHas (IsVerified reg derived_id caller expected)) e
      (verify_integrity_linkage-OkHas reg derived_id caller expected)
