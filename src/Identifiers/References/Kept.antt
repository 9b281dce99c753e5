-- ===== src/Identifiers/References/Kept.antt =====
-- What registrations keep of the registry of packages/identifiers/external_reference.go.
use mathlib.Core.Path.{subst}
use oshe_platform.Prelude.{
  String, ◌≡◌, sym, ap, ◌∙◌, Option, none, some, List, [], ◌∷◌, Bool-cases, eq_iff, inl, inr,
}
use oshe_platform.Prelude.Map.{
  lookup, insert, string_eq, ◌==◌, lookup-insert_cases, lookup-insert_same, lookup-insert_other,
  lookup-empty,
}
use oshe_platform.Identifiers.References.{
  ReferenceEntry, ExternalReferenceRegistry, new_external_reference_registry, make_token_key,
  generate_lookup_token,
}
use oshe_platform.Identifiers.References.Linked.{
  unchanged, adds, Found, IsLinked, Step, Registration, apply, run, FreshToken, FreshTokens,
  Registers, register-Registers,
}

not_both : {A : Type 0} {o : Option A} {a : A} → o ≡ none → o ≡ some a → ⊥
not_both h k = cc (sym h ∙ k)

pub Step-keeps :
    (r r' : ExternalReferenceRegistry)
    → Step r r'
    → (k : String) (e : ReferenceEntry) → lookup k r.by_ext_key ≡ some e
    → lookup k r'.by_ext_key ≡ some e
Step-keeps r _ unchanged k e h = h
Step-keeps r _ (adds key token new free at fresh clean given) k e h = elim (Bool-cases (key == k)) [
  | inr apart ↦ lookup-insert_other key k new r.by_ext_key apart ∙ h
  | inl same ↦
      absurd (not_both (sym (ap (λ j. lookup j r.by_ext_key) ((eq_iff key k).0 same)) ∙ free) h)
]

Found-adds :
    (r : ExternalReferenceRegistry) (key token : String) (new e : ReferenceEntry)
    → lookup token r.by_lookup_token ≡ none
    → Found r e
    → Found
        (record {
          by_ext_key = insert key new r.by_ext_key;
          by_lookup_token = insert token new r.by_lookup_token;
        })
        e
Found-adds r key token new e fresh h =
    elim (Bool-cases (token == make_token_key e.tenant_id e.lookup_token)) [
      | inl same ↦ absurd (
          not_both
            (sym (
                ap (λ j. lookup j r.by_lookup_token)
                  ((eq_iff token (make_token_key e.tenant_id e.lookup_token)).0 same))
              ∙ fresh)
            h.by_token)
      | inr apart ↦ record {
        by_token =
            lookup-insert_other token (make_token_key e.tenant_id e.lookup_token) new
              r.by_lookup_token apart
            ∙ h.by_token;
        clean = h.clean;
        given = h.given;
      }
    ]

Step-Found :
    (r r' : ExternalReferenceRegistry)
    → Step r r'
    → IsLinked r
    → (k : String) (e : ReferenceEntry) → lookup k r'.by_ext_key ≡ some e
    → Found r' e
unfolding IsLinked
Step-Found r _ unchanged h k e found = h k e found
Step-Found r _ (adds key token new free at fresh clean given) h k e found =
    elim (lookup-insert_cases key k new r.by_ext_key found) [
      | inr (apart, old) ↦ Found-adds r key token new e fresh (h k e old)
      | inl (at_key, same) ↦ subst (Found _) same (record {
        by_token =
            ap (λ j. lookup j (insert token new r.by_lookup_token)) (sym at)
            ∙ lookup-insert_same token new r.by_lookup_token;
        clean = clean;
        given = given;
      })
    ]

Step-IsLinked : (r r' : ExternalReferenceRegistry) → Step r r' → IsLinked r → IsLinked r'
unfolding IsLinked
Step-IsLinked r r' s h = Step-Found r r' s h

apply-Step :
    (r : ExternalReferenceRegistry) (c : Registration)
    → FreshToken r c.tenant (generate_lookup_token c.entropy)
    → Step r (apply r c)
unfolding Registers
apply-Step r c fresh =
    (register-Registers r c.tenant c.system c.external c.internal c.entropy fresh).0

pub run-IsLinked :
    (r : ExternalReferenceRegistry) (cs : List Registration)
    → FreshTokens r cs
    → IsLinked r
    → IsLinked (run r cs)
unfolding run
run-IsLinked r [] fresh h = h
run-IsLinked r (c ∷ cs) fresh h =
    run-IsLinked (apply r c) cs fresh.1 (Step-IsLinked r (apply r c) (apply-Step r c fresh.0) h)

pub run_keeps :
    (r : ExternalReferenceRegistry) (cs : List Registration)
    → FreshTokens r cs
    → (k : String) (e : ReferenceEntry) → lookup k r.by_ext_key ≡ some e
    → lookup k (run r cs).by_ext_key ≡ some e
unfolding run
run_keeps r [] fresh k e h = h
run_keeps r (c ∷ cs) fresh k e h =
    run_keeps (apply r c) cs fresh.1 k e (Step-keeps r (apply r c) (apply-Step r c fresh.0) k e h)

pub new-IsLinked : IsLinked new_external_reference_registry
unfolding IsLinked
new-IsLinked k e h = absurd (not_both (lookup-empty k) h)
