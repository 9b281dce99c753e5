-- ===== src/Identifiers/References/Resolved.antt =====
-- What the readers of packages/identifiers/external_reference.go find after a registration.
use oshe_platform.Prelude.{
  String, ◌≡◌, refl, sym, ap, ◌∙◌, false, none, some, List, ◌∷◌, ok, arith, Option-cases, inl, inr,
}
use oshe_platform.Prelude.Map.{lookup, string_eq, ◌==◌, beq_refl}
use oshe_platform.Prelude.Strings.{trim_space}
use oshe_platform.Identifiers.References.{
  OpaqueReference, ReferenceEntry, ExternalReferenceRegistry, new_external_reference_registry,
  make_token_key, public_reference, check_external, check_register, key_of, register, lookup_public,
  resolve_internal,
}
use oshe_platform.Identifiers.References.Linked.{
  Found, IsLinked, Registration, apply, run, FreshTokens, Registers, register-Registers,
}
use oshe_platform.Identifiers.References.Kept.{run-IsLinked, run_keeps, new-IsLinked}

checked :
    (r : ExternalReferenceRegistry) (c : Registration) (ref : OpaqueReference)
    → (register r c.tenant c.system c.external c.internal c.entropy).1 ≡ ok ref
    → check_external c.tenant c.system c.external ≡ none
unfolding register check_register
checked r c ref h = elim (Option-cases (check_external c.tenant c.system c.external)) [
  | inl e ↦ e
  | inr e ↦ absurd (cc (rw (register, check_register, e.1) at h))
]

tenant_given : (t s x : String) → check_external t s x ≡ none → (trim_space t == "") ≡ false
unfolding check_external
tenant_given t s x h = ground (arith, h)

lookup_public_found :
    (r : ExternalReferenceRegistry) (t s x : String) (e : ReferenceEntry)
    → check_external t s x ≡ none
    → lookup (key_of t s x) r.by_ext_key ≡ some e
    → e.tenant_id ≡ trim_space t
    → lookup_public r t s x ≡ ok (public_reference e)
unfolding lookup_public
lookup_public_found r t s x e c found own =
    rw (lookup_public, c, found) (rw (own, beq_refl (trim_space t)) refl)

resolve_internal-Found :
    (r : ExternalReferenceRegistry) (t : String) (e : ReferenceEntry)
    → (trim_space t == "") ≡ false
    → Found r e
    → e.tenant_id ≡ trim_space t
    → resolve_internal r t e.lookup_token ≡ ok e.internal_id
unfolding resolve_internal
resolve_internal-Found r t e given f own =
    let at : lookup (make_token_key (trim_space t) (trim_space e.lookup_token)) r.by_lookup_token
        ≡ some e =
      ap (λ (k : String). lookup (make_token_key k (trim_space e.lookup_token)) r.by_lookup_token)
        (sym own)
      ∙ ap (λ (k : String). lookup (make_token_key e.tenant_id k) r.by_lookup_token) f.clean
      ∙ f.by_token in
    let full : (trim_space e.lookup_token == "") ≡ false =
      ap (λ (k : String). k == "") f.clean ∙ f.given in
    rw (resolve_internal, given, full, at) (rw (own, beq_refl (trim_space t)) refl)

-- After any registrations on a new registry, one that succeeds and gives a reference of its own
-- tenant, and any further ones, LookupPublic returns that reference for the same arguments and
-- ResolveInternal leads from its token to the internal identifier that was registered. The token
-- generator is taken to give no token that the tenant has already.
pub resolve-register :
    (before : List Registration) (c : Registration) (after : List Registration)
    (ref : OpaqueReference)
    → FreshTokens new_external_reference_registry before
    → FreshTokens (run new_external_reference_registry before) (c ∷ after)
    → (register
        (run new_external_reference_registry before)
        c.tenant
        c.system
        c.external
        c.internal
        c.entropy).1
      ≡ ok ref
    → ref.tenant_id ≡ trim_space c.tenant
    → (lookup_public
          (run (run new_external_reference_registry before) (c ∷ after))
          c.tenant
          c.system
          c.external
        ≡ ok ref)
      × (resolve_internal
            (run (run new_external_reference_registry before) (c ∷ after))
            c.tenant
            ref.lookup_token
          ≡ ok c.internal)
unfolding run Registers IsLinked
resolve-register before c after ref old fresh done own =
    let r = run new_external_reference_registry before in
    let linked =
      run-IsLinked r (c ∷ after) fresh
        (run-IsLinked new_external_reference_registry before old new-IsLinked) in
    let d =
      (register-Registers r c.tenant c.system c.external c.internal c.entropy fresh.0).1 ref done in
    let kept =
      run_keeps (apply r c) after fresh.1 (key_of c.tenant c.system c.external) d.entry d.found in
    let mine : d.entry.tenant_id ≡ trim_space c.tenant =
      ap (λ (o : OpaqueReference). o.tenant_id) d.shown ∙ own in
    let ok_args = checked r c ref done in
    let last = run r (c ∷ after) in
    (
      lookup_public_found last c.tenant c.system c.external d.entry ok_args kept mine
          ∙ ap ok d.shown,
      ap (λ (o : OpaqueReference). resolve_internal last c.tenant o.lookup_token) (sym d.shown)
          ∙ resolve_internal-Found last c.tenant d.entry
              (tenant_given c.tenant c.system c.external ok_args)
              (linked (key_of c.tenant c.system c.external) d.entry kept) mine
          ∙ ap ok d.bound,
    )
