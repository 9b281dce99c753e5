-- ===== src/Identifiers/RoundTrip.antt =====
-- Encoding and decoding the contexts of packages/identifiers/serialization.go.
use mathlib.Core.Path.{subst}
use oshe_platform.Prelude.{
  String, ◌≡◌, refl, sym, ap, ◌∙◌, none, some, ok, arith, Bool-cases, Option-cases, Result-cases,
  eq_iff, inl, inr,
}
use oshe_platform.Prelude.Map.{string_eq, ◌==◌}
use oshe_platform.Prelude.Strings.{trim_space, trim_space-trim_space}
use oshe_platform.Identifiers.{parse, parse_with_prefix, prefix, validate_prefix}
use oshe_platform.Identifiers.Parsed.{IsIdentifier, parse_iff, parse_of_IsIdentifier}
use oshe_platform.Identifiers.Generated.{parse_with_prefix_ok}
use oshe_platform.Identifiers.Correlation.{
  prefix_correlation, prefix_causation, parse_correlation_id, parse_causation_id,
  CorrelationContext, new_correlation_context, CorrelationEnvelope, Document, marshal,
  encode_correlation_context, check_members, check_envelope_syntax_and_keys, seen, unmarshal,
  check_version, decode_correlation_envelope, current_correlation_envelope_version,
}

-- What Parse returns it accepts as it is.
pub parse_twice : (raw id : String) → parse raw ≡ ok id → parse id ≡ ok id
parse_twice raw id h =
    let (same, d) = (parse_iff raw id).0 h in
    let clean : trim_space id ≡ id = ap trim_space same ∙ trim_space-trim_space raw ∙ sym same in
    parse_of_IsIdentifier id (subst IsIdentifier (sym (clean ∙ same)) d) ∙ ap ok clean

parse_with_prefix_parts :
    (raw p id : String)
    → parse_with_prefix raw p ≡ ok id
    → (validate_prefix p ≡ none) × (parse raw ≡ ok id) × (prefix id ≡ p)
unfolding parse_with_prefix
parse_with_prefix_parts raw p id h = elim (Option-cases (validate_prefix p)) [
  | inr e ↦ absurd (ground (arith, rw (parse_with_prefix, e.1) at h))
  | inl e ↦ elim (Result-cases (parse raw)) [
    | inr f ↦ absurd (ground (arith, rw (parse_with_prefix, e, f.1) at h))
    | inl (t, f) ↦ elim (Bool-cases (prefix t == p)) [
      | inr g ↦ absurd (ground (arith, rw (parse_with_prefix, e, f, g) at h))
      | inl g ↦
          let same : t ≡ id = ground (arith, rw (parse_with_prefix, e, f, g) at h) in
          (e, f ∙ ap ok same, ap prefix (sym same) ∙ (eq_iff (prefix t) p).0 g)
    ]
  ]
]

parse_with_prefix_twice :
    (raw p id : String) → parse_with_prefix raw p ≡ ok id → parse_with_prefix id p ≡ ok id
parse_with_prefix_twice raw p id h =
    let (v, accepted, first) = parse_with_prefix_parts raw p id h in
    parse_with_prefix_ok id p id v (parse_twice raw id accepted) first

parse_correlation_id_twice :
    (raw id : String) → parse_correlation_id raw ≡ ok id → parse_correlation_id id ≡ ok id
unfolding parse_correlation_id
parse_correlation_id_twice raw id h =
    elim (Result-cases (parse_with_prefix raw prefix_correlation)) [
      | inr e ↦ absurd (ground (arith, rw (parse_correlation_id, e.1) at h))
      | inl (t, e) ↦
          let same : t ≡ id = ground (arith, rw (parse_correlation_id, e) at h) in
          rw
            (
              parse_correlation_id,
              parse_with_prefix_twice raw prefix_correlation id (e ∙ ap ok same),
            )
            refl
    ]

parse_causation_id_twice :
    (raw id : String) → parse_causation_id raw ≡ ok id → parse_causation_id id ≡ ok id
unfolding parse_causation_id
parse_causation_id_twice raw id h = elim (Result-cases (parse_with_prefix raw prefix_causation)) [
  | inr e ↦ absurd (ground (arith, rw (parse_causation_id, e.1) at h))
  | inl (t, e) ↦
      let same : t ≡ id = ground (arith, rw (parse_causation_id, e) at h) in
      rw (parse_causation_id, parse_with_prefix_twice raw prefix_causation id (e ∙ ap ok same)) refl
]

-- The identifiers of a context are accepted as they are.
HasParsedIds : CorrelationContext → Type 0
HasParsedIds ctx =
    (parse_correlation_id ctx.correlation_id ≡ ok ctx.correlation_id)
    × (parse_causation_id ctx.causation_id ≡ ok ctx.causation_id)

new_correlation_context-HasParsedIds :
    (a b : String) (ctx : CorrelationContext)
    → new_correlation_context a b ≡ ok ctx
    → HasParsedIds ctx
unfolding new_correlation_context HasParsedIds
new_correlation_context-HasParsedIds a b ctx h = elim (Result-cases (parse_correlation_id a)) [
  | inr e ↦ absurd (ground (arith, rw (new_correlation_context, e.1) at h))
  | inl (corr, e) ↦ elim (Result-cases (parse_causation_id b)) [
    | inr f ↦ absurd (ground (arith, rw (new_correlation_context, e, f.1) at h))
    | inl (caus, f) ↦
        let g : corr ≡ ctx.correlation_id =
          ground (arith, rw (new_correlation_context, e, f) at h) in
        let k : caus ≡ ctx.causation_id = ground (arith, rw (new_correlation_context, e, f) at h) in
        (
          parse_correlation_id_twice a ctx.correlation_id (e ∙ ap ok g),
          parse_causation_id_twice b ctx.causation_id (f ∙ ap ok k),
        )
  ]
]

new_of_parsed :
    (a b : String)
    → parse_correlation_id a ≡ ok a
    → parse_causation_id b ≡ ok b
    → new_correlation_context a b ≡ ok (record { correlation_id = a; causation_id = b })
unfolding new_correlation_context
new_of_parsed a b h k = rw (new_correlation_context, h, k) refl

abbrev envelope_of : CorrelationContext → CorrelationEnvelope
envelope_of ctx = record {
  version = current_correlation_envelope_version;
  correlation_id = ctx.correlation_id;
  causation_id = ctx.causation_id;
}

encode_parsed :
    (ctx : CorrelationContext)
    → HasParsedIds ctx
    → encode_correlation_context (some ctx) ≡ ok (marshal (envelope_of ctx))
unfolding encode_correlation_context HasParsedIds
encode_parsed ctx (h, k) = rw (encode_correlation_context, h, k) refl

decode_marshal :
    (ctx : CorrelationContext)
    → decode_correlation_envelope (marshal (envelope_of ctx))
      ≡ new_correlation_context ctx.correlation_id ctx.causation_id
unfolding decode_correlation_envelope check_envelope_syntax_and_keys check_members seen unmarshal
    check_version trim_space
decode_marshal ctx = refl

-- A context that NewCorrelationContext accepts is encoded, and decoding what that gives returns the
-- same context.
pub decode-encode :
    (a b : String) (ctx : CorrelationContext)
    → new_correlation_context a b ≡ ok ctx
    → (payload : Document) × (encode_correlation_context (some ctx) ≡ ok payload)
      × (decode_correlation_envelope payload ≡ ok ctx)
unfolding HasParsedIds
decode-encode a b ctx h =
    let p = new_correlation_context-HasParsedIds a b ctx h in
    (
      marshal (envelope_of ctx),
      encode_parsed ctx p,
      decode_marshal ctx ∙ new_of_parsed ctx.correlation_id ctx.causation_id p.0 p.1,
    )
