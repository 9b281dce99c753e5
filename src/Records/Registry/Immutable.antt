-- ===== src/Records/Registry/Immutable.antt =====
-- Originals of modules/records-audit/immutable_objects.go never change but for their state.
use mathlib.Core.Path.{subst}
use mathlib.Core.Option as Option
use oshe_platform.Prelude.{
  ◌≡◌, refl, ap, ◌∙◌, Option, none, some, List, [], ◌∷◌, arith, Bool-cases, inl, inr,
}
use oshe_platform.Prelude.Map.{lookup, insert, lookup-insert, string_eq, ◌==◌}
use oshe_platform.Records.{RecordState, draft, accepted, archived}
use oshe_platform.Records.Registry.{
  OriginalRecord, ObjectKey, object_key_eq, object_key_beq_iff, IntegrityRegistry,
}
use oshe_platform.Records.Registry.Run.{
  Call, exec, run, original_key, Advances, accepts, archives, Step, unchanged, adds_original,
  adds_derived, moves_original, accepts_derived,
}
use oshe_platform.Records.Registry.Steps.{exec-Step}

-- One call at most accepts a draft or archives an accepted original.
pub data Follows : RecordState → RecordState → Type 0 where
  stays : (s : RecordState) → Follows s s
  accepts_draft : Follows draft accepted
  archives_accepted : Follows accepted archived

-- The state of the original at a key, after each call.
unfoldable pub states : ObjectKey → IntegrityRegistry → List Call → List (Option RecordState)
states k reg [] = []
states k reg (c ∷ cs) =
    Option.map (λ (r : OriginalRecord). r.state) (lookup k (exec reg c).0.originals)
    ∷ states k (exec reg c).0 cs

-- The original is there after each call, and each state follows from the one before it.
abbrev pub AreInOrder : RecordState → List (Option RecordState) → Type 0
AreInOrder s [] = Unit
AreInOrder s (none ∷ ts) = ⊥
AreInOrder s (some t ∷ ts) = Follows s t × AreInOrder t ts

abbrev Persists : IntegrityRegistry → ObjectKey → OriginalRecord → Type 0
Persists reg k rec =
    (rec' : OriginalRecord) × ((lookup k reg.originals ≡ some rec')
      × (record rec { state = rec'.state } ≡ rec')
      × Follows rec.state rec'.state)

Advances-Follows : (s t : RecordState) → Advances s t → Follows s t
Advances-Follows _ _ accepts = accepts_draft
Advances-Follows _ _ archives = archives_accepted

Step-Persists :
    (reg reg' : IntegrityRegistry)
    → Step reg reg'
    → (k : ObjectKey) (rec : OriginalRecord) → lookup k reg.originals ≡ some rec
    → Persists reg' k rec
Step-Persists reg _ unchanged k rec f = (rec, (f, refl, stays rec.state))
Step-Persists reg _ (adds_original new a b) k rec f = elim (Bool-cases (original_key new == k)) [
  | inl c ↦ absurd (
      ground (
        arith,
        a,
        f,
        ap (λ (i : ObjectKey). lookup i reg.originals)
            ((object_key_beq_iff (original_key new) k).0 c),
      ))
  | inr c ↦
      (rec, (lookup-insert (original_key new) k new reg.originals ∙ rw c f, refl, stays rec.state))
]
Step-Persists reg _ (adds_derived new parent a b c e) k rec f = (rec, (f, refl, stays rec.state))
Step-Persists reg _ (moves_original i old target g v) k rec f = elim (Bool-cases (i == k)) [
  | inl c ↦
      let found : old ≡ rec = ground (
        arith,
        f,
        g,
        ap (λ (x : ObjectKey). lookup x reg.originals) ((object_key_beq_iff i k).0 c),
      ) in
      subst
        (Persists
          (record reg { originals = insert i (record old { state = target }) reg.originals }) k)
        found
        (
          _,
          (
            lookup-insert i k _ reg.originals ∙ rw c refl,
            refl,
            Advances-Follows old.state target v,
          ),
        )
  | inr c ↦ (rec, (lookup-insert i k _ reg.originals ∙ rw c f, refl, stays rec.state))
]
Step-Persists reg _ (accepts_derived i old g) k rec f = (rec, (f, refl, stays rec.state))

-- After each of any calls a registered original is still there, in the state that it had before the
-- call, or accepted by it when it was DRAFT, or archived by it when it was ACCEPTED; and at the end
-- nothing of the original but the state differs from what was registered.
pub run_keeps_original :
    (reg : IntegrityRegistry) (cs : List Call) (k : ObjectKey) (rec : OriginalRecord)
    → lookup k reg.originals ≡ some rec
    → AreInOrder rec.state (states k reg cs)
      × ((rec' : OriginalRecord) × ((lookup k (run reg cs).originals ≡ some rec')
            × (record rec { state = rec'.state } ≡ rec')))
unfolding run states
run_keeps_original reg [] k rec f = (tt, (rec, (f, refl)))
run_keeps_original reg (c ∷ cs) k rec f =
    let now = Step-Persists reg (exec reg c).0 (exec-Step reg c) k rec f in
    let later = run_keeps_original (exec reg c).0 cs k now.0 now.1.0 in
    (
      rw now.1.0 (now.1.2, later.0),
      (
        later.1.0,
        (
          later.1.1.0,
          ap (λ (x : OriginalRecord). record x { state = later.1.0.state }) now.1.1 ∙ later.1.1.1,
        ),
      ),
    )
