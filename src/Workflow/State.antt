-- ===== src/Workflow/State.antt =====
-- The states of modules/workflow-action/workflow.go and its transition table. A Go `State` is a
-- string: `other` holds every text that is none of the six constants, "" included.
use oshe_platform.Prelude.{String, ◌≡◌, ◌↔◌, Bool, true, false, List, [], ◌∷◌, arith, eq_iff}
use oshe_platform.Prelude.Map.{Eq, string_eq, ◌==◌}

pub data State : Type 0 where
  draft in_progress under_review approved closed archived : State
  other : String → State

abbrev pub unspecified : State
unspecified = other ""

abbrev pub state_beq : State → State → Bool
state_beq draft draft = true
state_beq in_progress in_progress = true
state_beq under_review under_review = true
state_beq approved approved = true
state_beq closed closed = true
state_beq archived archived = true
state_beq (other s) (other t) = s == t
state_beq _ _ = false

pub state_beq_iff : (a b : State) → (state_beq a b ≡ true) ↔ (a ≡ b)
state_beq_iff (other s) (other t) = ground (arith, eq_iff s t)
state_beq_iff a b = ground arith

instance abbrev pub state_eq : Eq State
state_eq = record { beq = state_beq; beq_iff = state_beq_iff }

unfoldable pub is_terminal : State → Bool
is_terminal closed = true
is_terminal archived = true
is_terminal _ = false

unfoldable pub allowed_transitions : State → List State
allowed_transitions draft = in_progress ∷ archived ∷ []
allowed_transitions in_progress = under_review ∷ archived ∷ []
allowed_transitions under_review = approved ∷ in_progress ∷ archived ∷ []
allowed_transitions approved = closed ∷ archived ∷ []
allowed_transitions _ = []
