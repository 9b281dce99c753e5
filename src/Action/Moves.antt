-- ===== src/Action/Moves.antt =====
-- What the moves of modules/workflow-action/action_lifecycle.go have in common.
use oshe_platform.Prelude.{
  ℕ, String, ◌≡◌, ◌≢◌, refl, ap, Bool, true, false, none, if◌then◌else◌, arith, inr,
}
use oshe_platform.Prelude.Map.{string_eq}
use oshe_platform.Prelude.Strings.{trim_space}
use oshe_platform.Action.{
  ActionState, assigned, in_progress, in_review, rejected, overdue, closed, reopened, Action,
}
use oshe_platform.Action.Decide.{Verdict, update, log_entry, move_to, is_closed, is_in_review}
use oshe_platform.Action.Manager.{key_eq}
use oshe_platform.Action.Sound.{
  Permitted, HasTrail-push, ClosureOf, IsSoundAction, Keeps, by_update,
}

pub Keeps-if :
    (act : Action) (b : Bool) (v w : Verdict)
    → Keeps act v
    → (b ≡ false → Keeps act w)
    → Keeps act (if b then v else w)
Keeps-if act true v w h k = h
Keeps-if act false v w h k = k refl

-- Only a closed action carries the stamp of a closure.
pub unstamped_when_open :
    (s : ActionState) (act : Action)
    → is_closed s ≡ false
    → ClosureOf s act
    → (act.closed_at ≡ none) × (act.closed_by ≡ "")
unstamped_when_open assigned act h c = c
unstamped_when_open in_progress act h c = c
unstamped_when_open in_review act h c = c
unstamped_when_open rejected act h c = c
unstamped_when_open overdue act h c = c
unstamped_when_open reopened act h c = c
unstamped_when_open closed act h c = absurd (ground arith)

pub open_when_unstamped :
    (s : ActionState) (act : Action)
    → is_closed s ≡ false
    → (act.closed_at ≡ none) × (act.closed_by ≡ "")
    → ClosureOf s act
open_when_unstamped assigned act h c = c
open_when_unstamped in_progress act h c = c
open_when_unstamped in_review act h c = c
open_when_unstamped rejected act h c = c
open_when_unstamped overdue act h c = c
open_when_unstamped reopened act h c = c
open_when_unstamped closed act h c = absurd (ground arith)

-- A permitted move between states that are not CLOSED keeps an action sound.
pub move_to-Keeps :
    (act : Action) (to : ActionState) (who reason : String) (now : ℕ)
    → IsSoundAction act
    → is_closed act.state ≡ false
    → is_closed to ≡ false
    → Permitted act.owner act.reviewer act.state to who
    → Keeps act (update (move_to act to who reason now))
unfolding move_to log_entry
move_to-Keeps act to who reason now h o t p =
    by_update _
      (record {
        trail = HasTrail-push act.owner act.reviewer act.state act.history _ h.trail refl refl p;
        closure = open_when_unstamped to _ t (unstamped_when_open act.state act o h.closure);
      })
      refl refl refl refl

pub in_review_state : (s : ActionState) → is_in_review s ≡ true → s ≡ in_review
in_review_state in_review h = refl
in_review_state assigned h = absurd (ground arith)
in_review_state in_progress h = absurd (ground arith)
in_review_state rejected h = absurd (ground arith)
in_review_state overdue h = absurd (ground arith)
in_review_state closed h = absurd (ground arith)
in_review_state reopened h = absurd (ground arith)

pub closed_state : (s : ActionState) → is_closed s ≡ true → s ≡ closed
closed_state closed h = refl
closed_state assigned h = absurd (ground arith)
closed_state in_progress h = absurd (ground arith)
closed_state in_review h = absurd (ground arith)
closed_state rejected h = absurd (ground arith)
closed_state overdue h = absurd (ground arith)
closed_state reopened h = absurd (ground arith)

pub open_state : (s : ActionState) → is_closed s ≡ false → s ≢ closed
open_state s h e = ground (arith, ap is_closed e)

pub may_stay :
    (owner reviewer : String) (s : ActionState) (who : String)
    → is_closed s ≡ false
    → trim_space who ≡ owner
    → Permitted owner reviewer s s who
may_stay o r assigned who h w = (w, refl)
may_stay o r in_progress who h w = (w, inr refl)
may_stay o r in_review who h w = (w, inr refl)
may_stay o r rejected who h w = inr (w, refl)
may_stay o r overdue who h w = inr (w, refl)
may_stay o r reopened who h w = inr (w, refl)
may_stay o r closed who h w = absurd (ground arith)
