-- ===== src/Scheduling.antt =====
-- What the loops of the scheduling algorithms share (src/TO.c, src/NOOP.c, src/SJF.c, src/TWINS.c,
-- src/WFQ.c): a round of a loop holds a lock, returns requests to the user, and meets what the
-- environment does. A loop runs over a list of rounds; where the list is too short it is cut.
pub mod GiveBack
pub mod Table
use agios.Common.{List, [], ◌++◌, Bool, true, false, ◌&&◌, not}
use agios.Common.Int.{ℤ, pos, ltb_ℤ}
use agios.State.{State, Outcome, ok, fault}
use agios.Process.{Callback}
use agios.AddRequest.{Dispatch}

-- One round: memory, clock and callbacks for the requests that are returned; what the other threads
-- do to the state before the next round; and what `is_time_to_change_scheduler` says at the end.
pub record Round : Type 0 where
  pub dispatch : Dispatch
  pub others : State → State
  pub stop : Bool

-- A loop that ended by itself, or that was cut.
pub data Ending : Type 0 where
  ended cut : Ending

pub record Run : Type 0 where
  pub callbacks : List Callback
  pub ending : Ending
  pub state : State

-- The calls of a round stand before those of the following ones.
abbrev pub after_calls : List Callback → Outcome Run → Outcome Run
after_calls cs fault = fault
after_calls cs (ok r) = ok (record r { callbacks = cs ++ r.callbacks })

-- `(current_reqnb > 0) && (!stop)`
abbrev pub goes_on : (stop : Bool) → State → Bool
goes_on stop s = ltb_ℤ (pos 0) s.current_reqnb && not stop
