-- ===== src/Timeorder.antt =====
-- The loops that process the oldest request of the timeline: `timeorder` (src/TO.c), which SW uses
-- too (src/SW.c), and `NOOP` (src/NOOP.c).
pub mod Drain
use agios.Common.{List, [], ◌∷◌, Bool, true, false, none, some, if◌then◌else◌}
use agios.State.{State, Outcome, ok, fault, ◌>>=◌}
use agios.Timeline.{timeline_oldest_req}
use agios.Process.{Callback}
use agios.AddRequest.{give_back}
use agios.Scheduling.{Round, Run, Ending, ended, cut, after_calls, goes_on}

-- A round of `timeorder`; it asserts that there is a request.
unfoldable pub timeorder_round : Round → State → Outcome (List Callback × State)
unfolding timeline_oldest_req give_back
timeorder_round r s = elim (timeline_oldest_req s) [
  | none ↦ fault
  | some (req, hash, s') ↦ do x ← give_back r.dispatch req hash s'; ok (x.0, r.others x.1)
]

unfoldable pub timeorder_loop : List Round → (stop : Bool) → State → Outcome Run
unfolding timeorder_round
timeorder_loop [] stop s =
    ok (record { callbacks = []; ending = if goes_on stop s then cut else ended; state = s })
timeorder_loop (r ∷ rs) stop s =
    if goes_on stop s
    then (do x ← timeorder_round r s; after_calls x.0 (timeorder_loop rs r.stop x.1))
    else ok (record { callbacks = []; ending = ended; state = s })

unfoldable pub timeorder : List Round → State → Outcome Run
unfolding timeorder_loop
timeorder rounds s = timeorder_loop rounds false s

unfoldable pub sw : List Round → State → Outcome Run
unfolding timeorder
sw rounds s = timeorder rounds s

-- `NOOP` stops at an empty timeline, whatever the counter says.
unfoldable pub noop_loop : List Round → (stop : Bool) → State → Outcome Run
unfolding timeline_oldest_req give_back
noop_loop rounds true s = ok (record { callbacks = []; ending = ended; state = s })
noop_loop [] false s = ok (record { callbacks = []; ending = cut; state = s })
noop_loop (r ∷ rs) false s = elim (timeline_oldest_req s) [
  | none ↦ ok (record { callbacks = []; ending = ended; state = s })
  | some (req, hash, s') ↦ do
    x ← give_back r.dispatch req hash s'
    after_calls x.0 (noop_loop rs r.stop (r.others x.1))
]

unfoldable pub noop : List Round → State → Outcome Run
unfolding noop_loop
noop rounds s = noop_loop rounds false s
