-- ===== src/Sjf/Rounds.antt =====
-- The main loop of SJF (src/SJF.c). The other threads act at the end of a round; what they may do
-- between the search and the lock of the chosen line is left out.
use agios.Common.{ℕ, List, [], ◌∷◌, Bool, false, Option, none, some, if◌then◌else◌}
use agios.Request.{FileId, RequestType}
use agios.State.{State, Outcome, ok, fault, ◌>>=◌, change_queue}
use agios.Process.{Callback}
use agios.AddRequest.{Dispatch, give_back}
use agios.Hashtable.{queue_in}
use agios.Scheduling.{Round, Run, ended, cut, after_calls, goes_on}
use agios.Sjf.{sjf_get_shortest_job}

-- The first request of a queue is taken out and given to the user; the queue is asserted not to be
-- empty.
unfoldable pub sjf_serve :
    Dispatch → ℕ → FileId → RequestType → State → Outcome (List Callback × State)
unfolding give_back
sjf_serve env hash id type s = elim (queue_in s hash id type) [
  | none ↦ fault
  | some q ↦ elim (q.list) [
    | [] ↦ fault
    | req ∷ rest ↦
        give_back env req hash (change_queue hash id type (λ q. record q { list = rest }) s)
  ]
]

abbrev served_or_idle :
    Dispatch → State → Option (ℕ × FileId × RequestType) → Outcome (List Callback × State)
served_or_idle env s none = ok ([], s)
served_or_idle env s (some (hash, id, type)) = sjf_serve env hash id type s

-- A round, and whether a request was processed, after which the thread may be asked to stop.
unfoldable pub sjf_round : Round → State → Outcome (List Callback × State)
unfolding sjf_get_shortest_job sjf_serve
sjf_round r s = do
  best ← sjf_get_shortest_job s.current_filenb s.hashlist
  x ← served_or_idle r.dispatch s best.chosen_queue
  ok (x.0, r.others x.1)

-- Where no queue was chosen, nothing asks the loop to stop.
abbrev stops_after : Round → List Callback → Bool
stops_after r [] = false
stops_after r (c ∷ cs) = r.stop

unfoldable pub sjf_loop : List Round → (stop : Bool) → State → Outcome Run
unfolding sjf_round
sjf_loop [] stop s =
    ok (record { callbacks = []; ending = if goes_on stop s then cut else ended; state = s })
sjf_loop (r ∷ rs) stop s =
    if goes_on stop s
    then (do x ← sjf_round r s; after_calls x.0 (sjf_loop rs (stops_after r x.0) x.1))
    else ok (record { callbacks = []; ending = ended; state = s })

unfoldable pub sjf : List Round → State → Outcome Run
unfolding sjf_loop
sjf rounds s = sjf_loop rounds false s
