-- ===== src/Aioli/Rounds.antt =====
-- The main loop of aIOLi (src/aIOLi.c). The other threads act at the end of a round; what they may do
-- between the choice of a queue and the lock of its line is left out.
use agios.Common.{
  ℕ, suc, ◌+◌, List, [], ◌∷◌, ◌++◌, Bool, false, ◌&&◌, not, none, some, if◌then◌else◌, ltb, ◌==◌,
}
use agios.Common.Int.{pos, ltb_ℤ, ◌-ℤ◌, to_int32}
use agios.Request.{FileId, RequestType, Queued, Timespec}
use agios.State.{State, Outcome, ok, fault, ◌>>=◌, change_queue}
use agios.Process.{ProcessingInfo, Callback}
use agios.AddRequest.{Dispatch}
use agios.Hashtable.{queue_in}
use agios.Scheduling.{Ending, ended, cut, goes_on}
use agios.Waiting.{call_step2_for_info_list}
use agios.Waiting.Serve.{process_selected}
use agios.Aioli.{aioli_select_queue, adjust_quantum}

-- The structures of the requests that were taken, the sum of their lengths, which `used_quantum` holds
-- modulo 2 ^ 32, and the state.
pub record Taken : Type 0 where
  pub info_list : List ProcessingInfo
  pub used_quantum : ℕ
  pub state : State

abbrev pub after_info : ProcessingInfo → Outcome Taken → Outcome Taken
after_info info fault = fault
after_info info (ok t) = ok (record t { info_list = info ∷ t.info_list })

-- The tests of the do-while loop from the second request on: the quantum is not used up, and the
-- request fits what is left of it. `used_quantum` is the sum of the lengths as an `int32_t`.
unfoldable pub has_quantum : (current_quantum used_quantum : ℕ) → Queued → Bool
unfolding to_int32 ◌-ℤ◌
has_quantum quantum used req =
    ltb_ℤ (to_int32 used) (pos quantum) && not (ltb_ℤ (pos quantum -ℤ to_int32 used) (pos req.len))

-- The selected queue, with memory and clock for its i-th request.
module _ (dispatch : ℕ → Dispatch) (hash : ℕ) (id : FileId) (type : RequestType) where
  unfoldable pub take_first :
      (i : ℕ) → Queued → List Queued → State → Outcome (ProcessingInfo × State)
  unfolding process_selected
  take_first i req rest s =
      process_selected (dispatch i) req hash
        (change_queue hash id type (λ q. record q { list = rest }) s)

  -- The rest of the loop, over what is left in the queue: the line is locked.
  unfoldable pub take_more : (quantum i used : ℕ) → List Queued → State → Outcome Taken
  unfolding take_first has_quantum
  take_more quantum i used [] s = ok (record { info_list = []; used_quantum = used; state = s })
  take_more quantum i used (req ∷ rest) s =
      if has_quantum quantum used req
      then (do
        x ← take_first i req rest s
        after_info x.0 (take_more quantum (suc i) (used + req.len) rest x.1))
      else ok (record { info_list = []; used_quantum = used; state = s })

-- The quantum that the queue gets next time.
unfoldable pub next_quantum : (config_aioli_quantum used current : ℕ) → ℕ
unfolding adjust_quantum to_int32
next_quantum config used current =
    if not (ltb_ℤ (to_int32 used) (pos current))
    then (if current == 0 then config else adjust_quantum config used current)
    else adjust_quantum config used current

unfoldable pub set_nextquantum : (hash : ℕ) → FileId → RequestType → ℕ → State → State
set_nextquantum hash id type quantum s =
    change_queue hash id type (λ q. record q { nextquantum = quantum }) s

-- What is done with a selected queue: its first request is always taken.
unfoldable pub aioli_serve :
    (config_aioli_quantum : ℕ)
    → (ℕ → Dispatch)
    → ℕ
    → FileId
    → RequestType
    → State
    → Outcome (List ProcessingInfo × State)
unfolding take_first take_more next_quantum set_nextquantum
aioli_serve config dispatch hash id type s = elim (queue_in s hash id type) [
  | none ↦ fault
  | some q ↦ elim (q.list) [
    | [] ↦ fault
    | req ∷ rest ↦ (do
      x ← take_first dispatch hash id type 0 req rest s
      t ← after_info x.0 (take_more dispatch hash id type q.nextquantum 1 req.len rest x.1)
      ok (
        t.info_list,
        set_nextquantum hash id type (next_quantum config t.used_quantum q.nextquantum) t.state,
      ))
  ]
]

-- One round: the clock of the choice, memory and clock for each request, what step 2 of each request
-- says at its end, and what the other threads do before the next round.
pub record AioliRound : Type 0 where
  pub now : Timespec
  pub dispatch : ℕ → Dispatch
  pub stops : ℕ → Bool
  pub has_list_callback : Bool
  pub others : State → State

pub record AioliRun : Type 0 where
  pub callbacks : List Callback
  pub ending : Ending
  pub ret : ℕ
  pub state : State

abbrev pub after_calls : List Callback → Outcome AioliRun → Outcome AioliRun
after_calls cs fault = fault
after_calls cs (ok r) = ok (record r { callbacks = cs ++ r.callbacks })

-- Each structure with what its step 2 says.
unfoldable pub with_stops :
    (ℕ → Bool) → (i : ℕ) → List ProcessingInfo → List (ProcessingInfo × Bool)
with_stops stops i [] = []
with_stops stops i (info ∷ rest) = (info, stops i) ∷ with_stops stops (suc i) rest

-- A round over a selected queue: the callbacks, and `aioli_stop`.
unfoldable pub serve_round :
    (config_aioli_quantum : ℕ)
    → AioliRound
    → ℕ × FileId × RequestType
    → State
    → Outcome (List Callback × Bool × State)
unfolding aioli_serve with_stops call_step2_for_info_list
serve_round config r (hash, id, type) s = do
  x ← aioli_serve config r.dispatch hash id type s
  c ← call_step2_for_info_list r.has_list_callback (with_stops r.stops 0 x.0)
  ok (c.0, c.1, r.others x.1)

-- `waiting_time` is a local variable that has no value before the first round gives it one: what it
-- holds then is an argument.
module _ (config_aioli_quantum config_waiting_time : ℕ) where
  unfoldable pub aioli_loop :
      List AioliRound → (aioli_stop : Bool) → (waiting_time : ℕ) → State → Outcome AioliRun
  unfolding serve_round aioli_select_queue
  aioli_loop [] stop waiting s = ok (record {
    callbacks = [];
    ending = if goes_on stop s then cut else ended;
    ret = 0;
    state = s;
  })
  aioli_loop (r ∷ rs) stop waiting s =
      if goes_on stop s
      then (do
        c ← aioli_select_queue config_aioli_quantum config_waiting_time r.now waiting s
        (elim (c.0).queue [
          | some chosen ↦ (do
            x ← serve_round config_aioli_quantum r chosen c.1
            after_calls x.0 (aioli_loop rs x.1 (c.0).sleeping_time x.2))
          | none ↦
              if ltb 0 (c.0).sleeping_time
              then ok (record {
                callbacks = [];
                ending = ended;
                ret = (c.0).sleeping_time;
                state = c.1;
              })
              else aioli_loop rs stop (c.0).sleeping_time (r.others c.1)
        ]))
      else ok (record { callbacks = []; ending = ended; ret = 0; state = s })

  unfoldable pub aioli : List AioliRound → (waiting_time : ℕ) → State → Outcome AioliRun
  unfolding aioli_loop
  aioli rounds waiting s = aioli_loop rounds false waiting s
