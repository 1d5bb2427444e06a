-- ===== src/Wfq.antt =====
-- `WFQ` (src/WFQ.c): the queues of `multi_timeline` in turn, each with a weight and a credit. An
-- amount is never negative: it starts at a weight and a credit, and requests that are larger are not
-- taken.
pub mod Turn
use agios.Common.{
  ℕ, ◌+◌, ◌-◌, ◌%◌, List, [], ◌∷◌, ◌++◌, Bool, true, false, none, some, leb, get_elem?, set, length,
  if◌then◌else◌, ◌==◌, zero, suc, Option,
}
use agios.Request.{Queued}
use agios.Hash.{get_hashtable_position}
use agios.State.{State, Outcome, ok, fault, ◌>>=◌}
use agios.Process.{Callback}
use agios.AddRequest.{give_back}
use agios.Scheduling.{Round, Run, Ending, ended, cut, after_calls, goes_on}

-- A `struct wfq_weights_t`.
pub record WfqWeights : Type 0 where
  pub weight : ℕ
  pub credit : ℕ

-- The variables of the algorithm that live on between two calls.
pub record Wfq : Type 0 where
  pub g_current_queue : ℕ
  pub wfq_weights : List WfqWeights

-- What the inner loop leaves.
pub record Served : Type 0 where
  pub callbacks : List Callback
  pub amount : ℕ
  pub wfq_stop : Bool
  pub ending : Ending
  pub state : State

abbrev pub after_served : List Callback → Outcome Served → Outcome Served
after_served cs fault = fault
after_served cs (ok r) = ok (record r { callbacks = cs ++ r.callbacks })

abbrev pub served_none : (amount : ℕ) → Bool → Ending → State → Outcome Served
served_none amount stop ending s =
    ok (record { callbacks = []; amount = amount; wfq_stop = stop; ending = ending; state = s })

-- The inner loop, for the queue `i`; one round for each request.
unfoldable pub wfq_serve : List Round → (i amount : ℕ) → (stop : Bool) → State → Outcome Served
unfolding give_back
wfq_serve rounds i amount true s = served_none amount true ended s
wfq_serve [] i amount false s = served_none amount false cut s
wfq_serve (r ∷ rs) i amount false s = elim (get_elem? s.multi_timeline i) [
  | none ↦ fault
  | some queue ↦ elim queue [
    | [] ↦ served_none amount false ended s
    | req ∷ rest ↦
        if leb req.len amount
        then (do
          x ←
              give_back r.dispatch req (get_hashtable_position req.file_id)
                (record s { multi_timeline = set s.multi_timeline i rest })
          after_served x.0 (wfq_serve rs i (amount - req.len) r.stop (r.others x.1)))
        else served_none amount false ended s
  ]
]

abbrev pub is_empty_queue : List Queued → Bool
is_empty_queue [] = true
is_empty_queue (q ∷ qs) = false

-- The credit of the queue after its turn.
abbrev pub credit_left : (amount : ℕ) → List Queued → ℕ
credit_left amount queue = if is_empty_queue queue then 0 else amount

-- The next queue. With one queue or none the divisor is not positive.
abbrev pub next_queue : (i multi_timeline_size : ℕ) → ℕ
next_queue i size = (i + 1) % (size - 1)

-- The end of a turn.
unfoldable pub wfq_close : Wfq → WfqWeights → Served → Outcome (Served × Wfq)
wfq_close v w r = elim (get_elem? r.state.multi_timeline v.g_current_queue) [
  | none ↦ fault
  | some queue ↦
      if leb (length r.state.multi_timeline) 1
      then fault
      else ok (
        r,
        record {
          g_current_queue = next_queue v.g_current_queue (length r.state.multi_timeline);
          wfq_weights =
              set v.wfq_weights v.g_current_queue
                (record w { credit = credit_left r.amount queue });
        },
      )
]

-- A turn of the outer loop.
unfoldable pub wfq_turn : List Round → Wfq → State → Outcome (Served × Wfq)
unfolding wfq_serve wfq_close
wfq_turn rounds v s = elim (get_elem? v.wfq_weights v.g_current_queue) [
  | none ↦ fault
  | some w ↦ do
    r ← wfq_serve rounds v.g_current_queue (w.weight + w.credit) false s
    wfq_close v w r
]

abbrev pub after_turn : List Callback → Outcome (Run × Wfq) → Outcome (Run × Wfq)
after_turn cs fault = fault
after_turn cs (ok r) = ok (record (r.0) { callbacks = cs ++ r.0.callbacks }, r.1)

abbrev pub idle_run : Ending → Wfq → State → Outcome (Run × Wfq)
idle_run ending v s = ok (record { callbacks = []; ending = ending; state = s }, v)

unfoldable pub wfq_loop : List (List Round) → (stop : Bool) → Wfq → State → Outcome (Run × Wfq)
unfolding wfq_turn
wfq_loop [] stop v s = idle_run (if goes_on stop s then cut else ended) v s
wfq_loop (t ∷ ts) stop v s =
    if goes_on stop s
    then (do
      x ← wfq_turn t v s
      elim (x.0.ending) [
        | cut ↦ after_turn x.0.callbacks (idle_run cut x.1 x.0.state)
        | ended ↦ after_turn x.0.callbacks (wfq_loop ts x.0.wfq_stop x.1 x.0.state)
      ])
    else idle_run ended v s

unfoldable pub wfq : List (List Round) → Wfq → State → Outcome (Run × Wfq)
unfolding wfq_loop
wfq turns v s = wfq_loop turns false v s

-- The loop of `WFQ_init` over the weights of its file, which are asserted to be positive.
unfoldable pub read_weights : (queues : ℕ) → List ℕ → Outcome (List WfqWeights)
read_weights zero ws = ok []
read_weights (suc n) [] = fault
read_weights (suc n) (w ∷ ws) =
    let rest = read_weights n ws in
    if w == 0 then fault else (do r ← rest; ok (record { weight = w; credit = 0 } ∷ r))

-- `WFQ_init`, with the weights that stand in its file; `none` if it does not open. The last queue
-- gets no weight.
unfoldable pub wfq_init : (opened : Bool) → List ℕ → State → Outcome (Option (List WfqWeights))
unfolding read_weights
wfq_init false ws s = ok none
wfq_init true ws s = do r ← read_weights (length s.multi_timeline - 1) ws; ok (some r)
