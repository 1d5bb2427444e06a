-- ===== src/Timeorder/Drain.antt =====
-- Alone, `timeorder` and `NOOP` give the whole timeline to the user, in its order.
use agios.Common.{
  ℕ, ◌+◌, ◌≤◌, ◌<◌, ◌≡◌, refl, ap, ◌∙◌, List, [], ◌∷◌, ◌++◌, true, false, arith, length, All,
}
use agios.Common.Int.{ℤ, pos, ◌-ℤ◌, int_laws}
use agios.Request.{Queued}
use agios.Aggregation.Contents.{requests, IsCounted}
use agios.State.{State, Outcome, ok, fault}
use agios.Process.{Callback}
use agios.Process.Delivery.{delivered, delivered-append, user_ids_of}
use agios.Scheduling.{Round, Run, ended, after_calls, goes_on}
use agios.Scheduling.GiveBack.{HasMemory, give_back-GivesBack}
use agios.Hash.{get_hashtable_position}
use agios.Timeline.{timeline_oldest_req}
use agios.Timeorder.{timeorder_round, timeorder_loop, timeorder, noop_loop, noop}

-- The identifiers of all requests of a queue, in its order.
unfoldable pub queue_ids : List Queued → List ℕ
queue_ids [] = []
queue_ids (q ∷ qs) = user_ids_of (requests q) ++ queue_ids qs

-- How many requests a queue holds.
unfoldable pub queue_reqnb : List Queued → ℕ
queue_reqnb [] = 0
queue_reqnb (q ∷ qs) = q.reqnb + queue_reqnb qs

-- A round with memory, in which no other thread acts and nothing asks the scheduler to stop.
abbrev pub IsQuiet : Round → Type 0
IsQuiet r = HasMemory r.dispatch × ((s : State) → r.others s ≡ s) × (r.stop ≡ false)

-- A run that ended by itself, gave the user `ids` and left an empty timeline and `n` requests.
abbrev pub Drained : List ℕ → ℤ → Outcome Run → Type 0
Drained ids n o =
    (r : Run) × (o ≡ ok r)
    × (r.ending ≡ ended)
    × (delivered r.callbacks ≡ ids)
    × ((r.state).timeline ≡ [])
    × ((r.state).current_reqnb ≡ n)

after-Drained :
    (cs : List Callback) (ids : List ℕ) (n : ℤ) (o : Outcome Run)
    → Drained ids n o
    → Drained (delivered cs ++ ids) n (after_calls cs o)
after-Drained cs ids n fault d = absurd (cc (d.1))
after-Drained cs ids n (ok x) d =
    let e : x ≡ d.0 = cc (d.1) in
    (
      record x { callbacks = cs ++ x.callbacks },
      refl,
      rw e (d.2),
      delivered-append cs x.callbacks ∙ rw e (ap (◌++◌ (delivered cs)) (d.3)),
      rw e (d.4),
      rw e (d.5),
    )

pub some_reqnb : (q : Queued) → IsCounted q → 1 ≤ q.reqnb
some_reqnb q c = ground arith

-- The state in which a loop goes on after a round for the first request of its timeline.
abbrev Left : Queued → List Queued → State → Outcome (List Callback × State) → Type 0
Left q rest s o =
    (cs : List Callback) × (s' : State) × (o ≡ ok (cs, s'))
    × (delivered cs ≡ user_ids_of (requests q))
    × (s'.timeline ≡ rest)
    × (s'.current_reqnb ≡ s.current_reqnb -ℤ pos q.reqnb)

timeorder_round-Left :
    (r : Round) (q : Queued) (rest : List Queued) (s : State)
    → IsQuiet r
    → IsCounted q
    → s.timeline ≡ q ∷ rest
    → Left q rest s (timeorder_round r s)
unfolding timeorder_round timeline_oldest_req
timeorder_round-Left r q rest s quiet c e =
    let g =
      give_back-GivesBack r.dispatch q (get_hashtable_position q.file_id)
        (record s { timeline = rest }) quiet.0 c in
    (
      g.0,
      g.1,
      rw (e, timeorder_round, g.2) (rw (quiet.1 (g.1)) refl),
      g.3,
      g.4.timeline,
      g.4.current_reqnb,
    )

no_calls : delivered [] ≡ []
unfolding delivered
no_calls = refl

abbrev idle : State → Run
idle s = record { callbacks = []; ending = ended; state = s }

reqnb_left :
    (q : Queued) (rest : List Queued)
    → pos (queue_reqnb (q ∷ rest)) -ℤ pos q.reqnb ≡ pos (queue_reqnb rest)
unfolding queue_reqnb ◌-ℤ◌
reqnb_left q rest = ground arith

timeorder_loop-Drained :
    (rounds : List Round) (queue : List Queued) (s : State)
    → All IsQuiet rounds
    → All IsCounted queue
    → length queue ≤ length rounds
    → s.timeline ≡ queue
    → s.current_reqnb ≡ pos (queue_reqnb queue)
    → Drained (queue_ids queue) (pos 0) (timeorder_loop rounds false s)
unfolding timeorder_loop queue_reqnb queue_ids
timeorder_loop-Drained [] [] s quiet c enough e n = (idle s, rw n refl, refl, no_calls, e, n)
timeorder_loop-Drained (r ∷ rs) [] s quiet c enough e n = (idle s, rw n refl, refl, no_calls, e, n)
timeorder_loop-Drained [] (q ∷ rest) s quiet c enough e n = absurd (omega arith)
timeorder_loop-Drained (r ∷ rs) (q ∷ rest) s quiet c enough e n =
    let left = timeorder_round-Left r q rest s quiet.0 c.0 e in
    let busy : goes_on false s ≡ true = ground (arith, some_reqnb q c.0) in
    let n' : (left.1).current_reqnb ≡ pos (queue_reqnb rest) =
      left.5 ∙ ap (λ k. k -ℤ pos q.reqnb) n ∙ reqnb_left q rest in
    let ih = timeorder_loop-Drained rs rest left.1 quiet.1 c.1 (omega arith) left.4 n' in
    let d = after-Drained left.0 (queue_ids rest) (pos 0) _ ih in
    rw (busy, left.2, quiet.0.2, ← left.3) d

-- Where no other thread acts, nothing asks the scheduler to stop and memory is there, as many rounds
-- as the timeline has entries are enough for `timeorder`: it ends by itself, with an empty timeline
-- and a counter of 0, and has given the user every request of the timeline once, in the order of the
-- timeline, the parts of a virtual request in their order. (The counter must count the requests.)
pub timeorder-Drained :
    (rounds : List Round) (s : State)
    → All IsQuiet rounds
    → All IsCounted s.timeline
    → length s.timeline ≤ length rounds
    → s.current_reqnb ≡ pos (queue_reqnb s.timeline)
    → Drained (queue_ids s.timeline) (pos 0) (timeorder rounds s)
unfolding timeorder
timeorder-Drained rounds s quiet c enough n =
    timeorder_loop-Drained rounds s.timeline s quiet c enough refl n

pub no_more : (k : ℤ) → k ≡ k -ℤ pos (queue_reqnb [])
unfolding queue_reqnb
no_more k = omega int_laws

pub one_more :
    (k : ℤ) (q : Queued) (qs : List Queued)
    → k -ℤ pos q.reqnb -ℤ pos (queue_reqnb qs) ≡ k -ℤ pos (queue_reqnb (q ∷ qs))
unfolding queue_reqnb
one_more k q qs = omega int_laws

noop_loop-Drained :
    (rounds : List Round) (queue : List Queued) (s : State)
    → All IsQuiet rounds
    → All IsCounted queue
    → length queue < length rounds
    → s.timeline ≡ queue
    → Drained
        (queue_ids queue)
        (s.current_reqnb -ℤ pos (queue_reqnb queue))
        (noop_loop rounds false s)
unfolding noop_loop queue_ids timeline_oldest_req
noop_loop-Drained [] queue s quiet c enough e = absurd (omega arith)
noop_loop-Drained (r ∷ rs) [] s quiet c enough e =
    (idle s, ground arith, refl, no_calls, e, no_more s.current_reqnb)
noop_loop-Drained (r ∷ rs) (q ∷ rest) s quiet c enough e =
    let g =
      give_back-GivesBack r.dispatch q (get_hashtable_position q.file_id)
        (record s { timeline = rest }) quiet.0.0 c.0 in
    let ih = noop_loop-Drained rs rest g.1 quiet.1 c.1 (omega arith) g.4.timeline in
    let left =
      ap (λ k. k -ℤ pos (queue_reqnb rest)) g.4.current_reqnb ∙ one_more s.current_reqnb q rest in
    let d = after-Drained g.0 (queue_ids rest) _ _ ih in
    rw (e, noop_loop, g.2, quiet.0.2, quiet.0.1 g.1) (rw (← left, ← g.3) d)

-- `NOOP` does the same on a timeline that a migration left, without a look at the counter: one round
-- more than the timeline has entries is enough, and the counter falls by the requests of the
-- timeline.
pub noop-Drained :
    (rounds : List Round) (s : State)
    → All IsQuiet rounds
    → All IsCounted s.timeline
    → length s.timeline < length rounds
    → Drained
        (queue_ids s.timeline)
        (s.current_reqnb -ℤ pos (queue_reqnb s.timeline))
        (noop rounds s)
unfolding noop
noop-Drained rounds s quiet c enough = noop_loop-Drained rounds s.timeline s quiet c enough refl
