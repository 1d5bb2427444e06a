-- ===== src/Wfq/Turn.antt =====
-- A turn of WFQ gives a queue its weight and its credit (src/WFQ.c).
use agios.Common.{
  ℕ, ◌+◌, ◌-◌, ◌%◌, ◌≤◌, ◌<◌, ◌≡◌, ◌≢◌, refl, sym, ap, ◌∙◌, inl, inr, List, [], ◌∷◌, ◌++◌, false,
  some, arith, length, length-set, All, get_elem?, get_elem?-set_self, set, set_same, set_twice,
  get_elem?-lt, leb, Bool-cases,
}
use agios.Common.Int.{pos, ◌-ℤ◌}
use agios.Request.{Queued}
use agios.Hash.{get_hashtable_position}
use agios.State.{State, Outcome, ok}
use agios.Process.Delivery.{delivered, delivered-append}
use agios.Aggregation.Contents.{IsCounted}
use agios.Scheduling.{Round, ended}
use agios.Scheduling.GiveBack.{give_back-GivesBack}
use agios.Timeorder.Drain.{queue_ids, queue_reqnb, IsQuiet, no_more, one_more}
use agios.Wfq.{
  Wfq, WfqWeights, Served, served_none, credit_left, next_queue, wfq_serve, wfq_close, wfq_turn,
}

-- The bytes of a queue.
abbrev pub queue_len : List Queued → ℕ
queue_len [] = 0
queue_len (q ∷ qs) = q.len + queue_len qs

-- Nothing is left, or the first request that is left is larger than the amount.
abbrev pub IsBlocked : ℕ → List Queued → Type 0
IsBlocked amount [] = Unit
IsBlocked amount (q ∷ qs) = amount < q.len

-- A queue was served up to `rest`: `taken` was given to the user, in its order.
pub record Took (i amount : ℕ) (queue : List Queued) (s : State) (taken rest : List Queued)
    (r : Served) : Type 0 where
  pub split : queue ≡ taken ++ rest
  pub given : delivered r.callbacks ≡ queue_ids taken
  pub paid : queue_len taken + r.amount ≡ amount
  pub blocked : IsBlocked r.amount rest
  pub ending : r.ending ≡ ended
  pub wfq_stop : r.wfq_stop ≡ false
  pub multi_timeline : (r.state).multi_timeline ≡ set s.multi_timeline i rest
  pub current_reqnb : (r.state).current_reqnb ≡ s.current_reqnb -ℤ pos (queue_reqnb taken)

abbrev pub Takes : (i amount : ℕ) → List Queued → State → Outcome Served → Type 0
Takes i amount queue s o =
    (r : Served) × (taken : List Queued) × (rest : List Queued) × (o ≡ ok r)
    × Took i amount queue s taken rest r

served_none-Took :
    (i amount : ℕ) (queue : List Queued) (s : State)
    → get_elem? s.multi_timeline i ≡ some queue
    → IsBlocked amount queue
    → Takes i amount queue s (served_none amount false ended s)
unfolding queue_ids delivered
served_none-Took i amount queue s e b = (
  record { callbacks = []; amount = amount; wfq_stop = false; ending = ended; state = s },
  [],
  queue,
  refl,
  record {
    split = refl;
    given = refl;
    paid = omega arith;
    blocked = b;
    ending = refl;
    wfq_stop = refl;
    multi_timeline = sym (set_same s.multi_timeline i queue e);
    current_reqnb = no_more s.current_reqnb;
  },
)

wfq_serve-Takes :
    (rounds : List Round) (i amount : ℕ) (queue : List Queued) (s : State)
    → All IsQuiet rounds
    → All IsCounted queue
    → length queue < length rounds
    → get_elem? s.multi_timeline i ≡ some queue
    → Takes i amount queue s (wfq_serve rounds i amount false s)
unfolding wfq_serve queue_ids
wfq_serve-Takes [] i amount queue s quiet c enough e = absurd (omega arith)
wfq_serve-Takes (r ∷ rs) i amount [] s quiet c enough e =
    rw (wfq_serve, e) (served_none-Took i amount [] s e tt)
wfq_serve-Takes (r ∷ rs) i amount (q ∷ rest) s quiet c enough e =
    elim (Bool-cases (leb q.len amount)) [
      | inr large ↦
          rw (wfq_serve, e, large) (served_none-Took i amount (q ∷ rest) s e (ground arith))
      | inl fits ↦
          let s1 : State = record s { multi_timeline = set s.multi_timeline i rest } in
          let g =
            give_back-GivesBack r.dispatch q (get_hashtable_position q.file_id) s1 quiet.0.0 c.0 in
          let found : get_elem? (g.1).multi_timeline i ≡ some rest =
            ap (λ m. get_elem? m i) g.4.multi_timeline
            ∙ get_elem?-set_self s.multi_timeline i rest
                (get_elem?-lt s.multi_timeline i (q ∷ rest) e) in
          let ih = wfq_serve-Takes rs i (amount - q.len) rest g.1 quiet.1 c.1 (omega arith) found in
          (
            record (ih.0) { callbacks = g.0 ++ ih.0.callbacks },
            q ∷ ih.1,
            ih.2,
            rw (wfq_serve, e, fits, g.2, quiet.0.2, quiet.0.1 g.1, ih.3) refl,
            record {
              split = ap (◌∷◌ q) ih.4.split;
              given = delivered-append g.0 ih.0.callbacks ∙ rw (g.3, ih.4.given) refl;
              paid = ground (arith, ih.4.paid);
              blocked = ih.4.blocked;
              ending = ih.4.ending;
              wfq_stop = ih.4.wfq_stop;
              multi_timeline =
                  ih.4.multi_timeline
                  ∙ ap (λ m. set m i ih.2) g.4.multi_timeline
                  ∙ set_twice s.multi_timeline i rest ih.2;
              current_reqnb =
                  ih.4.current_reqnb
                  ∙ ap (λ k. k -ℤ pos (queue_reqnb ih.1)) g.4.current_reqnb
                  ∙ one_more s.current_reqnb q ih.1;
            },
          )
    ]

-- The turn of the queue `i`: what the loop took, and the queue and the credit that are next.
pub record IsTurn (i : ℕ) (w : WfqWeights) (queue taken rest : List Queued) (s : State) (r : Served)
    (v' : Wfq) : Type 0 where
  pub took : Took i (w.weight + w.credit) queue s taken rest r
  pub g_current_queue : v'.g_current_queue ≡ (i + 1) % (length s.multi_timeline - 1)
  pub new_credit : ℕ
  pub credit : get_elem? v'.wfq_weights i ≡ some (record w { credit = new_credit })
  pub credit_emptied : rest ≡ [] → new_credit ≡ 0
  pub credit_saved : rest ≢ [] → new_credit ≡ r.amount

credit_left-emptied : (amount : ℕ) (rest : List Queued) → rest ≡ [] → credit_left amount rest ≡ 0
credit_left-emptied amount [] e = refl
credit_left-emptied amount (q ∷ qs) e = cc

credit_left-saved : (amount : ℕ) (rest : List Queued) → rest ≢ [] → credit_left amount rest ≡ amount
credit_left-saved amount [] h = absurd (h refl)
credit_left-saved amount (q ∷ qs) h = refl

abbrev pub HasTurn : (i : ℕ) → WfqWeights → List Queued → State → Outcome (Served × Wfq) → Type 0
HasTurn i w queue s o =
    (r : Served) × (v' : Wfq) × (taken : List Queued) × (rest : List Queued) × (o ≡ ok (r, v'))
    × IsTurn i w queue taken rest s r v'

wfq_close-eq :
    (v : Wfq) (w : WfqWeights) (r : Served) (rest : List Queued)
    → get_elem? (r.state).multi_timeline v.g_current_queue ≡ some rest
    → leb (length (r.state).multi_timeline) 1 ≡ false
    → wfq_close v w r
      ≡ ok (
        r,
        record {
          g_current_queue = next_queue v.g_current_queue (length (r.state).multi_timeline);
          wfq_weights =
              set v.wfq_weights v.g_current_queue (record w { credit = credit_left r.amount rest });
        },
      )
unfolding wfq_close
wfq_close-eq v w r rest e many = rw (wfq_close, e, many) refl

-- Where no other thread acts and memory is there, and for at least two queues, a turn serves the
-- first requests of the current queue, in their order and each once, as far as the sum of the weight
-- and the credit of the queue goes: what is given to the user and what is left of the amount make up
-- that sum, and the first request that is not served, if any, is larger than what is left. What is
-- left is the new credit, or 0 if the queue is empty; the other queues stay, and the next queue is
-- the following one, the last of `multi_timeline` left out. One round more than the queue has
-- entries is enough.
pub wfq_turn_lem :
    (rounds : List Round) (v : Wfq) (w : WfqWeights) (queue : List Queued) (s : State)
    → All IsQuiet rounds
    → All IsCounted queue
    → length queue < length rounds
    → get_elem? s.multi_timeline v.g_current_queue ≡ some queue
    → get_elem? v.wfq_weights v.g_current_queue ≡ some w
    → 2 ≤ length s.multi_timeline
    → HasTurn v.g_current_queue w queue s (wfq_turn rounds v s)
unfolding wfq_turn
wfq_turn_lem rounds v w queue s quiet c enough e we many =
    let i : ℕ = v.g_current_queue in
    let t = wfq_serve-Takes rounds i (w.weight + w.credit) queue s quiet c enough e in
    let size : length (t.0.state).multi_timeline ≡ length s.multi_timeline =
      ap length t.4.multi_timeline ∙ length-set s.multi_timeline i t.2 in
    let found : get_elem? (t.0.state).multi_timeline i ≡ some t.2 =
      ap (λ m. get_elem? m i) t.4.multi_timeline
      ∙ get_elem?-set_self s.multi_timeline i t.2 (get_elem?-lt s.multi_timeline i queue e) in
    let some_queues : leb (length (t.0.state).multi_timeline) 1 ≡ false = ground (arith, size) in
    (
      t.0,
      record {
        g_current_queue = next_queue i (length (t.0.state).multi_timeline);
        wfq_weights = set v.wfq_weights i (record w { credit = credit_left t.0.amount t.2 });
      },
      t.1,
      t.2,
      rw (wfq_turn, we, t.3) (wfq_close-eq v w t.0 t.2 found some_queues),
      record {
        took = t.4;
        g_current_queue = ap (next_queue i) size;
        new_credit = credit_left t.0.amount t.2;
        credit =
            get_elem?-set_self v.wfq_weights i (record w { credit = credit_left t.0.amount t.2 })
              (get_elem?-lt v.wfq_weights i w we);
        credit_emptied = credit_left-emptied t.0.amount t.2;
        credit_saved = credit_left-saved t.0.amount t.2;
      },
    )
