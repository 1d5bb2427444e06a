-- ===== src/Twins/Window.antt =====
-- Within a window, TWINS serves one queue and no other (src/TWINS.c).
use agios.Common.{
  ℕ, ◌-◌, ◌≤◌, ◌<◌, ◌≡◌, refl, sym, ap, ◌∙◌, inl, inr, List, [], ◌∷◌, ◌++◌, true, false, some,
  arith, length, All, get_elem?, get_elem?-set_self, set, set_same, set_twice, get_elem?-lt,
  Bool-cases,
}
use agios.Common.Int.{pos, ◌-ℤ◌, ltb_ℤ}
use agios.CommonFunctions.{get_nanoelapsed}
use agios.Request.{Queued, Timespec}
use agios.Hash.{get_hashtable_position}
use agios.State.{State, Outcome, ok}
use agios.AddRequest.{give_back}
use agios.Process.{Callback}
use agios.Process.Delivery.{delivered, delivered-append}
use agios.Aggregation.Contents.{IsCounted}
use agios.Scheduling.{ended, goes_on}
use agios.Scheduling.GiveBack.{give_back-GivesBack}
use agios.Timeorder.Drain.{queue_ids, queue_reqnb, IsQuiet, no_more, one_more, some_reqnb}
use agios.Twins.{
  Twins, TwinsRound, TwinsRun, twins_window, twins_end, after_twins, twins_loop, twins,
}

pos_sub : (n m : ℕ) → m ≤ n → pos n -ℤ pos m ≡ pos (n - m)
unfolding ◌-ℤ◌
pos_sub n m h = ground arith

-- A quiet round in which the window of `v` is not over.
abbrev pub IsWithin : (config_twins_window : ℕ) → Twins → TwinsRound → Type 0
IsWithin window v r =
    IsQuiet r.round × (ltb_ℤ (get_nanoelapsed r.checked v.g_window_start) (pos window) ≡ true)

-- A run that ended by itself and gave a whole queue to the user.
pub record Emptied (i : ℕ) (queue : List Queued) (v : Twins) (s : State) (r : TwinsRun)
    : Type 0 where
  pub given : delivered r.callbacks ≡ queue_ids queue
  pub ending : r.ending ≡ ended
  pub twins_stop : r.twins_stop ≡ false
  pub twins : r.twins ≡ v
  pub multi_timeline : (r.state).multi_timeline ≡ set s.multi_timeline i []
  pub current_reqnb : (r.state).current_reqnb ≡ s.current_reqnb -ℤ pos (queue_reqnb queue)

abbrev pub Empties : (i : ℕ) → List Queued → Twins → State → Outcome TwinsRun → Type 0
Empties i queue v s o = (r : TwinsRun) × (o ≡ ok r) × Emptied i queue v s r

twins_end-Emptied :
    (i : ℕ) (v : Twins) (s : State)
    → get_elem? s.multi_timeline i ≡ some []
    → Empties i [] v s (twins_end false ended v s)
unfolding queue_ids delivered
twins_end-Emptied i v s e = (
  record { callbacks = []; ending = ended; twins_stop = false; twins = v; state = s },
  refl,
  record {
    given = refl;
    ending = refl;
    twins_stop = refl;
    twins = refl;
    multi_timeline = sym (set_same s.multi_timeline i [] e);
    current_reqnb = no_more s.current_reqnb;
  },
)

module _ (window : ℕ) (v : Twins) (started : v.g_twins_first_req ≡ false) where
  abbrev i : ℕ
  i = v.g_current_twins_server

  -- A round of the loop in the window.
  twins_loop-stop :
      (r : TwinsRound) (rs : List TwinsRound) (s : State)
      → IsWithin window v r
      → goes_on false s ≡ true
      → get_elem? s.multi_timeline i ≡ some []
      → twins_loop window (r ∷ rs) false v s ≡ twins_end false ended v s
  unfolding twins_loop twins_window
  twins_loop-stop r rs s h busy e = simp (twins_loop, twins_window, busy, started, h.1, e)

  twins_loop-serve :
      (r : TwinsRound) (rs : List TwinsRound) (q : Queued) (rest : List Queued) (s s' : State)
      (cs : List Callback)
      → IsWithin window v r
      → goes_on false s ≡ true
      → get_elem? s.multi_timeline i ≡ some (q ∷ rest)
      → give_back
          (r.round).dispatch
          q
          (get_hashtable_position q.file_id)
          (record s { multi_timeline = set s.multi_timeline i rest })
        ≡ ok (cs, s')
      → twins_loop window (r ∷ rs) false v s ≡ after_twins cs (twins_loop window rs false v s')
  unfolding twins_loop twins_window
  twins_loop-serve r rs q rest s s' cs h busy e g =
      simp (twins_loop, twins_window, busy, started, h.1, e, g, h.0.2, h.0.1 s')

  twins_loop-Empties :
      (rounds : List TwinsRound) (queue : List Queued) (s : State) (n : ℕ)
      → All (IsWithin window v) rounds
      → All IsCounted queue
      → length queue < length rounds
      → get_elem? s.multi_timeline i ≡ some queue
      → s.current_reqnb ≡ pos n
      → queue_reqnb queue ≤ n
      → Empties i queue v s (twins_loop window rounds false v s)
  unfolding twins_loop queue_ids queue_reqnb
  twins_loop-Empties [] queue s n within c enough e count held = absurd (omega arith)
  twins_loop-Empties (r ∷ rs) [] s n within c enough e count held =
      elim (Bool-cases (goes_on false s)) [
        | inl busy ↦ rw (twins_loop-stop r rs s within.0 busy e) (twins_end-Emptied i v s e)
        | inr idle ↦ rw (twins_loop, idle) (twins_end-Emptied i v s e)
      ]
  twins_loop-Empties (r ∷ rs) (q ∷ rest) s n within c enough e count held =
      let busy : goes_on false s ≡ true = ground (arith, some_reqnb q c.0) in
      let s1 : State = record s { multi_timeline = set s.multi_timeline i rest } in
      let g =
        give_back-GivesBack (r.round).dispatch q (get_hashtable_position q.file_id) s1 within.0.0.0
          c.0 in
      let found : get_elem? (g.1).multi_timeline i ≡ some rest =
        ap (λ m. get_elem? m i) g.4.multi_timeline
        ∙ get_elem?-set_self s.multi_timeline i rest
            (get_elem?-lt s.multi_timeline i (q ∷ rest) e) in
      let count' : (g.1).current_reqnb ≡ pos (n - q.reqnb) =
        g.4.current_reqnb ∙ ap (λ k. k -ℤ pos q.reqnb) count ∙ pos_sub n q.reqnb (omega arith) in
      let ih =
        twins_loop-Empties rs rest g.1 (n - q.reqnb) within.1 c.1 (omega arith) found count'
          (omega arith) in
      (
        record (ih.0) { callbacks = g.0 ++ ih.0.callbacks },
        twins_loop-serve r rs q rest s g.1 g.0 within.0 busy e g.2 ∙ ap (after_twins g.0) (ih.1),
        record {
          given = delivered-append g.0 ih.0.callbacks ∙ rw (g.3, ih.2.given) refl;
          ending = ih.2.ending;
          twins_stop = ih.2.twins_stop;
          twins = ih.2.twins;
          multi_timeline =
              ih.2.multi_timeline
              ∙ ap (λ m. set m i []) g.4.multi_timeline
              ∙ set_twice s.multi_timeline i rest [];
          current_reqnb =
              ih.2.current_reqnb
              ∙ ap (λ k. k -ℤ pos (queue_reqnb rest)) g.4.current_reqnb
              ∙ one_more s.current_reqnb q rest;
        },
      )

-- In a window that started before and that is not over in any round, where no other thread acts and
-- memory is there, TWINS gives the user every request of its current queue, in their order and each
-- once, and none of the other queues, which stay; then it ends by itself, and returns the time that
-- is left of the window. One round more than the queue has entries is enough. (The counter of
-- requests must count at least those of the queue.)
pub twins-Emptied :
    (window : ℕ) (rounds : List TwinsRound) (left : Timespec) (v : Twins) (queue : List Queued)
    (s : State) (n : ℕ)
    → v.g_twins_first_req ≡ false
    → All (IsWithin window v) rounds
    → All IsCounted queue
    → length queue < length rounds
    → get_elem? s.multi_timeline v.g_current_twins_server ≡ some queue
    → s.current_reqnb ≡ pos n
    → queue_reqnb queue ≤ n
    → (r : TwinsRun) × (twins window rounds left v s
        ≡ ok (pos window -ℤ get_nanoelapsed left v.g_window_start, r))
      × Emptied v.g_current_twins_server queue v s r
unfolding twins
twins-Emptied window rounds left v queue s n started within c enough e count held =
    let t = twins_loop-Empties window v started rounds queue s n within c enough e count held in
    (t.0, simp (twins, t.1, t.2.twins_stop, t.2.twins), t.2)
