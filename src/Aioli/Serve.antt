-- ===== src/Aioli/Serve.antt =====
-- What aIOLi does with the queue that it selected (src/aIOLi.c).
use agios.Common.{
  if-true, if-false, ℕ, suc, ◌+◌, ◌^◌, ◌≤◌, ◌<◌, ◌≡◌, refl, sym, ap, ◌∙◌, ◌⊎◌, inl, inr, List, [],
  ◌∷◌, ◌++◌, map, true, false, if◌then◌else◌, arith, total, Bool-cases,
}
use mathlib.Core.Path.{subst}
use native.Mathlib.Nat.{add-zero, add_assoc}
use agios.Request.{FileId, Request, RequestType, Queued}
use agios.State.{State, ok, ◌>>=◌, change_queue}
use agios.AddRequest.{Dispatch}
use agios.Aggregation.Contents.{requests, weight}
use agios.Hashtable.Add.{with_list}
use agios.Hashtable.Enter.{IsOrdered}
use agios.Hashtable.Take.{Leaves, Leaves-next, take_head_lem}
use agios.Hashtable.Writes.{untouched, HasList, Writes-HasList, dispatch-Writes, postprocess-Writes}
use agios.Scheduling.GiveBack.{HasMemory}
use agios.Waiting.Serve.{process_selected-eq, after_selected, after_selected-Same, info_of}
use agios.Aioli.Rounds.{Taken, after_info, has_quantum, take_first, take_more}

module _ (w : Request → ℕ) (max : ℕ) (dispatch : ℕ → Dispatch)
    (memory : (i : ℕ) → HasMemory (dispatch i)) (hash : ℕ) (id : FileId) (type : RequestType) where
  pub take_first_lem :
      (i : ℕ) (req : Queued) (rest : List Queued) (s : State)
      → HasList s.hashlist hash id type (req ∷ rest)
      → IsOrdered max s.hashlist
      → (s' : State) × (take_first dispatch hash id type i req rest s ≡ ok (info_of req, s'))
        × Leaves w max (total w (requests req)) s.hashlist s'.hashlist
        × HasList s'.hashlist hash id type rest
  unfolding take_first
  take_first_lem i req rest s (f, found, e) o =
      let s1 : State = change_queue hash id type (with_list rest) s in
      let (fits, left, there) = take_head_lem w max hash id type f req rest s found e o in
      let t = after_selected-Same w max (dispatch i) req hash s1 left.ordered in
      let writes = postprocess-Writes hash s1.hashlist req _ (
        dispatch-Writes hash s1.hashlist req (requests req) ((dispatch i).this_time) s1
          untouched) in
      (
        after_selected (dispatch i) req hash s1,
        process_selected-eq (dispatch i) (memory i) req hash fits.0 s1,
        record {
          held = omega (arith, left.held, t.held);
          ordered = t.ordered;
          shape = t.shape ∙ left.shape;
        },
        Writes-HasList writes hash id type rest there,
      )

-- The requests after the first that the quantum allows, and those that it leaves.
unfoldable pub taken_by : (quantum used : ℕ) → List Queued → List Queued
unfolding has_quantum
taken_by quantum used [] = []
taken_by quantum used (req ∷ rest) =
    if has_quantum quantum used req then req ∷ taken_by quantum (used + req.len) rest else []

pub left_by : (quantum used : ℕ) → List Queued → List Queued
unfolding has_quantum
left_by quantum used [] = []
left_by quantum used (req ∷ rest) =
    if has_quantum quantum used req then left_by quantum (used + req.len) rest else req ∷ rest

abbrev pub bytes : List Queued → ℕ
bytes [] = 0
bytes (req ∷ rest) = req.len + bytes rest

-- Why no further request was taken: there is none, the quantum is used up, or the next one is too
-- large for what is left of it.
abbrev pub StopsAt : (quantum used : ℕ) → List Queued → Type 0
StopsAt quantum used [] = Unit
StopsAt quantum used (req ∷ rest) = (quantum ≤ used) ⊎ (quantum < used + req.len)

module _ (quantum used : ℕ) (req : Queued) (rest : List Queued) where
  taken_by-fits :
      has_quantum quantum used req ≡ true
      → taken_by quantum used (req ∷ rest) ≡ req ∷ taken_by quantum (used + req.len) rest
  unfolding taken_by
  taken_by-fits h = if-true _ _ h

  left_by-fits :
      has_quantum quantum used req ≡ true
      → left_by quantum used (req ∷ rest) ≡ left_by quantum (used + req.len) rest
  unfolding left_by
  left_by-fits h = if-true _ _ h

  taken_by-stops : has_quantum quantum used req ≡ false → taken_by quantum used (req ∷ rest) ≡ []
  unfolding taken_by
  taken_by-stops h = if-false _ _ h

  left_by-stops :
      has_quantum quantum used req ≡ false → left_by quantum used (req ∷ rest) ≡ req ∷ rest
  unfolding left_by
  left_by-stops h = if-false _ _ h

pub taken_by-left_by :
    (quantum used : ℕ) (reqs : List Queued)
    → taken_by quantum used reqs ++ left_by quantum used reqs ≡ reqs
unfolding taken_by left_by
taken_by-left_by quantum used [] = refl
taken_by-left_by quantum used (req ∷ rest) =
    ground (arith, taken_by-left_by quantum (used + req.len) rest)

no_quantum :
    (quantum used : ℕ) (req : Queued)
    → has_quantum quantum used req ≡ false
    → (quantum ≤ used) ⊎ (quantum < used + req.len)
unfolding has_quantum
no_quantum quantum used req h = ground arith

some_quantum :
    (quantum used : ℕ) (req : Queued)
    → used < 2 ^ 31
    → has_quantum quantum used req ≡ true
    → used + req.len ≤ quantum
unfolding has_quantum
some_quantum quantum used req small h = ground arith

pub left_by-StopsAt :
    (quantum used : ℕ) (reqs : List Queued)
    → StopsAt quantum (used + bytes (taken_by quantum used reqs)) (left_by quantum used reqs)
unfolding taken_by left_by has_quantum
left_by-StopsAt quantum used [] = tt
left_by-StopsAt quantum used (req ∷ rest) = elim (Bool-cases (has_quantum quantum used req)) [
  | inl fits ↦ rw fits (
      subst (λ n. StopsAt quantum n (left_by quantum (used + req.len) rest))
        (add_assoc used req.len _) (left_by-StopsAt quantum (used + req.len) rest))
  | inr not_fits ↦ rw not_fits (
      subst (λ n. StopsAt quantum n (req ∷ rest)) (sym (add-zero used))
        (no_quantum quantum used req not_fits))
]

pub taken_by-le :
    (quantum used : ℕ) (reqs : List Queued)
    → used + bytes reqs < 2 ^ 31
    → (taken_by quantum used reqs ≡ []) ⊎ (used + bytes (taken_by quantum used reqs) ≤ quantum)
unfolding taken_by has_quantum
taken_by-le quantum used [] small = inl refl
taken_by-le quantum used (req ∷ rest) small = elim (Bool-cases (has_quantum quantum used req)) [
  | inr not_fits ↦ inl (rw not_fits refl)
  | inl fits ↦ elim (taken_by-le quantum (used + req.len) rest (omega arith)) [
    | inl none_taken ↦
        inr
          (rw (fits, none_taken) (omega (arith, some_quantum quantum used req (omega arith) fits)))
    | inr le ↦
        inr
          (rw (fits, ← add_assoc used req.len (bytes (taken_by quantum (used + req.len) rest))) le)
  ]
]

module _ (dispatch : ℕ → Dispatch) (hash : ℕ) (id : FileId) (type : RequestType)
    (quantum i used : ℕ) (req : Queued) (rest : List Queued) where
  take_more-fits :
      (s : State)
      → has_quantum quantum used req ≡ true
      → take_more dispatch hash id type quantum i used (req ∷ rest) s ≡ (
          take_first dispatch hash id type i req rest s >>= λ x.
          after_info x.0
            (take_more dispatch hash id type quantum (suc i) (used + req.len) rest x.1))
  unfolding take_more
  take_more-fits s h = if-true _ _ h

  take_more-stops :
      (s : State)
      → has_quantum quantum used req ≡ false
      → take_more dispatch hash id type quantum i used (req ∷ rest) s
        ≡ ok (record { info_list = []; used_quantum = used; state = s })
  unfolding take_more
  take_more-stops s h = if-false _ _ h

module _ (w : Request → ℕ) (max : ℕ) (dispatch : ℕ → Dispatch)
    (memory : (i : ℕ) → HasMemory (dispatch i)) (hash : ℕ) (id : FileId) (type : RequestType) where
  abbrev pub TakesMore :
      (quantum i used : ℕ) (reqs : List Queued) (s : State) → (taken left : List Queued) → Type 0
  TakesMore quantum i used reqs s taken left =
      (s' : State) × (take_more dispatch hash id type quantum i used reqs s
        ≡ ok (record {
          info_list = map info_of taken;
          used_quantum = used + bytes taken;
          state = s';
        }))
      × Leaves w max (weight w taken) s.hashlist s'.hashlist
      × HasList s'.hashlist hash id type left

  take_nothing :
      (quantum i used : ℕ) (reqs : List Queued) (s : State)
      → take_more dispatch hash id type quantum i used reqs s
        ≡ ok (record { info_list = []; used_quantum = used; state = s })
      → HasList s.hashlist hash id type reqs
      → IsOrdered max s.hashlist
      → TakesMore quantum i used reqs s [] reqs
  take_nothing quantum i used reqs s e there o = (
    s,
    e
        ∙ ap
            (λ (n : ℕ).
              ok (let t : Taken = record { info_list = []; used_quantum = n; state = s } in t))
            (sym (add-zero used)),
    record { held = omega arith; ordered = o; shape = refl },
    there,
  )

  take_another :
      (quantum i used : ℕ) (req : Queued) (rest taken left : List Queued) (s s1 : State)
      → take_more dispatch hash id type quantum i used (req ∷ rest) s
        ≡ after_info
            (info_of req)
            (take_more dispatch hash id type quantum (suc i) (used + req.len) rest s1)
      → Leaves w max (total w (requests req)) s.hashlist s1.hashlist
      → TakesMore quantum (suc i) (used + req.len) rest s1 taken left
      → TakesMore quantum i used (req ∷ rest) s (req ∷ taken) left
  take_another quantum i used req rest taken left s s1 e l (s2, e2, l2, there) = (
    s2,
    e
        ∙ ap (after_info (info_of req)) e2
        ∙ ap
            (λ (n : ℕ). ok (
              let t : Taken = record {
                info_list = info_of req ∷ map info_of taken;
                used_quantum = n;
                state = s2;
              } in
              t))
            (add_assoc used req.len (bytes taken)),
    Leaves-next w max _ _ l l2,
    there,
  )

  pub take_more_lem :
      (quantum i used : ℕ) (reqs : List Queued) (s : State)
      → HasList s.hashlist hash id type reqs
      → IsOrdered max s.hashlist
      → TakesMore quantum i used reqs s (taken_by quantum used reqs) (left_by quantum used reqs)
  take_more_lem quantum i used [] s there o =
      unfold taken_by left_by take_more in take_nothing quantum i used [] s refl there o
  take_more_lem quantum i used (req ∷ rest) s there o =
      elim (Bool-cases (has_quantum quantum used req)) [
        | inr stop ↦
            rw (taken_by-stops quantum used req rest stop, left_by-stops quantum used req rest stop)
              (take_nothing quantum i used (req ∷ rest) s
                (take_more-stops dispatch hash id type quantum i used req rest s stop) there o)
        | inl fits ↦
            let (s1, eq, gone, there1) =
              take_first_lem w max dispatch memory hash id type i req rest s there o in
            rw (taken_by-fits quantum used req rest fits, left_by-fits quantum used req rest fits)
              (take_another quantum i used req rest _ _ s s1
                (take_more-fits dispatch hash id type quantum i used req rest s fits ∙ rw eq refl)
                gone (take_more_lem quantum (suc i) (used + req.len) rest s1 there1 gone.ordered))
      ]
