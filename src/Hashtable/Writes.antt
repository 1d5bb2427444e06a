-- ===== src/Hashtable/Writes.antt =====
-- The writes to the files of one line of the table that returning requests to the user makes
-- (src/process_request.c, src/waiting_common.c): none touches a list of requests, a handle or the
-- waiting of a file.
use agios.Common.{
  ℕ, zero, suc, ◌≡◌, ◌≢◌, refl, sym, ◌∙◌, inl, inr, none, true, false, List, [], ◌∷◌, some, All,
  Bool-cases, ltb, arith,
}
use mathlib.Core.Path.{subst}
use agios.Common.Text.{same_string}
use agios.Request.{FileId, Request, RequestType, rt_read, rt_write, Queued, Queue, File}
use agios.Lines.{lookup_file, update_file, update_queue, queue_of, idle_file}
use agios.State.{State, row, change_at, dec_many_current_reqnb, dec_current_filenb}
use agios.Statistics.{stats_aggregation}
use agios.Process.{
  put_this_request_in_dispatch, put_all_in_dispatch, uncount_file, dispatch_requests,
  generic_post_process,
}
use agios.Hashtable.Weight.{change_at-All}
use agios.Waiting.{waiting_algorithms_postprocess}

pub record KeepsFile (change : File → File) : Type 0 where
  pub handle : (f : File) → (change f).file_id ≡ f.file_id
  pub reads : (f : File) → ((change f).read_queue).list ≡ (f.read_queue).list
  pub writes : (f : File) → ((change f).write_queue).list ≡ (f.write_queue).list
  pub waiting_time : (f : File) → (change f).waiting_time ≡ f.waiting_time
  pub waiting_start : (f : File) → (change f).waiting_start ≡ f.waiting_start

pub data Writes (hash : ℕ) (a : List (List File)) : List (List File) → Type 0 where
  untouched : Writes hash a a
  written :
      {b : List (List File)} (id : FileId) (change : File → File)
      → KeepsFile change
      → Writes hash a b
      → Writes hash a (change_at (update_file id change) b hash)

queue-KeepsFile :
    (type : RequestType) (change : Queue → Queue)
    → ((q : Queue) → (change q).list ≡ q.list)
    → KeepsFile (update_queue type change)
queue-KeepsFile rt_read change h = record {
  handle = λ f. refl;
  reads = λ f. h f.read_queue;
  writes = λ f. refl;
  waiting_time = λ f. refl;
  waiting_start = λ f. refl;
}
queue-KeepsFile rt_write change h = record {
  handle = λ f. refl;
  reads = λ f. refl;
  writes = λ f. h f.write_queue;
  waiting_time = λ f. refl;
  waiting_start = λ f. refl;
}

pub queue_written :
    {hash : ℕ} {a b : List (List File)} (id : FileId) (type : RequestType) (change : Queue → Queue)
    → ((q : Queue) → (change q).list ≡ q.list)
    → Writes hash a b
    → Writes hash a (change_at (update_file id (update_queue type change)) b hash)
queue_written id type change h w =
    written id (update_queue type change) (queue-KeepsFile type change h) w

module _ (hash : ℕ) (a : List (List File)) where
  abbrev From : State → Type 0
  From s = Writes hash a s.hashlist

  put_this-Writes :
      (head req : Request) (now : ℕ) (s : State)
      → From s
      → From (put_this_request_in_dispatch head req now hash s)
  unfolding put_this_request_in_dispatch
  put_this-Writes head req now s w =
      written req.file_id _
        (record {
          handle = λ f. refl;
          reads = λ f. refl;
          writes = λ f. refl;
          waiting_time = λ f. refl;
          waiting_start = λ f. refl;
        })
        (queue_written req.file_id req.type _ (λ q. refl)
          (queue_written head.file_id head.type _ (λ q. refl) w))

  put_each-Writes :
      (head : Request) (rs : List Request) (now : ℕ) (s : State)
      → From s
      → From (put_all_in_dispatch head rs now hash s)
  unfolding put_all_in_dispatch
  put_each-Writes head [] now s w = w
  put_each-Writes head (r ∷ rs) now s w =
      put_each-Writes head rs now (put_this_request_in_dispatch head r now hash s)
        (put_this-Writes head r now s w)

  uncount-Writes :
      (id : FileId) (n : ℕ) (s : State)
      → From s
      → From (dec_many_current_reqnb hash n (uncount_file id hash s))
  unfolding uncount_file dec_many_current_reqnb dec_current_filenb
  uncount-Writes id n s w = elim (Bool-cases (idle_file (lookup_file id (row s.hashlist hash)))) [
    | inl idle ↦ rw (uncount_file, idle) w
    | inr busy ↦ rw (uncount_file, busy) w
  ]

  pub dispatch-Writes :
      (head : Queued) (rs : List Request) (now : ℕ) (s : State)
      → From s
      → From (dispatch_requests head rs now hash s).1
  unfolding dispatch_requests
  dispatch-Writes head rs now s w =
      uncount-Writes head.file_id head.reqnb _ (put_each-Writes head.head rs now s w)

  stats_aggregation-list : (q : Queue) → (stats_aggregation q).list ≡ q.list
  unfolding stats_aggregation
  stats_aggregation-list q = elim (Bool-cases (ltb 1 q.lastaggregation)) [
    | inl many ↦ rw many refl
    | inr one ↦ rw one refl
  ]

  post_process-Writes : (req : Queued) (s : State) → From s → From (generic_post_process req hash s)
  unfolding generic_post_process
  post_process-Writes req s w =
      let w1 = queue_written req.file_id req.type _ (λ q. refl) w in
      elim (Bool-cases (ltb 1 req.reqnb)) [
        | inl many ↦
            rw (generic_post_process, many)
              (queue_written req.file_id req.type stats_aggregation stats_aggregation-list w1)
        | inr one ↦ rw (generic_post_process, one) w1
      ]

  pub postprocess-Writes :
      (req : Queued) (s : State) → From s → From (waiting_algorithms_postprocess req hash s)
  unfolding waiting_algorithms_postprocess
  postprocess-Writes req s w =
      post_process-Writes req _ (queue_written req.file_id req.type _ (λ q. refl) w)

lookup-here :
    (id : FileId) (f g : File) (fs : List File)
    → same_string f.file_id id ≡ true
    → lookup_file id (f ∷ fs) ≡ some g
    → g ≡ f
unfolding lookup_file
lookup-here id f g fs here e = ground arith

lookup-on :
    (id : FileId) (f : File) (fs : List File)
    → same_string f.file_id id ≡ false
    → lookup_file id (f ∷ fs) ≡ lookup_file id fs
unfolding lookup_file
lookup-on id f fs on = rw on refl

lookup-first :
    (id : FileId) (f : File) (fs : List File)
    → same_string f.file_id id ≡ true
    → lookup_file id (f ∷ fs) ≡ some f
unfolding lookup_file
lookup-first id f fs here = rw here refl

-- A file that is found is found after a write to its line, with what the write keeps.
module _ (P : File → Type 0) (id other : FileId) (change : File → File)
    (same : (f : File) → (change f).file_id ≡ f.file_id)
    (keeps : (f : File) → P f → P (change f)) where
  abbrev pub Finds : List File → Type 0
  Finds line = (g : File) × (lookup_file id line ≡ some g) × P g

  changed-Finds : (f : File) (fs : List File) → Finds (f ∷ fs) → Finds (change f ∷ fs)
  changed-Finds f fs (g, e, p) = elim (Bool-cases (same_string f.file_id id)) [
    | inl here ↦ (
      change f,
      lookup-first id (change f) fs (rw (same f) here),
      keeps f (subst P (lookup-here id f g fs here e) p),
    )
    | inr on ↦ (g, lookup-on id (change f) fs (rw (same f) on) ∙ sym (lookup-on id f fs on) ∙ e, p)
  ]

  update_file-Finds : (line : List File) → Finds line → Finds (update_file other change line)
  unfolding update_file
  update_file-Finds [] h = h
  update_file-Finds (f ∷ fs) (g, e, p) = elim (Bool-cases (same_string f.file_id other)) [
    | inl hit ↦ rw hit (changed-Finds f fs (g, e, p))
    | inr skip ↦ elim (Bool-cases (same_string f.file_id id)) [
      | inl here ↦ rw skip (
        f,
        lookup-first id f (update_file other change fs) here,
        subst P (lookup-here id f g fs here e) p,
      )
      | inr on ↦
          let ih = update_file-Finds fs (g, sym (lookup-on id f fs on) ∙ e, p) in
          rw skip (ih.0, lookup-on id f (update_file other change fs) on ∙ ih.1, ih.2)
    ]
  ]

  change_at-Finds :
      (lines : List (List File)) (hash at : ℕ)
      → Finds (row lines at)
      → Finds (row (change_at (update_file other change) lines hash) at)
  change_at-Finds [] hash at h = h
  change_at-Finds (l ∷ lines) zero zero h = update_file-Finds l h
  change_at-Finds (l ∷ lines) zero (suc at) h = h
  change_at-Finds (l ∷ lines) (suc hash) zero h = h
  change_at-Finds (l ∷ lines) (suc hash) (suc at) h = change_at-Finds lines hash at h

-- The file that a pointer stands for, with the requests of one of its queues.
abbrev pub HasList : List (List File) → ℕ → FileId → RequestType → List Queued → Type 0
HasList lines hash id type reqs =
    (g : File) × (lookup_file id (row lines hash) ≡ some g) × ((queue_of type g).list ≡ reqs)

queue_of-list :
    (type : RequestType) (change : File → File)
    → KeepsFile change
    → (f : File) → (queue_of type (change f)).list ≡ (queue_of type f).list
queue_of-list rt_read change k f = k.reads f
queue_of-list rt_write change k f = k.writes f

pub Writes-HasList :
    {hash : ℕ} {a b : List (List File)}
    → Writes hash a b
    → (at : ℕ) (id : FileId) (type : RequestType) (reqs : List Queued) → HasList a at id type reqs
    → HasList b at id type reqs
Writes-HasList untouched at id type reqs h = h
Writes-HasList (written {b} other change k w) at id type reqs h =
    change_at-Finds (λ f. (queue_of type f).list ≡ reqs) id other change k.handle
      (λ f e. queue_of-list type change k f ∙ e) b _ at (Writes-HasList w at id type reqs h)

-- A file that waits has noted since when.
abbrev pub IsTimed : File → Type 0
IsTimed f = (f.waiting_time ≢ 0) → f.waiting_start ≢ none

pub Writes-IsTimed :
    {hash : ℕ} {a b : List (List File)}
    → Writes hash a b
    → All (All IsTimed) a
    → All (All IsTimed) b
Writes-IsTimed untouched h = h
Writes-IsTimed {hash} (written {b} other change k w) h =
    change_at-All IsTimed other change
      (λ f timed waits. rw (k.waiting_start f) (timed (rw (← k.waiting_time f) waits))) b hash
      (Writes-IsTimed w h)
