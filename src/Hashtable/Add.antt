-- ===== src/Hashtable/Add.antt =====
-- `hashtable_add_req` (src/req_hashtable.c) over the whole table.
use agios.Common.{
  ℕ, ◌+◌, ◌<◌, ◌≡◌, refl, ap, ◌∙◌, List, none, some, true, arith, total, All, length,
}
use agios.Request.{FileId, Request, RequestType, rt_read, rt_write, Queued, Queue, File}
use agios.Lines.{lookup_file, update_queue, queue_of}
use agios.State.{ok, change_queue, State, Memory, Context, row}
use agios.Aggregation.Contents.{requests, weight}
use agios.Aggregation.Insertion.{Fits}
use agios.QueueInsert.Laws.{queue_insert-weight, enters_itself-simple}
use agios.Hashtable.{queue_in, enter_queue, hashtable_add_req}
use agios.Hashtable.Weight.{file_weight, table_weight, InFile, change_at-All, table_weight-change}
use agios.Hashtable.Insert.{All-row, change_at-Rises, change_at-found, HasFile, change_at-HasFile}
use agios.Hashtable.Enter.{IsOrdered, enter_file-HasEntered, length-change_at, lookup-All}

pub update_queue-same :
    (type : RequestType) (change : Queue → Queue) (f : File)
    → (update_queue type change f).file_id ≡ f.file_id
update_queue-same rt_read change f = refl
update_queue-same rt_write change f = refl

-- The queue of a request, with another list.
abbrev pub with_list : List Queued → Queue → Queue
with_list qs q = record q { list = qs }

pub update_queue-weight :
    (w : Request → ℕ) (type : RequestType) (qs : List Queued) (f : File)
    → file_weight w (update_queue type (with_list qs) f) + weight w (queue_of type f).list
      ≡ file_weight w f + weight w qs
update_queue-weight w rt_read qs f = omega arith
update_queue-weight w rt_write qs f = omega arith

pub update_queue-InFile :
    (P : Queued → Type 0) (type : RequestType) (qs : List Queued) (f : File)
    → All P qs
    → InFile P f
    → InFile P (update_queue type (with_list qs) f)
update_queue-InFile P rt_read qs f a h = (a, h.1)
update_queue-InFile P rt_write qs f a h = (h.0, a)

pub queue_of-InFile :
    (P : Queued → Type 0) (type : RequestType) (f : File)
    → InFile P f
    → All P (queue_of type f).list
queue_of-InFile P rt_read f h = h.0
queue_of-InFile P rt_write f h = h.1

pub queue_in-some :
    (s : State) (hash : ℕ) (id : FileId) (type : RequestType) (f : File)
    → lookup_file id (row s.hashlist hash) ≡ some f
    → queue_in s hash id type ≡ some (queue_of type f)
queue_in-some s hash id type f e = rw (e, queue_in) refl

pub queue_in-none :
    (s : State) (hash : ℕ) (id : FileId) (type : RequestType)
    → lookup_file id (row s.hashlist hash) ≡ none
    → queue_in s hash id type ≡ none
queue_in-none s hash id type e = rw (e, queue_in) refl

-- The request is in the queue, and the table is in order.
abbrev HasQueued : (Request → ℕ) → ℕ → Queued → ℕ → State → State → Type 0
HasQueued w max req hash s s' =
    (table_weight w s'.hashlist ≡ table_weight w s.hashlist + total w (requests req))
    × IsOrdered max s'.hashlist
    × ((f : File) × (lookup_file req.file_id (row s'.hashlist hash) ≡ some f))
    × (s'.timeline ≡ s.timeline)
    × (s'.current_reqnb ≡ s.current_reqnb)
    × (length s'.hashlist ≡ length s.hashlist)

-- No file leaves the table.
abbrev pub KeepsFiles : (s s' : State) → Type 0
KeepsFiles s s' = (at : ℕ) (id : FileId) → HasFile s.hashlist at id → HasFile s'.hashlist at id

module _ (w : Request → ℕ) (max : ℕ) (req : Queued) (fit : Fits max req) (one : req.reqnb ≡ 1) where
  pub enter_queue-HasQueued :
      (hash : ℕ) (s : State) (f : File)
      → lookup_file req.file_id (row s.hashlist hash) ≡ some f
      → hash < length s.hashlist
      → IsOrdered max s.hashlist
      → (s' : State) × (enter_queue max req hash s ≡ ok s')
        × HasQueued w max req hash s s'
        × KeepsFiles s s'
  unfolding enter_queue
  enter_queue-HasQueued hash s f found h o =
      let line = All-row (All (InFile (Fits max))) s.hashlist hash h o.fits in
      let held = lookup-All (InFile (Fits max)) req.file_id (row s.hashlist hash) f line found in
      let q : Queue = queue_of req.type f in
      let (ins, entered, weighs, small) =
        queue_insert-weight w max s.g_last_timestamp req q.list
          (enters_itself-simple max req q.list one) fit
          (queue_of-InFile (Fits max) req.type f held) in
      let change : File → File = update_queue req.type (with_list ins.0) in
      let same = update_queue-same req.type (with_list ins.0) in
      let moved = table_weight-change w req.file_id change s.hashlist hash f found in
      (
        record (change_queue hash req.file_id req.type (with_list ins.0) s) {
          g_last_timestamp = ins.1;
        },
        rw (enter_queue, queue_in-some s hash req.file_id req.type f found, entered) refl,
        (
          omega (arith, moved, update_queue-weight w req.type ins.0 f, weighs),
          record {
            rises = change_at-Rises req.file_id change same s.hashlist hash o.rises;
            fits =
                change_at-All (InFile (Fits max)) req.file_id change
                  (λ g k. update_queue-InFile (Fits max) req.type ins.0 g small k) s.hashlist hash
                  o.fits;
          },
          (change f, change_at-found req.file_id change same s.hashlist hash f found),
          refl,
          refl,
          length-change_at _ s.hashlist hash,
        ),
        λ at id there. change_at-HasFile req.file_id change same s.hashlist hash at id there,
      )

-- With memory, a new request to a file of a line that the table has is put in the table: the table
-- then holds that request and every other as often as before, in order, and a queue for its file.
pub hashtable_add_req_lem :
    (w : Request → ℕ) (ctx : Context) (mem : Memory) (req : Queued) (hash : ℕ) (s : State)
    → (mem.file ≡ true) × (mem.file_id ≡ true)
    → Fits ctx.max_aggreg_size req
    → req.reqnb ≡ 1
    → hash < length s.hashlist
    → IsOrdered ctx.max_aggreg_size s.hashlist
    → (s' : State) × (hashtable_add_req ctx mem req hash s ≡ ok (true, s'))
      × HasQueued w ctx.max_aggreg_size req hash s s'
unfolding hashtable_add_req
hashtable_add_req_lem w ctx mem req hash s memory fit one h o =
    let max : ℕ = ctx.max_aggreg_size in
    let e = enter_file-HasEntered w max mem memory req.head hash s h o in
    let (s', entered, q, files) =
      enter_queue-HasQueued w max req fit one hash e.0 e.4.0 e.4.1 (omega (arith, e.7)) e.3 in
    (
      s',
      rw (hashtable_add_req, e.1, entered) refl,
      (q.0 ∙ ap (λ n. n + total w (requests req)) e.2, q.1, q.2, q.3 ∙ e.5, q.4 ∙ e.6, q.5 ∙ e.7),
    )
