-- ===== src/Cancel/Table.antt =====
-- `agios_cancel_request` (src/agios_cancel_request.c) over the whole hash table.
use agios.Common.{
  ℕ, ◌+◌, ◌≡◌, ◌⊎◌, refl, ap, ◌∙◌, inl, inr, List, Option, none, some, true, arith, All, Bool-cases,
}
use agios.Common.Int.{pos, ◌-ℤ◌}
use agios.Request.{FileId, Request, RequestType, rt_read, rt_write, Queued, File}
use agios.Hash.{get_hashtable_position}
use agios.Lines.{lookup_file, queue_of, update_queue, idle_file}
use agios.State.{
  State, Context, row, change_file, change_queue, dec_current_reqnb, dec_current_filenb,
}
use agios.Process.{uncount_file}
use agios.Aggregation.Contents.{requests, weight}
use agios.Hashtable.Insert.{change_at-found}
use agios.Hashtable.Writes.{HasList, Writes, written, untouched, queue_written, Writes-HasList}
use agios.Hashtable.Weight.{file_weight, table_weight, table_weight-same, table_weight-change}
use agios.Hashtable.Add.{update_queue-weight, update_queue-same}
use agios.Release.{is_request}
use agios.Cancel.{cancel_in, uncount_cancelled, agios_cancel_request}
use agios.Cancel.Queues.{IsSpanned, Lacks, Cancelled, cancel_in_lem}

list_written :
    (type : RequestType) (queue : List Queued) (f : File)
    → (queue_of type (update_queue type (λ q. record q { list = queue }) f)).list ≡ queue
list_written rt_read queue f = refl
list_written rt_write queue f = refl

-- The counters of a cancellation touch no list of requests.
uncount_cancelled-Writes :
    (r : Request) (hash : ℕ) (s : State)
    → Writes (get_hashtable_position r.file_id) s.hashlist (uncount_cancelled r hash s).hashlist
unfolding uncount_cancelled uncount_file dec_current_reqnb dec_current_filenb
uncount_cancelled-Writes r hash s =
    let own : ℕ = get_hashtable_position r.file_id in
    let written_file =
      written r.file_id (λ f. record f { timeline_reqnb = f.timeline_reqnb -ℤ pos 1 })
        (record {
          handle = λ f. refl;
          reads = λ f. refl;
          writes = λ f. refl;
          waiting_time = λ f. refl;
          waiting_start = λ f. refl;
        })
        (queue_written {hash = own} r.file_id r.type
          (λ q. record q { current_size = q.current_size -ℤ pos r.len }) (λ q. refl) untouched) in
    let s2 : State =
      change_file own r.file_id (λ f. record f { timeline_reqnb = f.timeline_reqnb -ℤ pos 1 })
        (change_queue own r.file_id r.type
          (λ q. record q { current_size = q.current_size -ℤ pos r.len }) s) in
    elim (Bool-cases (idle_file (lookup_file r.file_id (row s2.hashlist own)))) [
      | inl idle ↦ rw (uncount_file, idle) written_file
      | inr busy ↦ rw (uncount_file, busy) written_file
    ]

module _ (w : Request → ℕ) where
  -- The counters of a cancellation, in the state where the request has left its queue.
  record Uncounted (s s' : State) : Type 0 where
    held : table_weight w s'.hashlist ≡ table_weight w s.hashlist
    current_reqnb : s'.current_reqnb ≡ s.current_reqnb -ℤ pos 1
    timeline : s'.timeline ≡ s.timeline

  queue_field-weight :
      (type : RequestType) (n : ℕ) (f : File)
      → file_weight w
          (update_queue type (λ q. record q { current_size = q.current_size -ℤ pos n }) f)
        ≡ file_weight w f
  queue_field-weight rt_read n f = refl
  queue_field-weight rt_write n f = refl

  uncount_file-Uncounted :
      (id : FileId) (own hash : ℕ) (s s' : State)
      → (table_weight w s'.hashlist ≡ table_weight w s.hashlist)
      → (s'.current_reqnb ≡ s.current_reqnb)
      → (s'.timeline ≡ s.timeline)
      → Uncounted s (dec_current_reqnb hash (uncount_file id own s'))
  unfolding uncount_file dec_current_reqnb dec_current_filenb
  uncount_file-Uncounted id own hash s s' h n t =
      elim (Bool-cases (idle_file (lookup_file id (row s'.hashlist own)))) [
        | inl idle ↦
            rw (uncount_file, idle)
              (record { held = h; current_reqnb = ap (λ k. k -ℤ pos 1) n; timeline = t })
        | inr busy ↦
            rw (uncount_file, busy)
              (record { held = h; current_reqnb = ap (λ k. k -ℤ pos 1) n; timeline = t })
      ]

  uncount_cancelled-Uncounted :
      (r : Request) (hash : ℕ) (s : State) → Uncounted s (uncount_cancelled r hash s)
  unfolding uncount_cancelled
  uncount_cancelled-Uncounted r hash s =
      let own : ℕ = get_hashtable_position r.file_id in
      let s1 : State =
        change_queue own r.file_id r.type
          (λ q. record q { current_size = q.current_size -ℤ pos r.len }) s in
      uncount_file-Uncounted r.file_id own hash s _
        (table_weight-same w r.file_id
            (λ f. record f { timeline_reqnb = f.timeline_reqnb -ℤ pos 1 }) (λ f. refl) s1.hashlist
            own
          ∙ table_weight-same w r.file_id _ (queue_field-weight r.type r.len) s.hashlist own)
        refl refl

  -- Nothing was found in the queue of `id`, and nothing changed; or one request has left that queue,
  -- and with it the table.
  abbrev pub Outcomes :
      (len offset : ℕ) → FileId → RequestType → List Queued → (s s' : State) → Type 0
  Outcomes len offset id type queue s s' =
      ((s' ≡ s) × All (λ q. Lacks len offset (requests q)) queue)
      ⊎ ((r : Request) × (queue' : List Queued) × (is_request len offset r ≡ true)
          × HasList s'.hashlist (get_hashtable_position id) id type queue'
          × (weight w queue ≡ w r + weight w queue')
          × (table_weight w s.hashlist ≡ w r + table_weight w s'.hashlist)
          × (s'.current_reqnb ≡ s.current_reqnb -ℤ pos 1)
          × (s'.timeline ≡ s.timeline))

  -- With the hash table and a file that is there, whose virtual requests count their parts and span
  -- them, `agios_cancel_request` returns true, also where it finds nothing. Either no request of the
  -- file's queue of that type has the offset and length, and nothing changes; or exactly one such
  -- request leaves that queue and the table, every other one stays as often as before, and one request
  -- less is counted.
  pub agios_cancel_request-table :
      (ctx : Context) (id : FileId) (type : RequestType) (len offset : ℕ) (s : State) (f : File)
      → ctx.needs_hashtable ≡ true
      → lookup_file id (row s.hashlist (get_hashtable_position id)) ≡ some f
      → All IsSpanned (queue_of type f).list
      → (s' : State) × (agios_cancel_request ctx id type len offset s ≡ (true, s'))
        × Outcomes len offset id type (queue_of type f).list s s'
  unfolding agios_cancel_request
  agios_cancel_request-table ctx id type len offset s f table found spanned =
      go (cancel_in len offset queue) refl (cancel_in_lem w len offset queue spanned)
    where
      hash : ℕ
      hash = get_hashtable_position id

      queue : List Queued
      queue = (queue_of type f).list

      go :
          (o : Option (Request × List Queued))
          → cancel_in len offset queue ≡ o
          → Cancelled w len offset queue o
          → (s' : State) × (agios_cancel_request ctx id type len offset s ≡ (true, s'))
            × Outcomes len offset id type queue s s'
      go none e c = (s, simp (agios_cancel_request, found, table, e), inl (refl, c))
      go (some (r, queue')) e c =
          let taken : State = change_queue hash id type (λ q. record q { list = queue' }) s in
          let there : HasList taken.hashlist hash id type queue' = (
            update_queue type (λ q. record q { list = queue' }) f,
            change_at-found id (update_queue type (λ q. record q { list = queue' }))
                (update_queue-same type _) s.hashlist hash f found,
            list_written type queue' f,
          ) in
          let u = uncount_cancelled-Uncounted r hash taken in
          let moved =
            table_weight-change w id (update_queue type (λ q. record q { list = queue' }))
              s.hashlist hash f found in
          (
            uncount_cancelled r hash taken,
            simp (agios_cancel_request, found, table, e),
            inr (
              r,
              queue',
              c.0,
              Writes-HasList (uncount_cancelled-Writes r hash taken) hash id type queue' there,
              c.1,
              omega (arith, c.1, moved, update_queue-weight w type queue' f, u.held),
              u.current_reqnb,
              u.timeline,
            ),
          )
