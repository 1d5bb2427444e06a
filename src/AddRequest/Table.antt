-- ===== src/AddRequest/Table.antt =====
-- `agios_add_request` (src/agios_add_request.c) with the hash table.
use agios.Common.{
  ℕ, ◌+◌, ◌<◌, ◌≤◌, ◌≡◌, ◌≢◌, refl, ap, ◌∙◌, [], true, false, arith, length, ◌==◌, inl, inr,
  Bool-cases,
}
use agios.Common.Int.{pos, ◌+ℤ◌}
use agios.Request.{Request, Queue, File, Fields, simple, fill_request, request_constructor}
use agios.Statistics.{queue_newreq, update_local_stats}
use agios.State.{
  State, ok, Memory, Context, change_at, change_file, change_queue, inc_current_reqnb,
}
use agios.Lines.{update_queue}
use agios.Hash.{get_hashtable_position, hash_entries, get_hashtable_position-le}
use agios.Schedulers.{noop_scheduler}
use agios.Hashtable.{hashtable_add_req}
use agios.Hashtable.Weight.{table_weight}
use agios.Hashtable.Add.{hashtable_add_req_lem}
use agios.Hashtable.Enter.{IsOrdered}
use agios.Hashtable.Quiet.{update_queue-KeepsLists, change_file-Steady}
use agios.AddRequest.{
  Dispatch, statistics_newreq, count_request, add_to_structure, finish_add, agios_add_request,
}

queue_newreq-list : (q : Queue) (r : Request) → (queue_newreq q r).list ≡ q.list
unfolding queue_newreq update_local_stats
queue_newreq-list q r = refl

-- The counters and the statistics leave the requests where they are, and one more is counted.
record IsCountedIn (w : Request → ℕ) (max : ℕ) (s s' : State) : Type 0 where
  held : table_weight w s'.hashlist ≡ table_weight w s.hashlist
  ordered : IsOrdered max s'.hashlist
  shape : length s'.hashlist ≡ length s.hashlist
  timeline : s'.timeline ≡ s.timeline
  current_reqnb : s'.current_reqnb ≡ s.current_reqnb +ℤ pos 1

count_request-IsCountedIn :
    (w : Request → ℕ) (ctx : Context) (max : ℕ) (req : Request) (hash : ℕ) (s : State)
    → IsOrdered max s.hashlist
    → IsCountedIn w max s (count_request ctx req hash s)
unfolding count_request statistics_newreq inc_current_reqnb
count_request-IsCountedIn w ctx max req hash s o =
    let size : Queue → Queue = λ q. record q { current_size = q.current_size +ℤ pos req.len } in
    let number : File → File = λ f. record f { timeline_reqnb = f.timeline_reqnb +ℤ pos 1 } in
    let news : Queue → Queue = λ q. queue_newreq q req in
    let s1 : State = record s {
      hashlist_reqcounter = change_at (λ c. c +ℤ pos 1) s.hashlist_reqcounter hash;
    } in
    let s2 : State = change_queue hash req.file_id req.type size s1 in
    let s3 : State = change_file hash req.file_id number s2 in
    let a =
      change_file-Steady w max hash req.file_id (update_queue req.type size) s1
        (update_queue-KeepsLists req.type size (λ q. refl)) o in
    let b =
      change_file-Steady w max hash req.file_id number s2
        (record { handle = λ f. refl; reads = λ f. refl; writes = λ f. refl }) a.ordered in
    let c =
      change_file-Steady w max hash req.file_id (update_queue req.type news) s3
        (update_queue-KeepsLists req.type news (λ q. queue_newreq-list q req)) b.ordered in
    elim (Bool-cases ctx.config_trace_agios) [
      | inl traced ↦
          rw (count_request, traced)
            (record {
              held = c.held ∙ b.held ∙ a.held;
              ordered = c.ordered;
              shape = c.shape ∙ b.shape ∙ a.shape;
              timeline = refl;
              current_reqnb = refl;
            })
      | inr silent ↦
          rw (count_request, silent)
            (record {
              held = c.held ∙ b.held ∙ a.held;
              ordered = c.ordered;
              shape = c.shape ∙ b.shape ∙ a.shape;
              timeline = refl;
              current_reqnb = refl;
            })
    ]

finish_add-eq :
    (ctx : Context) (env : Dispatch) (req : Request) (hash : ℕ) (s : State)
    → ctx.current_alg ≢ noop_scheduler
    → finish_add ctx env req hash (true, s) ≡ ok (true, [], count_request ctx req hash s)
unfolding finish_add
finish_add-eq ctx env req hash s h =
    let waits : (ctx.current_alg == noop_scheduler) ≡ false = ground arith in
    rw (finish_add, waits) refl

agios_add_request-eq :
    (ctx : Context) (mem : Memory) (env : Dispatch) (f : Fields) (s s' : State)
    → (mem.request ≡ true) × (mem.request_id ≡ true)
    → (ctx.needs_hashtable ≡ true) × (ctx.current_alg ≢ noop_scheduler)
    → hashtable_add_req ctx mem
        (simple (fill_request s.g_last_timestamp f).0)
        (get_hashtable_position f.file_id)
        (record s { g_last_timestamp = (fill_request s.g_last_timestamp f).1 })
      ≡ ok (true, s')
    → agios_add_request ctx mem env f s
      ≡ ok (
        true,
        [],
        count_request ctx
            (fill_request s.g_last_timestamp f).0
            (get_hashtable_position f.file_id)
            s',
      )
unfolding agios_add_request add_to_structure request_constructor
agios_add_request-eq ctx mem env f s s' memory alg e =
    rw (agios_add_request, memory.0, memory.1, alg.0, e)
      (finish_add-eq ctx env (fill_request s.g_last_timestamp f).0
        (get_hashtable_position f.file_id) s' alg.1)

-- With memory and an algorithm that uses the hash table, `agios_add_request` succeeds and calls none
-- of the user's functions. The table, which stays in order, then holds the new request, with the
-- next timestamp, and every other request as often as before, and one request more is counted.
pub agios_add_request-table :
    (w : Request → ℕ) (ctx : Context) (mem : Memory) (env : Dispatch) (f : Fields) (s : State)
    → (mem.request ≡ true) × (mem.request_id ≡ true) × (mem.file ≡ true) × (mem.file_id ≡ true)
    → (ctx.needs_hashtable ≡ true) × (ctx.current_alg ≢ noop_scheduler)
    → 1 ≤ ctx.max_aggreg_size
    → length s.hashlist ≡ hash_entries
    → IsOrdered ctx.max_aggreg_size s.hashlist
    → (s' : State) × (agios_add_request ctx mem env f s ≡ ok (true, [], s'))
      × (table_weight w s'.hashlist
          ≡ table_weight w s.hashlist + w (fill_request s.g_last_timestamp f).0)
      × IsOrdered ctx.max_aggreg_size s'.hashlist
      × (length s'.hashlist ≡ hash_entries)
      × (s'.timeline ≡ s.timeline)
      × (s'.current_reqnb ≡ s.current_reqnb +ℤ pos 1)
agios_add_request-table w ctx mem env f s memory alg big size o =
    let hash : ℕ = get_hashtable_position f.file_id in
    let r = fill_request s.g_last_timestamp f in
    let s0 : State = record s { g_last_timestamp = r.1 } in
    let inside : hash < length s.hashlist = rw size (get_hashtable_position-le f.file_id).0 in
    let a =
      hashtable_add_req_lem w ctx mem (simple r.0) hash s0 (memory.2, memory.3) (refl, big) refl
        inside o in
    let c = count_request-IsCountedIn w ctx ctx.max_aggreg_size r.0 hash a.0 a.2.1 in
    (
      count_request ctx r.0 hash a.0,
      agios_add_request-eq ctx mem env f s a.0 (memory.0, memory.1) alg (a.1),
      c.held ∙ a.2.0 ∙ omega arith,
      c.ordered,
      c.shape ∙ a.2.5 ∙ size,
      c.timeline ∙ a.2.3,
      c.current_reqnb ∙ ap (λ n. n +ℤ pos 1) a.2.4,
    )
