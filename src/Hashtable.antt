-- ===== src/Hashtable.antt =====
-- The hash table as a container of requests: src/req_hashtable.c. The mutexes of the lines are not
-- modelled here: an operation is a critical section.
pub mod Weight
pub mod Insert
pub mod Enter
pub mod Add
pub mod Quiet
pub mod Writes
pub mod Take
use agios.Common.{
  ℕ, zero, suc, List, [], ◌∷◌, Option, none, some, Bool, true, false, ◌==◌, if◌then◌else◌, set,
}
use agios.Common.Int.{pos}
use agios.Request.{FileId, Request, RequestType, Queued, Queue, File}
use agios.Lines.{find_req_file, update_file, lookup_file, queue_of}
use agios.Hash.{hash_entries}
use agios.QueueInsert.{queue_insert}
use agios.State.{State, Outcome, ok, ◌>>=◌, Memory, Context, row, change_file, change_queue}

abbrev pub replicate {ℓ} : {A : Type ℓ} → ℕ → A → List A
replicate zero a = []
replicate (suc n) a = a ∷ replicate n a

-- `hashtable_init`, with the outcomes of its three calls of `malloc`.
unfoldable pub hashtable_init : (lines locks counters : Bool) → State → Bool × State
hashtable_init false locks counters s = (false, s)
hashtable_init true false counters s = (false, s)
hashtable_init true true false s = (false, s)
hashtable_init true true true s = (
  true,
  record s {
    hashlist = replicate hash_entries [];
    hashlist_reqcounter = replicate hash_entries (pos 0);
  },
)

-- The first request to a file sets its `first_request_time`.
abbrev pub first_request : ℕ → File → File
first_request arrival_time f =
    if f.first_request_time == 0 then record f { first_request_time = arrival_time } else f

-- `find_req_file` on a line of the table, and the arrival time of the file; `none` without memory.
unfoldable pub enter_file : Memory → Request → ℕ → State → Option State
unfolding find_req_file update_file
enter_file mem req hash s =
    elim (find_req_file mem.file mem.file_id (row s.hashlist hash) req.file_id s.current_filenb) [
      | none ↦ none
      | some (line, filenb) ↦ some (
          change_file hash req.file_id (first_request req.arrival_time)
            (record s { hashlist = set s.hashlist hash line; current_filenb = filenb }))
    ]

abbrev pub queue_in : State → ℕ → FileId → RequestType → Option Queue
queue_in s hash id type = elim (lookup_file id (row s.hashlist hash)) [
  | none ↦ none
  | some f ↦ some (queue_of type f)
]

-- The insertion in the queue of the file; the file is there.
unfoldable pub enter_queue : (max_aggreg_size : ℕ) → Queued → ℕ → State → Outcome State
unfolding queue_insert lookup_file update_file
enter_queue max req hash s = elim (queue_in s hash req.file_id req.type) [
  | none ↦ ok s
  | some q ↦ (do
    r ← queue_insert max s.g_last_timestamp req q.list
    ok (record (change_queue hash req.file_id req.type (λ q. record q { list = r.0 }) s) {
      g_last_timestamp = r.1;
    }))
]

-- `hashtable_add_req` with no file given, as for a new request.
unfoldable pub hashtable_add_req : Context → Memory → Queued → ℕ → State → Outcome (Bool × State)
unfolding enter_file enter_queue
hashtable_add_req ctx mem req hash s = elim (enter_file mem req.head hash s) [
  | none ↦ ok (false, s)
  | some s' ↦ (do s2 ← enter_queue ctx.max_aggreg_size req hash s'; ok (true, s2))
]

-- `hashtable_add_req` with the file given, as in a migration from the timeline.
unfoldable pub hashtable_move_req : Context → Queued → ℕ → State → Outcome State
unfolding enter_queue
hashtable_move_req ctx req hash s = enter_queue ctx.max_aggreg_size req hash s
