-- ===== src/Release.antt =====
-- `agios_release_request` and `generic_cleanup` (src/agios_release_request.c).
pub mod Dispatched
pub mod Table
use agios.Common.{
  ℕ, zero, suc, ◌+◌, ◌/◌, List, [], ◌∷◌, Option, none, some, Bool, true, false, ◌&&◌, ◌==◌,
  if◌then◌else◌,
}
use agios.Common.Int.{ℤ, pos, negsuc, ◌+ℤ◌, ◌-ℤ◌}
use agios.Request.{FileId, Request, RequestType, Queue, File, Timespec}
use agios.Hash.{get_hashtable_position}
use agios.Lines.{lookup_file, update_file, queue_of}
use agios.CommonFunctions.{get_nanoelapsed_long}
use agios.Statistics.{average}
use agios.Performance.{credit_release}
use agios.State.{State, Outcome, ok, fault, ◌>>=◌, row, change_queue}

abbrev pub is_request : (len offset : ℕ) → Request → Bool
is_request len offset r = r.len == len && r.offset == offset

-- The first request of the dispatch queue with this length and offset.
unfoldable pub find_dispatched : (len offset : ℕ) → List Request → Option Request
find_dispatched len offset [] = none
find_dispatched len offset (r ∷ rs) =
    if is_request len offset r then some r else find_dispatched len offset rs

unfoldable pub remove_dispatched : (len offset : ℕ) → List Request → List Request
remove_dispatched len offset [] = []
remove_dispatched len offset (r ∷ rs) =
    if is_request len offset r then rs else r ∷ remove_dispatched len offset rs

-- `req->len / elapsed_time`: a division by zero has no result.
unfoldable pub bandwidth_of : ℕ → ℤ → Outcome ℤ
bandwidth_of len (pos zero) = fault
bandwidth_of len (pos (suc n)) = ok (pos (len / suc n))
bandwidth_of len (negsuc n) = ok (pos 0 -ℤ pos (len / suc n))

-- The figures of the queue: those of the release, and those of `generic_cleanup`, which also frees
-- the request.
unfoldable pub release_queue : (len offset : ℕ) → (this_bandwidth : ℤ) → Queue → Queue
unfolding remove_dispatched
release_queue len offset bandwidth q =
    let released : ℤ = q.stats.releasedreq_nb +ℤ pos 1 in
    record q {
      dispatch = remove_dispatched len offset q.dispatch;
      stats = record (q.stats) {
        releasedreq_nb = released;
        processed_bandwidth = average q.stats.processed_bandwidth bandwidth released;
        processedreq_nb = q.stats.processedreq_nb +ℤ pos 1;
        processed_req_size = q.stats.processed_req_size +ℤ pos len;
      };
    }

-- The global figures of a request that was dispatched at a known time.
abbrev pub credited : Option ℕ → ℕ → ℤ → State → Outcome State
credited none len bandwidth s = fault
credited (some d) len bandwidth s = elim (credit_release d len bandwidth s.performance) [
  | none ↦ fault
  | some p ↦ ok (record s { performance = p })
]

-- The release of a request that was found.
unfoldable pub release_found :
    Timespec → FileId → RequestType → Request → ℕ → State → Outcome (Bool × State)
unfolding bandwidth_of release_queue credit_release get_nanoelapsed_long update_file
release_found now id type req hash s = do
  bandwidth ← bandwidth_of req.len (get_nanoelapsed_long now req.arrival_time)
  s' ← credited req.dispatch_timestamp req.len bandwidth s
  ok (true, change_queue hash id type (release_queue req.len req.offset bandwidth) s')

abbrev pub dispatched_in : Option File → RequestType → (len offset : ℕ) → Option Request
dispatched_in none type len offset = none
dispatched_in (some f) type len offset = find_dispatched len offset (queue_of type f).dispatch

-- `now` is the clock. The result is false, and nothing changes, if the file or the request is not
-- there.
unfoldable pub agios_release_request :
    Timespec → FileId → RequestType → (len offset : ℕ) → State → Outcome (Bool × State)
unfolding find_dispatched release_found lookup_file get_hashtable_position
agios_release_request now id type len offset s =
    let hash : ℕ = get_hashtable_position id in
    elim (dispatched_in (lookup_file id (row s.hashlist hash)) type len offset) [
      | none ↦ ok (false, s)
      | some req ↦ release_found now id type req hash s
    ]
