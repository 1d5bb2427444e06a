-- ===== src/System.antt =====
-- The library while its algorithm uses the hash table, as a state machine: what the user's threads
-- (src/agios_add_request.c, src/agios_release_request.c) and the AGIOS thread (src/SJF.c,
-- src/statistics.c) do to the shared state, in any order. Memory is there.
pub mod Sound
pub mod Release
pub mod Refines
pub mod Conserves
use agios.Common.{ℕ, ◌≡◌, List, [], Bool, true}
use agios.Common.Int.{pos}
use agios.Request.{FileId, Request, RequestType, Fields, Timespec}
use agios.State.{State, Memory, Context, ok}
use agios.Process.{Callback}
use agios.AddRequest.{Dispatch, agios_add_request}
use agios.Release.{agios_release_request}
use agios.DataStructures.{StartMemory, allocate_data_structures, reset_all_statistics}
use agios.Sjf.Rounds.{sjf_serve}
use agios.Scheduling.GiveBack.{HasMemory}
use agios.Hashtable.Weight.{table_weight}
use agios.Migration.ToTable.{IsTable}

abbrev pub CanAllocate : Memory → Type 0
CanAllocate mem =
    (mem.request ≡ true) × (mem.request_id ≡ true) × (mem.file ≡ true) × (mem.file_id ≡ true)

abbrev pub CanStart : StartMemory → Type 0
CanStart mem = (mem.queues ≡ true) × (mem.lines ≡ true) × (mem.locks ≡ true) × (mem.counters ≡ true)

-- One critical section. A request is served from any queue that has one.
pub data Step (ctx : Context) : State → State → Type 0 where
  add :
      (mem : Memory) (env : Dispatch) (f : Fields) (s s' : State) (b : Bool) (cs : List Callback)
      → CanAllocate mem
      → agios_add_request ctx mem env f s ≡ ok (b, cs, s')
      → Step ctx s s'
  release :
      (now : Timespec) (id : FileId) (type : RequestType) (len offset : ℕ) (s s' : State) (b : Bool)
      → agios_release_request now id type len offset s ≡ ok (b, s')
      → Step ctx s s'
  serve :
      (env : Dispatch) (hash : ℕ) (id : FileId) (type : RequestType) (s s' : State)
      (cs : List Callback)
      → HasMemory env
      → sjf_serve env hash id type s ≡ ok (cs, s')
      → Step ctx s s'
  reset : (s : State) → Step ctx s (reset_all_statistics s)

-- The states that a run of the library can be in.
pub data Reachable (ctx : Context) : State → Type 0 where
  started :
      (mem : StartMemory) (max_queue_id : ℕ) (s s' : State)
      → CanStart mem
      → allocate_data_structures mem max_queue_id s ≡ (true, s')
      → Reachable ctx s'
  stepped : (s s' : State) → Reachable ctx s → Step ctx s s' → Reachable ctx s'

abbrev pub one : Request → ℕ
one r = 1

-- The table has all its lines and is in order, the timeline is empty, and the counter is the number of
-- requests that wait.
pub record IsSound (ctx : Context) (s : State) : Type 0 where
  pub table : IsTable ctx s
  pub timeline : s.timeline ≡ []
  pub current_reqnb : s.current_reqnb ≡ pos (table_weight one s.hashlist)
