-- ===== src/Release/Table.antt =====
-- `agios_release_request` (src/agios_release_request.c) over the whole hash table.
use agios.Common.{ℕ, ◌≡◌, refl, List, some, total, ◌+◌}
use agios.Common.Int.{ℤ}
use agios.Request.{FileId, Request, RequestType, Queue, File}
use agios.Hash.{get_hashtable_position}
use agios.Lines.{lookup_file, queue_of}
use agios.Performance.{Performance}
use agios.State.{State, row}
use agios.Hashtable.Quiet.{Steady}
use agios.Release.{remove_dispatched, release_queue}

pub release_queue-list :
    (len offset : ℕ) (b : ℤ) (q : Queue)
    → ((release_queue len offset b q).list ≡ q.list)
      × ((release_queue len offset b q).dispatch ≡ remove_dispatched len offset q.dispatch)
unfolding release_queue
release_queue-list len offset b q = (refl, refl)

-- The request `req` has left its dispatch queue, which keeps every other request.
pub record HasReleased (w : Request → ℕ) (max : ℕ) (id : FileId) (type : RequestType)
    (req : Request) (queue : List Request) (s s' : State) : Type 0 where
  pub waiting : Steady w max s s'
  pub file : File
  pub found : lookup_file id (row s'.hashlist (get_hashtable_position id)) ≡ some file
  pub gone : total w queue ≡ w req + total w (queue_of type file).dispatch
