-- ===== src/State.antt =====
-- The shared state of the library: the global variables of src/req_hashtable.c, src/req_timeline.c,
-- src/agios_counters.c, src/agios_add_request.c, src/statistics.c, src/performance.c and
-- src/trace.c, and the accesses to a line of the table.
use agios.Common.{ℕ, zero, suc, List, [], ◌∷◌, none, some, Bool, get_elem?}
use agios.Common.Int.{ℤ, pos, ◌+ℤ◌, ◌-ℤ◌}
use agios.Request.{FileId, Request, RequestType, Queued, Queue, File}
use agios.Lines.{update_file, update_queue}
use agios.Statistics.{GlobalStatistics}
use agios.Performance.{Performance}

pub record State : Type 0 where
  pub hashlist : List (List File)
  pub hashlist_reqcounter : List ℤ
  pub timeline : List Queued
  pub multi_timeline : List (List Queued)
  pub current_reqnb : ℤ
  pub current_filenb : ℤ
  pub g_last_timestamp : ℕ
  pub global_stats : GlobalStatistics
  pub performance : Performance
  pub traced : List Request

-- An outcome `fault` stands for what the code has no defined behaviour for: an access through a
-- pointer that is not set or outside an array, a read of a value that was never set, a division by
-- zero or a failed assertion. It also stands for a virtual request inside another one, which the
-- queues of this model do not hold.
pub data Outcome {ℓ} (A : Type ℓ) : Type ℓ where
  ok : A → Outcome A
  fault : Outcome A

infixl 5 ◌>>=◌
abbrev pub ◌>>=◌ {ℓ κ} : {A : Type ℓ} {B : Type κ} → Outcome A → (A → Outcome B) → Outcome B
ok a >>= f = f a
fault >>= f = fault

-- What holds of the result, if there is one.
abbrev pub Ensures {ℓ κ} : {A : Type ℓ} → (A → Type κ) → Outcome A → Type κ
Ensures P fault = Unit
Ensures P (ok a) = P a

-- The outcomes of the calls of `malloc` in one operation.
pub record Memory : Type 0 where
  pub request : Bool
  pub request_id : Bool
  pub file : Bool
  pub file_id : Bool

-- The scheduling algorithm in use (`current_alg`, `current_scheduler`), and the configuration that
-- the insertion of requests reads.
pub record Context : Type 0 where
  pub current_alg : ℕ
  pub max_aggreg_size : ℕ
  pub needs_hashtable : Bool
  pub config_sw_size : ℕ
  pub config_trace_agios : Bool

-- A line of the table, and a queue of `multi_timeline`. The indices that the code computes are in
-- range; out of range the model has no element.
abbrev pub row {ℓ} : {A : Type ℓ} → List (List A) → ℕ → List A
row rows i = elim (get_elem? rows i) [ none ↦ [] | some r ↦ r ]

abbrev pub change_at {ℓ} : {A : Type ℓ} → (A → A) → List A → ℕ → List A
change_at change [] i = []
change_at change (x ∷ xs) zero = change x ∷ xs
change_at change (x ∷ xs) (suc i) = x ∷ change_at change xs i

-- A write through `globalinfo->req_file`.
abbrev pub change_file : ℕ → FileId → (File → File) → State → State
change_file hash id change s = record s {
  hashlist = change_at (update_file id change) s.hashlist hash;
}

-- A write through `globalinfo`.
abbrev pub change_queue : ℕ → FileId → RequestType → (Queue → Queue) → State → State
change_queue hash id type change = change_file hash id (update_queue type change)

unfoldable pub inc_current_reqnb : State → State
inc_current_reqnb s = record s { current_reqnb = s.current_reqnb +ℤ pos 1 }

unfoldable pub dec_many_current_reqnb : (hash value : ℕ) → State → State
dec_many_current_reqnb hash value s = record s {
  current_reqnb = s.current_reqnb -ℤ pos value;
  hashlist_reqcounter = change_at (λ c. c -ℤ pos value) s.hashlist_reqcounter hash;
}

unfoldable pub dec_current_reqnb : (hash : ℕ) → State → State
dec_current_reqnb hash s = record s {
  current_reqnb = s.current_reqnb -ℤ pos 1;
  hashlist_reqcounter = change_at (λ c. c -ℤ pos 1) s.hashlist_reqcounter hash;
}

unfoldable pub inc_current_filenb : State → State
inc_current_filenb s = record s { current_filenb = s.current_filenb +ℤ pos 1 }

unfoldable pub dec_current_filenb : State → State
dec_current_filenb s = record s { current_filenb = s.current_filenb -ℤ pos 1 }
