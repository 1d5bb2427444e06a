-- ===== src/Sjf.antt =====
-- The choice of a queue by SJF: `SJF_check_queue` and `SJF_get_shortest_job` (src/SJF.c).
pub mod Jobs
pub mod Search
pub mod Shortest
pub mod Rounds
pub mod Serve
use agios.Common.{
  ℕ, zero, suc, ◌+◌, ◌-◌, ◌^◌, List, [], ◌∷◌, Option, none, some, Bool, true, false, ◌&&◌, ◌||◌,
  not, if◌then◌else◌,
}
use agios.Common.Int.{ℤ, pos, ltb_ℤ}
use agios.Request.{FileId, Queued, Queue, File, RequestType, rt_read, rt_write}
use agios.Lines.{queue_of}
use agios.State.{Outcome, ok, fault, ◌>>=◌}

unfoldable pub sjf_check_queue : Queue → (min_size : ℤ) → Bool
sjf_check_queue queue min_size =
    if ltb_ℤ (pos 0) queue.current_size then ltb_ℤ queue.current_size min_size else false

-- The variables of the search. A queue is its line, its file and its type.
pub record Best : Type 0 where
  pub min_size : ℤ
  pub chosen_queue : Option (ℕ × FileId × RequestType)
  pub evaluated_reqfiles : ℕ

unfoldable pub sjf_consider : (i : ℕ) → File → RequestType → Best → Best
unfolding sjf_check_queue
sjf_consider i f type best =
    if sjf_check_queue (queue_of type f) best.min_size
    then record best {
      min_size = (queue_of type f).current_size;
      chosen_queue = some (i, f.file_id, type);
    }
    else best

abbrev pub is_empty : List Queued → Bool
is_empty [] = true
is_empty (q ∷ qs) = false

abbrev pub has_requests : File → Bool
has_requests f = not (is_empty f.write_queue.list) || not (is_empty f.read_queue.list)

abbrev pub has_data : File → Bool
has_data f = ltb_ℤ (pos 0) f.read_queue.current_size || ltb_ℤ (pos 0) f.write_queue.current_size

unfoldable pub sjf_file : (i : ℕ) → File → Best → Outcome Best
unfolding sjf_consider
sjf_file i f best =
    if has_requests f
    then (if has_data f
        then ok (
            sjf_consider i f rt_write (
              sjf_consider i f rt_read
                (record best { evaluated_reqfiles = best.evaluated_reqfiles + 1 })))
        else fault)
    else ok best

unfoldable pub sjf_line : (i : ℕ) → List File → Best → Outcome Best
unfolding sjf_file
sjf_line i [] best = ok best
sjf_line i (f ∷ fs) best = do b ← sjf_file i f best; sjf_line i fs b

-- The lines from line `i`, until as many files were seen as there are files with requests.
unfoldable pub sjf_lines : (current_filenb : ℤ) → (i : ℕ) → List (List File) → Best → Outcome Best
unfolding sjf_line
sjf_lines filenb i [] best = ok best
sjf_lines filenb i (line ∷ lines) best = elim (sjf_line i line best) [
  | fault ↦ fault
  | ok b ↦
      let further = sjf_lines filenb (i + 1) lines b in
      if ltb_ℤ (pos b.evaluated_reqfiles) filenb then further else ok b
]

-- `LONG_MAX` on a 64-bit machine.
abbrev pub start_best : Best
start_best = record { min_size = pos (2 ^ 63 - 1); chosen_queue = none; evaluated_reqfiles = 0 }

unfoldable pub sjf_get_shortest_job : (current_filenb : ℤ) → List (List File) → Outcome Best
unfolding sjf_lines
sjf_get_shortest_job filenb lines = sjf_lines filenb 0 lines start_best
