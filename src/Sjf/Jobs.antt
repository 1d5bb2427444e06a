-- ===== src/Sjf/Jobs.antt =====
-- The queues of the table as jobs, and the shortest of them: what src/SJF.c looks for.
use agios.Common.{ℕ, ◌+◌, ◌≡◌, List, [], ◌∷◌, ◌++◌, Option, none, some, true, if◌then◌else◌}
use agios.Common.Int.{ℤ, pos, ltb_ℤ}
use agios.Request.{FileId, File, RequestType, rt_read, rt_write}
use agios.Lines.{queue_of}
use agios.Sjf.{has_requests, has_data}

-- A queue with requests: its line, its file, its type and its bytes.
pub record Job : Type 0 where
  pub queue : ℕ × FileId × RequestType
  pub size : ℤ

unfoldable pub job_of : ℕ → File → RequestType → List Job
job_of i f type =
    let size : ℤ = (queue_of type f).current_size in
    if ltb_ℤ (pos 0) size then record { queue = (i, f.file_id, type); size = size } ∷ [] else []

unfoldable pub jobs_of : ℕ → File → List Job
unfolding job_of
jobs_of i f = if has_requests f then job_of i f rt_read ++ job_of i f rt_write else []

unfoldable pub line_jobs : ℕ → List File → List Job
unfolding jobs_of
line_jobs i [] = []
line_jobs i (f ∷ fs) = jobs_of i f ++ line_jobs i fs

-- The jobs of the table from line `i`.
unfoldable pub jobs : ℕ → List (List File) → List Job
unfolding line_jobs
jobs i [] = []
jobs i (line ∷ lines) = line_jobs i line ++ jobs (i + 1) lines

-- The first of the shortest jobs.
abbrev pub shorter : Job → Option Job → Option Job
shorter j none = some j
shorter j (some k) = if ltb_ℤ k.size j.size then some k else some j

unfoldable pub shortest : List Job → Option Job
shortest [] = none
shortest (j ∷ js) = shorter j (shortest js)

abbrev pub busy : File → ℕ
busy f = if has_requests f then 1 else 0

unfoldable pub busy_files : List File → ℕ
busy_files [] = 0
busy_files (f ∷ fs) = busy f + busy_files fs

unfoldable pub busy_table : List (List File) → ℕ
unfolding busy_files
busy_table [] = 0
busy_table (line ∷ lines) = busy_files line + busy_table lines

-- A file with requests has bytes to move.
abbrev pub IsMeasured : File → Type 0
IsMeasured f = has_requests f ≡ true → has_data f ≡ true
