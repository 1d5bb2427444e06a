-- ===== src/DataStructures/Start.antt =====
-- The invariant of the hash table at the start, and when the statistics are reset.
use agios.Common.{ℕ, zero, suc, ◌+◌, ◌≡◌, refl, ap, List, [], ◌∷◌, true, map, arith, All, length}
use agios.Common.Int.{pos}
use agios.Request.{FileId, Request, Queued, File}
use agios.Lines.{Rises, RisesFrom}
use agios.Statistics.{reset_global_stats, reset_stats_queue}
use agios.State.{State, Context}
use agios.Hash.{hash_entries}
use agios.Hashtable.{replicate, hashtable_init}
use agios.Hashtable.Weight.{line_weight, table_weight, InFile}
use agios.Hashtable.Enter.{IsOrdered}
use agios.Timeline.{timeline_init}
use agios.Migration.ToTable.{IsTable}
use agios.Aggregation.Insertion.{Fits}
use agios.DataStructures.{StartMemory, allocate_data_structures, reset_file, reset_all_statistics}

pub All-replicate : {A : Type 0} (P : A → Type 0) (x : A) → P x → (n : ℕ) → All P (replicate n x)
All-replicate P x h zero = tt
All-replicate P x h (suc n) = (h, All-replicate P x h n)

empty_weight : (w : Request → ℕ) (n : ℕ) → table_weight w (replicate n []) ≡ 0
empty_weight w zero = refl
empty_weight w (suc n) = omega (arith, empty_weight w n)

length-replicate : {A : Type 0} (x : A) (n : ℕ) → length (replicate n x) ≡ n
length-replicate x zero = refl
length-replicate x (suc n) = ap suc (length-replicate x n)

-- No request waits, and none is counted.
pub record IsFresh (ctx : Context) (s : State) : Type 0 where
  pub table : IsTable ctx s
  pub empty : (w : Request → ℕ) → table_weight w s.hashlist ≡ 0
  pub timeline : s.timeline ≡ []
  pub current_reqnb : s.current_reqnb ≡ pos 0
  pub current_filenb : s.current_filenb ≡ pos 0

empty_table-IsTable : (ctx : Context) → IsOrdered ctx.max_aggreg_size (replicate hash_entries [])
empty_table-IsTable ctx = record {
  rises = All-replicate Rises [] tt hash_entries;
  fits = All-replicate (All (InFile (Fits ctx.max_aggreg_size))) [] tt hash_entries;
}

-- The state after a start, with the queues of `multi_timeline`.
abbrev fresh : List (List Queued) → State → State
fresh queues s = record s {
  hashlist = replicate hash_entries [];
  hashlist_reqcounter = replicate hash_entries (pos 0);
  timeline = [];
  multi_timeline = queues;
  current_reqnb = pos 0;
  current_filenb = pos 0;
  global_stats = reset_global_stats s.global_stats;
}

fresh-IsFresh :
    (ctx : Context) (queues : List (List Queued)) (s : State) → IsFresh ctx (fresh queues s)
fresh-IsFresh ctx queues s = record {
  table = (length-replicate {A = List File} [] hash_entries, empty_table-IsTable ctx);
  empty = λ w. empty_weight w hash_entries;
  timeline = refl;
  current_reqnb = refl;
  current_filenb = refl;
}

-- With memory, the start succeeds, whatever the state was before: the table has all its lines and is
-- in order for every algorithm, no request waits, and the counters are 0.
pub allocate_data_structures-IsFresh :
    (mem : StartMemory) (max_queue_id : ℕ) (ctx : Context) (s : State)
    → (mem.queues ≡ true) × (mem.lines ≡ true) × (mem.locks ≡ true) × (mem.counters ≡ true)
    → (s' : State) × (allocate_data_structures mem max_queue_id s ≡ (true, s')) × IsFresh ctx s'
unfolding allocate_data_structures timeline_init hashtable_init
allocate_data_structures-IsFresh mem zero ctx s h =
    (fresh s.multi_timeline s, rw (h.1, h.2, h.3) refl, fresh-IsFresh ctx s.multi_timeline s)
allocate_data_structures-IsFresh mem (suc n) ctx s h = (
  fresh (replicate (suc n + 1) []) s,
  rw (h.0, h.1, h.2, h.3) refl,
  fresh-IsFresh ctx (replicate (suc n + 1) []) s,
)

module _ (w : Request → ℕ) (max : ℕ) where
  reset_line-weight : (line : List File) → line_weight w (map reset_file line) ≡ line_weight w line
  unfolding reset_file reset_stats_queue
  reset_line-weight [] = refl
  reset_line-weight (f ∷ fs) = omega (arith, reset_line-weight fs)

  reset_table-weight :
      (lines : List (List File))
      → table_weight w (map (map reset_file) lines) ≡ table_weight w lines
  reset_table-weight [] = refl
  reset_table-weight (l ∷ ls) = omega (arith, reset_line-weight l, reset_table-weight ls)

  reset_line-RisesFrom :
      (lo : FileId) (line : List File) → RisesFrom lo line → RisesFrom lo (map reset_file line)
  unfolding reset_file
  reset_line-RisesFrom lo [] r = tt
  reset_line-RisesFrom lo (f ∷ fs) r = (r.0, reset_line-RisesFrom f.file_id fs r.1)

  reset_line-Rises : (line : List File) → Rises line → Rises (map reset_file line)
  unfolding reset_file
  reset_line-Rises [] r = tt
  reset_line-Rises (f ∷ fs) r = reset_line-RisesFrom f.file_id fs r

  reset_line-InFile :
      (line : List File)
      → All (InFile (Fits max)) line
      → All (InFile (Fits max)) (map reset_file line)
  unfolding reset_file reset_stats_queue
  reset_line-InFile [] h = tt
  reset_line-InFile (f ∷ fs) h = (h.0, reset_line-InFile fs h.1)

  reset_table-IsOrdered :
      (lines : List (List File)) → IsOrdered max lines → IsOrdered max (map (map reset_file) lines)
  reset_table-IsOrdered [] o = o
  reset_table-IsOrdered (l ∷ ls) o =
      let ih = reset_table-IsOrdered ls (record { rises = o.rises.1; fits = o.fits.1 }) in
      record {
        rises = (reset_line-Rises l o.rises.0, ih.rises);
        fits = (reset_line-InFile l o.fits.0, ih.fits);
      }

  -- A reset of all statistics takes no request out of the table, which stays in order, and changes
  -- neither the timeline nor the counter of requests.
  pub reset_all_statistics-IsOrdered :
      (s : State)
      → IsOrdered max s.hashlist
      → IsOrdered max (reset_all_statistics s).hashlist
        × (table_weight w (reset_all_statistics s).hashlist ≡ table_weight w s.hashlist)
        × ((reset_all_statistics s).timeline ≡ s.timeline)
        × ((reset_all_statistics s).current_reqnb ≡ s.current_reqnb)
  unfolding reset_all_statistics
  reset_all_statistics-IsOrdered s o =
      (reset_table-IsOrdered s.hashlist o, reset_table-weight s.hashlist, refl, refl)

length-map : {A B : Type 0} (g : A → B) (xs : List A) → length (map g xs) ≡ length xs
length-map g [] = refl
length-map g (x ∷ xs) = ap suc (length-map g xs)

pub length-reset : (s : State) → length (reset_all_statistics s).hashlist ≡ length s.hashlist
unfolding reset_all_statistics
length-reset s = length-map (map reset_file) s.hashlist
