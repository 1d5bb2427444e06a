-- ===== src/Tests/Loops.antt =====
-- Runs of the loops over the timeline, of the migrations and of `agios_add_request`.
use agios.Common.{
  ◌∙◌, some, ℕ, ◌+◌, zero, suc, ◌≡◌, refl, ap, List, [], ◌∷◌, true, false, arith, All, length,
  length-set, set,
}
use agios.Common.Int.{pos, ◌+ℤ◌}
use agios.Common.Text.{strcmp, same_string}
use agios.Request.{Queued, File}
use agios.Lines.{Rises, lookup_file}
use agios.Hash.{hash_entries, get_hashtable_position, get_hashtable_position-le}
use agios.State.{row, State, Context, Memory, ok}
use agios.Timeline.{timeline_enter}
use agios.Timeline.Places.{Gains, timeline_place_lem}
use agios.Schedulers.{toagg_scheduler, to_scheduler, mlf_scheduler}
use agios.AddRequest.{Dispatch, agios_add_request}
use agios.AddRequest.Table.{agios_add_request-table}
use agios.Scheduling.{Round}
use agios.Timeorder.{timeorder}
use agios.Timeorder.Drain.{queue_ids, queue_reqnb, Drained, timeorder-Drained}
use agios.Aggregation.Contents.{weight, IsCounted}
use agios.Aggregation.Insertion.{Fits}
use agios.Hashtable.{replicate}
use agios.Hashtable.Weight.{table_weight, InFile}
use agios.Hashtable.Insert.{All-set_row, row-set, HasFile}
use agios.Hashtable.Enter.{IsOrdered}
use agios.Migration.{
  emptied, migrate_from_hashtable_to_timeline, migrate_from_timeline_to_hashtable,
}
use agios.Migration.ToTimeline.{migrate_to_timeline-weight}
use agios.Migration.Ordered.{IsByTime, migrate_to_timeline-IsByTime}
use agios.Migration.ToTable.{IsTable, migrate_to_hashtable-weight}
use agios.Tests.{two_reads}
use agios.Tests.Queues.{third, count, context, fields}
use agios.Tests.Tables.{state, file_a}

abbrev pub dispatch : Dispatch
dispatch = record { info = true; ids = true; this_time = 9; has_list_callback = false }

abbrev pub round : Round
round = record { dispatch = dispatch; others = λ s. s; stop = false }

-- Three requests wait in the timeline.
abbrev pub waiting : State
waiting = record state { timeline = two_reads ∷ third ∷ []; current_reqnb = pos 3 }

timeorder-Drained_example :
    Drained (10 ∷ 11 ∷ 12 ∷ []) (pos 0) (timeorder (round ∷ round ∷ []) waiting)
unfolding queue_ids queue_reqnb
timeorder-Drained_example =
    timeorder-Drained (round ∷ round ∷ []) waiting
      (((refl, refl), (λ s. refl), refl), (((refl, refl), (λ s. refl), refl), tt))
      (refl, (refl, tt)) (omega arith) refl

abbrev splitting : Context
splitting = record (context to_scheduler) { max_aggreg_size = 1 }

migrate_to_timeline_example :
    (s' : State) × (migrate_from_hashtable_to_timeline splitting state ≡ ok s')
    × (weight count s'.timeline ≡ 2)
    × All IsCounted s'.timeline
    × (table_weight count s'.hashlist ≡ 0)
migrate_to_timeline_example =
    migrate_to_timeline-weight count splitting state (refl, ground arith)
      (((((refl, λ e. absurd (cc e)), tt), tt), tt), tt) tt

-- The table with one file "a" in the line of its handle.
abbrev pub place : ℕ
place = get_hashtable_position (97 ∷ [])

abbrev pub table_of : File → List (List File)
table_of f = set (replicate hash_entries []) place (f ∷ [])

abbrev pub table : List (List File)
table = table_of file_a

table_length : length table ≡ hash_entries
table_length = length-set (replicate hash_entries []) place (file_a ∷ [])

All-empty : (P : List File → Type 0) → P [] → (n : ℕ) → All P (replicate n [])
All-empty P h zero = tt
All-empty P h (suc n) = (h, All-empty P h n)

pub table_of-IsOrdered : (f : File) → InFile (Fits 16) f → IsOrdered 16 (table_of f)
table_of-IsOrdered f h = record {
  rises =
      All-set_row Rises (replicate hash_entries []) place (f ∷ []) (All-empty Rises tt hash_entries)
        tt;
  fits =
      All-set_row (All (InFile (Fits 16))) (replicate hash_entries []) place (f ∷ [])
        (All-empty (All (InFile (Fits 16))) tt hash_entries) (h, tt);
}

pub table-IsOrdered : IsOrdered 16 table
table-IsOrdered = table_of-IsOrdered file_a (((refl, omega arith), tt), tt)

pub found_in :
    (f : File)
    → same_string f.file_id (97 ∷ []) ≡ true
    → lookup_file (97 ∷ []) (row (table_of f) place) ≡ some f
unfolding lookup_file
found_in f h =
    ap (lookup_file (97 ∷ []))
      (row-set (replicate hash_entries []) place (f ∷ []) (get_hashtable_position-le (97 ∷ [])).0)
    ∙ rw (lookup_file, h) refl

file_a_found : HasFile table place (97 ∷ [])
unfolding strcmp
file_a_found = (file_a, found_in file_a refl)

abbrev pub hashed : Context
hashed = record (context mlf_scheduler) { needs_hashtable = true }

-- An algorithm that splits the virtual request of the timeline, and a table without requests.
abbrev one_by_one : Context
one_by_one = record hashed { max_aggreg_size = 1 }

abbrev no_requests : List (List File)
no_requests = table_of (emptied file_a)

no_requests-IsTable : IsTable one_by_one (record waiting { hashlist = no_requests })
no_requests-IsTable = (
  length-set (replicate hash_entries []) place (emptied file_a ∷ []),
  record {
    rises =
        All-set_row Rises (replicate hash_entries []) place (emptied file_a ∷ [])
          (All-empty Rises tt hash_entries) tt;
    fits =
        All-set_row (All (InFile (Fits 1))) (replicate hash_entries []) place (emptied file_a ∷ [])
          (All-empty (All (InFile (Fits 1))) tt hash_entries) ((tt, tt), tt);
  },
)

no_requests_found : HasFile no_requests place (97 ∷ [])
unfolding strcmp
no_requests_found = (emptied file_a, found_in (emptied file_a) refl)

migrate_to_hashtable_example :
    (s' : State) × (migrate_from_timeline_to_hashtable one_by_one
        (record waiting { hashlist = no_requests })
      ≡ ok s')
    × (table_weight count s'.hashlist ≡ table_weight count no_requests + 3)
    × IsTable one_by_one s'
    × (s'.timeline ≡ [])
    × (s'.current_reqnb ≡ pos 3)
migrate_to_hashtable_example =
    migrate_to_hashtable-weight count one_by_one (record waiting { hashlist = no_requests })
      (omega arith) no_requests-IsTable
      (
        ((λ e. cc), no_requests_found, (no_requests_found, (no_requests_found, tt))),
        (((λ e. refl), no_requests_found, tt), tt),
      )

abbrev pub memory : Memory
memory = record { request = true; request_id = true; file = true; file_id = true }

agios_add_request_example :
    (s' : State) × (agios_add_request hashed memory dispatch fields
        (record waiting { hashlist = table })
      ≡ ok (true, [], s'))
    × (table_weight count s'.hashlist ≡ table_weight count table + 1)
    × IsOrdered 16 s'.hashlist
    × (length s'.hashlist ≡ hash_entries)
    × (s'.timeline ≡ two_reads ∷ third ∷ [])
    × (s'.current_reqnb ≡ pos 4)
unfolding ◌+ℤ◌
agios_add_request_example =
    agios_add_request-table count hashed memory dispatch fields
      (record waiting { hashlist = table }) (refl, refl, refl, refl) (refl, ground arith)
      (omega arith) table_length table-IsOrdered

migrate_to_timeline-IsByTime_example :
    (s' : State) × (migrate_from_hashtable_to_timeline splitting
        (record waiting { timeline = third ∷ [] })
      ≡ ok s')
    × IsByTime 0 s'.timeline
migrate_to_timeline-IsByTime_example =
    migrate_to_timeline-IsByTime splitting (record waiting { timeline = third ∷ [] })
      (refl, ground arith, ground arith, refl) (omega arith, tt)

timeline_place_example :
    (queue' : List Queued) × (g : ℕ) × (timeline_enter
        (context toagg_scheduler)
        false
        third
        (two_reads ∷ [])
        state
      ≡ ok (queue', record state { g_last_timestamp = g }))
    × Gains count (two_reads ∷ []) 1 queue'
timeline_place_example =
    timeline_place_lem count (context toagg_scheduler) false third (two_reads ∷ []) state
      (ground arith) refl refl refl (refl, tt)
