-- ===== src/Tests/Servers.antt =====
-- Runs of the algorithms with several queues, and of the operations over the whole table.
use agios.Common.{ℕ, ◌≡◌, refl, [], ◌∷◌, true, false, some, arith, List}
use agios.Common.Int.{pos, ◌-ℤ◌}
use agios.CommonFunctions.{get_nanoelapsed}
use agios.Common.Text.{strcmp}
use agios.Request.{File, Request, Timespec, rt_read}
use agios.State.{State, ok}
use agios.Wfq.{Wfq, WfqWeights, wfq_turn}
use agios.Wfq.Turn.{HasTurn, wfq_turn_lem}
use agios.Twins.{Twins, TwinsRound, TwinsRun, twins}
use agios.Twins.Window.{Emptied, twins-Emptied}
use agios.Timeorder.Drain.{queue_reqnb}
use agios.Cancel.{agios_cancel_request}
use agios.Cancel.Table.{Outcomes, agios_cancel_request-table}
use agios.DataStructures.{StartMemory, allocate_data_structures}
use agios.Process.{Callback}
use agios.AddRequest.{agios_add_request}
use agios.AddRequest.Table.{agios_add_request-table}
use agios.Hashtable.{hashtable_init}
use agios.Timeline.{timeline_init}
use agios.Sjf.Rounds.{sjf_serve}
use agios.Sjf.Serve.{Serves, sjf_serve_lem}
use agios.System.{Reachable, started, stepped, add, IsSound}
use agios.System.Sound.{Reachable-IsSound}
use agios.Tests.{read_at, two_reads}
use agios.Tests.Queues.{third, count, fields}
use agios.Tests.Tables.{file_a}
use agios.Tests.Loops.{
  round, waiting, table, table-IsOrdered, found_in, table_of, hashed, dispatch, memory, place,
}

-- Three queues, of which the second has two entries.
abbrev queues : State
queues = record waiting { multi_timeline = [] ∷ (two_reads ∷ third ∷ []) ∷ [] ∷ [] }

abbrev second : WfqWeights
second = record { weight = 7; credit = 2 }

abbrev wfq_state : Wfq
wfq_state = record {
  g_current_queue = 1;
  wfq_weights = record { weight = 5; credit = 0 } ∷ second ∷ [];
}

wfq_turn_example :
    HasTurn 1 second
      (two_reads ∷ third ∷ [])
      queues
      (wfq_turn (round ∷ round ∷ round ∷ []) wfq_state queues)
wfq_turn_example =
    wfq_turn_lem (round ∷ round ∷ round ∷ []) wfq_state second (two_reads ∷ third ∷ []) queues
      (
        ((refl, refl), (λ s. refl), refl),
        (((refl, refl), (λ s. refl), refl), (((refl, refl), (λ s. refl), refl), tt)),
      )
      (refl, (refl, tt)) (omega arith) refl refl (omega arith)

abbrev at_second : ℕ → Timespec
at_second n = record { tv_sec = n; tv_nsec = 0 }

abbrev twins_state : Twins
twins_state = record {
  g_twins_first_req = false;
  g_current_twins_server = 1;
  g_window_start = at_second 1;
}

abbrev twins_round : TwinsRound
twins_round = record { round = round; checked = at_second 1; started = at_second 1 }

twins-Emptied_example :
    (r : TwinsRun) × (twins 1000
        (twins_round ∷ twins_round ∷ twins_round ∷ [])
        (at_second 1)
        twins_state
        queues
      ≡ ok (pos 1000 -ℤ get_nanoelapsed (at_second 1) (at_second 1), r))
    × Emptied 1 (two_reads ∷ third ∷ []) twins_state queues r
unfolding get_nanoelapsed ◌-ℤ◌ queue_reqnb
twins-Emptied_example =
    twins-Emptied 1000 (twins_round ∷ twins_round ∷ twins_round ∷ []) (at_second 1) twins_state
      (two_reads ∷ third ∷ []) queues 3 refl
      (
        (((refl, refl), (λ s. refl), refl), refl),
        (
          (((refl, refl), (λ s. refl), refl), refl),
          ((((refl, refl), (λ s. refl), refl), refl), tt),
        ),
      )
      (refl, (refl, tt)) (omega arith) refl refl (omega arith)

abbrev full : State
full = record waiting { hashlist = table }

agios_cancel_request_example :
    (s' : State) × (agios_cancel_request hashed (97 ∷ []) rt_read 4 4 full ≡ (true, s'))
    × Outcomes count 4 4 (97 ∷ []) rt_read (two_reads ∷ []) full s'
unfolding strcmp
agios_cancel_request_example =
    agios_cancel_request-table count hashed (97 ∷ []) rt_read 4 4 full file_a refl
      (found_in file_a refl)
      ((refl, omega arith, λ m. ((omega arith, omega arith), ((omega arith, omega arith), tt))), tt)

abbrev pub start_memory : StartMemory
start_memory = record { queues = true; lines = true; locks = true; counters = true }

-- A read of "a" that was given to the user at time 25.
abbrev given : Request
given = record (read_at 0 4 1 10) { dispatch_timestamp = some 25 }

abbrev file_given : File
file_given = record file_a { read_queue = record (file_a.read_queue) { dispatch = given ∷ [] } }

abbrev busy : State
busy = record full { hashlist = table_of file_given }

sjf_serve_example :
    (cs : List Callback) × (s' : State) × (sjf_serve dispatch place (97 ∷ []) rt_read full
      ≡ ok (cs, s'))
    × Serves count 16 two_reads full cs s'
unfolding strcmp
sjf_serve_example =
    sjf_serve_lem count 16 dispatch (refl, refl) place (97 ∷ []) rt_read file_a two_reads [] full
      (found_in file_a refl) refl table-IsOrdered

-- A start, and a request after it.
abbrev pub first : State
first = (allocate_data_structures start_memory 3 full).1

pub first_reached : Reachable hashed first
unfolding allocate_data_structures timeline_init hashtable_init
first_reached = started start_memory 3 full first (refl, refl, refl, refl) refl

pub first-IsSound : IsSound hashed first
first-IsSound = Reachable-IsSound hashed (refl, ground arith, omega arith) first first_reached

pub added :
    (s' : State) × (agios_add_request hashed memory dispatch fields first ≡ ok (true, [], s'))
added =
    let a =
      agios_add_request-table count hashed memory dispatch fields first (refl, refl, refl, refl)
        (refl, ground arith) (omega arith) first-IsSound.table.0 first-IsSound.table.1 in
    (a.0, a.1)

Reachable-IsSound_example : IsSound hashed (added.0)
Reachable-IsSound_example =
    Reachable-IsSound hashed (refl, ground arith, omega arith) (added.0)
      (stepped first (added.0) first_reached
        (add memory dispatch fields first (added.0) true [] (refl, refl, refl, refl) (added.1)))
