-- ===== src/Mlf/Rounds.antt =====
-- The main loop of MLF (src/MLF.c). The other threads act at the end of a round.
use agios.Common.{
  ℕ, zero, suc, ◌+◌, List, [], ◌∷◌, ◌++◌, map, Bool, true, false, ◌||◌, Option, none, some,
  if◌then◌else◌, ltb, leb, ◌==◌, get_elem?, set,
}
use agios.Common.Int.{pos, ltb_ℤ}
use agios.Request.{FileId, Queued, File, Timespec}
use agios.Lines.{lookup_file, queue_of, update_queue}
use agios.Hash.{hash_entries}
use agios.Hashtable.{replicate}
use agios.State.{State, Outcome, ok, fault, ◌>>=◌, row, change_file}
use agios.Process.{ProcessingInfo, Callback}
use agios.AddRequest.{Dispatch}
use agios.Scheduling.{Ending, ended, cut, goes_on}
use agios.Waiting.{update_waiting_time_counters, call_step2_for_info_list}
use agios.Waiting.Serve.{process_selected}
use agios.Mlf.{mlf_select_request, request_at, Selected}

abbrev pub max_mlf_lock_tries : ℕ
max_mlf_lock_tries = 2

-- What the environment gives to the visit of a file: the clock at the update of its waiting time and
-- at the test of its request, memory and clock of step 1, and what step 2 says at its end.
pub record Visit : Type 0 where
  pub updated : Timespec
  pub selected : Timespec
  pub dispatch : Dispatch
  pub stop : Bool

-- A queue without the request at a position (`hashtable_del_req`).
unfoldable pub without : ℕ → List Queued → List Queued
without i [] = []
without zero (q ∷ qs) = qs
without (suc i) (q ∷ qs) = q ∷ without i qs

-- A selected request is taken out of its queue, if the file is not waiting.
unfoldable pub take_selected : File × Selected → File × Option Queued
unfolding request_at without
take_selected (f, none) = (f, none)
take_selected (f, some (type, i)) =
    if f.waiting_time == 0
    then elim (request_at i (queue_of type f).list) [
      | none ↦ (f, none)
      | some req ↦ (update_queue type (λ q. record q { list = without i q.list }) f, some req)
    ]
    else (f, none)

unfoldable pub update_waiting : Timespec → File → (shortest_waiting_time : ℕ) → Outcome (File × ℕ)
unfolding update_waiting_time_counters
update_waiting now f shortest =
    if ltb 0 f.waiting_time then update_waiting_time_counters now f shortest else ok (f, shortest)

module _ (config_mlf_quantum config_waiting_time : ℕ) where
  -- The file after the visit, the request that was taken from it, and the shortest waiting time.
  unfoldable pub mlf_visit : Visit → File → ℕ → Outcome ((File × Option Queued) × ℕ)
  unfolding update_waiting mlf_select_request take_selected
  mlf_visit v f shortest = do
    x ← update_waiting v.updated f shortest
    ok (
      take_selected (mlf_select_request config_mlf_quantum config_waiting_time v.selected x.0),
      x.1,
    )

-- The structures of the requests that were taken, each with what its step 2 says.
pub record Pass : Type 0 where
  pub info_list : List (ProcessingInfo × Bool)
  pub shortest_waiting_time : ℕ
  pub state : State

abbrev pub after_info : ProcessingInfo × Bool → Outcome Pass → Outcome Pass
after_info info fault = fault
after_info info (ok p) = ok (record p { info_list = info ∷ p.info_list })

-- A write of the fields of a file: its handle is never written.
abbrev pub rewritten : File → File → File
rewritten new old = record new { file_id = old.file_id }

module _ (hash : ℕ) (visit : FileId → Visit) where
  abbrev pub serve_taken : FileId → Option Queued → State → (State → Outcome Pass) → Outcome Pass
  serve_taken id none s continue = continue s
  serve_taken id (some req) s continue = do
    x ← process_selected (visit id).dispatch req hash s
    after_info (x.0, (visit id).stop) (continue x.1)

module _ (config_mlf_quantum config_waiting_time hash : ℕ) (visit : FileId → Visit) where
  -- The files of a line, by their handles: the line is locked, and keeps its files.
  unfoldable pub mlf_files : List FileId → (shortest_waiting_time : ℕ) → State → Outcome Pass
  unfolding lookup_file mlf_visit process_selected
  mlf_files [] shortest s =
      ok (record { info_list = []; shortest_waiting_time = shortest; state = s })
  mlf_files (id ∷ ids) shortest s =
      let continue : ℕ → State → Outcome Pass = mlf_files ids in
      elim (lookup_file id (row s.hashlist hash)) [
        | none ↦ continue shortest s
        | some f ↦ (do
          x ← mlf_visit config_mlf_quantum config_waiting_time (visit id) f shortest
          serve_taken hash visit id (x.0).1 (change_file hash id (rewritten (x.0).0) s)
              (continue x.1))
      ]

  -- A line without requests is left at once.
  unfoldable pub mlf_line : (shortest_waiting_time : ℕ) → State → Outcome Pass
  unfolding mlf_files
  mlf_line shortest s = elim (get_elem? s.hashlist_reqcounter hash) [
    | none ↦ fault
    | some reqs ↦
        if ltb_ℤ (pos 0) reqs
        then mlf_files (map (λ f. f.file_id) (row s.hashlist hash)) shortest s
        else ok (record { info_list = []; shortest_waiting_time = shortest; state = s })
  ]

-- The variables of the loop that live between its rounds (`MLF_current_hash` and `MLF_lock_tries` are
-- kept between the calls too).
pub record Position : Type 0 where
  pub current_hash : ℕ
  pub lock_tries : List ℕ
  pub processed_requests : Bool
  pub shortest_waiting_time : ℕ

-- The array of tries. It has one place more, which is never set or used.
unfoldable pub mlf_init : (malloc : Bool) → Option (List ℕ)
mlf_init malloc = if malloc then some (replicate hash_entries 0) else none

-- Whether the line is locked, and its tries afterwards: after `max_mlf_lock_tries` failures in a row
-- the loop waits for the lock.
unfoldable pub lock_line : (trylock : Bool) → (tries : ℕ) → Bool × ℕ
lock_line true tries = (true, 0)
lock_line false tries = if leb max_mlf_lock_tries tries then (true, 0) else (false, tries + 1)

unfoldable pub next_hash : ℕ → ℕ
next_hash hash = if leb hash_entries (hash + 1) then 0 else hash + 1

pub record MlfRound : Type 0 where
  pub trylock : Bool
  pub visit : FileId → Visit
  pub has_list_callback : Bool
  pub others : State → State

pub record MlfRun : Type 0 where
  pub callbacks : List Callback
  pub ending : Ending
  pub ret : ℕ
  pub position : Position
  pub state : State

abbrev pub after_calls : List Callback → Outcome MlfRun → Outcome MlfRun
after_calls cs fault = fault
after_calls cs (ok r) = ok (record r { callbacks = cs ++ r.callbacks })

abbrev pub has_some {ℓ} : {A : Type ℓ} → List A → Bool
has_some [] = false
has_some (x ∷ xs) = true

-- What a round did: the callbacks, `mlf_stop`, and the variables and the state after it.
pub record Served : Type 0 where
  pub callbacks : List Callback
  pub mlf_stop : Bool
  pub position : Position
  pub state : State

module _ (config_mlf_quantum config_waiting_time : ℕ) where
  -- The line of the round, if it was locked.
  unfoldable pub mlf_round : MlfRound → Position → State → Outcome Served
  unfolding lock_line mlf_line call_step2_for_info_list
  mlf_round r p s = elim (get_elem? p.lock_tries p.current_hash) [
    | none ↦ fault
    | some tries ↦
        let (locked, tries') = lock_line r.trylock tries in
        let p1 : Position = record p { lock_tries = set p.lock_tries p.current_hash tries' } in
        if locked
        then (do
          x ←
              mlf_line config_mlf_quantum config_waiting_time p.current_hash r.visit
                p.shortest_waiting_time s
          c ← call_step2_for_info_list r.has_list_callback x.info_list
          ok (record {
            callbacks = c.0;
            mlf_stop = c.1;
            position = record p1 {
              processed_requests = p.processed_requests || has_some x.info_list;
              shortest_waiting_time = x.shortest_waiting_time;
            };
            state = r.others x.state;
          }))
        else ok (record { callbacks = []; mlf_stop = false; position = p1; state = r.others s })
  ]

  unfoldable pub mlf_rounds :
      (starting_hash : ℕ) → List MlfRound → (mlf_stop : Bool) → Position → State → Outcome MlfRun
  unfolding mlf_round next_hash
  mlf_rounds starting [] stop p s = ok (record {
    callbacks = [];
    ending = if goes_on stop s then cut else ended;
    ret = 0;
    position = p;
    state = s;
  })
  mlf_rounds starting (r ∷ rs) stop p s =
      let continue : Bool → Position → State → Outcome MlfRun = mlf_rounds starting rs in
      if goes_on stop s
      then (do
        x ← mlf_round r p s
        let next : Position = record (x.position) {
          current_hash = next_hash (x.position).current_hash;
        }
        after_calls x.callbacks (
            if x.mlf_stop
            then continue true x.position x.state
            else if next.current_hash == starting
            then (if next.processed_requests
                then continue false (record next { processed_requests = false }) x.state
                else ok (record {
                  callbacks = [];
                  ending = ended;
                  ret = next.shortest_waiting_time;
                  position = next;
                  state = x.state;
                }))
            else continue false next x.state))
      else ok (record { callbacks = []; ending = ended; ret = 0; position = p; state = s })

  -- `shortest_waiting_time` starts at INT_MAX.
  unfoldable pub mlf :
      List MlfRound → (current_hash : ℕ) → (lock_tries : List ℕ) → State → Outcome MlfRun
  unfolding mlf_rounds
  mlf rounds hash tries s =
      mlf_rounds hash rounds false
        (record {
          current_hash = hash;
          lock_tries = tries;
          processed_requests = false;
          shortest_waiting_time = 2147483647;
        })
        s
