-- ===== src/Twins.antt =====
-- `TWINS` (src/TWINS.c): windows of time, in each of which the requests of one queue of
-- `multi_timeline` are processed.
pub mod Window
use agios.Common.{
  ℕ, ◌+◌, List, [], ◌∷◌, ◌++◌, Bool, true, false, none, some, leb, get_elem?, set, length,
  if◌then◌else◌,
}
use agios.Common.Int.{ℤ, pos, ◌-ℤ◌, ltb_ℤ}
use agios.CommonFunctions.{get_nanoelapsed}
use agios.Request.{Queued, Timespec}
use agios.Hash.{get_hashtable_position}
use agios.State.{State, Outcome, ok, fault, ◌>>=◌}
use agios.Process.{Callback}
use agios.AddRequest.{give_back}
use agios.Scheduling.{Round, Ending, ended, cut, goes_on}

-- The variables of the algorithm that live on between two calls.
pub record Twins : Type 0 where
  pub g_twins_first_req : Bool
  pub g_current_twins_server : ℕ
  pub g_window_start : Timespec

-- A round, with what the clock shows where the window is checked and where a new one starts.
pub record TwinsRound : Type 0 where
  pub round : Round
  pub checked : Timespec
  pub started : Timespec

pub record TwinsRun : Type 0 where
  pub callbacks : List Callback
  pub ending : Ending
  pub twins_stop : Bool
  pub twins : Twins
  pub state : State

-- `TWINS_init`; the start of the window stays as it was.
unfoldable pub twins_init : Twins → Twins
twins_init v = record v { g_twins_first_req = true; g_current_twins_server = 0 }

abbrev pub is_over : (config_twins_window : ℕ) → Timespec → Twins → Bool
is_over window now v =
    if ltb_ℤ (get_nanoelapsed now v.g_window_start) (pos window) then false else true

-- The next queue, in turn.
abbrev pub next_server : (server multi_timeline_size : ℕ) → ℕ
next_server server size = if leb size (server + 1) then 0 else server + 1

-- The first window, the next one, or still the same.
unfoldable pub twins_window :
    (config_twins_window multi_timeline_size : ℕ) → TwinsRound → Twins → Twins
unfolding get_nanoelapsed
twins_window window size r v =
    if v.g_twins_first_req
    then record {
      g_twins_first_req = false;
      g_current_twins_server = 0;
      g_window_start = r.started;
    }
    else if is_over window r.checked v
    then record v {
      g_current_twins_server = next_server v.g_current_twins_server size;
      g_window_start = r.started;
    }
    else v

abbrev pub after_twins : List Callback → Outcome TwinsRun → Outcome TwinsRun
after_twins cs fault = fault
after_twins cs (ok r) = ok (record r { callbacks = cs ++ r.callbacks })

abbrev pub twins_end : (stop : Bool) → Ending → Twins → State → Outcome TwinsRun
twins_end stop ending v s =
    ok (record { callbacks = []; ending = ending; twins_stop = stop; twins = v; state = s })

unfoldable pub twins_loop :
    (config_twins_window : ℕ) → List TwinsRound → (stop : Bool) → Twins → State → Outcome TwinsRun
unfolding twins_window give_back
twins_loop window [] stop v s = twins_end stop (if goes_on stop s then cut else ended) v s
twins_loop window (r ∷ rs) stop v s =
    if goes_on stop s
    then (let v' : Twins = twins_window window (length s.multi_timeline) r v in
        elim (get_elem? s.multi_timeline v'.g_current_twins_server) [
          | none ↦ fault
          | some queue ↦ elim queue [
            | [] ↦ twins_end stop ended v' s
            | req ∷ rest ↦ do
              x ← give_back (r.round).dispatch req (get_hashtable_position req.file_id) (record s {
                multi_timeline = set s.multi_timeline v'.g_current_twins_server rest;
              })
              after_twins x.0 (twins_loop window rs (r.round).stop v' ((r.round).others x.1))
          ]
        ])
    else twins_end stop ended v s

-- How long the thread may sleep.
abbrev pub twins_timeout : (config_twins_window : ℕ) → Timespec → TwinsRun → ℤ
twins_timeout window now r =
    if r.twins_stop then pos 0 else pos window -ℤ get_nanoelapsed now r.twins.g_window_start

-- `left` is what the clock shows at the end.
unfoldable pub twins :
    (config_twins_window : ℕ)
    → List TwinsRound
    → (left : Timespec) → Twins
    → State
    → Outcome (ℤ × TwinsRun)
unfolding twins_loop
twins window rounds left v s = do
  r ← twins_loop window rounds false v s
  ok (twins_timeout window left r, r)
