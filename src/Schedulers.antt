-- ===== src/Schedulers.antt =====
-- The table of scheduling algorithms of src/scheduling_algorithms.c and .h, and its look-ups.
pub mod Rows
use mathlib.Core.Path.{subst}
use agios.Common.{
  ℕ, zero, suc, ◌+◌, ◌≡◌, refl, List, [], ◌∷◌, Option, none, some, Bool, true, false, arith, leb,
  if◌then◌else◌, get_elem?, set, All,
}
use agios.Common.Int.{ℤ, pos, negsuc}
use agios.Common.Text.{codes, same_string, strcmp}

abbrev pub max_aggreg_size_default : ℕ
max_aggreg_size_default = 16

-- The functions that the table points at.
pub data InitFunction : Type 0 where
  mlf_init twins_init wfq_init : InitFunction

pub data ScheduleFunction : Type 0 where
  mlf timeorder sjf aioli sw noop twins wfq : ScheduleFunction

pub data ExitFunction : Type 0 where
  mlf_exit twins_exit wfq_exit : ExitFunction

pub record Scheduler : Type 0 where
  pub name : List ℕ
  pub index : ℕ
  pub init : Option InitFunction
  pub schedule : ScheduleFunction
  pub exit : Option ExitFunction
  pub max_aggreg_size : ℕ
  pub needs_hashtable : Bool
  pub can_be_dynamically_selected : Bool
  pub is_dynamic : Bool

abbrev pub mlf_scheduler : ℕ
mlf_scheduler = 0

abbrev pub toagg_scheduler : ℕ
toagg_scheduler = 1

abbrev pub sjf_scheduler : ℕ
sjf_scheduler = 2

abbrev pub aioli_scheduler : ℕ
aioli_scheduler = 3

abbrev pub to_scheduler : ℕ
to_scheduler = 4

abbrev pub sw_scheduler : ℕ
sw_scheduler = 5

abbrev pub noop_scheduler : ℕ
noop_scheduler = 6

abbrev pub twins_scheduler : ℕ
twins_scheduler = 7

abbrev pub wfq_scheduler : ℕ
wfq_scheduler = 8

abbrev pub io_scheduler_count : ℕ
io_scheduler_count = 9

-- `select_algorithm` is NULL in every entry, and is left out.
unfoldable pub io_schedulers : List Scheduler
io_schedulers =
    record {
      name = codes "MLF";
      index = mlf_scheduler;
      init = some mlf_init;
      schedule = mlf;
      exit = some mlf_exit;
      max_aggreg_size = max_aggreg_size_default;
      needs_hashtable = true;
      can_be_dynamically_selected = true;
      is_dynamic = false;
    }
    ∷ record {
      name = codes "TO-agg";
      index = toagg_scheduler;
      init = none;
      schedule = timeorder;
      exit = none;
      max_aggreg_size = max_aggreg_size_default;
      needs_hashtable = false;
      can_be_dynamically_selected = true;
      is_dynamic = false;
    }
    ∷ record {
      name = codes "SJF";
      index = sjf_scheduler;
      init = none;
      schedule = sjf;
      exit = none;
      max_aggreg_size = max_aggreg_size_default;
      needs_hashtable = true;
      can_be_dynamically_selected = true;
      is_dynamic = false;
    }
    ∷ record {
      name = codes "aIOLi";
      index = aioli_scheduler;
      init = none;
      schedule = aioli;
      exit = none;
      max_aggreg_size = max_aggreg_size_default;
      needs_hashtable = true;
      can_be_dynamically_selected = false;
      is_dynamic = false;
    }
    ∷ record {
      name = codes "TO";
      index = to_scheduler;
      init = none;
      schedule = timeorder;
      exit = none;
      max_aggreg_size = 1;
      needs_hashtable = false;
      can_be_dynamically_selected = true;
      is_dynamic = false;
    }
    ∷ record {
      name = codes "SW";
      index = sw_scheduler;
      init = none;
      schedule = sw;
      exit = none;
      max_aggreg_size = 1;
      needs_hashtable = false;
      can_be_dynamically_selected = false;
      is_dynamic = false;
    }
    ∷ record {
      name = codes "NOOP";
      index = noop_scheduler;
      init = none;
      schedule = noop;
      exit = none;
      max_aggreg_size = 1;
      needs_hashtable = false;
      can_be_dynamically_selected = true;
      is_dynamic = false;
    }
    ∷ record {
      name = codes "TWINS";
      index = twins_scheduler;
      init = some twins_init;
      schedule = twins;
      exit = some twins_exit;
      max_aggreg_size = 1;
      needs_hashtable = false;
      can_be_dynamically_selected = false;
      is_dynamic = false;
    }
    ∷ record {
      name = codes "WFQ";
      index = wfq_scheduler;
      init = some wfq_init;
      schedule = wfq;
      exit = some wfq_exit;
      max_aggreg_size = 1;
      needs_hashtable = false;
      can_be_dynamically_selected = false;
      is_dynamic = false;
    }
    ∷ []

-- The table can be changed, so it is an argument of the look-ups.
pub enable_sw : List Scheduler → List Scheduler
enable_sw table = elim (get_elem? table sw_scheduler) [
  | none ↦ table
  | some s ↦ set table sw_scheduler (record s { can_be_dynamically_selected = true })
]

unfoldable pub find_io_scheduler : List Scheduler → ℤ → Option Scheduler
find_io_scheduler table (negsuc n) = none
find_io_scheduler table (pos n) = if leb io_scheduler_count n then none else get_elem? table n

-- What to do with a scheduler that was found: run its `init`, if it has one, which may fail.
abbrev after_init : (InitFunction → Bool) → Scheduler → Option Scheduler
after_init runs s = elim s.init [ none ↦ some s | some f ↦ if runs f then some s else none ]

abbrev then_init : (InitFunction → Bool) → Option Scheduler → Option Scheduler
then_init runs none = none
then_init runs (some s) = after_init runs s

-- `runs` says whether an initialization function succeeds.
unfoldable pub initialize_scheduler :
    List Scheduler → (runs : InitFunction → Bool) → ℤ → Option Scheduler
unfolding find_io_scheduler
initialize_scheduler table runs (negsuc n) = none
initialize_scheduler table runs (pos n) =
    if leb io_scheduler_count n then none else then_init runs (get_elem? table n)

-- The loop over the names, from index `i`.
pub name_index : List ℕ → ℕ → List Scheduler → Option ℕ
name_index alg i [] = none
name_index alg i (s ∷ ss) = if same_string alg s.name then some i else name_index alg (i + 1) ss

-- The result, and what `*index` holds afterwards: SJF if there is no such name.
unfoldable pub get_algorithm_from_string : List Scheduler → List ℕ → Bool × ℕ
unfolding name_index
get_algorithm_from_string table alg = elim (name_index alg 0 table) [
  | none ↦ (false, sjf_scheduler)
  | some i ↦ (true, i)
]

unfoldable pub get_algorithm_name_from_index : List Scheduler → ℤ → Option (List ℕ)
get_algorithm_name_from_index table (negsuc n) = none
get_algorithm_name_from_index table (pos n) =
    if leb io_scheduler_count n
    then none
    else elim (get_elem? table n) [ none ↦ none | some s ↦ some s.name ]
