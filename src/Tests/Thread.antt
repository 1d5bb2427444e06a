-- ===== src/Tests/Thread.antt =====
-- A run of the decisions of the AGIOS thread.
use agios.Common.{refl, [], ◌∷◌, false, All}
use agios.Common.Int.{pos}
use agios.AgiosThread.{ThreadConfig, ThreadRound, agios_thread, IsShort, agios_thread-IsShort}

abbrev config : ThreadConfig
config = record {
  is_dynamic = false;
  config_agios_select_algorithm_period = pos 1000;
  config_agios_select_algorithm_min_reqnumber = pos 10;
  config_waiting_time = pos 500;
}

-- Nothing waits; then the scheduler asks for 700 nanoseconds.
abbrev idle : ThreadRound
idle = record {
  agios_processed_reqnb = pos 0;
  elapsed = pos 100;
  elapsed_later = pos 101;
  current_reqnb = pos 0;
  schedule = pos 0;
}

abbrev asked : ThreadRound
asked = record idle { current_reqnb = pos 2; schedule = pos 700 }

agios_thread_example : All IsShort (agios_thread config (idle ∷ asked ∷ []))
agios_thread_example = agios_thread-IsShort config (idle ∷ asked ∷ []) refl
