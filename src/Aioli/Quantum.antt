-- ===== src/Aioli/Quantum.antt =====
-- The bounds of a quantum (`adjust_quantum`, src/aIOLi.c).
use agios.Common.{ℕ, ◌*◌, ◌≤◌, ◌≡◌, ◌⊎◌, arith}
use agios.Schedulers.{max_aggreg_size_default}
use agios.Aioli.{adjust_quantum}

-- No queue starves and no quantum is large: the next quantum is at least 1, if the configured one is,
-- and it is the configured one or at most 16 and at most twice the last one.
pub adjust_quantum_bounds :
    (config used quantum : ℕ)
    → 1 ≤ config
    → 1 ≤ quantum
    → (1 ≤ adjust_quantum config used quantum)
      × ((adjust_quantum config used quantum ≡ config)
          ⊎ ((adjust_quantum config used quantum ≤ max_aggreg_size_default)
              × (adjust_quantum config used quantum ≤ 2 * quantum)))
unfolding adjust_quantum
adjust_quantum_bounds config used quantum hc hq = ground arith
