-- ===== src/Release/Dispatched.antt =====
-- The search of `agios_release_request` (src/agios_release_request.c) in a dispatch queue.
use agios.Common.{
  ℕ, ◌+◌, ◌≡◌, refl, inl, inr, List, [], ◌∷◌, Option, none, some, true, false, arith, total, All,
  Bool-cases,
}
use agios.Request.{Request}
use agios.Release.{is_request, find_dispatched, remove_dispatched}

-- What a release takes from the dispatch queue `queue`, which is `queue'` afterwards.
abbrev pub Released :
    (w : Request → ℕ) (len offset : ℕ) → (queue queue' : List Request) → Option Request → Type 0
Released w len offset queue queue' none =
    (queue' ≡ queue) × All (λ r. is_request len offset r ≡ false) queue
Released w len offset queue queue' (some r) =
    (is_request len offset r ≡ true) × (total w queue ≡ w r + total w queue')

-- The request that is found is the one that is removed: with it, the queue loses exactly one request,
-- one of the offset and length that were given. Nothing is found only if there is no such request, and
-- then the queue stays.
pub find_dispatched_lem :
    (w : Request → ℕ) (len offset : ℕ) (queue : List Request)
    → Released w len offset queue
        (remove_dispatched len offset queue)
        (find_dispatched len offset queue)
unfolding find_dispatched remove_dispatched
find_dispatched_lem w len offset [] = (refl, tt)
find_dispatched_lem w len offset (r ∷ rs) = elim (Bool-cases (is_request len offset r)) [
  | inl hit ↦ rw hit (hit, refl)
  | inr miss ↦ rw miss (
      later r rs (remove_dispatched len offset rs) (find_dispatched len offset rs) miss
        (find_dispatched_lem w len offset rs))
]
  where
    later :
        (r : Request) (rs rs' : List Request) (o : Option Request)
        → is_request len offset r ≡ false
        → Released w len offset rs rs' o
        → Released w len offset (r ∷ rs) (r ∷ rs') o
    later r rs rs' none miss h = (rw (h.0) refl, (miss, h.1))
    later r rs rs' (some x) miss h = (h.0, omega (arith, h.1))
