-- ===== src/Mlf/Turn.antt =====
-- A round of MLF's loop over a line (src/MLF.c): the lock, the pass over the files, and step 2 for what
-- was taken.
use agios.Common.{
  ℕ, ◌+◌, ◌≤◌, ◌<◌, ◌≡◌, refl, inl, inr, List, [], ◌∷◌, map, Bool, true, false, ◌||◌, leb, arith,
  length, set, Bool-cases,
}
use agios.Request.{Request, Queued, File}
use agios.State.{State, row}
use agios.Process.Delivery.{delivered}
use agios.Waiting.Steps.{until_stop, stops}
use agios.Mlf.Rounds.{Pass, Position, MlfRound, Served, has_some, max_mlf_lock_tries, lock_line}
use agios.Mlf.Line.{Passes}

-- The visits of one line: for each, what `pthread_mutex_trylock` says, and whether it was locked.
unfoldable pub locked_any : List Bool → (tries : ℕ) → Bool
unfolding lock_line
locked_any [] tries = false
locked_any (b ∷ bs) tries = (lock_line b tries).0 || locked_any bs (lock_line b tries).1

locks_after :
    (trylocks : List Bool) (tries : ℕ)
    → max_mlf_lock_tries < tries + length trylocks
    → tries ≤ max_mlf_lock_tries
    → locked_any trylocks tries ≡ true
unfolding locked_any
locks_after [] tries h k = absurd (omega arith)
locks_after (true ∷ bs) tries h k = refl
locks_after (false ∷ bs) tries h k = elim (Bool-cases (leb max_mlf_lock_tries tries)) [
  | inl enough ↦ rw enough refl
  | inr fewer ↦ rw fewer (locks_after bs (tries + 1) (omega arith) (ground arith))
]

-- However often the lock of a line is taken by others, among any three visits of the line in a row at
-- least one gets it.
pub lock_line_lem :
    (trylocks : List Bool) (tries : ℕ)
    → length trylocks ≡ max_mlf_lock_tries + 1
    → tries ≤ max_mlf_lock_tries
    → locked_any trylocks tries ≡ true
lock_line_lem trylocks tries h k = locks_after trylocks tries (omega arith) k

-- What a round over a locked line has done, with the structures `infos` of the requests `taken`.
pub record IsServed (w : Request → ℕ) (max : ℕ) (r : MlfRound) (p : Position) (s : State)
    (taken : List Queued) (pass : Pass) (x : Served) : Type 0 where
  pub passes :
      Passes w max r.visit
        (map (λ (f : File). f.file_id) (row s.hashlist p.current_hash))
        s
        taken
        pass
  pub given : delivered x.callbacks ≡ until_stop pass.info_list
  pub stopped : x.mlf_stop ≡ stops pass.info_list
  pub after : x.state ≡ r.others pass.state
  pub same_line : x.position.current_hash ≡ p.current_hash
  pub tries_reset : x.position.lock_tries ≡ set p.lock_tries p.current_hash 0
  pub processed : x.position.processed_requests ≡ (p.processed_requests || has_some pass.info_list)
