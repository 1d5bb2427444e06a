-- ===== src/System/Conserves.antt =====
-- Whole runs of the library: the requests that the user handed over, those that were given to the user,
-- and those that wait.
use agios.Common.{ℕ, ◌≡◌, sym, ◌∙◌, List, [], ◌∷◌, ◌++◌, arith, total-append}
use mathlib.Core.Path.{subst}
use agios.State.{State, Context}
use agios.Hashtable.Weight.{table_weight}
use agios.DataStructures.Start.{allocate_data_structures-IsFresh}
use agios.System.{Reachable, started, stepped}
use agios.System.Sound.{UsesTable, Reachable-IsSound}
use agios.System.Refines.{
  SameBag, Event, submitted, given, internal, Allows, submits, gives, rests, waiting, seen,
  Step-refines, total-table_ids, by_id,
}

unfoldable pub submitted_by : Event → List ℕ
submitted_by (submitted id) = id ∷ []
submitted_by (given ids) = []
submitted_by internal = []

unfoldable pub given_by : Event → List ℕ
given_by (submitted id) = []
given_by (given ids) = ids
given_by internal = []

-- The history of a run, the last event first.
unfoldable pub all_submitted : {ctx : Context} {s : State} → Reachable ctx s → List ℕ
unfolding submitted_by seen
all_submitted (started mem n s s' memory e) = []
all_submitted (stepped s s' r step) = submitted_by (seen step) ++ all_submitted r

unfoldable pub all_given : {ctx : Context} {s : State} → Reachable ctx s → List ℕ
unfolding given_by seen
all_given (started mem n s s' memory e) = []
all_given (stepped s s' r step) = given_by (seen step) ++ all_given r

-- One event moves requests between the three bags.
event-balanced :
    (bag bag' sub giv : List ℕ) (ev : Event)
    → Allows bag bag' ev
    → SameBag sub (giv ++ bag)
    → SameBag (submitted_by ev ++ sub) ((given_by ev ++ giv) ++ bag')
unfolding submitted_by given_by
event-balanced bag bag' sub giv _ (submits id h) before v =
    omega (arith, h v, before v, total-append v giv bag, total-append v giv bag')
event-balanced bag bag' sub giv _ (gives ids h) before v = omega (
  arith,
  h v,
  before v,
  total-append v giv bag,
  total-append v ids bag',
  total-append v (ids ++ giv) bag',
  total-append v ids giv,
)
event-balanced bag bag' sub giv _ (rests h) before v =
    omega (arith, h v, before v, total-append v giv bag, total-append v giv bag')

module _ (ctx : Context) (uses : UsesTable ctx) where
  -- In every reachable state, whatever the order of the steps: the requests that were submitted are
  -- those that were given to the user and those that wait, each as often. None is lost, given twice or
  -- made up.
  pub Reachable-balanced :
      {s : State} (r : Reachable ctx s) → SameBag (all_submitted r) (all_given r ++ waiting s)
  unfolding all_submitted all_given
  Reachable-balanced (started mem n s s' memory e) v =
      let a = allocate_data_structures-IsFresh mem n ctx s memory in
      let same : a.0 ≡ s' = cc (a.1, e) in
      let empty : table_weight (by_id v) s'.hashlist ≡ 0 =
        subst (λ (t : State). table_weight (by_id v) t.hashlist ≡ 0) same (a.2.empty (by_id v)) in
      sym (total-table_ids v s'.hashlist ∙ empty)
  Reachable-balanced (stepped s s' r step) v =
      event-balanced (waiting s) (waiting s') (all_submitted r) (all_given r) (seen step)
        (Step-refines ctx uses step (Reachable-IsSound ctx uses s r)) (Reachable-balanced r) v
