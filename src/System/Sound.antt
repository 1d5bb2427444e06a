-- ===== src/System/Sound.antt =====
-- Every reachable state is sound.
use agios.Common.{
  ℕ, ◌+◌, ◌≤◌, ◌≡◌, ◌≢◌, refl, sym, ap, ◌∙◌, List, [], ◌∷◌, Bool, true, arith, total, length,
}
use mathlib.Core.Path.{subst}
use agios.Common.Int.{ℤ, pos, ◌+ℤ◌, ◌-ℤ◌}
use agios.Request.{FileId, Request, RequestType, Fields}
use agios.State.{State, Memory, Context, ok}
use agios.Process.{Callback}
use agios.Schedulers.{noop_scheduler}
use agios.Aggregation.Contents.{requests}
use agios.AddRequest.{Dispatch, agios_add_request}
use agios.AddRequest.Table.{agios_add_request-table}
use agios.Hashtable.Quiet.{Steady}
use agios.DataStructures.{StartMemory, allocate_data_structures, reset_all_statistics}
use agios.DataStructures.Start.{
  length-reset, allocate_data_structures-IsFresh, reset_all_statistics-IsOrdered,
}
use agios.Scheduling.GiveBack.{HasMemory}
use agios.Sjf.Rounds.{sjf_serve}
use agios.Sjf.Serve.{served_lem}
use agios.System.Release.{agios_release_request-Steady}
use agios.System.{
  CanAllocate, CanStart, Step, add, release, serve, reset, Reachable, started, stepped, one,
  IsSound,
}

total-one : (rs : List Request) → total one rs ≡ length rs
total-one [] = refl
total-one (r ∷ rs) = omega (arith, total-one rs)

counted_up : (k : ℤ) (m n : ℕ) → k ≡ pos m → n ≡ m + 1 → k +ℤ pos 1 ≡ pos n
unfolding ◌+ℤ◌
counted_up k m n p q = ground arith

counted_down : (k : ℤ) (m n d : ℕ) → k ≡ pos m → n + d ≡ m → k -ℤ pos d ≡ pos n
unfolding ◌-ℤ◌
counted_down k m n d p q = ground arith

-- What the algorithm must be for the theorem: one that uses the hash table.
abbrev pub UsesTable : Context → Type 0
UsesTable ctx =
    (ctx.needs_hashtable ≡ true) × (ctx.current_alg ≢ noop_scheduler) × (1 ≤ ctx.max_aggreg_size)

module _ (ctx : Context) (uses : UsesTable ctx) where
  add-IsSound :
      (mem : Memory) (env : Dispatch) (f : Fields) (s s' : State) (b : Bool) (cs : List Callback)
      → CanAllocate mem
      → agios_add_request ctx mem env f s ≡ ok (b, cs, s')
      → IsSound ctx s
      → IsSound ctx s'
  add-IsSound mem env f s s' b cs memory e h =
      let a =
        agios_add_request-table one ctx mem env f s memory (uses.0, uses.1) uses.2 h.table.0
          h.table.1 in
      let same : a.0 ≡ s' = cc (a.1, e) in
      subst (IsSound ctx) same (record {
        table = (a.4, a.3);
        timeline = a.5 ∙ h.timeline;
        current_reqnb = a.6 ∙ counted_up s.current_reqnb _ _ h.current_reqnb a.2;
      })

  start-IsSound :
      (mem : StartMemory) (n : ℕ) (s s' : State)
      → CanStart mem
      → allocate_data_structures mem n s ≡ (true, s')
      → IsSound ctx s'
  start-IsSound mem n s s' memory e =
      let a = allocate_data_structures-IsFresh mem n ctx s memory in
      let same : a.0 ≡ s' = cc (a.1, e) in
      subst (IsSound ctx) same (record {
        table = a.2.table;
        timeline = a.2.timeline;
        current_reqnb = a.2.current_reqnb ∙ ap pos (sym (a.2.empty one));
      })

  reset-IsSound : (s : State) → IsSound ctx s → IsSound ctx (reset_all_statistics s)
  reset-IsSound s h =
      let r = reset_all_statistics-IsOrdered one ctx.max_aggreg_size s h.table.1 in
      record {
        table = (length-reset s ∙ h.table.0, r.0);
        timeline = r.2 ∙ h.timeline;
        current_reqnb = r.3 ∙ h.current_reqnb ∙ ap pos (sym (r.1));
      }

  steady-IsSound :
      (s s' : State) → Steady one ctx.max_aggreg_size s s' → IsSound ctx s → IsSound ctx s'
  steady-IsSound s s' k h = record {
    table = (k.shape ∙ h.table.0, k.ordered);
    timeline = k.timeline ∙ h.timeline;
    current_reqnb = k.current_reqnb ∙ h.current_reqnb ∙ ap pos (sym (k.held));
  }

  serve-IsSound :
      (env : Dispatch) (hash : ℕ) (id : FileId) (type : RequestType) (s s' : State)
      (cs : List Callback)
      → HasMemory env
      → sjf_serve env hash id type s ≡ ok (cs, s')
      → IsSound ctx s
      → IsSound ctx s'
  serve-IsSound env hash id type s s' cs memory e h =
      let (req, fits, a) =
        served_lem one ctx.max_aggreg_size env memory hash id type s s' cs e h.table.1 in
      let counted : total one (requests req) ≡ req.reqnb = total-one (requests req) ∙ fits.0 in
      record {
        table = (a.shape ∙ h.table.0, a.ordered);
        timeline = a.timeline ∙ h.timeline;
        current_reqnb =
            a.current_reqnb
            ∙ counted_down s.current_reqnb _ _ req.reqnb h.current_reqnb
                (omega (arith, a.held, counted));
      }

  Step-IsSound : (s s' : State) → Step ctx s s' → IsSound ctx s → IsSound ctx s'
  Step-IsSound s s' (add mem env f _ _ b cs memory e) h = add-IsSound mem env f s s' b cs memory e h
  Step-IsSound s s' (release now id type len offset _ _ b e) h =
      steady-IsSound s s'
        (agios_release_request-Steady one ctx.max_aggreg_size now id type len offset s s' b e
          h.table.1)
        h
  Step-IsSound s s' (serve env hash id type _ _ cs memory e) h =
      serve-IsSound env hash id type s s' cs memory e h
  Step-IsSound s _ (reset _) h = reset-IsSound s h

  -- In every state that the library can reach after its start, by additions, releases, resets of the
  -- statistics and by serving any queues, in any order and with memory, with an algorithm that uses
  -- the hash table: the table has all its lines and is in order, with no virtual request larger than
  -- `max_aggreg_size`, the timeline is empty, and `current_reqnb` is the number of requests that wait.
  pub Reachable-IsSound : (s : State) → Reachable ctx s → IsSound ctx s
  Reachable-IsSound s (started mem n s0 _ memory e) = start-IsSound mem n s0 s memory e
  Reachable-IsSound s (stepped s0 _ r step) = Step-IsSound s0 s step (Reachable-IsSound s0 r)
