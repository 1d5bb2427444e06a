-- ===== src/Mlf/Line.antt =====
-- A pass of MLF over the files of a line (src/MLF.c).
use agios.Common.{
  ℕ, ◌≡◌, ◌⊎◌, refl, ap, ◌∙◌, inl, inr, List, [], ◌∷◌, map, Option, none, some, Bool, arith, All,
  Option-cases,
}
use agios.Request.{FileId, Request, Queued, File}
use agios.Lines.{lookup_file}
use agios.State.{State, Outcome, ok, row, change_file}
use agios.Process.{ProcessingInfo}
use agios.Aggregation.Contents.{requests, weight}
use agios.Aggregation.Insertion.{Fits}
use agios.Hashtable.Weight.{InFile, change_at-All, table_weight-change}
use agios.Hashtable.Insert.{change_at-Rises}
use agios.Hashtable.Enter.{IsOrdered, length-change_at}
use agios.Hashtable.Take.{Leaves, lookup-within}
use agios.Hashtable.Writes.{IsTimed, Writes-IsTimed, untouched, dispatch-Writes, postprocess-Writes}
use agios.Scheduling.GiveBack.{HasMemory}
use agios.Waiting.Steps.{IsFilled}
use agios.Waiting.Serve.{
  process_selected-eq, after_selected, after_selected-Same, info_of, info_of-IsFilled,
}
use agios.Mlf.{mlf_select_request}
use agios.Mlf.Rounds.{Visit, Pass, rewritten, serve_taken, take_selected, mlf_visit, mlf_files}
use agios.Mlf.Visits.{IgnoresFactors, select-Keeps}
use agios.Mlf.Taking.{Takes, TakenFits, taken_weight, update_waiting-Keeps, take_selected-Takes}

abbrev pub taken_list : Option Queued → List Queued
taken_list none = []
taken_list (some req) = req ∷ []

-- The structures of the visits of `ids`, in this order: at most one from each visit, with what that
-- visit says of stopping.
abbrev pub FromVisits : (FileId → Visit) → List FileId → List (ProcessingInfo × Bool) → Type 0
FromVisits visit [] infos = infos ≡ []
FromVisits visit (id ∷ ids) infos =
    FromVisits visit ids infos
    ⊎ ((info : ProcessingInfo) × (rest : List (ProcessingInfo × Bool)) × (infos
          ≡ (info, (visit id).stop) ∷ rest)
        × FromVisits visit ids rest)

-- The pass over the files `ids` took the requests `taken`.
pub record Passes (w : Request → ℕ) (max : ℕ) (visit : FileId → Visit) (ids : List FileId)
    (s : State) (taken : List Queued) (p : Pass) : Type 0 where
  pub infos : map (λ (i : ProcessingInfo × Bool). i.0) p.info_list ≡ map info_of taken
  pub filled : All (λ (i : ProcessingInfo × Bool). IsFilled i.0) p.info_list
  pub left : Leaves w max (weight w taken) s.hashlist p.state.hashlist
  pub timed : All (All IsTimed) p.state.hashlist
  pub chosen : FromVisits visit ids p.info_list

module _ (w : Request → ℕ) (max : ℕ) (ignores : IgnoresFactors w) (quantum waiting : ℕ) where
  mlf_visit-Takes :
      (v : Visit) (f : File) (shortest : ℕ)
      → InFile (Fits max) f
      → IsTimed f
      → (g : File) × (taken : Option Queued) × (n : ℕ) × (mlf_visit quantum waiting v f shortest
          ≡ ok ((g, taken), n))
        × Takes w max f g taken
  unfolding mlf_visit
  mlf_visit-Takes v f shortest h t =
      let (f1, n, eq, k1) = update_waiting-Keeps w max v.updated f shortest t in
      let k2 = select-Keeps w max ignores quantum waiting v.selected f1 in
      let sel = mlf_select_request quantum waiting v.selected f1 in
      let out =
        take_selected-Takes w max sel.0 sel.1 (k2.fits (k1.fits h)) (k2.timed (k1.timed t)) in
      (
        (take_selected sel).0,
        (take_selected sel).1,
        n,
        rw eq refl,
        record {
          handle = out.handle ∙ k2.handle ∙ k1.handle;
          held = omega (arith, k1.held, k2.held, out.held);
          fits = out.fits;
          taken_fits = out.taken_fits;
          timed = out.timed;
        },
      )

module _ (w : Request → ℕ) (max : ℕ) where
  -- The table in which a file was rewritten.
  rewriting :
      (hash : ℕ) (id : FileId) (f g : File) (taken : Option Queued) (s : State)
      → lookup_file id (row s.hashlist hash) ≡ some f
      → Takes w max f g taken
      → IsOrdered max s.hashlist
      → All (All IsTimed) s.hashlist
      → Leaves w max
          (taken_weight w taken)
          s.hashlist
          (change_file hash id (rewritten g) s).hashlist
        × All (All IsTimed) (change_file hash id (rewritten g) s).hashlist
  rewriting hash id f g taken s found t o timed =
      let moved = table_weight-change w id (rewritten g) s.hashlist hash f found in
      (
        record {
          held = omega (arith, moved, t.held);
          ordered = record {
            rises = change_at-Rises id (rewritten g) (λ f. refl) s.hashlist hash o.rises;
            fits =
                change_at-All (InFile (Fits max)) id (rewritten g) (λ old _. t.fits) s.hashlist hash
                  o.fits;
          };
          shape = length-change_at _ s.hashlist hash;
        },
        change_at-All IsTimed id (rewritten g) (λ old _. t.timed) s.hashlist hash timed,
      )

module _ (w : Request → ℕ) (max : ℕ) (ignores : IgnoresFactors w) (quantum waiting hash : ℕ)
    (visit : FileId → Visit) (memory : (id : FileId) → HasMemory (visit id).dispatch) where
  abbrev PassesFrom : List FileId → State → Outcome Pass → Type 0
  PassesFrom ids s o =
      (taken : List Queued) × (p : Pass) × (o ≡ ok p) × Passes w max visit ids s taken p

  serve_taken-Passes :
      (ids : List FileId) (id : FileId) (taken : Option Queued) (s s1 : State)
      (continue : State → Outcome Pass)
      → Leaves w max (taken_weight w taken) s.hashlist s1.hashlist
      → All (All IsTimed) s1.hashlist
      → TakenFits max taken
      → ((s2 : State)
          → IsOrdered max s2.hashlist
          → All (All IsTimed) s2.hashlist
          → PassesFrom ids s2 (continue s2))
      → PassesFrom (id ∷ ids) s (serve_taken hash visit id taken s1 continue)
  serve_taken-Passes ids id none s s1 continue l t fits rest =
      let (taken, p, eq, k) = rest s1 l.ordered t in
      (
        taken,
        p,
        eq,
        record {
          infos = k.infos;
          filled = k.filled;
          left = record {
            held = omega (arith, l.held, (k.left).held);
            ordered = (k.left).ordered;
            shape = (k.left).shape ∙ l.shape;
          };
          timed = k.timed;
          chosen = inl k.chosen;
        },
      )
  serve_taken-Passes ids id (some req) s s1 continue l t fits rest =
      let env = (visit id).dispatch in
      let s2 = after_selected env req hash s1 in
      let same = after_selected-Same w max env req hash s1 l.ordered in
      let writes =
        postprocess-Writes hash s1.hashlist req _
          (dispatch-Writes hash s1.hashlist req (requests req) env.this_time s1 untouched) in
      let (taken, p, eq, k) = rest s2 same.ordered (Writes-IsTimed writes t) in
      (
        req ∷ taken,
        record p { info_list = (info_of req, (visit id).stop) ∷ p.info_list },
        rw (process_selected-eq env (memory id) req hash fits.0 s1, eq) refl,
        record {
          infos = ap (◌∷◌ (info_of req)) k.infos;
          filled = (info_of-IsFilled req fits.0, k.filled);
          left = record {
            held = omega (arith, l.held, same.held, (k.left).held);
            ordered = (k.left).ordered;
            shape = (k.left).shape ∙ same.shape ∙ l.shape;
          };
          timed = k.timed;
          chosen = inr (info_of req, p.info_list, refl, k.chosen);
        },
      )

  -- The pass over files by their handles.
  pub mlf_files_lem :
      (ids : List FileId) (shortest : ℕ) (s : State)
      → IsOrdered max s.hashlist
      → All (All IsTimed) s.hashlist
      → PassesFrom ids s (mlf_files quantum waiting hash visit ids shortest s)
  unfolding mlf_files
  mlf_files_lem [] shortest s o t = (
    [],
    record { info_list = []; shortest_waiting_time = shortest; state = s },
    refl,
    record {
      infos = refl;
      filled = tt;
      left = record { held = omega arith; ordered = o; shape = refl };
      timed = t;
      chosen = refl;
    },
  )
  mlf_files_lem (id ∷ ids) shortest s o t =
      elim (Option-cases (lookup_file id (row s.hashlist hash))) [
        | inl gone ↦
            let (taken, p, eq, k) = mlf_files_lem ids shortest s o t in
            (
              taken,
              p,
              rw (mlf_files, gone) eq,
              record {
                infos = k.infos;
                filled = k.filled;
                left = k.left;
                timed = k.timed;
                chosen = inl k.chosen;
              },
            )
        | inr (f, found) ↦
            let fits = lookup-within id s.hashlist hash f found (InFile (Fits max)) o.fits in
            let timed = lookup-within id s.hashlist hash f found IsTimed t in
            let (g, taken, n, eq, out) =
              mlf_visit-Takes w max ignores quantum waiting (visit id) f shortest fits timed in
            let (l, t1) = rewriting w max hash id f g taken s found out o t in
            rw (mlf_files, found, eq)
              (serve_taken-Passes ids id taken s _ (mlf_files quantum waiting hash visit ids n) l t1
                out.taken_fits (λ s2 o2 t2. mlf_files_lem ids n s2 o2 t2))
      ]
