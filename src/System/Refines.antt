-- ===== src/System/Refines.antt =====
-- The library against its contract: a server that holds a bag of requests. A bag is a list of
-- identifiers, up to the order of its elements.
use agios.Common.{ℕ, ◌+◌, ◌≡◌, refl, sym, ap, ◌∙◌, List, [], ◌∷◌, ◌++◌, arith, total, total-append}
use mathlib.Core.Path.{subst}
use agios.Request.{Request, Fields, Queued, File, fill_request}
use agios.State.{State, Context}
use agios.Process.Delivery.{delivered, user_ids_of}
use agios.Aggregation.Contents.{requests, weight}
use agios.Hashtable.Weight.{line_weight, table_weight}
use agios.Sjf.Serve.{served_lem}
use agios.AddRequest.Table.{agios_add_request-table}
use agios.DataStructures.Start.{reset_all_statistics-IsOrdered}
use agios.System.Release.{agios_release_request-Steady}
use agios.System.{Step, add, release, serve, reset, IsSound}
use agios.System.Sound.{UsesTable}

abbrev pub SameBag : List ℕ → List ℕ → Type 0
SameBag xs ys = (v : ℕ → ℕ) → total v xs ≡ total v ys

-- What the contract lets happen: a request is taken over, some are given back, or nothing is seen.
pub data Event : Type 0 where
  submitted : ℕ → Event
  given : List ℕ → Event
  internal : Event

pub data Allows (bag bag' : List ℕ) : Event → Type 0 where
  submits : (id : ℕ) → SameBag bag' (id ∷ bag) → Allows bag bag' (submitted id)
  gives : (ids : List ℕ) → SameBag bag (ids ++ bag') → Allows bag bag' (given ids)
  rests : SameBag bag bag' → Allows bag bag' internal

-- The identifiers of the requests that wait in the table.
unfoldable pub ids_in : List Queued → List ℕ
ids_in [] = []
ids_in (q ∷ qs) = user_ids_of (requests q) ++ ids_in qs

unfoldable pub line_ids : List File → List ℕ
unfolding ids_in
line_ids [] = []
line_ids (f ∷ fs) = (ids_in (f.read_queue).list ++ ids_in (f.write_queue).list) ++ line_ids fs

unfoldable pub table_ids : List (List File) → List ℕ
unfolding line_ids
table_ids [] = []
table_ids (l ∷ ls) = line_ids l ++ table_ids ls

abbrev pub waiting : State → List ℕ
waiting s = table_ids s.hashlist

-- What the user sees of a step.
unfoldable pub seen : {ctx : Context} {s s' : State} → Step ctx s s' → Event
seen (add mem env f s s' b cs memory e) = submitted f.identifier
seen (release now id type len offset s s' b e) = internal
seen (serve env hash id type s s' cs memory e) = given (delivered cs)
seen (reset s) = internal

abbrev pub by_id : (ℕ → ℕ) → Request → ℕ
by_id v r = v r.user_id

module _ (v : ℕ → ℕ) where
  total-user_ids : (rs : List Request) → total v (user_ids_of rs) ≡ total (by_id v) rs
  total-user_ids [] = refl
  total-user_ids (r ∷ rs) = omega (arith, total-user_ids rs)

  total-ids_in : (qs : List Queued) → total v (ids_in qs) ≡ weight (by_id v) qs
  unfolding ids_in
  total-ids_in [] = refl
  total-ids_in (q ∷ qs) = omega (
    arith,
    total-append v (user_ids_of (requests q)) (ids_in qs),
    total-user_ids (requests q),
    total-ids_in qs,
  )

  total-line_ids : (fs : List File) → total v (line_ids fs) ≡ line_weight (by_id v) fs
  unfolding line_ids
  total-line_ids [] = refl
  total-line_ids (f ∷ fs) = omega (
    arith,
    total-append v (ids_in (f.read_queue).list ++ ids_in (f.write_queue).list) (line_ids fs),
    total-append v (ids_in (f.read_queue).list) (ids_in (f.write_queue).list),
    total-ids_in (f.read_queue).list,
    total-ids_in (f.write_queue).list,
    total-line_ids fs,
  )

  pub total-table_ids : (ls : List (List File)) → total v (table_ids ls) ≡ table_weight (by_id v) ls
  unfolding table_ids
  total-table_ids [] = refl
  total-table_ids (l ∷ ls) =
      omega
        (arith, total-append v (line_ids l) (table_ids ls), total-line_ids l, total-table_ids ls)

added_weight :
    (v : ℕ → ℕ) (f : Fields) (s s' : State)
    → table_weight (by_id v) s'.hashlist
      ≡ table_weight (by_id v) s.hashlist + by_id v (fill_request s.g_last_timestamp f).0
    → table_weight (by_id v) s'.hashlist ≡ table_weight (by_id v) s.hashlist + v f.identifier
unfolding fill_request
added_weight v f s s' h = h

module _ (ctx : Context) (uses : UsesTable ctx) where
  -- Every step of the library, from a sound state, is a step that the contract allows, with what the
  -- user sees of it: an addition takes over the request that was given, a service gives to the user
  -- requests that wait, each once, and they wait no longer; the others change nothing.
  pub Step-refines :
      {s s' : State} (step : Step ctx s s')
      → IsSound ctx s
      → Allows (waiting s) (waiting s') (seen step)
  unfolding seen
  Step-refines (add mem env f s s' b cs memory e) h = submits f.identifier λ v.
      let a =
        agios_add_request-table (by_id v) ctx mem env f s memory (uses.0, uses.1) uses.2 h.table.0
          h.table.1 in
      let same : a.0 ≡ s' = cc (a.1, e) in
      let more : table_weight (by_id v) s'.hashlist
          ≡ table_weight (by_id v) s.hashlist + v f.identifier =
        subst
          (λ (t : State).
            table_weight (by_id v) t.hashlist ≡ table_weight (by_id v) s.hashlist + v f.identifier)
          same (added_weight v f s a.0 a.2) in
      omega (arith, total-table_ids v s.hashlist, total-table_ids v s'.hashlist, more)
  Step-refines (release now id type len offset s s' b e) h = rests λ v.
      let k =
        agios_release_request-Steady (by_id v) ctx.max_aggreg_size now id type len offset s s' b e
          h.table.1 in
      total-table_ids v s.hashlist ∙ sym (k.held) ∙ sym (total-table_ids v s'.hashlist)
  Step-refines (serve env hash id type s s' cs memory e) h = gives (delivered cs) λ v.
      let (req, fits, a) =
        served_lem (by_id v) ctx.max_aggreg_size env memory hash id type s s' cs e h.table.1 in
      let seen_ids : total v (delivered cs) ≡ total (by_id v) (requests req) =
        ap (total v) a.given ∙ total-user_ids v (requests req) in
      omega (
        arith,
        total-append v (delivered cs) (table_ids s'.hashlist),
        total-table_ids v s.hashlist,
        total-table_ids v s'.hashlist,
        a.held,
        seen_ids,
      )
  Step-refines (reset s) h = rests λ v.
      let r = reset_all_statistics-IsOrdered (by_id v) ctx.max_aggreg_size s h.table.1 in
      total-table_ids v s.hashlist ∙ sym r.1 ∙ sym (total-table_ids v _)
