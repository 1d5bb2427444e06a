-- ===== src/Migration/ToTable.antt =====
-- A migration to the hash table loses no request (src/data_structures.c).
use agios.Common.{
  ℕ, ◌+◌, ◌≤◌, ◌<◌, ◌≡◌, refl, ◌∙◌, inl, inr, List, [], ◌∷◌, true, false, arith, total, All, length,
  Bool-cases, All-mono,
}
use agios.Request.{FileId, Request, Queued, File, simple}
use agios.Hash.{get_hashtable_position, hash_entries, get_hashtable_position-le}
use agios.Aggregation.Contents.{requests, weight}
use agios.Aggregation.Insertion.{Fits}
use agios.State.{State, Outcome, ok, Context}
use agios.Hashtable.{hashtable_move_req}
use agios.Hashtable.Weight.{table_weight}
use agios.Hashtable.Insert.{HasFile}
use agios.Hashtable.Add.{enter_queue-HasQueued}
use agios.Hashtable.Enter.{IsOrdered}
use agios.Migration.{
  is_split, put_parts_in_hashtable, put_req_in_hashtable, put_all_requests_in_hashtable,
  migrate_from_timeline_to_hashtable,
}

-- The file of a request is in the table.
abbrev pub IsKnown : List (List File) → Request → Type 0
IsKnown lines r = HasFile lines (get_hashtable_position r.file_id) r.file_id

-- A request that is simple or is split; its files are in the table.
abbrev pub IsPlaceable : Context → List (List File) → Queued → Type 0
IsPlaceable ctx lines q =
    ((is_split ctx q ≡ false) → q.reqnb ≡ 1)
    × IsKnown lines q.head
    × All (IsKnown lines) q.reqs_list

-- The table has all its lines and is in order.
abbrev pub IsTable : Context → State → Type 0
IsTable ctx s = (length s.hashlist ≡ hash_entries) × IsOrdered ctx.max_aggreg_size s.hashlist

module _ (w : Request → ℕ) (ctx : Context) (big : 1 ≤ ctx.max_aggreg_size) where
  -- The table gains requests of weight `more` and keeps its files.
  record Placed (more : ℕ) (s s' : State) : Type 0 where
    held : table_weight w s'.hashlist ≡ table_weight w s.hashlist + more
    table : IsTable ctx s'
    files : (hash : ℕ) (id : FileId) → HasFile s.hashlist hash id → HasFile s'.hashlist hash id
    current_reqnb : s'.current_reqnb ≡ s.current_reqnb

  Placed-next :
      {m n sum : ℕ} {a b c : State} → Placed m a b → Placed n b c → m + n ≡ sum → Placed sum a c
  Placed-next h k e = record {
    held = omega (arith, h.held, k.held, e);
    table = k.table;
    files = λ hash id f. k.files hash id (h.files hash id f);
    current_reqnb = k.current_reqnb ∙ h.current_reqnb;
  }

  single-Fits : (q : Queued) → q.reqnb ≡ 1 → Fits ctx.max_aggreg_size q
  single-Fits q one = ground arith

  stays : (s : State) → IsTable ctx s → Placed 0 s s
  stays s t = record { held = omega arith; table = t; files = λ hash id f. f; current_reqnb = refl }

  IsKnown-after :
      {more : ℕ} {s s' : State}
      → Placed more s s'
      → (r : Request) → IsKnown s.hashlist r
      → IsKnown s'.hashlist r
  IsKnown-after p r k = p.files (get_hashtable_position r.file_id) r.file_id k

  -- The outcome is a state in which the requests are placed.
  abbrev Places : ℕ → State → Outcome State → Type 0
  Places more s out = (s' : State) × (out ≡ ok s') × Placed more s s'

  move-Placed :
      (q : Queued) (s : State)
      → q.reqnb ≡ 1
      → IsTable ctx s
      → IsKnown s.hashlist q.head
      → Places
          (total w (requests q))
          s
          (hashtable_move_req ctx q (get_hashtable_position q.file_id) s)
  unfolding hashtable_move_req
  move-Placed q s one t k =
      let hash : ℕ = get_hashtable_position q.file_id in
      let inside : hash < length s.hashlist = rw (t.0) (get_hashtable_position-le q.file_id).0 in
      let (s', eq, m, files) =
        enter_queue-HasQueued w ctx.max_aggreg_size q (single-Fits q one) one hash s k.0 k.1 inside
          t.1 in
      (s', eq, record { held = m.0; table = (m.5 ∙ t.0, m.1); files = files; current_reqnb = m.4 })

  put_parts-Placed :
      (rs : List Request) (s : State)
      → IsTable ctx s
      → All (IsKnown s.hashlist) rs
      → Places (total w rs) s (put_parts_in_hashtable ctx rs s)
  unfolding put_parts_in_hashtable
  put_parts-Placed [] s t k = (s, refl, stays s t)
  put_parts-Placed (r ∷ rs) s t k =
      let (s1, eq1, m1) = move-Placed (simple r) s refl t k.0 in
      let (s2, eq2, m2) =
        put_parts-Placed rs s1 m1.table (All-mono _ _ (IsKnown-after m1) rs k.1) in
      (s2, rw (put_parts_in_hashtable, eq1) eq2, Placed-next m1 m2 (omega arith))

  split_requests : (q : Queued) → is_split ctx q ≡ true → requests q ≡ q.reqs_list
  split_requests q h = ground arith

  put_req-Placed :
      (q : Queued) (s : State)
      → IsTable ctx s
      → IsPlaceable ctx s.hashlist q
      → Places (total w (requests q)) s (put_req_in_hashtable ctx q s)
  unfolding put_req_in_hashtable
  put_req-Placed q s t k = elim (Bool-cases (is_split ctx q)) [
    | inl split ↦ rw (split, split_requests q split) (put_parts-Placed q.reqs_list s t k.2)
    | inr whole ↦ rw whole (move-Placed q s (k.0 whole) t k.1)
  ]

  IsPlaceable-after :
      {more : ℕ} {s s' : State}
      → Placed more s s'
      → (q : Queued) → IsPlaceable ctx s.hashlist q
      → IsPlaceable ctx s'.hashlist q
  IsPlaceable-after p q k =
      (k.0, IsKnown-after p q.head k.1, All-mono _ _ (IsKnown-after p) q.reqs_list k.2)

  put_each-Placed :
      (qs : List Queued) (s : State)
      → IsTable ctx s
      → All (IsPlaceable ctx s.hashlist) qs
      → Places (weight w qs) s (put_all_requests_in_hashtable ctx qs s)
  unfolding put_all_requests_in_hashtable
  put_each-Placed [] s t k = (s, refl, stays s t)
  put_each-Placed (q ∷ qs) s t k =
      let (s1, eq1, m1) = put_req-Placed q s t k.0 in
      let (s2, eq2, m2) =
        put_each-Placed qs s1 m1.table (All-mono _ _ (IsPlaceable-after m1) qs k.1) in
      (s2, rw (put_all_requests_in_hashtable, eq1) eq2, Placed-next m1 m2 refl)

-- A migration to the hash table of simple requests, or by an algorithm that splits the virtual ones,
-- succeeds and moves every request of the timeline, as often as it was there: the table, which stays
-- in order, afterwards holds what it held and what the timeline held, the timeline is empty, and the
-- counter of requests stays. The files of the requests must be in the table.
pub migrate_to_hashtable-weight :
    (w : Request → ℕ) (ctx : Context) (s : State)
    → 1 ≤ ctx.max_aggreg_size
    → IsTable ctx s
    → All (IsPlaceable ctx s.hashlist) s.timeline
    → (s' : State) × (migrate_from_timeline_to_hashtable ctx s ≡ ok s')
      × (table_weight w s'.hashlist ≡ table_weight w s.hashlist + weight w s.timeline)
      × IsTable ctx s'
      × (s'.timeline ≡ [])
      × (s'.current_reqnb ≡ s.current_reqnb)
unfolding migrate_from_timeline_to_hashtable
migrate_to_hashtable-weight w ctx s big t k =
    let (s', eq, m) = put_each-Placed w ctx big s.timeline s t k in
    (
      record s' { timeline = [] },
      rw (migrate_from_timeline_to_hashtable, eq) refl,
      m.held,
      m.table,
      refl,
      m.current_reqnb,
    )
