-- ===== src/Migration/Ordered.antt =====
-- A migration to the timeline orders the requests by their time (src/data_structures.c,
-- src/req_timeline.c).
use agios.Common.{
  ℕ, ◌≤◌, ◌≡◌, ◌≢◌, refl, inl, inr, List, [], ◌∷◌, true, false, arith, ltb, ◌&&◌, ◌==◌, Bool-cases,
}
use agios.Request.{Request, Queued, File, simple}
use agios.State.{State, Outcome, ok, Context}
use agios.Schedulers.{sw_scheduler, noop_scheduler, toagg_scheduler}
use agios.Timeline.{
  by_timestamp, timeline_place, timeline_enter, timeline_move_req, uses_multi_timeline,
}
use agios.Migration.{
  is_split, put_parts_in_timeline, put_this_request_in_timeline, put_all_requests_in_timeline,
  emptied, migrate_line, migrate_lines, migrate_from_hashtable_to_timeline,
}

-- The timestamps of a queue do not fall, and none is below `lo`.
abbrev pub IsByTime : ℕ → List Queued → Type 0
IsByTime lo [] = Unit
IsByTime lo (q ∷ qs) = (lo ≤ q.timestamp) × IsByTime q.timestamp qs

-- An algorithm that keeps its requests in the timeline, one by one and by time.
abbrev pub OrdersByTime : Context → Type 0
OrdersByTime ctx =
    (uses_multi_timeline ctx ≡ false)
    × (ctx.current_alg ≢ sw_scheduler)
    × (ctx.current_alg ≢ noop_scheduler)
    × ((ctx.current_alg == toagg_scheduler && ltb 1 ctx.max_aggreg_size) ≡ false)

by_timestamp-IsByTime :
    (lo : ℕ) (req : Queued) (queue : List Queued)
    → lo ≤ req.timestamp
    → IsByTime lo queue
    → IsByTime lo (by_timestamp req queue)
unfolding by_timestamp
by_timestamp-IsByTime lo req [] h t = (h, tt)
by_timestamp-IsByTime lo req (tmp ∷ rest) h t =
    elim (Bool-cases (ltb req.timestamp tmp.timestamp)) [
      | inl before ↦ rw before (h, (ground arith, t.1))
      | inr behind ↦
          rw behind (t.0, by_timestamp-IsByTime tmp.timestamp req rest (ground arith) t.1)
    ]

-- The outcome of a move, with a timeline that is by time.
abbrev Sorts : Outcome State → Type 0
Sorts o = (s' : State) × (o ≡ ok s') × IsByTime 0 s'.timeline

module _ (ctx : Context) (orders : OrdersByTime ctx) where
  move-eq :
      (q : Queued) (s : State)
      → timeline_move_req ctx q s ≡ ok (true, record s { timeline = by_timestamp q s.timeline })
  unfolding timeline_move_req timeline_enter timeline_place
  move-eq q s =
      let not_sw : (ctx.current_alg == sw_scheduler) ≡ false = ground (arith, orders.1) in
      let not_noop : (ctx.current_alg == noop_scheduler) ≡ false = ground (arith, orders.2) in
      rw (orders.0, not_sw, orders.3, not_noop) refl

  put_parts-Sorts :
      (rs : List Request) (s : State)
      → IsByTime 0 s.timeline
      → Sorts (put_parts_in_timeline ctx rs s)
  unfolding put_parts_in_timeline
  put_parts-Sorts [] s t = (s, refl, t)
  put_parts-Sorts (r ∷ rs) s t =
      let ih =
        put_parts-Sorts rs (record s { timeline = by_timestamp (simple r) s.timeline })
          (by_timestamp-IsByTime 0 (simple r) s.timeline (omega arith) t) in
      (ih.0, rw (move-eq (simple r) s, ih.1) refl, ih.2)

  put_this-Sorts :
      (q : Queued) (s : State)
      → IsByTime 0 s.timeline
      → Sorts (put_this_request_in_timeline ctx q s)
  unfolding put_this_request_in_timeline
  put_this-Sorts q s t = elim (Bool-cases (is_split ctx q)) [
    | inl split ↦ rw split (put_parts-Sorts q.reqs_list s t)
    | inr whole ↦ rw whole (
      record s { timeline = by_timestamp q s.timeline },
      rw (move-eq q s) refl,
      by_timestamp-IsByTime 0 q s.timeline (omega arith) t,
    )
  ]

  put_each-Sorts :
      (qs : List Queued) (s : State)
      → IsByTime 0 s.timeline
      → Sorts (put_all_requests_in_timeline ctx qs s)
  unfolding put_all_requests_in_timeline
  put_each-Sorts [] s t = (s, refl, t)
  put_each-Sorts (q ∷ qs) s t =
      let m = put_this-Sorts q s t in
      let ih = put_each-Sorts qs m.0 m.2 in (ih.0, rw (m.1, ih.1) refl, ih.2)

  abbrev SortsWith {ℓ} : {A : Type ℓ} → Outcome (A × State) → Type ℓ
  SortsWith {A} o = (r : A × State) × (o ≡ ok r) × IsByTime 0 (r.1).timeline

  migrate_line-Sorts :
      (line : List File) (s : State) → IsByTime 0 s.timeline → SortsWith (migrate_line ctx line s)
  unfolding migrate_line
  migrate_line-Sorts [] s t = (([], s), refl, t)
  migrate_line-Sorts (f ∷ fs) s t =
      let a = put_each-Sorts (f.read_queue).list s t in
      let b = put_each-Sorts (f.write_queue).list a.0 a.2 in
      let ih = migrate_line-Sorts fs b.0 b.2 in
      ((emptied f ∷ ih.0.0, ih.0.1), rw (a.1, b.1, ih.1) refl, ih.2)

  migrate_lines-Sorts :
      (lines : List (List File)) (s : State)
      → IsByTime 0 s.timeline
      → SortsWith (migrate_lines ctx lines s)
  unfolding migrate_lines
  migrate_lines-Sorts [] s t = (([], s), refl, t)
  migrate_lines-Sorts (line ∷ lines) s t =
      let a = migrate_line-Sorts line s t in
      let ih = migrate_lines-Sorts lines a.0.1 a.2 in
      ((a.0.0 ∷ ih.0.0, ih.0.1), rw (a.1, ih.1) refl, ih.2)

-- A migration to the timeline of an algorithm that serves requests by time, one by one, succeeds, and
-- leaves the timeline in the order of the timestamps, if it was in that order before (as an empty
-- one is), whatever the order of the queues of the table was.
pub migrate_to_timeline-IsByTime :
    (ctx : Context) (s : State)
    → OrdersByTime ctx
    → IsByTime 0 s.timeline
    → (s' : State) × (migrate_from_hashtable_to_timeline ctx s ≡ ok s') × IsByTime 0 s'.timeline
unfolding migrate_from_hashtable_to_timeline
migrate_to_timeline-IsByTime ctx s orders t =
    let m = migrate_lines-Sorts ctx orders s.hashlist s t in
    (record (m.0.1) { hashlist = m.0.0 }, rw (m.1) refl, m.2)
