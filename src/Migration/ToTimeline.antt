-- ===== src/Migration/ToTimeline.antt =====
-- A migration to the timeline loses no request (src/data_structures.c).
use agios.Common.{
  ℕ, ◌+◌, ◌≡◌, ◌≢◌, refl, inl, inr, List, [], ◌∷◌, true, false, arith, total, All, Bool-cases,
}
use agios.Request.{Request, Queued, File, simple}
use agios.Aggregation.Contents.{requests, IsCounted, weight}
use agios.State.{State, Outcome, ok, Context}
use agios.Schedulers.{sw_scheduler}
use agios.Hashtable.Weight.{line_weight, table_weight, InFile, InTable}
use agios.Timeline.{timeline_enter, timeline_move_req, uses_multi_timeline}
use agios.Timeline.Places.{place_lem}
use agios.Migration.{
  is_split, put_parts_in_timeline, put_this_request_in_timeline, put_all_requests_in_timeline,
  emptied, migrate_line, migrate_lines, migrate_from_hashtable_to_timeline,
}

-- A counted request that is split, or that is simple anyway.
abbrev pub IsMovable : Context → Queued → Type 0
IsMovable ctx q = IsCounted q × ((is_split ctx q ≡ false) → (q.reqnb ≡ 1))

-- An algorithm that keeps all requests in the one timeline and does not read `sw_priority`.
abbrev pub UsesTimeline : Context → Type 0
UsesTimeline ctx = (uses_multi_timeline ctx ≡ false) × (ctx.current_alg ≢ sw_scheduler)

module _ (w : Request → ℕ) (ctx : Context) (uses : UsesTimeline ctx) where
  -- The timeline gains requests of weight `more`; the table is as before.
  abbrev Moved : ℕ → State → Outcome State → Type 0
  Moved more s o =
      (s' : State) × (o ≡ ok s')
      × (weight w s'.timeline ≡ weight w s.timeline + more)
      × All IsCounted s'.timeline
      × (s'.hashlist ≡ s.hashlist)

  move_simple :
      (q : Queued) (s : State)
      → q.reqnb ≡ 1
      → All IsCounted s.timeline
      → (s' : State) × (timeline_move_req ctx q s ≡ ok (true, s'))
        × (weight w s'.timeline ≡ weight w s.timeline + total w (requests q))
        × All IsCounted s'.timeline
        × (s'.hashlist ≡ s.hashlist)
  unfolding timeline_move_req timeline_enter
  move_simple q s one c =
      let p = place_lem w ctx true s.g_last_timestamp q s.timeline uses.1 one c in
      (
        record s { timeline = (p.0).0; g_last_timestamp = (p.0).1 },
        rw (uses.0, p.1) refl,
        p.2.0,
        p.2.1,
        refl,
      )

  put_parts-Moved :
      (rs : List Request) (s : State)
      → All IsCounted s.timeline
      → Moved (total w rs) s (put_parts_in_timeline ctx rs s)
  unfolding put_parts_in_timeline
  put_parts-Moved [] s c = (s, refl, omega arith, c, refl)
  put_parts-Moved (r ∷ rs) s c =
      let m = move_simple (simple r) s refl c in
      let ih = put_parts-Moved rs m.0 m.3 in
      (ih.0, rw (m.1, ih.1) refl, omega (arith, ih.2, m.2), ih.3, rw (ih.4) m.4)

  split_requests : (q : Queued) → is_split ctx q ≡ true → requests q ≡ q.reqs_list
  split_requests q h = ground arith

  put_this-Moved :
      (q : Queued) (s : State)
      → IsMovable ctx q
      → All IsCounted s.timeline
      → Moved (total w (requests q)) s (put_this_request_in_timeline ctx q s)
  unfolding put_this_request_in_timeline
  put_this-Moved q s h c = elim (Bool-cases (is_split ctx q)) [
    | inl split ↦ rw (split, split_requests q split) (put_parts-Moved q.reqs_list s c)
    | inr whole ↦
        let m = move_simple q s (h.1 whole) c in rw whole (m.0, rw (m.1) refl, m.2, m.3, m.4)
  ]

  put_each-Moved :
      (qs : List Queued) (s : State)
      → All (IsMovable ctx) qs
      → All IsCounted s.timeline
      → Moved (weight w qs) s (put_all_requests_in_timeline ctx qs s)
  unfolding put_all_requests_in_timeline
  put_each-Moved [] s h c = (s, refl, omega arith, c, refl)
  put_each-Moved (q ∷ qs) s h c =
      let m = put_this-Moved q s h.0 c in
      let ih = put_each-Moved qs m.0 h.1 m.3 in
      (ih.0, rw (m.1, ih.1) refl, omega (arith, ih.2, m.2), ih.3, rw (ih.4) m.4)

  -- The same for a part of the table, of which `o` holds what is left.
  abbrev LineMoved : List File → State → Outcome (List File × State) → Type 0
  LineMoved line s o =
      (r : List File × State) × (o ≡ ok r)
      × (weight w (r.1).timeline ≡ weight w s.timeline + line_weight w line)
      × All IsCounted (r.1).timeline
      × (line_weight w r.0 ≡ 0)

  migrate_line-Moved :
      (line : List File) (s : State)
      → All (InFile (IsMovable ctx)) line
      → All IsCounted s.timeline
      → LineMoved line s (migrate_line ctx line s)
  unfolding migrate_line
  migrate_line-Moved [] s h c = (([], s), refl, omega arith, c, refl)
  migrate_line-Moved (f ∷ fs) s h c =
      let a = put_each-Moved (f.read_queue).list s h.0.0 c in
      let b = put_each-Moved (f.write_queue).list a.0 h.0.1 a.3 in
      let ih = migrate_line-Moved fs b.0 h.1 b.3 in
      (
        (emptied f ∷ ih.0.0, ih.0.1),
        rw (a.1, b.1, ih.1) refl,
        omega (arith, a.2, b.2, ih.2),
        ih.3,
        omega (arith, ih.4),
      )

  abbrev TableMoved : List (List File) → State → Outcome (List (List File) × State) → Type 0
  TableMoved lines s o =
      (r : List (List File) × State) × (o ≡ ok r)
      × (weight w (r.1).timeline ≡ weight w s.timeline + table_weight w lines)
      × All IsCounted (r.1).timeline
      × (table_weight w r.0 ≡ 0)

  migrate_lines-Moved :
      (lines : List (List File)) (s : State)
      → InTable (IsMovable ctx) lines
      → All IsCounted s.timeline
      → TableMoved lines s (migrate_lines ctx lines s)
  unfolding migrate_lines
  migrate_lines-Moved [] s h c = (([], s), refl, omega arith, c, refl)
  migrate_lines-Moved (line ∷ lines) s h c =
      let a = migrate_line-Moved line s h.0 c in
      let ih = migrate_lines-Moved lines a.0.1 h.1 a.3 in
      (
        (a.0.0 ∷ ih.0.0, ih.0.1),
        rw (a.1, ih.1) refl,
        omega (arith, a.2, ih.2),
        ih.3,
        omega (arith, a.4, ih.4),
      )

-- A migration from the hash table to the timeline of an algorithm other than SW, TWINS and WFQ
-- succeeds, if each queued request counts its parts and is simple unless the algorithm splits virtual
-- requests. It moves every request, as often as it was there: afterwards the timeline holds what it
-- held and what the table held, and the queues of the table hold nothing.
pub migrate_to_timeline-weight :
    (w : Request → ℕ) (ctx : Context) (s : State)
    → UsesTimeline ctx
    → InTable (IsMovable ctx) s.hashlist
    → All IsCounted s.timeline
    → (s' : State) × (migrate_from_hashtable_to_timeline ctx s ≡ ok s')
      × (weight w s'.timeline ≡ weight w s.timeline + table_weight w s.hashlist)
      × All IsCounted s'.timeline
      × (table_weight w s'.hashlist ≡ 0)
unfolding migrate_from_hashtable_to_timeline
migrate_to_timeline-weight w ctx s uses h c =
    let m = migrate_lines-Moved w ctx uses s.hashlist s h c in
    (record (m.0.1) { hashlist = m.0.0 }, rw (m.1) refl, m.2, m.3, m.4)
