-- ===== src/Cancel.antt =====
-- `agios_cancel_request` (src/agios_cancel_request.c).
pub mod Queues
pub mod Table
use agios.Common.{
  ℕ, zero, suc, ◌+◌, ◌-◌, List, [], ◌∷◌, Option, none, some, Bool, true, false, ◌&&◌, ltb, leb,
  ◌==◌, if◌then◌else◌,
}
use agios.Common.Int.{ℤ, pos, ◌-ℤ◌}
use agios.Request.{FileId, Request, RequestType, Queued, Queue, File, simple}
use agios.Hash.{get_hashtable_position}
use agios.Lines.{lookup_file, update_file, queue_of}
use agios.Process.{uncount_file}
use agios.Release.{is_request}
use agios.State.{
  State, Outcome, ok, fault, Context, row, change_file, change_queue, dec_current_reqnb,
}

abbrev pub kept_part : Request → Option (Request × List Request) → Option (Request × List Request)
kept_part r none = none
kept_part r (some (found, others)) = some (found, r ∷ others)

-- The first sub-request with this length and offset, and the others.
unfoldable pub take_part : (len offset : ℕ) → List Request → Option (Request × List Request)
take_part len offset [] = none
take_part len offset (r ∷ rs) =
    let rest = take_part len offset rs in
    if is_request len offset r then some (r, rs) else kept_part r rest

-- One round of the loop that computes the range of the virtual request anew.
unfoldable pub extend_range : Request → Request → Request
extend_range v tmp =
    let low : ℕ = if ltb tmp.offset v.offset then tmp.offset else v.offset in
    let len : ℕ = if ltb tmp.offset v.offset then v.len + (v.offset - tmp.offset) else v.len in
    record v {
      offset = low;
      len =
          if ltb (low + len) (tmp.offset + tmp.len)
          then len + ((tmp.offset + tmp.len) - (low + len))
          else len;
      arrival_time =
          if ltb tmp.arrival_time v.arrival_time then tmp.arrival_time else v.arrival_time;
      timestamp = if ltb tmp.timestamp v.timestamp then tmp.timestamp else v.timestamp;
    }

unfoldable pub extend_all : Request → List Request → Request
unfolding extend_range
extend_all v [] = v
extend_all v (tmp ∷ rest) = extend_all (extend_range v tmp) rest

-- The loop, from the first sub-request that is left.
unfoldable pub recompute : Request → List Request → Request
unfolding extend_all
recompute v [] = v
recompute v (tmp ∷ rest) =
    extend_all
      (record v {
        offset = tmp.offset;
        len = tmp.len;
        arrival_time = tmp.arrival_time;
        timestamp = tmp.timestamp;
      })
      rest

abbrev pub one_left : Request → List Request → Queued
one_left v [] = record { head = v; reqnb = 1; reqs_list = [] }
one_left v (tmp ∷ rest) = simple tmp

-- The virtual request without one of its parts. Where one part is left, it takes its place.
unfoldable pub without_part : Queued → List Request → Queued
unfolding recompute
without_part q others =
    let v : Request = recompute q.head others in
    if q.reqnb - 1 == 1
    then one_left v others
    else record { head = v; reqnb = q.reqnb - 1; reqs_list = others }

-- The search in one queued request: what is cancelled, and what is left of it.
unfoldable pub cancel_one : (len offset : ℕ) → Queued → Option (Request × Option Queued)
unfolding take_part without_part
cancel_one len offset q =
    if q.reqnb == 1
    then (if is_request len offset q.head then some (q.head, none) else none)
    else if leb q.offset offset && leb (offset + len) (q.offset + q.len)
    then elim (take_part len offset q.reqs_list) [
      | none ↦ none
      | some (found, others) ↦ some (found, some (without_part q others))
    ]
    else none

abbrev pub after_one : Queued → Option (Request × List Queued) → Option (Request × List Queued)
after_one q none = none
after_one q (some (r, qs)) = some (r, q ∷ qs)

abbrev pub put_back :
    List Queued → Option (Request × Option Queued) → Option (Request × List Queued)
put_back rest none = none
put_back rest (some (r, none)) = some (r, rest)
put_back rest (some (r, some q)) = some (r, q ∷ rest)

abbrev pub or_later :
    Option (Request × List Queued) → Option (Request × List Queued) → Option (Request × List Queued)
or_later none later = later
or_later (some x) later = some x

-- The search in a queue, which stops at the first match.
unfoldable pub cancel_in : (len offset : ℕ) → List Queued → Option (Request × List Queued)
unfolding cancel_one
cancel_in len offset [] = none
cancel_in len offset (q ∷ rest) =
    or_later (put_back rest (cancel_one len offset q)) (after_one q (cancel_in len offset rest))

-- The counters, for the file and the queue of the request that was found; `hash` is that of the
-- handle which the user gave.
unfoldable pub uncount_cancelled : Request → ℕ → State → State
unfolding uncount_file dec_current_reqnb update_file
uncount_cancelled r hash s =
    let own : ℕ = get_hashtable_position r.file_id in
    dec_current_reqnb hash (
      uncount_file r.file_id own (
        change_file own r.file_id (λ f. record f { timeline_reqnb = f.timeline_reqnb -ℤ pos 1 })
          (change_queue own r.file_id r.type
            (λ q. record q { current_size = q.current_size -ℤ pos r.len }) s)))

abbrev write_queue_list : Context → FileId → RequestType → ℕ → List Queued → State → State
write_queue_list ctx id type hash queue s =
    if ctx.needs_hashtable
    then change_queue hash id type (λ q. record q { list = queue }) s
    else record s { timeline = queue }

-- The result is false only if there is no such file.
unfoldable pub agios_cancel_request :
    Context → FileId → RequestType → (len offset : ℕ) → State → Bool × State
unfolding cancel_in uncount_cancelled lookup_file get_hashtable_position
agios_cancel_request ctx id type len offset s =
    let hash : ℕ = get_hashtable_position id in
    elim (lookup_file id (row s.hashlist hash)) [
      | none ↦ (false, s)
      | some f ↦
          elim (cancel_in len offset
            (if ctx.needs_hashtable then (queue_of type f).list else s.timeline)) [
              | none ↦ (true, s)
              | some (r, queue) ↦
                  (true, uncount_cancelled r hash (write_queue_list ctx id type hash queue s))
            ]
    ]
