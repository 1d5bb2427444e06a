-- ===== src/Scheduling/GiveBack.antt =====
-- What returning a request to the user leaves alone, and what it counts (src/process_request.c).
use agios.Common.{ℕ, ◌≡◌, refl, List, [], ◌∷◌, true, arith}
use agios.Common.Int.{ℤ, pos, ◌-ℤ◌}
use agios.Request.{Request, Queued}
use agios.Aggregation.Contents.{requests, IsCounted}
use agios.State.{State, Outcome, ok, dec_many_current_reqnb, dec_current_filenb}
use agios.Process.{
  Callback, put_this_request_in_dispatch, put_all_in_dispatch, uncount_file, dispatch_requests,
  generic_post_process,
}
use agios.Process.Delivery.{delivered, user_ids_of, step1-eq, step2-Delivers, some_ids}
use agios.AddRequest.{Dispatch, give_back}

-- The queues that are not in the hash table, and the number of requests, are as before but for `n`
-- requests.
pub record Gives (n : ℤ) (s s' : State) : Type 0 where
  pub timeline : s'.timeline ≡ s.timeline
  pub multi_timeline : s'.multi_timeline ≡ s.multi_timeline
  pub g_last_timestamp : s'.g_last_timestamp ≡ s.g_last_timestamp
  pub current_reqnb : s'.current_reqnb ≡ n

abbrev Keeps : (s s' : State) → Type 0
Keeps s s' = Gives s.current_reqnb s s'

put_all-Keeps :
    (head : Request) (rs : List Request) (now hash : ℕ) (s : State)
    → Keeps s (put_all_in_dispatch head rs now hash s)
unfolding put_all_in_dispatch put_this_request_in_dispatch
put_all-Keeps head [] now hash s = record {
  timeline = refl;
  multi_timeline = refl;
  g_last_timestamp = refl;
  current_reqnb = refl;
}
put_all-Keeps head (r ∷ rs) now hash s =
    let ih = put_all-Keeps head rs now hash (put_this_request_in_dispatch head r now hash s) in
    record {
      timeline = ih.timeline;
      multi_timeline = ih.multi_timeline;
      g_last_timestamp = ih.g_last_timestamp;
      current_reqnb = ih.current_reqnb;
    }

dispatch-Gives :
    (head : Queued) (rs : List Request) (now hash : ℕ) (s : State)
    → Gives (s.current_reqnb -ℤ pos head.reqnb) s (dispatch_requests head rs now hash s).1
unfolding dispatch_requests uncount_file dec_many_current_reqnb dec_current_filenb
dispatch-Gives head rs now hash s = ground (arith, put_all-Keeps head.head rs now hash s)

post_process-Keeps :
    (req : Queued) (hash : ℕ) (s : State) → Keeps s (generic_post_process req hash s)
unfolding generic_post_process
post_process-Keeps req hash s = ground arith

-- The memory that a round of a loop needs is there.
abbrev pub HasMemory : Dispatch → Type 0
HasMemory env = (env.info ≡ true) × (env.ids ≡ true)

abbrev pub GivesBack : Queued → State → Outcome (List Callback × State) → Type 0
GivesBack req s o =
    (cs : List Callback) × (s' : State) × (o ≡ ok (cs, s'))
    × (delivered cs ≡ user_ids_of (requests req))
    × Gives (s.current_reqnb -ℤ pos req.reqnb) s s'

-- The state after a request was returned.
abbrev pub given_back : Dispatch → Queued → ℕ → State → State
given_back env req hash s =
    generic_post_process req hash (dispatch_requests req (requests req) env.this_time hash s).1

pub give_back-eq :
    (env : Dispatch) (req : Queued) (hash : ℕ) (s : State)
    → HasMemory env
    → IsCounted req
    → (cs : List Callback) × (give_back env req hash s ≡ ok (cs, given_back env req hash s))
      × (delivered cs ≡ user_ids_of (requests req))
unfolding give_back
give_back-eq env req hash s m c =
    let d = step2-Delivers env.has_list_callback (user_ids_of (requests req)) (some_ids req c) in
    (d.0, rw (m.0, m.1, step1-eq env.this_time req hash s c, d.1) refl, d.2)

pub given_back-Gives :
    (env : Dispatch) (req : Queued) (hash : ℕ) (s : State)
    → Gives (s.current_reqnb -ℤ pos req.reqnb) s (given_back env req hash s)
given_back-Gives env req hash s =
    let s1 : State = (dispatch_requests req (requests req) env.this_time hash s).1 in
    let g = dispatch-Gives req (requests req) env.this_time hash s in
    let k = post_process-Keeps req hash s1 in ground (arith, g, k)

pub give_back-GivesBack :
    (env : Dispatch) (req : Queued) (hash : ℕ) (s : State)
    → HasMemory env
    → IsCounted req
    → GivesBack req s (give_back env req hash s)
give_back-GivesBack env req hash s m c =
    let b = give_back-eq env req hash s m c in
    (b.0, given_back env req hash s, b.1, b.2, given_back-Gives env req hash s)
