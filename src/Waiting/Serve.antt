-- ===== src/Waiting/Serve.antt =====
-- What the loops of MLF (src/MLF.c) and aIOLi (src/aIOLi.c) do with a request that they took out of its
-- queue: step 1, and their statistics.
use agios.Common.{ℕ, ◌≡◌, refl, Option, none, some, length}
use agios.Request.{Request, Queued}
use agios.State.{State, Outcome, ok, fault, ◌>>=◌}
use agios.Process.{ProcessingInfo, process_requests_step1, dispatch_requests}
use agios.Process.Delivery.{user_ids_of, step1-eq, some_ids}
use agios.AddRequest.{Dispatch}
use agios.Aggregation.Contents.{requests, IsCounted}
use agios.Waiting.{waiting_algorithms_postprocess}
use agios.Waiting.Steps.{IsFilled}
use agios.Scheduling.GiveBack.{HasMemory}
use agios.Scheduling.Table.{Same, next, queue-Same, post_process-Same, dispatch-Same}
use agios.Hashtable.Enter.{IsOrdered}

-- The structure of step 1 goes to a list, which is a fault if there is none.
abbrev pub then_postprocess :
    Queued → ℕ → Option ProcessingInfo × State → Outcome (ProcessingInfo × State)
then_postprocess req hash (none, s) = fault
then_postprocess req hash (some info, s) = ok (info, waiting_algorithms_postprocess req hash s)

unfoldable pub process_selected : Dispatch → Queued → ℕ → State → Outcome (ProcessingInfo × State)
unfolding process_requests_step1 waiting_algorithms_postprocess
process_selected env req hash s =
    process_requests_step1 env.info env.ids env.this_time req hash s >>= then_postprocess req hash

-- The structure that step 1 fills for a request.
abbrev pub info_of : Queued → ProcessingInfo
info_of req = record {
  user_ids = user_ids_of (requests req);
  reqnb = length (user_ids_of (requests req));
}

abbrev pub after_selected : Dispatch → Queued → ℕ → State → State
after_selected env req hash s =
    waiting_algorithms_postprocess req hash
      (dispatch_requests req (requests req) env.this_time hash s).1

pub info_of-IsFilled : (req : Queued) → IsCounted req → IsFilled (info_of req)
info_of-IsFilled req c = (refl, some_ids req c)

module _ (env : Dispatch) (memory : HasMemory env) (req : Queued) (hash : ℕ)
    (counted : IsCounted req) where
  pub process_selected-eq :
      (s : State)
      → process_selected env req hash s ≡ ok (info_of req, after_selected env req hash s)
  unfolding process_selected
  process_selected-eq s = rw (memory.0, memory.1, step1-eq env.this_time req hash s counted) refl

postprocess-Same :
    (w : Request → ℕ) (max : ℕ) (req : Queued) (hash : ℕ) (s : State)
    → IsOrdered max s.hashlist
    → Same w max s (waiting_algorithms_postprocess req hash s)
unfolding waiting_algorithms_postprocess
postprocess-Same w max req hash s o =
    let a = queue-Same w max hash req.file_id req.type _ s (λ q. refl) o in
    next w max a (post_process-Same w max req hash _ a.ordered)

-- The other requests of the table stay as they are.
pub after_selected-Same :
    (w : Request → ℕ) (max : ℕ) (env : Dispatch) (req : Queued) (hash : ℕ) (s : State)
    → IsOrdered max s.hashlist
    → Same w max s (after_selected env req hash s)
after_selected-Same w max env req hash s o =
    let a = dispatch-Same w max req (requests req) env.this_time hash s o in
    next w max a (postprocess-Same w max req hash _ a.ordered)
