-- ===== src/System/Release.antt =====
-- A release that returns changes only figures and a dispatch queue (src/agios_release_request.c).
use agios.Common.{ℕ, ◌≡◌, refl, ap, ◌∙◌, Option, none, some, Bool, true, false}
use mathlib.Core.Path.{subst}
use agios.Common.Int.{ℤ}
use agios.Request.{FileId, Request, RequestType, Timespec}
use agios.Lines.{lookup_file, update_queue}
use agios.Hash.{get_hashtable_position}
use agios.CommonFunctions.{get_nanoelapsed_long}
use agios.Performance.{Performance, credit_release}
use agios.State.{State, Outcome, ok, fault, row, change_queue}
use agios.Release.{
  agios_release_request, release_found, release_queue, bandwidth_of, credited, dispatched_in,
}
use agios.Release.Table.{release_queue-list}
use agios.Hashtable.Enter.{IsOrdered}
use agios.Hashtable.Quiet.{update_queue-KeepsLists, Steady, change_file-Steady}

credited-performance :
    (d : Option ℕ) (len : ℕ) (b : ℤ) (s s1 : State)
    → credited d len b s ≡ ok s1
    → (p : Performance) × (record s { performance = p } ≡ s1)
credited-performance none len b s s1 e = cc
credited-performance (some d) len b s s1 e = go (credit_release d len b s.performance) refl
  where
    go :
        (o : Option Performance)
        → credit_release d len b s.performance ≡ o
        → (p : Performance) × (record s { performance = p } ≡ s1)
    go none k =
        let faulty : credited (some d) len b s ≡ fault = rw (credited, k) refl in cc (e, faulty)
    go (some p) k =
        let fine : credited (some d) len b s ≡ ok (record s { performance = p }) =
          rw (credited, k) refl in
        (p, cc (e, fine))

module _ (w : Request → ℕ) (max : ℕ) (now : Timespec) (id : FileId) (type : RequestType) where
  queue_change-Steady :
      (len offset hash : ℕ) (b : ℤ) (p : Performance) (s : State)
      → IsOrdered max s.hashlist
      → Steady w max s
          (change_queue hash id type (release_queue len offset b) (record s { performance = p }))
  queue_change-Steady len offset hash b p s o =
      let k =
        change_file-Steady w max hash id (update_queue type (release_queue len offset b))
          (record s { performance = p })
          (update_queue-KeepsLists type (release_queue len offset b)
            (λ q. (release_queue-list len offset b q).0))
          o in
      record {
        held = k.held;
        ordered = k.ordered;
        shape = k.shape;
        timeline = refl;
        current_reqnb = refl;
      }

  release_found-Steady :
      (req : Request) (hash : ℕ) (s s' : State) (r : Bool)
      → release_found now id type req hash s ≡ ok (r, s')
      → IsOrdered max s.hashlist
      → Steady w max s s'
  unfolding release_found
  release_found-Steady req hash s s' r e o =
      go (bandwidth_of req.len (get_nanoelapsed_long now req.arrival_time)) refl
    where
      after :
          (b : ℤ)
          → bandwidth_of req.len (get_nanoelapsed_long now req.arrival_time) ≡ ok b
          → (c : Outcome State) → credited req.dispatch_timestamp req.len b s ≡ c
          → Steady w max s s'
      after b eb fault ec =
          let faulty : release_found now id type req hash s ≡ fault =
            rw (release_found, eb, ec) refl in
          absurd (cc (e, faulty))
      after b eb (ok s1) ec =
          let fine : release_found now id type req hash s
              ≡ ok (true, change_queue hash id type (release_queue req.len req.offset b) s1) =
            rw (release_found, eb, ec) refl in
          let p = credited-performance req.dispatch_timestamp req.len b s s1 ec in
          let same : change_queue hash id type (release_queue req.len req.offset b)
                (record s { performance = p.0 })
              ≡ s' =
            ap (change_queue hash id type (release_queue req.len req.offset b)) (p.1)
            ∙ cc (e, fine) in
          subst (Steady w max s) same (queue_change-Steady req.len req.offset hash b p.0 s o)

      go :
          (b : Outcome ℤ)
          → bandwidth_of req.len (get_nanoelapsed_long now req.arrival_time) ≡ b
          → Steady w max s s'
      go fault eb =
          let faulty : release_found now id type req hash s ≡ fault = rw (release_found, eb) refl in
          absurd (cc (e, faulty))
      go (ok b) eb = after b eb (credited req.dispatch_timestamp req.len b s) refl

  pub agios_release_request-Steady :
      (len offset : ℕ) (s s' : State) (r : Bool)
      → agios_release_request now id type len offset s ≡ ok (r, s')
      → IsOrdered max s.hashlist
      → Steady w max s s'
  unfolding agios_release_request
  agios_release_request-Steady len offset s s' r e o =
      go
        (dispatched_in (lookup_file id (row s.hashlist (get_hashtable_position id))) type len
          offset)
        refl
    where
      go :
          (found : Option Request)
          → dispatched_in
              (lookup_file id (row s.hashlist (get_hashtable_position id)))
              type
              len
              offset
            ≡ found
          → Steady w max s s'
      go none k =
          let stays : agios_release_request now id type len offset s ≡ ok (false, s) =
            rw (agios_release_request, k) refl in
          let same : s ≡ s' = cc (e, stays) in
          subst (Steady w max s) same (record {
            held = refl;
            ordered = o;
            shape = refl;
            timeline = refl;
            current_reqnb = refl;
          })
      go (some req) k =
          let goes : agios_release_request now id type len offset s
              ≡ release_found now id type req (get_hashtable_position id) s =
            rw (agios_release_request, k) refl in
          release_found-Steady req (get_hashtable_position id) s s' r (cc (e, goes)) o
