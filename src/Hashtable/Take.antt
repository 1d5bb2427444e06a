-- ===== src/Hashtable/Take.antt =====
-- A write to one file of the table (src/req_hashtable.c): what leaves the table, and what stays.
use agios.Common.{
  ℕ, ◌+◌, ◌≡◌, refl, ap, ◌∙◌, List, [], ◌∷◌, some, arith, All, total, length, zero, suc,
}
use mathlib.Core.Path.{subst}
use agios.Request.{FileId, Request, RequestType, rt_read, rt_write, Queued, File}
use agios.Lines.{lookup_file, queue_of, update_queue}
use agios.State.{State, row, change_queue}
use agios.Aggregation.Contents.{requests, weight}
use agios.Aggregation.Insertion.{Fits}
use agios.Hashtable.Weight.{table_weight, InFile, change_at-All, table_weight-change}
use agios.Hashtable.Insert.{change_at-Rises, change_at-found}
use agios.Hashtable.Add.{
  update_queue-weight, update_queue-InFile, update_queue-same, queue_of-InFile, with_list,
}
use agios.Hashtable.Enter.{IsOrdered, lookup-All, length-change_at}
use agios.Hashtable.Writes.{HasList}

-- Requests of weight `gone` have left the table, and the rest waits in order.
pub record Leaves (w : Request → ℕ) (max gone : ℕ) (lines lines' : List (List File)) : Type 0 where
  pub held : table_weight w lines ≡ gone + table_weight w lines'
  pub ordered : IsOrdered max lines'
  pub shape : length lines' ≡ length lines

pub Leaves-next :
    (w : Request → ℕ) (max m n : ℕ) {a b c : List (List File)}
    → Leaves w max m a b
    → Leaves w max n b c
    → Leaves w max (m + n) a c
Leaves-next w max m n h k = record {
  held = omega (arith, h.held, k.held);
  ordered = k.ordered;
  shape = k.shape ∙ h.shape;
}

queue_of-with_list :
    (type : RequestType) (reqs : List Queued) (f : File)
    → (queue_of type (update_queue type (with_list reqs) f)).list ≡ reqs
queue_of-with_list rt_read reqs f = refl
queue_of-with_list rt_write reqs f = refl

pub lookup-within :
    (id : FileId) (lines : List (List File)) (hash : ℕ) (f : File)
    → lookup_file id (row lines hash) ≡ some f
    → (Q : File → Type 0) → All (All Q) lines
    → Q f
unfolding lookup_file
lookup-within id [] hash f e Q a = cc
lookup-within id (l ∷ ls) zero f e Q a = lookup-All Q id l f a.0 e
lookup-within id (l ∷ ls) (suc hash) f e Q a = lookup-within id ls hash f e Q a.1

module _ (w : Request → ℕ) (max : ℕ) (hash : ℕ) (id : FileId) (type : RequestType) where
  -- The first request of a queue is taken out of it.
  pub take_head_lem :
      (f : File) (req : Queued) (rest : List Queued) (s : State)
      → lookup_file id (row s.hashlist hash) ≡ some f
      → (queue_of type f).list ≡ req ∷ rest
      → IsOrdered max s.hashlist
      → Fits max req
        × Leaves w max
            (total w (requests req))
            s.hashlist
            (change_queue hash id type (with_list rest) s).hashlist
        × HasList (change_queue hash id type (with_list rest) s).hashlist hash id type rest
  take_head_lem f req rest s found e o =
      let change : File → File = update_queue type (with_list rest) in
      let held = lookup-within id s.hashlist hash f found (InFile (Fits max)) o.fits in
      let fits = subst (All (Fits max)) e (queue_of-InFile (Fits max) type f held) in
      let moved = table_weight-change w id change s.hashlist hash f found in
      let old : weight w (queue_of type f).list ≡ weight w (req ∷ rest) = ap (weight w) e in
      (
        fits.0,
        record {
          held = omega (arith, moved, update_queue-weight w type rest f, old);
          ordered = record {
            rises =
                change_at-Rises id change (update_queue-same type (with_list rest)) s.hashlist hash
                  o.rises;
            fits =
                change_at-All (InFile (Fits max)) id change
                  (λ g k. update_queue-InFile (Fits max) type rest g fits.1 k) s.hashlist hash
                  o.fits;
          };
          shape = length-change_at _ s.hashlist hash;
        },
        (
          change f,
          change_at-found id change (update_queue-same type (with_list rest)) s.hashlist hash f
              found,
          queue_of-with_list type rest f,
        ),
      )
