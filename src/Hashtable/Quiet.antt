-- ===== src/Hashtable/Quiet.antt =====
-- Writes to a file or a queue of the table that leave the lists of requests alone: counters and
-- statistics.
use agios.Common.{ℕ, ◌≡◌, refl, sym, ◌∙◌, All, length}
use mathlib.Core.Path.{subst}
use agios.Request.{FileId, Request, RequestType, rt_read, rt_write, Queued, Queue, File}
use agios.Lines.{update_queue}
use agios.State.{State, change_file}
use agios.Hashtable.Weight.{file_weight, table_weight, InFile, change_at-All, table_weight-same}
use agios.Hashtable.Insert.{change_at-Rises}
use agios.Hashtable.Enter.{IsOrdered, length-change_at}
use agios.Aggregation.Insertion.{Fits}

pub record KeepsLists (change : File → File) : Type 0 where
  pub handle : (f : File) → (change f).file_id ≡ f.file_id
  pub reads : (f : File) → ((change f).read_queue).list ≡ (f.read_queue).list
  pub writes : (f : File) → ((change f).write_queue).list ≡ (f.write_queue).list

pub update_queue-KeepsLists :
    (type : RequestType) (change : Queue → Queue)
    → ((q : Queue) → (change q).list ≡ q.list)
    → KeepsLists (update_queue type change)
update_queue-KeepsLists rt_read change h = record {
  handle = λ f. refl;
  reads = λ f. h f.read_queue;
  writes = λ f. refl;
}
update_queue-KeepsLists rt_write change h = record {
  handle = λ f. refl;
  reads = λ f. refl;
  writes = λ f. h f.write_queue;
}

-- What such writes keep of the state.
pub record Steady (w : Request → ℕ) (max : ℕ) (s s' : State) : Type 0 where
  pub held : table_weight w s'.hashlist ≡ table_weight w s.hashlist
  pub ordered : IsOrdered max s'.hashlist
  pub shape : length s'.hashlist ≡ length s.hashlist
  pub timeline : s'.timeline ≡ s.timeline
  pub current_reqnb : s'.current_reqnb ≡ s.current_reqnb

pub Steady-next :
    (w : Request → ℕ) (max : ℕ) (a b c : State)
    → Steady w max a b
    → Steady w max b c
    → Steady w max a c
Steady-next w max a b c h k = record {
  held = k.held ∙ h.held;
  ordered = k.ordered;
  shape = k.shape ∙ h.shape;
  timeline = k.timeline ∙ h.timeline;
  current_reqnb = k.current_reqnb ∙ h.current_reqnb;
}

keeps-InFile :
    (P : Queued → Type 0) (change : File → File)
    → KeepsLists change
    → (f : File) → InFile P f
    → InFile P (change f)
keeps-InFile P change k f h =
    (subst (All P) (sym (k.reads f)) h.0, subst (All P) (sym (k.writes f)) h.1)

keeps-weight :
    (w : Request → ℕ) (change : File → File)
    → KeepsLists change
    → (f : File) → file_weight w (change f) ≡ file_weight w f
keeps-weight w change k f = rw (k.reads f, k.writes f) refl

pub change_file-Steady :
    (w : Request → ℕ) (max hash : ℕ) (id : FileId) (change : File → File) (s : State)
    → KeepsLists change
    → IsOrdered max s.hashlist
    → Steady w max s (change_file hash id change s)
change_file-Steady w max hash id change s k o = record {
  held = table_weight-same w id change (keeps-weight w change k) s.hashlist hash;
  ordered = record {
    rises = change_at-Rises id change k.handle s.hashlist hash o.rises;
    fits =
        change_at-All (InFile (Fits max)) id change (keeps-InFile (Fits max) change k) s.hashlist
          hash o.fits;
  };
  shape = length-change_at _ s.hashlist hash;
  timeline = refl;
  current_reqnb = refl;
}
