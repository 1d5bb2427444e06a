-- ===== src/Lines.antt =====
-- The lines of the hash table: lists of files in the order of their handles (src/req_hashtable.c,
-- and `find_req_file` of src/agios_add_request.c). A pointer to a file is its handle.
pub mod Order
pub mod Search
use agios.Common.{
  ℕ, zero, ◌+◌, ◌≡◌, refl, ◌≢◌, List, [], ◌∷◌, Option, none, some, Bool, true, false, arith,
  if◌then◌else◌,
}
use agios.Common.Int.{ℤ, pos, negsuc, ◌+ℤ◌}
use agios.Common.Text.{
  strcmp, negative, null, positive, same_string, Before, Before-trans, Before-of_positive,
  strcmp_self, eq_of_strcmp,
}
use agios.Request.{FileId, File, Queue, RequestType, rt_read, rt_write, file_constructor}

-- The search of `agios_release_request` and `agios_cancel_request`.
unfoldable pub lookup_file : FileId → List File → Option File
lookup_file id [] = none
lookup_file id (f ∷ fs) = if same_string f.file_id id then some f else lookup_file id fs

-- A write through a pointer to a file.
unfoldable pub update_file : FileId → (File → File) → List File → List File
update_file id change [] = []
update_file id change (f ∷ fs) =
    if same_string f.file_id id then change f ∷ fs else f ∷ update_file id change fs

abbrev pub put_before : List File → Option File → Option (List File)
put_before fs none = none
put_before fs (some new) = some (new ∷ fs)

abbrev pub keep_first : File → Option (List File) → Option (List File)
keep_first f none = none
keep_first f (some fs) = some (f ∷ fs)

-- The line with the file in its place; `none` if there is no memory for a new one.
unfoldable pub find_or_insert : (allocated copied : Bool) → List File → FileId → Option (List File)
unfolding file_constructor
find_or_insert allocated copied [] id = put_before [] (file_constructor allocated copied id)
find_or_insert allocated copied (f ∷ fs) id = elim (strcmp f.file_id id) [
  | negative ↦ keep_first f (find_or_insert allocated copied fs id)
  | null ↦ some (f ∷ fs)
  | positive ↦ put_before (f ∷ fs) (file_constructor allocated copied id)
]

abbrev pub is_zero : ℤ → Bool
is_zero (pos zero) = true
is_zero _ = false

abbrev pub idle_file : Option File → Bool
idle_file none = false
idle_file (some f) = is_zero f.timeline_reqnb

-- A file with no request waiting is counted anew in `current_filenb`.
abbrev pub count_file : FileId → ℤ → Option (List File) → Option (List File × ℤ)
count_file id filenb none = none
count_file id filenb (some line) =
    some (line, if idle_file (lookup_file id line) then filenb +ℤ pos 1 else filenb)

-- The line and `current_filenb` after the call.
unfoldable pub find_req_file :
    (allocated copied : Bool) → List File → FileId → (current_filenb : ℤ) → Option (List File × ℤ)
unfolding find_or_insert lookup_file
find_req_file allocated copied line id filenb =
    count_file id filenb (find_or_insert allocated copied line id)

-- The queue that `globalinfo` points at.
abbrev pub queue_of : RequestType → File → Queue
queue_of rt_read f = f.read_queue
queue_of rt_write f = f.write_queue

abbrev pub update_queue : RequestType → (Queue → Queue) → File → File
update_queue rt_read change f = record f { read_queue = change f.read_queue }
update_queue rt_write change f = record f { write_queue = change f.write_queue }

-- The handles of a line rise, and stand above `lo`.
abbrev pub RisesFrom : FileId → List File → Type 0
RisesFrom lo [] = Unit
RisesFrom lo (f ∷ fs) = Before lo f.file_id × RisesFrom f.file_id fs

abbrev pub Rises : List File → Type 0
Rises [] = Unit
Rises (f ∷ fs) = RisesFrom f.file_id fs
