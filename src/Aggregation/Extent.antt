-- ===== src/Aggregation/Extent.antt =====
-- The range of bytes of a virtual request (src/agios_add_request.c, `include_in_aggregation`).
use agios.Common.{ℕ, ◌+◌, ◌≤◌, ◌<◌, ◌≡◌, ◌↔◌, ◌⊎◌, arith, if◌then◌else◌, leb}
use agios.Request.{Request, Queued}
use agios.Aggregation.{include_in_aggregation}

abbrev pub Covers : (into : Queued) (offset len : ℕ) → Type 0
Covers into offset len = (into.offset ≤ offset) × (offset + len ≤ into.offset + into.len)

-- The range after an inclusion starts at the lower of the two offsets, and ends where the part ends
-- that was taken for the later one.
pub include_extent :
    (g : ℕ) (r : Request) (q : Queued)
    → let v = (include_in_aggregation g r q).0 in
      (v.offset ≡ (if leb r.offset q.offset then r.offset else q.offset))
      × (v.offset + v.len ≡ (if leb r.offset q.offset then q.offset + q.len else r.offset + r.len))
unfolding include_in_aggregation
include_extent g r q = ground arith

-- The virtual request covers both of its parts exactly when neither lies inside the other in the way
-- that the code does not expect: a request included at the front must not end behind the rest, and
-- one included at the end must not end before it.
pub include-Covers_iff :
    (g : ℕ) (r : Request) (q : Queued)
    → (Covers (include_in_aggregation g r q).0 q.offset q.len
        × Covers (include_in_aggregation g r q).0 r.offset r.len)
      ↔ (((r.offset ≤ q.offset) × (r.offset + r.len ≤ q.offset + q.len))
          ⊎ ((q.offset < r.offset) × (q.offset + q.len ≤ r.offset + r.len)))
include-Covers_iff g r q =
    (λ h. ground (arith, include_extent g r q), λ h. ground (arith, include_extent g r q))
