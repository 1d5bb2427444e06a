-- ===== src/Performance.antt =====
-- src/performance.c: one entry for each of the last selections of a scheduling algorithm. The list
-- is held with the newest entry first, which is `current_performance_entry`; no entry stands for a
-- pointer to freed memory. An outcome `none` is such an access.
use agios.Common.{
  ℕ, zero, suc, ◌+◌, ◌-◌, ◌≤◌, ◌<◌, ◌≡◌, refl, ◌∙◌, sym, ap, inl, inr, List, [], ◌∷◌, ◌++◌, Option,
  none, some, Bool, true, false, arith, ltb, if◌then◌else◌, length, take, drop_last,
  length-drop_last, take_long, take-drop_last, take_all, All, Bool-cases,
}
use agios.Common.Int.{ℤ, pos, pos_part, ◌+ℤ◌, ◌-ℤ◌}
use agios.Request.{Timespec}
use agios.CommonFunctions.{get_timespec2long}
use agios.Statistics.{average}

pub record PerformanceEntry : Type 0 where
  pub timestamp : ℕ
  pub alg : ℕ
  pub bandwidth : ℤ
  pub size : ℤ
  pub reqnb : ℤ

pub record Performance : Type 0 where
  pub performance_info : List PerformanceEntry
  pub performance_info_len : ℕ
  pub agios_processed_reqnb : ℤ

-- The loop that removes the oldest entries; the list must not be empty in a round.
unfoldable remove_oldest : (rounds : ℕ) → List PerformanceEntry → Option (List PerformanceEntry)
remove_oldest zero es = some es
remove_oldest (suc n) [] = none
remove_oldest (suc n) (e ∷ es) = remove_oldest n (drop_last (e ∷ es))

-- `while (performance_info_len > config_agios_performance_values)`: the rounds are the excess.
abbrev excess : ℕ → ℤ → ℕ
excess len values = pos_part (pos len -ℤ values)

abbrev pub new_entry : Timespec → ℕ → PerformanceEntry
new_entry now alg = record {
  timestamp = get_timespec2long now;
  alg = alg;
  bandwidth = pos 0;
  size = pos 0;
  reqnb = pos 0;
}

abbrev trimmed : ℕ → Option (List PerformanceEntry) → Option (Bool × Performance)
trimmed len none = none
trimmed len (some es) = some (
  true,
  record { performance_info = es; performance_info_len = len; agios_processed_reqnb = pos 0 },
)

unfoldable pub performance_set_new_algorithm :
    (allocated : Bool) (values : ℤ) → Timespec → ℕ → Performance → Option (Bool × Performance)
unfolding remove_oldest get_timespec2long
performance_set_new_algorithm false values now alg p = some (false, p)
performance_set_new_algorithm true values now alg p =
    let len : ℕ = p.performance_info_len + 1 in
    let rounds : ℕ = excess len values in
    trimmed (pos_part (pos len -ℤ pos rounds))
      (remove_oldest rounds (new_entry now alg ∷ p.performance_info))

pub get_current_performance_bandwidth : Performance → Option ℤ
get_current_performance_bandwidth p = elim p.performance_info [
  | [] ↦ none
  | e ∷ es ↦ some e.bandwidth
]

-- The walk of `get_request_entry` from the newest entry to the oldest.
unfoldable pub walk : (dispatch_timestamp : ℕ) → List PerformanceEntry → Option PerformanceEntry
walk d [] = none
walk d (e ∷ es) = if ltb d e.timestamp then walk d es else some e

abbrev pub get_request_entry : Performance → ℕ → Option PerformanceEntry
get_request_entry p dispatch_timestamp = walk dispatch_timestamp p.performance_info

-- What `agios_release_request` does to the entry that `get_request_entry` finds.
abbrev pub credit_entry : (len : ℕ) (this_bandwidth : ℤ) → PerformanceEntry → PerformanceEntry
credit_entry len bandwidth e = record e {
  reqnb = e.reqnb +ℤ pos 1;
  size = e.size +ℤ pos len;
  bandwidth = average e.bandwidth bandwidth (e.reqnb +ℤ pos 1);
}

unfoldable pub credit_walk : ℕ → ℕ → ℤ → List PerformanceEntry → List PerformanceEntry
credit_walk d len bandwidth [] = []
credit_walk d len bandwidth (e ∷ es) =
    if ltb d e.timestamp
    then e ∷ credit_walk d len bandwidth es
    else credit_entry len bandwidth e ∷ es

-- The update of the global figures at a release; `none` if there is no current entry to start from.
unfoldable pub credit_release : ℕ → ℕ → ℤ → Performance → Option Performance
unfolding credit_walk
credit_release d len bandwidth p = elim p.performance_info [
  | [] ↦ none
  | e ∷ es ↦ some (record p {
    performance_info = credit_walk d len bandwidth (e ∷ es);
    agios_processed_reqnb =
        if ltb d e.timestamp then p.agios_processed_reqnb else p.agios_processed_reqnb +ℤ pos 1;
  })
]

take_of_length : (k : ℕ) (es : List PerformanceEntry) → length es ≡ k → take k es ≡ es
take_of_length k es e = rw (← e) (take_all es)

-- A loop of the right number of rounds keeps the newest entries.
remove_oldest-take :
    (rounds keep : ℕ) (es : List PerformanceEntry)
    → length es ≡ rounds + keep
    → remove_oldest rounds es ≡ some (take keep es)
unfolding remove_oldest
remove_oldest-take zero keep es h = ap some (sym (take_of_length keep es (omega arith)))
remove_oldest-take (suc n) keep [] h = absurd (omega arith)
remove_oldest-take (suc n) keep (e ∷ es) h =
    remove_oldest-take n keep (drop_last (e ∷ es)) (omega (arith, length-drop_last e es))
    ∙ ap some (take-drop_last keep (e ∷ es) (omega arith))

remove_oldest_empty :
    (rounds : ℕ) (es : List PerformanceEntry) → length es < rounds → remove_oldest rounds es ≡ none
unfolding remove_oldest
remove_oldest_empty zero es h = absurd (omega arith)
remove_oldest_empty (suc n) [] h = refl
remove_oldest_empty (suc n) (e ∷ es) h =
    remove_oldest_empty n (drop_last (e ∷ es)) (omega (arith, length-drop_last e es))

abbrev kept : ℕ → ℕ → ℕ
kept len values = if ltb values len then values else len

excess_parts :
    (len values : ℕ)
    → (excess len (pos values) ≡ len - values)
      × (pos_part (pos len -ℤ pos (len - values)) ≡ kept len values)
unfolding ◌-ℤ◌
excess_parts len values = (ground arith, ground arith)

kept_entries :
    (values : ℕ) (es : List PerformanceEntry)
    → remove_oldest (length es - values) es ≡ some (take values es)
unfolding remove_oldest
kept_entries values es = elim (Bool-cases (ltb values (length es))) [
  | inl more ↦ remove_oldest-take (length es - values) values es (ground arith)
  | inr fits ↦
      let z : length es - values ≡ 0 = ground arith in
      rw z (ap some (sym (take_long values es (ground arith))))
]

-- The new selection is put at the front of the entries, and the newest of them are kept, as many as
-- the configuration says; the counter of processed requests starts again. (If the configuration says
-- 0, no entry is left, and `current_performance_entry` points at freed memory.)
pub performance_set_new_algorithm_lem :
    (values : ℕ) (now : Timespec) (alg : ℕ) (p : Performance)
    → p.performance_info_len ≡ length p.performance_info
    → performance_set_new_algorithm true (pos values) now alg p
      ≡ some (
        true,
        record {
          performance_info = take values (new_entry now alg ∷ p.performance_info);
          performance_info_len = kept (p.performance_info_len + 1) values;
          agios_processed_reqnb = pos 0;
        },
      )
unfolding performance_set_new_algorithm
performance_set_new_algorithm_lem values now alg p e =
    let x = excess_parts (p.performance_info_len + 1) values in
    let y : p.performance_info_len + 1 - values
        ≡ length (new_entry now alg ∷ p.performance_info) - values =
      omega arith in
    rw (x.0, x.1, y, kept_entries values (new_entry now alg ∷ p.performance_info)) refl

-- What the search for the entry of a request finds: the newest one that is not newer than the
-- dispatch of the request.
abbrev pub Newest : ℕ → List PerformanceEntry → Option PerformanceEntry → Type 0
Newest d es none = All (λ e. d < e.timestamp) es
Newest d es (some e) =
    (newer : List PerformanceEntry) × (older : List PerformanceEntry) × (es ≡ newer ++ (e ∷ older))
    × All (λ x. d < x.timestamp) newer
    × (e.timestamp ≤ d)

Newest-cons :
    (d : ℕ) (e : PerformanceEntry) (es : List PerformanceEntry) (o : Option PerformanceEntry)
    → d < e.timestamp
    → Newest d es o
    → Newest d (e ∷ es) o
Newest-cons d e es none h n = (h, n)
Newest-cons d e es (some x) h n = (e ∷ n.0, n.1, ap (◌∷◌ e) n.2, (h, n.3), n.4)

walk-Newest : (d : ℕ) (es : List PerformanceEntry) → Newest d es (walk d es)
unfolding walk
walk-Newest d [] = tt
walk-Newest d (e ∷ es) = elim (Bool-cases (ltb d e.timestamp)) [
  | inl newer ↦ rw newer (Newest-cons d e es (walk d es) (ground arith) (walk-Newest d es))
  | inr found ↦ rw found ([], es, refl, tt, ground arith)
]

-- A request is credited to the newest entry that was there when it was dispatched, and to none if
-- all entries are newer than that.
pub get_request_entry-Newest :
    (p : Performance) (d : ℕ) → Newest d p.performance_info (get_request_entry p d)
get_request_entry-Newest p d = walk-Newest d p.performance_info

-- A release credits the newest entry that is not newer than the dispatch of the request, and changes
-- no other entry.
pub credit_walk-eq :
    (d len : ℕ) (bandwidth : ℤ) (e : PerformanceEntry) (newer older : List PerformanceEntry)
    → All (λ x. d < x.timestamp) newer
    → e.timestamp ≤ d
    → credit_walk d len bandwidth (newer ++ (e ∷ older))
      ≡ newer ++ (credit_entry len bandwidth e ∷ older)
unfolding credit_walk
credit_walk-eq d len bandwidth e [] older h k =
    let stop : ltb d e.timestamp ≡ false = ground arith in rw stop refl
credit_walk-eq d len bandwidth e (x ∷ xs) older h k =
    let go : ltb d x.timestamp ≡ true = ground arith in
    rw go (ap (◌∷◌ x) (credit_walk-eq d len bandwidth e xs older h.1 k))
