-- ===== src/TimeoutTracking/Counts.antt =====
-- The counters of frontik/timeout_tracking.py as a summary of the events that were recorded.
use Prim.Native.Nat.{max}
use frontik.Prelude.{
  ℕ, suc, ◌+◌, ◌≡◌, ◌↔◌, refl, String, true, List, [], ◌∷◌, Option, none, some, if◌then◌else◌,
  arith, eq_iff, Bool-cases, inl, inr, ◌∙◌,
}
use frontik.TimeoutTracking.{
  LoggingData, same_text, same_data, TimeoutCounter, get_item, set_item, increment,
}

same_text_iff : (a b : Option String) → (same_text a b ≡ true) ↔ (a ≡ b)
unfolding same_text
same_text_iff none none = ground arith
same_text_iff none (some b) = ground arith
same_text_iff (some a) none = ground arith
same_text_iff (some a) (some b) = ground (arith, eq_iff a b)

-- Two events fall under one counter exactly when they agree in every field.
pub same_data_iff : (a b : LoggingData) → (same_data a b ≡ true) ↔ (a ≡ b)
unfolding same_data
same_data_iff a b = ground (
  arith,
  same_text_iff a.outer_caller b.outer_caller,
  same_text_iff a.handler_name b.handler_name,
  eq_iff a.upstream b.upstream,
)

get_item-set_item :
    (counters : TimeoutCounter) (k j : LoggingData) (v : ℕ × ℕ)
    → get_item (set_item counters k v) j ≡ (if same_data k j then v else get_item counters j)
unfolding get_item set_item
get_item-set_item [] k j v = refl
get_item-set_item ((i, w) ∷ counters) k j v = ground (
  arith,
  get_item-set_item counters k j v,
  same_data_iff i k,
  same_data_iff i j,
  same_data_iff k j,
)

-- What was recorded, oldest first, and how the counters sum it up.
abbrev pub record_all : TimeoutCounter → List (LoggingData × ℕ) → TimeoutCounter
record_all counters [] = counters
record_all counters ((k, spent) ∷ events) = record_all (increment counters k spent) events

abbrev pub count_of : LoggingData → List (LoggingData × ℕ) → ℕ
count_of k [] = 0
count_of k ((j, spent) ∷ events) =
    if same_data j k then suc (count_of k events) else count_of k events

abbrev pub longest_of : LoggingData → List (LoggingData × ℕ) → ℕ
longest_of k [] = 0
longest_of k ((j, spent) ∷ events) =
    if same_data j k then max spent (longest_of k events) else longest_of k events

get_item-increment :
    (counters : TimeoutCounter) (k j : LoggingData) (spent : ℕ)
    → get_item (increment counters j spent) k ≡ (
        if same_data j k
        then ((get_item counters k).0 + 1, max spent (get_item counters k).1)
        else get_item counters k)
unfolding increment
get_item-increment counters k j spent = elim (Bool-cases (same_data j k)) [
  | inl same ↦ get_item-set_item counters j k _ ∙ rw same (rw ((same_data_iff j k).0 same))
  | inr other ↦ get_item-set_item counters j k _ ∙ rw other
]

-- After any events, the counter of a key holds the number of its events, on top of what was counted
-- before, and the longest time spent among them and what was held before.
pub get_item-record_all :
    (counters : TimeoutCounter) (events : List (LoggingData × ℕ)) (k : LoggingData)
    → get_item (record_all counters events) k ≡ (
      (get_item counters k).0 + count_of k events,
      max (get_item counters k).1 (longest_of k events),
    )
get_item-record_all counters [] k = ground arith
get_item-record_all counters ((j, spent) ∷ events) k =
    let ih = get_item-record_all (increment counters j spent) events k in
    let step = get_item-increment counters k j spent in ground (arith, ih, step)
