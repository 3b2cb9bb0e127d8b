-- ===== src/Graphql/MetricWindow.antt =====
-- graphql/metrics-history.ts: the read of a window of the ring, and of a topic's history.
pub mod Laws
use better_unraid_mcp.Base.{
  ℕ, zero, suc, ◌+◌, ◌-◌, ◌*◌, ◌/◌, Text, List, [], ◌∷◌, map, Option, none, some, leb, max, length,
  if◌then◌else◌,
}
use better_unraid_mcp.Graphql.MetricRing.{
  bucket_ms, bucket_capacity, Accumulator, Series, Slot, Ring,
}

abbrev ms_per_minute : ℕ
ms_per_minute = 60000

-- The average is the sum divided by the count, by a division of the values.
pub record SeriesStats (V : Type 0) : Type 0 where
  pub min_value : V
  pub max_value : V
  pub avg : V
  pub count : ℕ

pub record HistoryPoint (V : Type 0) : Type 0 where
  pub bucket_start_ms : ℕ
  pub series : List (Text × SeriesStats V)

stats_of : {V : Type 0} → (V → ℕ → V) → Series V → List (Text × SeriesStats V)
stats_of average [] = []
stats_of average ((name, acc) ∷ series) =
    (
      name,
      record {
        min_value = acc.min_value;
        max_value = acc.max_value;
        avg = average acc.sum acc.count;
        count = acc.count;
      },
    )
    ∷ stats_of average series

pub to_point : {V : Type 0} → (V → ℕ → V) → Slot V → HistoryPoint V
unfolding stats_of
to_point average slot = record {
  bucket_start_ms = slot.bucket_index * bucket_ms;
  series = stats_of average slot.series;
}

-- The slots below a position that hold a bucket from `first_index` on.
add_recent : {V : Type 0} → ℕ → Option (Slot V) → List (Slot V) → List (Slot V)
add_recent first_index none slots = slots
add_recent first_index (some slot) slots =
    if leb first_index slot.bucket_index then slot ∷ slots else slots

pub recent_slots : {V : Type 0} → ℕ → ℕ → Ring V → List (Slot V)
unfolding add_recent
recent_slots first_index zero ring = []
recent_slots first_index (suc position) ring =
    add_recent first_index (ring position) (recent_slots first_index position ring)

insert_slot : {V : Type 0} → Slot V → List (Slot V) → List (Slot V)
insert_slot slot [] = slot ∷ []
insert_slot slot (s ∷ slots) =
    let rest = insert_slot slot slots in
    if leb slot.bucket_index s.bucket_index then slot ∷ s ∷ slots else s ∷ rest

-- The sort by `bucketIndex`; no two slots hold the same bucket.
pub sort_slots : {V : Type 0} → List (Slot V) → List (Slot V)
unfolding insert_slot
sort_slots [] = []
sort_slots (slot ∷ slots) = insert_slot slot (sort_slots slots)

-- `MetricRingBuffer.window`
pub window : {V : Type 0} → (V → ℕ → V) → ℕ → Ring V → List (HistoryPoint V)
window average since_ms ring =
    map (to_point average) (sort_slots (recent_slots (since_ms / bucket_ms) bucket_capacity ring))

pub record HistoryWindow (V : Type 0) : Type 0 where
  pub points : List (HistoryPoint V)
  pub gaps : ℕ
  pub expected_buckets : ℕ

pub since_start : ℕ → ℕ → Option ℕ → ℕ
since_start now window_minutes none = now - window_minutes * ms_per_minute
since_start now window_minutes (some started_at) =
    max (now - window_minutes * ms_per_minute) started_at

-- `Math.max(1, Math.ceil((now - since) / BUCKET_MS))`
pub expected_in : ℕ → ℕ → ℕ
expected_in now since = max 1 ((now - since + (bucket_ms - 1)) / bucket_ms)

-- `MetricsHistoryRecorder.window` for the ring of a topic. The clock does not go back between its
-- readings.
pub history_window : {V : Type 0} → (V → ℕ → V) → ℕ → ℕ → Option ℕ → Ring V → HistoryWindow V
history_window average now window_minutes started_at ring =
    let since = since_start now window_minutes started_at in
    let points = window average since ring in
    record {
      points = points;
      gaps = expected_in now since - length points;
      expected_buckets = expected_in now since;
    }
