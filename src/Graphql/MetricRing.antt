-- ===== src/Graphql/MetricRing.antt =====
-- graphql/metrics-history.ts: the ring of thirty-second buckets for one topic. The values are of any
-- type with a minimum, a maximum and a sum; the average is formed when a point is read.
pub mod Laws
pub mod Refinement
use better_unraid_mcp.Base.{
  ℕ, zero, suc, ◌+◌, ◌-◌, ◌*◌, ◌/◌, ◌%◌, ◌≡◌, Text, List, [], ◌∷◌, Bool, true, false, Option, none,
  some, text_eq, leb, max, ◌==◌, if◌then◌else◌,
}

abbrev pub bucket_ms : ℕ
bucket_ms = 30000

-- 24 hours in buckets.
abbrev pub bucket_capacity : ℕ
bucket_capacity = 2880

pub record Values (V : Type 0) : Type 0 where
  pub least : V → V → V
  pub greatest : V → V → V
  pub plus : V → V → V

pub record Accumulator (V : Type 0) : Type 0 where
  pub min_value : V
  pub max_value : V
  pub sum : V
  pub count : ℕ

abbrev pub Series : Type 0 → Type 0
Series V = List (Text × Accumulator V)

pub record Slot (V : Type 0) : Type 0 where
  pub bucket_index : ℕ
  pub series : Series V

-- The array of slots, by position.
abbrev pub Ring : Type 0 → Type 0
Ring V = ℕ → Option (Slot V)

unfoldable pub empty_ring : {V : Type 0} → Ring V
empty_ring position = none

pub fold : {V : Type 0} → Values V → Option (Accumulator V) → V → Accumulator V
fold ops none value = record { min_value = value; max_value = value; sum = value; count = 1 }
fold ops (some acc) value = record {
  min_value = ops.least acc.min_value value;
  max_value = ops.greatest acc.max_value value;
  sum = ops.plus acc.sum value;
  count = acc.count + 1;
}

-- `slot.series[name] = fold(slot.series[name], value)`
fold_into : {V : Type 0} → Values V → Text → V → Series V → Series V
unfolding fold
fold_into ops name value [] = (name, fold ops none value) ∷ []
fold_into ops name value ((k, acc) ∷ series) =
    if text_eq k name
    then (k, fold ops (some acc) value) ∷ series
    else (k, acc) ∷ fold_into ops name value series

pub fold_all : {V : Type 0} → Values V → List (Text × V) → Series V → Series V
unfolding fold_into
fold_all ops [] series = series
fold_all ops ((name, value) ∷ values) series = fold_all ops values (fold_into ops name value series)

-- The series that a sample is folded into: those of the slot if it is of the same bucket.
pub current_series : {V : Type 0} → ℕ → Option (Slot V) → Series V
current_series bucket none = []
current_series bucket (some slot) = if slot.bucket_index == bucket then slot.series else []

pub put_slot : {V : Type 0} → ℕ → Slot V → Ring V → Ring V
put_slot position slot ring p = if p == position then some slot else ring p

-- `MetricRingBuffer.add`
pub add : {V : Type 0} → Values V → List (Text × V) → ℕ → Ring V → Ring V
unfolding put_slot
add ops values at_ms ring =
    let bucket = at_ms / bucket_ms in
    let position = bucket % bucket_capacity in
    put_slot position
      (record {
        bucket_index = bucket;
        series = fold_all ops values (current_series bucket (ring position));
      })
      ring
