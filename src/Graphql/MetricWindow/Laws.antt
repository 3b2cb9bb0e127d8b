-- ===== src/Graphql/MetricWindow/Laws.antt =====
-- Which points a window of the ring has.
use better_unraid_mcp.Base.{
  ℕ, zero, suc, ◌*◌, ◌/◌, ◌≤◌, inl, inr, List, [], ◌∷◌, map, Option, none, some, All, Bool-cases,
  leb, leb→le, arith,
}
use better_unraid_mcp.Graphql.MetricRing.{bucket_ms, bucket_capacity, Slot, Ring}
use better_unraid_mcp.Graphql.MetricWindow.{
  HistoryPoint, to_point, add_recent, recent_slots, insert_slot, sort_slots, window,
}

-- The points are in order, and each begins at the window's first bucket or later.
abbrev pub IsAscending : {V : Type 0} → ℕ → List (HistoryPoint V) → Type 0
IsAscending first_ms [] = Unit
IsAscending first_ms (p ∷ points) =
    (first_ms ≤ p.bucket_start_ms) × IsAscending p.bucket_start_ms points

-- The same of slots.
abbrev Ascending : {V : Type 0} → ℕ → List (Slot V) → Type 0
Ascending first [] = Unit
Ascending first (s ∷ slots) = (first ≤ s.bucket_index) × Ascending s.bucket_index slots

insert-Ascending :
    {V : Type 0} (first : ℕ) (slot : Slot V) (slots : List (Slot V))
    → first ≤ slot.bucket_index
    → Ascending first slots
    → Ascending first (insert_slot slot slots)
unfolding insert_slot
insert-Ascending first slot [] l h = (l, tt)
insert-Ascending first slot (s ∷ slots) l (k, h) =
    elim (Bool-cases (leb slot.bucket_index s.bucket_index)) [
      | inl e ↦ rw e (l, (leb→le _ _ e, h))
      | inr e ↦ rw e (k, insert-Ascending s.bucket_index slot slots (ground arith) h)
    ]

sort-Ascending :
    {V : Type 0} (first : ℕ) (slots : List (Slot V))
    → All (λ s. first ≤ s.bucket_index) slots
    → Ascending first (sort_slots slots)
unfolding sort_slots
sort-Ascending first [] h = tt
sort-Ascending first (s ∷ slots) (l, h) =
    insert-Ascending first s (sort_slots slots) l (sort-Ascending first slots h)

add_recent-All :
    {V : Type 0} (first : ℕ) (slot : Option (Slot V)) (slots : List (Slot V))
    → All (λ s. first ≤ s.bucket_index) slots
    → All (λ s. first ≤ s.bucket_index) (add_recent first slot slots)
unfolding add_recent
add_recent-All first none slots h = h
add_recent-All first (some slot) slots h = elim (Bool-cases (leb first slot.bucket_index)) [
  | inl e ↦ rw e (leb→le _ _ e, h)
  | inr e ↦ rw e h
]

recent-All :
    {V : Type 0} (first n : ℕ) (ring : Ring V)
    → All (λ s. first ≤ s.bucket_index) (recent_slots first n ring)
unfolding recent_slots
recent-All first zero ring = tt
recent-All first (suc n) ring = add_recent-All first (ring n) _ (recent-All first n ring)

points-IsAscending :
    {V : Type 0} (average : V → ℕ → V) (first : ℕ) (slots : List (Slot V))
    → Ascending first slots
    → IsAscending (first * bucket_ms) (map (to_point average) slots)
unfolding to_point
points-IsAscending average first [] h = tt
points-IsAscending average first (s ∷ slots) (l, h) =
    (omega (arith, l), points-IsAscending average s.bucket_index slots h)

-- The points of a window ascend in time, and none begins before the bucket in which the window
-- starts, whatever the ring holds.
pub window-IsAscending :
    {V : Type 0} (average : V → ℕ → V) (since_ms : ℕ) (ring : Ring V)
    → IsAscending (since_ms / bucket_ms * bucket_ms) (window average since_ms ring)
unfolding window
window-IsAscending average since_ms ring = points-IsAscending average (since_ms / bucket_ms) _ (
    sort-Ascending (since_ms / bucket_ms) _
      (recent-All (since_ms / bucket_ms) bucket_capacity ring))
