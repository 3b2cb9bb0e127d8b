-- ===== src/Graphql/MetricRing/Refinement.antt =====
-- The ring against a table that keeps every bucket for ever.
use better_unraid_mcp.Base.{
  ℕ, ◌/◌, ◌≡◌, refl, ◌∙◌, ap, subst, inl, inr, Text, List, [], ◌∷◌, false, Option, none, some, All,
  Bool-cases, ◌==◌, ==_iff, if◌then◌else◌, arith,
}
use better_unraid_mcp.Graphql.MetricRing.{
  bucket_ms, Values, Slot, Series, Ring, empty_ring, fold_all, current_series, add,
}
use better_unraid_mcp.Graphql.MetricRing.Laws.{
  add_all, position, put_slot-here, put_slot-other, same_position, IsNear,
}

-- What the slot at a bucket's position holds of that bucket.
abbrev series_in : {V : Type 0} → ℕ → Option (Slot V) → Option (Series V)
series_in bucket none = none
series_in bucket (some slot) = if slot.bucket_index == bucket then some slot.series else none

abbrev pub held : {V : Type 0} → ℕ → Ring V → Option (Series V)
held bucket ring = series_in bucket (ring (position bucket))

abbrev pub or_none : {V : Type 0} → Option (Series V) → Series V
or_none none = []
or_none (some series) = series

-- The table's entry of a bucket: all samples of that bucket, folded in the order of their arrival.
abbrev pub tabled : {V : Type 0} → Values V → ℕ → List (List (Text × V) × ℕ) → Option (Series V)
tabled ops bucket [] = none
tabled ops bucket ((values, at_ms) ∷ earlier) =
    let before = tabled ops bucket earlier in
    if at_ms / bucket_ms == bucket then some (fold_all ops values (or_none before)) else before

current-held :
    {V : Type 0} (bucket : ℕ) (slot : Option (Slot V))
    → current_series bucket slot ≡ or_none (series_in bucket slot)
unfolding current_series
current-held bucket none = refl
current-held bucket (some slot) = elim (Bool-cases (slot.bucket_index == bucket)) [
  | inl e ↦ rw e refl
  | inr e ↦ rw e refl
]

held-add_here :
    {V : Type 0} (ops : Values V) (values : List (Text × V)) (at_ms : ℕ) (ring : Ring V)
    → held (at_ms / bucket_ms) (add ops values at_ms ring)
      ≡ some (fold_all ops values (or_none (held (at_ms / bucket_ms) ring)))
unfolding add
held-add_here ops values at_ms ring =
    let bucket = at_ms / bucket_ms in
    rw (put_slot-here (position bucket) _ ring)
      (rw ((==_iff bucket bucket).1 refl) (rw (current-held bucket (ring (position bucket))) refl))

held-add_other :
    {V : Type 0} (ops : Values V) (values : List (Text × V)) (bucket at_ms : ℕ) (ring : Ring V)
    → IsNear bucket at_ms
    → (at_ms / bucket_ms == bucket) ≡ false
    → held bucket (add ops values at_ms ring) ≡ held bucket ring
unfolding add
held-add_other ops values bucket at_ms ring (l, m) d =
    ap (series_in bucket)
      (put_slot-other (position (at_ms / bucket_ms)) (position bucket) _ ring apart)
  where
    apart : (position bucket == position (at_ms / bucket_ms)) ≡ false
    apart = elim (Bool-cases (position bucket == position (at_ms / bucket_ms))) [
      | inr e ↦ e
      | inl e ↦
          let same : bucket ≡ at_ms / bucket_ms =
            same_position bucket (at_ms / bucket_ms) m l ((==_iff _ _).0 e) in
          absurd (ground (arith, same, d))
    ]

-- For a bucket from which all samples that arrived, in any order, are less than 24 hours of buckets away,
-- the ring holds exactly what the unbounded table has: the samples of that bucket folded in the order of
-- their arrival, or nothing if there was none.
pub held-Refines :
    {V : Type 0} (ops : Values V) (bucket : ℕ) (samples : List (List (Text × V) × ℕ))
    → All (λ s. IsNear bucket s.1) samples
    → held bucket (add_all ops samples empty_ring) ≡ tabled ops bucket samples
unfolding add_all empty_ring
held-Refines ops bucket [] h = refl
held-Refines ops bucket ((values, at_ms) ∷ earlier) (near, rest) =
    elim (Bool-cases (at_ms / bucket_ms == bucket)) [
      | inr e ↦
          rw e
            (held-add_other ops values bucket at_ms _ near e ∙ held-Refines ops bucket earlier rest)
      | inl e ↦
          let same : at_ms / bucket_ms ≡ bucket = (==_iff _ _).0 e in
          rw e (
            subst
              (λ b.
                held b (add ops values at_ms (add_all ops earlier empty_ring))
                ≡ some (fold_all ops values (or_none (held b (add_all ops earlier empty_ring)))))
              same (held-add_here ops values at_ms (add_all ops earlier empty_ring))
            ∙ ap (λ found. some (fold_all ops values (or_none found)))
                (held-Refines ops bucket earlier rest))
    ]
