-- ===== src/Graphql/MetricRing/Laws.antt =====
-- How long the ring keeps a bucket, and where buckets stand.
use better_unraid_mcp.Base.{
  ℕ, ◌+◌, ◌/◌, ◌%◌, ◌<◌, ◌≡◌, refl, sym, ◌∙◌, subst, ap, inl, inr, Text, List, [], ◌∷◌, false,
  Option, none, some, All, Bool-cases, ◌==◌, ==_iff, arith,
}
use better_unraid_mcp.Graphql.MetricRing.{
  bucket_ms, bucket_capacity, Values, Slot, Ring, empty_ring, put_slot, add,
}

-- Samples with their times, the last first.
unfoldable pub add_all : {V : Type 0} → Values V → List (List (Text × V) × ℕ) → Ring V → Ring V
add_all ops [] ring = ring
add_all ops ((values, at_ms) ∷ earlier) ring = add ops values at_ms (add_all ops earlier ring)

abbrev pub position : ℕ → ℕ
position bucket = bucket % bucket_capacity

pub put_slot-here :
    {V : Type 0} (p : ℕ) (slot : Slot V) (ring : Ring V) → put_slot p slot ring p ≡ some slot
unfolding put_slot
put_slot-here p slot ring = rw ((==_iff p p).1 refl) refl

pub put_slot-other :
    {V : Type 0} (p q : ℕ) (slot : Slot V) (ring : Ring V)
    → (q == p) ≡ false
    → put_slot p slot ring q ≡ ring q
unfolding put_slot
put_slot-other p q slot ring e = rw e refl

pub same_position : (a b : ℕ) → a < b + 2880 → b < a + 2880 → a % 2880 ≡ b % 2880 → a ≡ b
same_position a b l m e = omega (arith, e)

-- The bucket is present.
abbrev pub Holds : {V : Type 0} → ℕ → Ring V → Type 0
Holds bucket ring = (slot : _) × (ring (position bucket) ≡ some slot) × (slot.bucket_index ≡ bucket)

-- The sample is at most one retention window away from the bucket.
abbrev pub IsNear : ℕ → ℕ → Type 0
IsNear bucket at_ms =
    (at_ms / bucket_ms < bucket + bucket_capacity) × (bucket < at_ms / bucket_ms + bucket_capacity)

add-Holds :
    {V : Type 0} (ops : Values V) (values : List (Text × V)) (bucket at_ms : ℕ) (ring : Ring V)
    → IsNear bucket at_ms
    → Holds bucket ring
    → Holds bucket (add ops values at_ms ring)
unfolding add
add-Holds ops values bucket at_ms ring (l, m) (slot, e, i) =
    elim (Bool-cases (position bucket == position (at_ms / bucket_ms))) [
      | inr o ↦
          (slot, put_slot-other (position (at_ms / bucket_ms)) (position bucket) _ ring o ∙ e, i)
      | inl o ↦
          let same : bucket ≡ at_ms / bucket_ms =
            same_position bucket (at_ms / bucket_ms) m l ((==_iff _ _).0 o) in
          subst (λ b. Holds b (add ops values at_ms ring)) (sym same)
            (_, put_slot-here (position (at_ms / bucket_ms)) _ ring, refl)
    ]

-- A bucket stays in the ring while all samples that arrive, in any order, are at most 24 hours of
-- buckets away from it.
pub add_retains :
    {V : Type 0} (ops : Values V) (samples : List (List (Text × V) × ℕ)) (bucket : ℕ)
    (ring : Ring V)
    → All (λ sample. IsNear bucket sample.1) samples
    → Holds bucket ring
    → Holds bucket (add_all ops samples ring)
unfolding add_all
add_retains ops [] bucket ring n h = h
add_retains ops ((values, at_ms) ∷ earlier) bucket ring (n, ns) h =
    add-Holds ops values bucket at_ms _ n (add_retains ops earlier bucket ring ns h)

-- Every slot stands at the position of its bucket, below the capacity.
abbrev pub InPlace : {V : Type 0} → Ring V → Type 0
InPlace ring =
    (p : ℕ) (slot : _)
    → ring p ≡ some slot
    → (slot.bucket_index % bucket_capacity ≡ p) × (p < bucket_capacity)

bucket_of : {V : Type 0} → Option (Slot V) → ℕ
bucket_of none = 0
bucket_of (some slot) = slot.bucket_index

add-InPlace :
    {V : Type 0} (ops : Values V) (values : List (Text × V)) (at_ms : ℕ) (ring : Ring V)
    → InPlace ring
    → InPlace (add ops values at_ms ring)
unfolding add put_slot bucket_of
add-InPlace ops values at_ms ring h p slot e =
    elim (Bool-cases (p == position (at_ms / bucket_ms))) [
      | inr o ↦ h p slot (rw (o, put_slot) at e)
      | inl o ↦
          let here : p ≡ position (at_ms / bucket_ms) = (==_iff _ _).0 o in
          let index : at_ms / bucket_ms ≡ slot.bucket_index =
            ap bucket_of (rw (o, put_slot) at e) in
          (omega (arith, here, ap position index), omega (arith, here))
    ]

-- Whatever samples arrive, every slot of the ring stands at the position of its bucket, below the
-- capacity, so the ring never holds more than 2880 buckets and none twice.
pub ring-InPlace :
    {V : Type 0} (ops : Values V) (samples : List (List (Text × V) × ℕ))
    → InPlace (add_all ops samples empty_ring)
unfolding add_all empty_ring
ring-InPlace ops [] = λ p slot e. ground arith
ring-InPlace ops ((values, at_ms) ∷ earlier) =
    add-InPlace ops values at_ms _ (ring-InPlace ops earlier)
