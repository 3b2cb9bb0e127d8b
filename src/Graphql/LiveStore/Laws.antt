-- ===== src/Graphql/LiveStore/Laws.antt =====
-- How recent the aggregate's containers are, and that the store keeps the newest sample of a topic.
use better_unraid_mcp.Base.{
  ℕ, ◌-◌, ◌≤◌, ◌≡◌, refl, ◌∙◌, ap, inl, inr, Text, [], ◌∷◌, true, false, Option, none, some,
  text_eq, text_eq_refl, text_eq_iff, leb, leb→le, Bool-cases, All, arith,
}
use better_unraid_mcp.Graphql.LiveStore.{
  docker_container_eviction_ms, LiveContainerStats, TimestampedContainerStats, Containers,
  container, put, keep_recent, add_sample, merge_docker_stats_sample,
}

abbrev pub AllRecent : {S : Type 0} → ℕ → Containers S → Type 0
AllRecent now containers = All (λ p. now - p.1.seen_at_ms ≤ docker_container_eviction_ms) containers

keep_recent-AllRecent :
    {S : Type 0} (now : ℕ) (containers : Containers S) → AllRecent now (keep_recent now containers)
unfolding keep_recent
keep_recent-AllRecent now [] = tt
keep_recent-AllRecent now ((id, e) ∷ containers) =
    elim (Bool-cases (leb (now - e.seen_at_ms) docker_container_eviction_ms)) [
      | inl r ↦ rw r (leb→le _ _ r, keep_recent-AllRecent now containers)
      | inr r ↦ rw r (keep_recent-AllRecent now containers)
    ]

put-AllRecent :
    {S : Type 0} (now : ℕ) (id : Text) (e : TimestampedContainerStats S) (containers : Containers S)
    → now - e.seen_at_ms ≤ docker_container_eviction_ms
    → AllRecent now containers
    → AllRecent now (put id e containers)
unfolding put
put-AllRecent now id e [] r h = (r, tt)
put-AllRecent now id e ((k, f) ∷ containers) r (a, h) = elim (Bool-cases (text_eq k id)) [
  | inl same ↦ rw same (r, h)
  | inr other ↦ rw other (a, put-AllRecent now id e containers r h)
]

add_sample-AllRecent :
    {S : Type 0} (now : ℕ) (incoming : Option (LiveContainerStats S)) (containers : Containers S)
    → AllRecent now containers
    → AllRecent now (add_sample now incoming containers)
unfolding add_sample
add_sample-AllRecent now none containers h = h
add_sample-AllRecent now (some stats) containers h = with_id stats.id refl
  where
    with_id :
        (id : Text)
        → stats.id ≡ id
        → AllRecent now (elim id [
          | [] ↦ containers
          | c ∷ cs ↦ put stats.id (record { stats = stats; seen_at_ms = now }) containers
        ])
    with_id [] e = h
    with_id (c ∷ cs) e = put-AllRecent now stats.id _ containers (omega arith) h

-- No container whose last sample is older than thirty seconds stays in the aggregate.
pub merge_evicts :
    {S : Type 0} (previous : Option (Containers S)) (incoming : Option (LiveContainerStats S))
    (now : ℕ)
    → AllRecent now (merge_docker_stats_sample previous incoming now)
unfolding merge_docker_stats_sample
merge_evicts none incoming now = add_sample-AllRecent now incoming [] tt
merge_evicts (some existing) incoming now =
    add_sample-AllRecent now incoming (keep_recent now existing)
      (keep_recent-AllRecent now existing)

container-put :
    {S : Type 0} (id : Text) (e : TimestampedContainerStats S) (containers : Containers S)
    → container id (put id e containers) ≡ some e
unfolding container put
container-put id e [] = rw (text_eq_refl id) refl
container-put id e ((k, f) ∷ containers) = elim (Bool-cases (text_eq k id)) [
  | inl same ↦ rw (same, same) refl
  | inr other ↦ rw (other, other) (container-put id e containers)
]

container-put_other :
    {S : Type 0} (id other : Text) (e : TimestampedContainerStats S) (containers : Containers S)
    → text_eq id other ≡ false
    → container other (put id e containers) ≡ container other containers
unfolding container put
container-put_other id other e [] d = rw d refl
container-put_other id other e ((k, f) ∷ containers) d = elim (Bool-cases (text_eq k id)) [
  | inl same ↦
      let apart : text_eq k other ≡ false = rw ((text_eq_iff k id).0 same) d in
      rw same (rw (apart, container) refl)
  | inr different ↦ rw different (rw (container-put_other id other e containers d) refl)
]

same_entry :
    {S : Type 0} (id k : Text) (e f : TimestampedContainerStats S) (containers : Containers S)
    → text_eq k id ≡ true
    → container id ((k, f) ∷ containers) ≡ some e
    → f ≡ e
unfolding container
same_entry id k e f containers same h = let g : some f ≡ some e = (rw (same, container) at h) in cc

keep_recent-container :
    {S : Type 0} (now : ℕ) (id : Text) (e : TimestampedContainerStats S) (containers : Containers S)
    → now - e.seen_at_ms ≤ docker_container_eviction_ms
    → container id containers ≡ some e
    → container id (keep_recent now containers) ≡ some e
unfolding container keep_recent
keep_recent-container now id e [] r h = h
keep_recent-container now id e ((k, f) ∷ containers) r h = elim (Bool-cases (text_eq k id)) [
  | inl same ↦
      let equal = same_entry id k e f containers same h in
      let recent : leb (now - f.seen_at_ms) docker_container_eviction_ms ≡ true =
        rw equal (ground arith) in
      rw recent (rw (same, container) (ap some equal))
  | inr other ↦
      let later : container id containers ≡ some e = (rw (other, container) at h) in
      elim (Bool-cases (leb (now - f.seen_at_ms) docker_container_eviction_ms)) [
        | inl kept ↦
            rw kept (rw (other, container) (keep_recent-container now id e containers r later))
        | inr dropped ↦ rw dropped (keep_recent-container now id e containers r later)
      ]
]

-- A sample with an id is in the aggregate with the time of its arrival, and every other container
-- whose last sample is at most thirty seconds old keeps it.
pub merge_keeps :
    {S : Type 0} (existing : Containers S) (c : ℕ) (cs : Text) (sample : S) (now : ℕ) (other : Text)
    (e : TimestampedContainerStats S)
    → text_eq (c ∷ cs) other ≡ false
    → container other existing ≡ some e
    → now - e.seen_at_ms ≤ docker_container_eviction_ms
    → let stats : LiveContainerStats S = record { id = c ∷ cs; sample = sample } in
      let merged = merge_docker_stats_sample (some existing) (some stats) now in
      (container (c ∷ cs) merged ≡ some (record { stats = stats; seen_at_ms = now }))
      × (container other merged ≡ some e)
unfolding merge_docker_stats_sample add_sample
merge_keeps existing c cs sample now other e apart found recent = (
  container-put (c ∷ cs) _ (keep_recent now existing),
  container-put_other (c ∷ cs) other _ (keep_recent now existing) apart
      ∙ keep_recent-container now other e existing recent found,
)
