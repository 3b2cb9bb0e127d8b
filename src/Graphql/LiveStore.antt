-- ===== src/Graphql/LiveStore.antt =====
-- graphql/live-store.ts: the newest sample of each subscription, and the aggregate of the container
-- statistics. Both maps are association lists in the order of insertion.
pub mod Laws
use better_unraid_mcp.Base.{
  ℕ, ◌-◌, ◌≤◌, ◌≡◌, Text, List, [], ◌∷◌, Bool, true, false, Option, none, some, text_eq, leb,
  if◌then◌else◌,
}

abbrev pub docker_container_eviction_ms : ℕ
docker_container_eviction_ms = 30000

-- The sample of one container: its id, and all other members in `sample`.
pub record LiveContainerStats (S : Type 0) : Type 0 where
  pub id : Text
  pub sample : S

pub record TimestampedContainerStats (S : Type 0) : Type 0 where
  pub stats : LiveContainerStats S
  pub seen_at_ms : ℕ

abbrev pub Containers : Type 0 → Type 0
Containers S = List (Text × TimestampedContainerStats S)

unfoldable pub container : {S : Type 0} → Text → Containers S → Option (TimestampedContainerStats S)
container id [] = none
container id ((k, e) ∷ containers) = if text_eq k id then some e else container id containers

pub put : {V : Type 0} → Text → V → List (Text × V) → List (Text × V)
put key v [] = (key, v) ∷ []
put key v ((k, w) ∷ entries) =
    if text_eq k key then (k, v) ∷ entries else (k, w) ∷ put key v entries

-- The loop of `mergeDockerStatsSample` over the containers it had.
pub keep_recent : {S : Type 0} → ℕ → Containers S → Containers S
keep_recent now [] = []
keep_recent now ((id, e) ∷ containers) =
    if leb (now - e.seen_at_ms) docker_container_eviction_ms
    then (id, e) ∷ keep_recent now containers
    else keep_recent now containers

-- `if (stats?.id)`: a sample with an empty id is no sample.
add_sample : {S : Type 0} → ℕ → Option (LiveContainerStats S) → Containers S → Containers S
add_sample now none containers = containers
add_sample now (some stats) containers = elim stats.id [
  | [] ↦ containers
  | c ∷ cs ↦ put stats.id (record { stats = stats; seen_at_ms = now }) containers
]

-- The event's payload may lack the sample, and there may be no aggregate yet.
pub merge_docker_stats_sample :
    {S : Type 0} → Option (Containers S) → Option (LiveContainerStats S) → ℕ → Containers S
unfolding add_sample
merge_docker_stats_sample none incoming now = add_sample now incoming []
merge_docker_stats_sample (some existing) incoming now =
    add_sample now incoming (keep_recent now existing)

pub record StoredSample (D : Type 0) : Type 0 where
  pub content : D
  pub received_at_ms : ℕ

-- `LiveSnapshotStore.set`
pub set : {D : Type 0} → ℕ → Text → D → List (Text × StoredSample D) → List (Text × StoredSample D)
set now topic d samples = put topic (record { content = d; received_at_ms = now }) samples

-- `LiveSnapshotStore.get`: the newest sample of a topic, with its age.
pub get : {D : Type 0} → ℕ → Text → List (Text × StoredSample D) → Option (D × ℕ)
get now topic [] = none
get now topic ((k, s) ∷ samples) =
    if text_eq k topic then some (s.content, now - s.received_at_ms) else get now topic samples
