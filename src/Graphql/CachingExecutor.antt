-- ===== src/Graphql/CachingExecutor.antt =====
-- graphql/snapshot-cache.ts: the executor that serves short-lived snapshots of hot reads. A call has
-- two parts: what happens before the inner executor is awaited, and what happens when it has
-- answered; other calls may run in between.
pub mod Laws
pub mod InFlight
use better_unraid_mcp.Base.{
  ℕ, zero, suc, ◌+◌, ◌-◌, ◌≤◌, ◌≡◌, Text, u, ◌++◌, List, [], ◌∷◌, Bool, true, false, Option, none,
  some, decimal, text_eq, leb, ◌==◌, length, if◌then◌else◌,
}
use better_unraid_mcp.Effects.{Attempt, returned, thrown}

-- A document is an object, known by its identity. The text is the JSON of the variables.
pub record Request : Type 0 where
  pub document : ℕ
  pub is_mutation : Bool
  pub variables : Text

pub record CacheEntry (D : Type 0) : Type 0 where
  pub content : D
  pub stored_at_ms : ℕ

-- The map of snapshots, and the documents in the order in which they got their ids.
pub record Cache (D : Type 0) : Type 0 where
  pub entries : List (Text × CacheEntry D)
  pub documents : List ℕ

abbrev pub empty : {D : Type 0} → Cache D
empty = record { entries = []; documents = [] }

pub snapshot : {D : Type 0} → Text → List (Text × CacheEntry D) → Option (CacheEntry D)
snapshot key [] = none
snapshot key ((k, e) ∷ entries) = if text_eq k key then some e else snapshot key entries

pub store :
    {D : Type 0} → Text → CacheEntry D → List (Text × CacheEntry D) → List (Text × CacheEntry D)
store key e [] = (key, e) ∷ []
store key e ((k, f) ∷ entries) =
    if text_eq k key then (k, e) ∷ entries else (k, f) ∷ store key e entries

-- The position of a document, counted from `n`.
position : ℕ → ℕ → List ℕ → Option ℕ
position document n [] = none
position document n (d ∷ ds) = if d == document then some n else position document (suc n) ds

-- The id of a document, and the documents with their new member if it had none.
document_id : ℕ → List ℕ → ℕ × List ℕ
unfolding position
document_id document documents = elim (position document 0 documents) [
  | some n ↦ (n, documents)
  | none ↦ (length documents, documents ++ document ∷ [])
]

pub cache_key : Request → List ℕ → Text
unfolding document_id
cache_key r documents = decimal (document_id r.document documents).0 ++ (u ":" ++ r.variables)

-- What the first part of a call decides: a snapshot with its age, or a request that goes to the
-- inner executor, with the key under which its answer is stored if the document is cacheable.
pub data Decision (D : Type 0) : Type 0 where
  served : D → ℕ → Decision D
  forward : Option Text → Decision D

abbrev pub snapshot_ttl_ms : ℕ
snapshot_ttl_ms = 5000

is_fresh : {D : Type 0} → ℕ → ℕ → CacheEntry D → Bool
is_fresh ttl now e = leb (now - e.stored_at_ms) ttl

decide : {D : Type 0} → ℕ → ℕ → Text → Option (CacheEntry D) → Decision D
unfolding is_fresh
decide ttl now key none = forward (some key)
decide ttl now key (some e) =
    if is_fresh ttl now e then served e.content (now - e.stored_at_ms) else forward (some key)

-- `execute` up to the `await`, with the time to live, the clock and the set of cacheable documents.
pub begin : {D : Type 0} → ℕ → (ℕ → Bool) → ℕ → Request → Cache D → Decision D × Cache D
unfolding decide
begin ttl cacheable now r c =
    let key = cache_key r c.documents in
    let known = record c { documents = (document_id r.document c.documents).1 } in
    if cacheable r.document
    then (decide ttl now key (snapshot key c.entries), known)
    else (forward none, c)

-- The rest of `execute`, when the inner executor has answered. A mutation clears the cache also if
-- it failed; a failed read changes nothing.
pub complete : {D : Type 0} → ℕ → Request → Option Text → Attempt D → Cache D → Cache D
complete now r (some key) (returned d) c = record c {
  entries = store key (record { content = d; stored_at_ms = now }) c.entries;
}
complete now r (some key) (thrown message) c = c
complete now r none answer c = if r.is_mutation then record c { entries = [] } else c
