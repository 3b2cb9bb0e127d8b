-- ===== src/Graphql/CachingExecutor/InFlight.antt =====
-- What the cache does with a read that is in flight while a mutation completes.
use better_unraid_mcp.Base.{
  ℕ, suc, ◌+◌, ◌-◌, ◌≤◌, ◌≡◌, inl, inr, Text, List, [], ◌∷◌, Bool, true, false, none, some, text_eq,
  text_eq_refl, Option-cases, Bool-cases, arith, length, ◌++◌,
}
use better_unraid_mcp.Effects.{returned}
use better_unraid_mcp.Graphql.CachingExecutor.{
  Request, CacheEntry, Cache, snapshot, store, cache_key, document_id, position, served, decide,
  begin, complete,
}

snapshot-store :
    {D : Type 0} (key : Text) (e : CacheEntry D) (entries : List (Text × CacheEntry D))
    → snapshot key (store key e entries) ≡ some e
unfolding snapshot store
snapshot-store key e [] = rw (text_eq_refl key)
snapshot-store key e ((k, f) ∷ entries) = elim (Bool-cases (text_eq k key)) [
  | inl same ↦ rw (same, same)
  | inr other ↦ rw (other, other) (snapshot-store key e entries)
]

position-append :
    (document n : ℕ) (ds : List ℕ)
    → position document n ds ≡ none
    → position document n (ds ++ document ∷ []) ≡ some (n + length ds)
unfolding position
position-append document n [] h = ground arith
position-append document n (d ∷ ds) h = ground (arith, position-append document (suc n) ds)

document_id_known :
    (document n : ℕ) (ds : List ℕ)
    → position document 0 ds ≡ some n
    → document_id document ds ≡ (n, ds)
unfolding document_id
document_id_known document n ds e = rw (e, document_id)

document_id_new :
    (document : ℕ) (ds : List ℕ)
    → position document 0 ds ≡ none
    → document_id document ds ≡ (length ds, ds ++ document ∷ [])
unfolding document_id
document_id_new document ds e = rw (e, document_id)

-- A document keeps its id.
document_id_again :
    (document : ℕ) (ds : List ℕ)
    → (document_id document (document_id document ds).1).0 ≡ (document_id document ds).0
document_id_again document ds = elim (Option-cases (position document 0 ds)) [
  | inl e ↦ rw (document_id_new document ds e) (
      rw
        (document_id_known document (0 + length ds) (ds ++ document ∷ [])
          (position-append document 0 ds e))
        (omega arith))
  | inr (n, e) ↦ rw (document_id_known document n ds e) (rw (document_id_known document n ds e))
]

cache_key_again :
    (r : Request) (ds : List ℕ) → cache_key r (document_id r.document ds).1 ≡ cache_key r ds
unfolding cache_key
cache_key_again r ds = rw (document_id_again r.document ds)

decide_hit :
    {D : Type 0} (ttl now : ℕ) (key : Text) (e : CacheEntry D)
    → now - e.stored_at_ms ≤ ttl
    → decide ttl now key (some e) ≡ served e.content (now - e.stored_at_ms)
unfolding decide
decide_hit ttl now key e fresh = ground arith

module _ {D : Type 0} (ttl : ℕ) (cacheable : ℕ → Bool) (read write : Request) (c : Cache D)
    (d result : D) where
  -- The cache after a read went out, a mutation ran to completion, and the read's answer came in.
  abbrev pub crossed : ℕ → ℕ → ℕ → Cache D
  crossed sent wrote arrived =
      let pending = (begin ttl cacheable sent read c).1 in
      let started = (begin ttl cacheable wrote write pending).1 in
      let cleared = complete wrote write none (returned result) started in
      complete arrived read (some (cache_key read c.documents)) (returned d) cleared

  -- A read that was sent before a mutation and answered after it leaves its answer in the cache, and
  -- the next read within the time to live is served that answer without a request.
  pub stale_read :
      (sent wrote arrived later : ℕ)
      → cacheable read.document ≡ true
      → cacheable write.document ≡ false
      → write.is_mutation ≡ true
      → later - arrived ≤ ttl
      → (begin ttl cacheable later read (crossed sent wrote arrived)).0 ≡ served d (later - arrived)
  unfolding begin complete
  stale_read sent wrote arrived later r w m fresh =
      rw (r, w, m, begin, complete)
        (rw (cache_key_again read c.documents) (
          rw
            (snapshot-store (cache_key read c.documents)
              (record { content = d; stored_at_ms = arrived }) [])
            (decide_hit ttl later _ (record { content = d; stored_at_ms = arrived }) fresh)))
