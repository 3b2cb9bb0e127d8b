-- ===== src/Graphql/CachingExecutor/Laws.antt =====
-- How fresh the cache's answers are, and read-your-writes for calls one after another.
use better_unraid_mcp.Base.{
  ℕ, suc, ◌-◌, ◌≤◌, ◌≡◌, refl, ◌⊎◌, inl, inr, Text, List, [], ◌∷◌, Bool, true, false, Option, none,
  some, text_eq, Bool-cases, All, arith, subst, sym, ◌∙◌,
}
use better_unraid_mcp.Effects.{returned}
use better_unraid_mcp.Graphql.CachingExecutor.{
  Request, CacheEntry, Cache, snapshot, store, cache_key, Decision, served, forward, decide, begin,
  complete,
}

decide_served :
    {D : Type 0} (ttl now : ℕ) (key : Text) (found : Option (CacheEntry D)) (d : D) (age : ℕ)
    → decide ttl now key found ≡ served d age
    → (age ≤ ttl)
      × ((e : CacheEntry D) × (found ≡ some e) × (e.content ≡ d) × (age ≡ now - e.stored_at_ms))
unfolding decide
decide_served ttl now key none d age h = ground arith
decide_served ttl now key (some e) d age h = (ground arith, (e, refl, ground arith, ground arith))

-- A snapshot that is served is the stored one, and no older than the time to live.
pub served_fresh :
    {D : Type 0} (ttl : ℕ) (cacheable : ℕ → Bool) (now : ℕ) (r : Request) (c : Cache D) (d : D)
    (age : ℕ)
    → (begin ttl cacheable now r c).0 ≡ served d age
    → (age ≤ ttl)
      × ((e : CacheEntry D) × (snapshot (cache_key r c.documents) c.entries ≡ some e)
          × (e.content ≡ d)
          × (age ≡ now - e.stored_at_ms))
unfolding begin
served_fresh ttl cacheable now r c d age h = elim (Bool-cases (cacheable r.document)) [
  | inl e ↦
      decide_served ttl now _ (snapshot (cache_key r c.documents) c.entries) d age
        (rw (e, begin) at h)
  | inr e ↦ absurd (ground arith)
]

-- The server behind the cache, as a version number that each mutation of this client raises and
-- nothing else changes, and a call that runs to its completion before the next call starts.
pub record Server : Type 0 where
  pub version : ℕ
  pub cache : Cache ℕ

pub record Call : Type 0 where
  pub now : ℕ
  pub later : ℕ
  pub request : Request

abbrev bump : Bool → ℕ → ℕ
bump true n = suc n
bump false n = n

settle : Call → Decision ℕ → Cache ℕ → ℕ → ℕ × Server
settle call (served d age) c version = (d, record { version = version; cache = c })
settle call (forward key) c version =
    let v = bump call.request.is_mutation version in
    (v, record { version = v; cache = complete call.later call.request key (returned v) c })

-- A whole call: its answer, and the server and cache after it.
pub run_call : ℕ → (ℕ → Bool) → Call → Server → ℕ × Server
run_call ttl cacheable call s =
    let (decision, c) = begin ttl cacheable call.now call.request s.cache in
    settle call decision c s.version

-- Every answer equals the server's version at the end of its call.
abbrev pub AllCurrent : ℕ → (ℕ → Bool) → List Call → Server → Type 0
AllCurrent ttl cacheable [] s = Unit
AllCurrent ttl cacheable (call ∷ calls) s =
    let (answer, t) = run_call ttl cacheable call s in
    (answer ≡ t.version) × AllCurrent ttl cacheable calls t

abbrev pub IsCurrent : ℕ → List (Text × CacheEntry ℕ) → Type 0
IsCurrent version entries = All (λ p. p.1.content ≡ version) entries

store-IsCurrent :
    (version : ℕ) (key : Text) (e : CacheEntry ℕ) (entries : List (Text × CacheEntry ℕ))
    → e.content ≡ version
    → IsCurrent version entries
    → IsCurrent version (store key e entries)
unfolding store
store-IsCurrent version key e [] h k = (h, tt)
store-IsCurrent version key e ((l, f) ∷ entries) h (k, ks) = elim (Bool-cases (text_eq l key)) [
  | inl same ↦ rw same (h, ks)
  | inr other ↦ rw other (k, store-IsCurrent version key e entries h ks)
]

snapshot-IsCurrent :
    (version : ℕ) (key : Text) (e : CacheEntry ℕ) (entries : List (Text × CacheEntry ℕ))
    → IsCurrent version entries
    → snapshot key entries ≡ some e
    → e.content ≡ version
unfolding snapshot
snapshot-IsCurrent version key e [] h k = ground arith
snapshot-IsCurrent version key e ((l, f) ∷ entries) (h, hs) k = elim (Bool-cases (text_eq l key)) [
  | inl same ↦ ground arith
  | inr other ↦ snapshot-IsCurrent version key e entries hs (rw (other, snapshot) at k)
]

complete-IsCurrent :
    (later : ℕ) (r : Request) (key : Option Text) (version : ℕ) (c : Cache ℕ)
    → (key ≡ none ⊎ r.is_mutation ≡ false)
    → IsCurrent version c.entries
    → IsCurrent
        (bump r.is_mutation version)
        (complete later r key (returned (bump r.is_mutation version)) c).entries
unfolding complete
complete-IsCurrent later r (some key) version c (inl e) h = absurd (ground arith)
complete-IsCurrent later r (some key) version c (inr e) h =
    rw e (store-IsCurrent version key _ c.entries refl h)
complete-IsCurrent later r none version c i h = elim (Bool-cases r.is_mutation) [
  | inl e ↦ rw e tt
  | inr e ↦ rw e h
]

settle-IsCurrent :
    (call : Call) (decision : Decision ℕ) (c : Cache ℕ) (version : ℕ)
    → ((d age : ℕ) → decision ≡ served d age → d ≡ version)
    → ((key : Text) → decision ≡ forward (some key) → call.request.is_mutation ≡ false)
    → IsCurrent version c.entries
    → let (answer, t) = settle call decision c version in
      (answer ≡ t.version) × IsCurrent t.version t.cache.entries
unfolding settle
settle-IsCurrent call (served d age) c version hit read h = (hit d age refl, h)
settle-IsCurrent call (forward none) c version hit read h =
    (refl, complete-IsCurrent call.later call.request none version c (inl refl) h)
settle-IsCurrent call (forward (some key)) c version hit read h =
    (refl, complete-IsCurrent call.later call.request (some key) version c (inr (read key refl)) h)

begin-entries :
    {D : Type 0} (ttl : ℕ) (cacheable : ℕ → Bool) (now : ℕ) (r : Request) (c : Cache D)
    → (begin ttl cacheable now r c).1.entries ≡ c.entries
unfolding begin
begin-entries ttl cacheable now r c = elim (Bool-cases (cacheable r.document)) [
  | inl e ↦ rw (e, begin)
  | inr e ↦ rw (e, begin)
]

begin_forward :
    {D : Type 0} (ttl : ℕ) (cacheable : ℕ → Bool) (now : ℕ) (r : Request) (c : Cache D) (key : Text)
    → (begin ttl cacheable now r c).0 ≡ forward (some key)
    → cacheable r.document ≡ true
unfolding begin
begin_forward ttl cacheable now r c key h = elim (Bool-cases (cacheable r.document)) [
  | inl e ↦ e
  | inr e ↦ absurd (ground arith)
]

run_call-IsCurrent :
    (ttl : ℕ) (cacheable : ℕ → Bool) (call : Call) (s : Server)
    → (cacheable call.request.document ≡ true → call.request.is_mutation ≡ false)
    → IsCurrent s.version s.cache.entries
    → let (answer, t) = run_call ttl cacheable call s in
      (answer ≡ t.version) × IsCurrent t.version t.cache.entries
unfolding run_call
run_call-IsCurrent ttl cacheable call s reads h =
    settle-IsCurrent call _ _ s.version hit
      (λ key e. reads (begin_forward ttl cacheable call.now call.request s.cache key e))
      (subst (IsCurrent s.version) (sym (begin-entries ttl cacheable call.now call.request s.cache))
        h)
  where
    hit :
        (d age : ℕ)
        → (begin ttl cacheable call.now call.request s.cache).0 ≡ served d age
        → d ≡ s.version
    hit d age e =
        let (_, found) = served_fresh ttl cacheable call.now call.request s.cache d age e in
        sym found.2 ∙ snapshot-IsCurrent s.version _ found.0 s.cache.entries h found.1

-- Read-your-writes: if cacheable documents are no mutations and calls run one after another from a
-- cache whose snapshots are all current, as those of an empty cache are, every call answers with the
-- server's version at its end, so no read is served from before a mutation that has completed.
pub answers_current :
    (ttl : ℕ) (cacheable : ℕ → Bool) (calls : List Call) (s : Server)
    → All (λ call. cacheable call.request.document ≡ true → call.request.is_mutation ≡ false) calls
    → IsCurrent s.version s.cache.entries
    → AllCurrent ttl cacheable calls s
answers_current ttl cacheable [] s reads h = tt
answers_current ttl cacheable (call ∷ calls) s (r, reads) h =
    let (now, later) = run_call-IsCurrent ttl cacheable call s r h in
    (now, answers_current ttl cacheable calls _ reads later)
