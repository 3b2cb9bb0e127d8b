-- ===== src/Transport/Sessions/Reachable.antt =====
-- The states that the store of sessions can reach, and that its keys stay apart.
use better_unraid_mcp.Base.{
  ℕ, ◌≡◌, inl, inr, Text, List, [], ◌∷◌, Bool, true, false, text_eq, text_eq_sym, Option-cases,
  Bool-cases, All, arith, map,
}
use better_unraid_mcp.Transport.Sessions.{
  SessionRecord, SessionStore, find_session, set_session, delete_session, HttpMethod, get, post,
  delete, SessionRequest, handle, handle_existing, is_initialize_request, remove, handled,
  initialized, created, stop_streaming, stream_closed, is_expired, sweep, sweep_each,
  read_session_id,
}

abbrev pub Entries : Type 0
Entries = List (Text × SessionRecord)

abbrev pub Fresh : Text → Entries → Type 0
Fresh id sessions = All (λ p. text_eq p.0 id ≡ false) sessions

-- No two entries have the same key.
abbrev pub Distinct : Entries → Type 0
Distinct [] = Unit
Distinct ((id, r) ∷ sessions) = Fresh id sessions × Distinct sessions

set-Fresh :
    (k id : Text) (r : SessionRecord) (xs : Entries)
    → text_eq id k ≡ false
    → Fresh k xs
    → Fresh k (set_session id r xs)
unfolding set_session
set-Fresh k id r [] e h = (e, tt)
set-Fresh k id r ((l, s) ∷ xs) e (a, h) = elim (Bool-cases (text_eq l id)) [
  | inl same ↦ rw same (a, h)
  | inr other ↦ rw other (a, set-Fresh k id r xs e h)
]

set-Distinct :
    (id : Text) (r : SessionRecord) (xs : Entries) → Distinct xs → Distinct (set_session id r xs)
unfolding set_session
set-Distinct id r [] h = (tt, tt)
set-Distinct id r ((l, s) ∷ xs) (a, h) = elim (Bool-cases (text_eq l id)) [
  | inl same ↦ rw same (a, h)
  | inr other ↦ rw other (set-Fresh l id r xs (text_eq_sym l id other) a, set-Distinct id r xs h)
]

delete-Fresh : (k id : Text) (xs : Entries) → Fresh k xs → Fresh k (delete_session id xs)
unfolding delete_session
delete-Fresh k id [] h = tt
delete-Fresh k id ((l, s) ∷ xs) (a, h) = elim (Bool-cases (text_eq l id)) [
  | inl same ↦ rw same h
  | inr other ↦ rw other (a, delete-Fresh k id xs h)
]

delete-Distinct : (id : Text) (xs : Entries) → Distinct xs → Distinct (delete_session id xs)
unfolding delete_session
delete-Distinct id [] h = tt
delete-Distinct id ((l, s) ∷ xs) (a, h) = elim (Bool-cases (text_eq l id)) [
  | inl same ↦ rw same h
  | inr other ↦ rw other (delete-Fresh l id xs a, delete-Distinct id xs h)
]

stop-key : (now transport : ℕ) (p : Text × SessionRecord) → (stop_streaming now transport p).0 ≡ p.0
unfolding stop_streaming
stop-key now transport (id, r) = ground arith

stop-Fresh :
    (now transport : ℕ) (k : Text) (xs : Entries)
    → Fresh k xs
    → Fresh k (map (stop_streaming now transport) xs)
stop-Fresh now transport k [] h = tt
stop-Fresh now transport k (p ∷ xs) (a, h) =
    (rw (stop-key now transport p) a, stop-Fresh now transport k xs h)

stop-Distinct :
    (now transport : ℕ) (xs : Entries)
    → Distinct xs
    → Distinct (map (stop_streaming now transport) xs)
stop-Distinct now transport [] h = tt
stop-Distinct now transport (p ∷ xs) (a, h) = (
  rw (stop-key now transport p) (stop-Fresh now transport p.0 xs a),
  stop-Distinct now transport xs h,
)

remove-Distinct :
    (id : Text) (s : SessionStore) → Distinct s.sessions → Distinct (remove id s).sessions
unfolding remove
remove-Distinct id s h = elim (Option-cases (find_session id s.sessions)) [
  | inl e ↦ rw (e, remove) h
  | inr (r, e) ↦ rw (e, remove) (delete-Distinct id s.sessions h)
]

sweep_each-Distinct :
    (now : ℕ) (xs : Entries) (s : SessionStore)
    → Distinct s.sessions
    → Distinct (sweep_each now xs s).sessions
unfolding sweep_each
sweep_each-Distinct now [] s h = h
sweep_each-Distinct now ((id, r) ∷ xs) s h = elim (Bool-cases (is_expired now r)) [
  | inl e ↦ rw (e, sweep_each) (sweep_each-Distinct now xs (remove id s) (remove-Distinct id s h))
  | inr e ↦ rw (e, sweep_each) (sweep_each-Distinct now xs s h)
]

handle_existing-Distinct :
    (now : ℕ) (method : HttpMethod) (id : Text) (s : SessionStore)
    → Distinct s.sessions
    → Distinct (handle_existing now method id s).1.sessions
unfolding handle_existing
handle_existing-Distinct now method id s h = elim (Option-cases (find_session id s.sessions)) [
  | inl e ↦ rw (e, handle_existing) h
  | inr (r, e) ↦ rw (e, handle_existing) (set-Distinct id _ s.sessions h)
]

handle-Distinct :
    (now : ℕ) (request : SessionRequest) (s : SessionStore)
    → Distinct s.sessions
    → Distinct (handle now request s).1.sessions
unfolding handle
handle-Distinct now request s h = elim (Option-cases (read_session_id request.session_id)) [
  | inl e ↦ elim (Bool-cases (is_initialize_request request.body)) [
    | inl i ↦ rw (e, handle) (rw i h)
    | inr i ↦ rw (e, handle) (rw i h)
  ]
  | inr (id, e) ↦ rw (e, handle) (handle_existing-Distinct now request.method id s h)
]

-- What can happen to the store, in any order.
pub data Event : Type 0 where
  on_request : ℕ → SessionRequest → Event
  on_handled : HttpMethod → Text → Event
  on_initialized : ℕ → ℕ → Text → Event
  on_created : Bool → ℕ → Event
  on_stream_closed : ℕ → ℕ → Event
  on_sweep : ℕ → Event

pub apply : Event → SessionStore → SessionStore
apply (on_request now request) s = (handle now request s).1
apply (on_handled method id) s = handled method id s
apply (on_initialized now transport id) s = initialized now transport id s
apply (on_created ok transport) s = created ok transport s
apply (on_stream_closed now transport) s = stream_closed now transport s
apply (on_sweep now) s = sweep now s

-- The store after a sequence of events from the start of the server.
pub after : List Event → SessionStore
after [] = record { sessions = []; closed = [] }
after (event ∷ earlier) = apply event (after earlier)

handled-Distinct :
    (method : HttpMethod) (id : Text) (s : SessionStore)
    → Distinct s.sessions
    → Distinct (handled method id s).sessions
unfolding handled
handled-Distinct get id s h = h
handled-Distinct post id s h = h
handled-Distinct delete id s h = remove-Distinct id s h

created-Distinct :
    (ok : Bool) (transport : ℕ) (s : SessionStore)
    → Distinct s.sessions
    → Distinct (created ok transport s).sessions
unfolding created
created-Distinct true transport s h = h
created-Distinct false transport s h = h

apply-Distinct :
    (event : Event) (s : SessionStore) → Distinct s.sessions → Distinct (apply event s).sessions
unfolding apply initialized stream_closed sweep
apply-Distinct (on_request now request) s h = handle-Distinct now request s h
apply-Distinct (on_handled method id) s h = handled-Distinct method id s h
apply-Distinct (on_initialized now transport id) s h = set-Distinct id _ s.sessions h
apply-Distinct (on_created ok transport) s h = created-Distinct ok transport s h
apply-Distinct (on_stream_closed now transport) s h = stop-Distinct now transport s.sessions h
apply-Distinct (on_sweep now) s h = sweep_each-Distinct now s.sessions s h

pub after-Distinct : (events : List Event) → Distinct (after events).sessions
unfolding after
after-Distinct [] = tt
after-Distinct (event ∷ earlier) = apply-Distinct event (after earlier) (after-Distinct earlier)
