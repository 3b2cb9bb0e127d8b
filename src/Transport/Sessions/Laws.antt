-- ===== src/Transport/Sessions/Laws.antt =====
-- What the sweeper, the teardown and the event streams do to the sessions, in every state that the
-- store can reach.
use better_unraid_mcp.Base.{
  leb, ◌-◌, ◌||◌, ℕ, ◌<◌, ◌≡◌, refl, inl, inr, Text, List, [], ◌∷◌, ◌++◌, Bool, true, false, Option,
  none, some, text_eq, text_eq_iff, text_eq_refl, text_eq_sym, Option-cases, Bool-cases, All, arith,
  ap, ==_iff, subst, ◌∙◌, ◌+◌, u, keep, if◌then◌else◌,
}
use better_unraid_mcp.Json.{Json}
use better_unraid_mcp.Transport.Sessions.{
  SessionRecord, SessionStore, find_session, set_session, delete_session, HttpMethod, get, delete,
  session_error, to_transport, handle, handle_existing, remove, handled, stop_streaming,
  stream_closed, is_expired, sweep, sweep_each, touch, session_idle_expiry_ms, read_session_id,
}
use better_unraid_mcp.Transport.Sessions.Reachable.{
  Entries, Fresh, Distinct, Event, after, after-Distinct,
}

-- The session has an open stream, or was seen at most five minutes ago.
abbrev pub is_alive : ℕ → Text × SessionRecord → Bool
is_alive now (id, r) = r.streaming || leb (now - r.last_seen_at) 300000

alive_not_expired :
    (now : ℕ) (id : Text) (r : SessionRecord)
    → is_alive now (id, r) ≡ true
    → is_expired now r ≡ false
unfolding is_expired
alive_not_expired now id r h = ground arith

dead_expired :
    (now : ℕ) (id : Text) (r : SessionRecord)
    → is_alive now (id, r) ≡ false
    → is_expired now r ≡ true
unfolding is_expired
dead_expired now id r h = ground arith

-- The transports of the expired sessions, pushed on the closed ones.
abbrev pub close_expired : ℕ → List (Text × SessionRecord) → List ℕ → List ℕ
close_expired now [] closed = closed
close_expired now ((id, r) ∷ xs) closed =
    close_expired now xs (if is_alive now (id, r) then closed else r.transport ∷ closed)

find-middle :
    (id : Text) (r : SessionRecord) (ys xs : Entries)
    → Fresh id ys
    → find_session id (ys ++ (id, r) ∷ xs) ≡ some r
unfolding find_session
find-middle id r [] xs h = rw (text_eq_refl id)
find-middle id r ((l, s) ∷ ys) xs (a, h) = rw a (find-middle id r ys xs h)

delete-middle :
    (id : Text) (r : SessionRecord) (ys xs : Entries)
    → Fresh id ys
    → delete_session id (ys ++ (id, r) ∷ xs) ≡ ys ++ xs
unfolding delete_session
delete-middle id r [] xs h = rw (text_eq_refl id)
delete-middle id r ((l, s) ∷ ys) xs (a, h) = rw (a, delete-middle id r ys xs h)

append-snoc :
    (ys : Entries) (p : Text × SessionRecord) (xs : Entries) → (ys ++ p ∷ []) ++ xs ≡ ys ++ p ∷ xs
append-snoc [] p xs = refl
append-snoc (y ∷ ys) p xs = rw (append-snoc ys p xs)

Fresh-snoc :
    (k : Text) (ys : Entries) (p : Text × SessionRecord)
    → Fresh k ys
    → text_eq p.0 k ≡ false
    → Fresh k (ys ++ p ∷ [])
Fresh-snoc k [] p h e = (e, tt)
Fresh-snoc k (y ∷ ys) p (a, h) e = (a, Fresh-snoc k ys p h e)

-- The keys of `xs` do not occur in `ys`.
abbrev Apart : Entries → Entries → Type 0
Apart ys xs = All (λ p. Fresh p.0 ys) xs

Apart-snoc :
    (ys : Entries) (p : Text × SessionRecord) (xs : Entries)
    → Apart ys xs
    → Fresh p.0 xs
    → Apart (ys ++ p ∷ []) xs
Apart-snoc ys p [] h f = tt
Apart-snoc ys p (q ∷ xs) (a, h) (e, f) =
    (Fresh-snoc q.0 ys p a (text_eq_sym q.0 p.0 e), Apart-snoc ys p xs h f)

-- The loop, when `ys` are the entries it has passed and left.
sweep_each-keep :
    (now : ℕ) (ys xs : Entries) (closed : List ℕ)
    → Distinct xs
    → Apart ys xs
    → sweep_each now xs (record { sessions = ys ++ xs; closed = closed })
      ≡ record { sessions = ys ++ keep (is_alive now) xs; closed = close_expired now xs closed }
unfolding sweep_each remove
sweep_each-keep now ys [] closed d a = refl
sweep_each-keep now ys ((id, r) ∷ xs) closed (f, d) (b, a) =
    elim (Bool-cases (is_alive now (id, r))) [
      | inr e ↦ rw e (
          rw (dead_expired now id r e, sweep_each)
            (rw (find-middle id r ys xs b, remove)
              (rw (delete-middle id r ys xs b)
                (sweep_each-keep now ys xs (r.transport ∷ closed) d a))))
      | inl e ↦ rw e (
          rw (alive_not_expired now id r e, sweep_each)
            (rw (← append-snoc ys (id, r) xs) (
              rw
                (sweep_each-keep now (ys ++ (id, r) ∷ []) xs closed d
                  (Apart-snoc ys (id, r) xs a f))
                (rw (append-snoc ys (id, r) (keep (is_alive now) xs))))))
    ]

nothing_before : (xs : Entries) → Apart [] xs
nothing_before [] = tt
nothing_before (x ∷ xs) = (tt, nothing_before xs)

-- In every reachable state a sweep keeps exactly the sessions that have an open stream or were seen
-- at most five minutes ago, in their order, and closes the transport of each of the others.
pub sweep_exact :
    (events : List Event) (now : ℕ)
    → let s = after events in
      (sweep now s).sessions ≡ keep (is_alive now) s.sessions
      × ((sweep now s).closed ≡ close_expired now s.sessions s.closed)
unfolding sweep
sweep_exact events now =
    let s = after events in
    let e =
      sweep_each-keep now [] s.sessions s.closed (after-Distinct events)
        (nothing_before s.sessions) in
    (ap (λ t. t.sessions) e, ap (λ t. t.closed) e)

Fresh-find : (id : Text) (xs : Entries) → Fresh id xs → find_session id xs ≡ none
unfolding find_session
Fresh-find id [] h = refl
Fresh-find id ((l, s) ∷ xs) (a, h) = rw a (Fresh-find id xs h)

Fresh-same : (k id : Text) (xs : Entries) → text_eq k id ≡ true → Fresh k xs → Fresh id xs
Fresh-same k id xs e h = subst (λ t. Fresh t xs) ((text_eq_iff k id).0 e) h

find-delete :
    (id : Text) (xs : Entries) → Distinct xs → find_session id (delete_session id xs) ≡ none
unfolding find_session delete_session
find-delete id [] h = refl
find-delete id ((l, s) ∷ xs) (a, h) = elim (Bool-cases (text_eq l id)) [
  | inl same ↦ rw same (Fresh-find id xs (Fresh-same l id xs same a))
  | inr other ↦ rw other (rw other (find-delete id xs h))
]

remove-absent :
    (id : Text) (s : SessionStore)
    → Distinct s.sessions
    → find_session id (remove id s).sessions ≡ none
unfolding remove
remove-absent id s d = elim (Option-cases (find_session id s.sessions)) [
  | inl e ↦ rw (e, remove) e
  | inr (r, e) ↦ rw (e, remove) (find-delete id s.sessions d)
]

handle_existing-absent :
    (now : ℕ) (method : HttpMethod) (id : Text) (s : SessionStore)
    → find_session id s.sessions ≡ none
    → handle_existing now method id s ≡ (session_error 404 (u "Session not found or expired"), s)
unfolding handle_existing
handle_existing-absent now method id s e = rw (e, handle_existing)

handle-some :
    (now : ℕ) (method : HttpMethod) (c : ℕ) (cs : Text) (body : Option Json) (s : SessionStore)
    → handle now (record { method = method; session_id = some (c ∷ cs); body = body }) s
      ≡ handle_existing now method (c ∷ cs) s
unfolding handle read_session_id
handle-some now method c cs body s = refl

-- In every reachable state, when the transport has answered a `DELETE` for a session, the session is
-- gone: every later request with its id is answered with 404, and changes nothing.
pub deleted_not_found :
    (events : List Event) (c : ℕ) (cs : Text) (now : ℕ) (method : HttpMethod) (body : Option Json)
    → let s = handled delete (c ∷ cs) (after events) in
      handle now (record { method = method; session_id = some (c ∷ cs); body = body }) s
      ≡ (session_error 404 (u "Session not found or expired"), s)
unfolding handled
deleted_not_found events c cs now method body =
    handle-some now method c cs body _
    ∙ handle_existing-absent now method (c ∷ cs) _
        (remove-absent (c ∷ cs) (after events) (after-Distinct events))

-- The store after a `GET` for a session.
abbrev pub open_stream : ℕ → Text → SessionStore → SessionStore
open_stream now id s = (handle now (record { method = get; session_id = some id; body = none }) s).1

abbrev pub only : Text → SessionRecord → SessionStore
only id r = record { sessions = (id, r) ∷ []; closed = [] }

handle_existing-found :
    (now : ℕ) (method : HttpMethod) (id : Text) (s : SessionStore) (r : SessionRecord)
    → find_session id s.sessions ≡ some r
    → handle_existing now method id s ≡ (
      to_transport r.transport,
      record { sessions = set_session id (touch now method r) s.sessions; closed = s.closed },
    )
unfolding handle_existing
handle_existing-found now method id s r e = rw (e, handle_existing)

find-only : (id : Text) (r : SessionRecord) → find_session id ((id, r) ∷ []) ≡ some r
unfolding find_session
find-only id r = rw (text_eq_refl id)

set-only : (id : Text) (r q : SessionRecord) → set_session id q ((id, r) ∷ []) ≡ (id, q) ∷ []
unfolding set_session
set-only id r q = rw (text_eq_refl id)

open_stream-only :
    (now c : ℕ) (cs : Text) (r : SessionRecord)
    → open_stream now (c ∷ cs) (only (c ∷ cs) r)
      ≡ only (c ∷ cs) (record { transport = r.transport; last_seen_at = now; streaming = true })
unfolding touch
open_stream-only now c cs r =
    ap (λ p. p.1)
      (handle-some now get c cs none (only (c ∷ cs) r)
        ∙ handle_existing-found now get (c ∷ cs) (only (c ∷ cs) r) r (find-only (c ∷ cs) r))
    ∙ ap (λ entries. record { sessions = entries; closed = [] })
        (set-only (c ∷ cs) r (touch now get r))

stream_closed-only :
    (now : ℕ) (id : Text) (r : SessionRecord)
    → stream_closed now r.transport (only id r)
      ≡ only id (record { transport = r.transport; last_seen_at = now; streaming = false })
unfolding stream_closed stop_streaming
stream_closed-only now id r = rw ((==_iff r.transport r.transport).1 refl)

sweep-only :
    (now : ℕ) (id : Text) (r : SessionRecord)
    → is_expired now r ≡ true
    → sweep now (only id r) ≡ record { sessions = []; closed = r.transport ∷ [] }
unfolding sweep sweep_each remove find_session delete_session
sweep-only now id r e =
    rw (e, sweep_each) (rw (text_eq_refl id, remove) (rw (text_eq_refl id, delete_session)))

idle-is_expired :
    (closed_at now : ℕ) (transport : ℕ)
    → closed_at + session_idle_expiry_ms < now
    → is_expired now (record { transport = transport; last_seen_at = closed_at; streaming = false })
      ≡ true
unfolding is_expired
idle-is_expired closed_at now transport late = ground arith

-- A session on which two event streams are opened, one after the other, and whose one stream closes:
-- a sweep more than five minutes later removes it, although the other stream is open.
pub second_stream_swept :
    (c : ℕ) (cs : Text) (r : SessionRecord) (first second closed_at now : ℕ)
    → closed_at + session_idle_expiry_ms < now
    → sweep now (
        stream_closed closed_at r.transport
          (open_stream second (c ∷ cs) (open_stream first (c ∷ cs) (only (c ∷ cs) r))))
      ≡ record { sessions = []; closed = r.transport ∷ [] }
second_stream_swept c cs r first second closed_at now late = rw (open_stream-only first c cs r) (
    rw (open_stream-only second c cs _) (
      rw
        (stream_closed-only closed_at (c ∷ cs)
          (record { transport = r.transport; last_seen_at = second; streaming = true }))
        (sweep-only now (c ∷ cs) _ (idle-is_expired closed_at now r.transport late))))
