-- ===== src/Shell/Executor/Laws.antt =====
-- The executor as a state machine: whatever the order in which calls start and end, connections open
-- and drop, and the timer fires.
use better_unraid_mcp.Base.{
  ℕ, suc, ◌+◌, ◌-◌, ◌≤◌, ◌<◌, ◌≡◌, refl, sym, ◌∙◌, ap, ◌⊎◌, inl, inr, List, [], ◌∷◌, ◌++◌, Bool,
  true, false, Option, none, some, ltb, ◌==◌, ==_iff, length, length-append, Bool-cases,
  Option-cases, arith, ltb→lt,
}
use better_unraid_mcp.Shell.Executor.{
  SshShellExecutor, fresh, acquire_connection, opened, drop_connection, acquire_channel,
  release_channel, disconnect_idle, free_slot,
}

-- The executor, the calls that hold a slot, and the calls in the order of their arrival and in the
-- order in which they got their slots.
pub record System : Type 0 where
  pub executor : SshShellExecutor
  pub running : List ℕ
  pub arrived : List ℕ
  pub granted : List ℕ

abbrev enter : ℕ → Bool → SshShellExecutor → System → System
enter call true x s = record {
  executor = x;
  running = s.running ++ call ∷ [];
  arrived = s.arrived ++ call ∷ [];
  granted = s.granted ++ call ∷ [];
}
enter call false x s = record {
  executor = x;
  running = s.running;
  arrived = s.arrived ++ call ∷ [];
  granted = s.granted;
}

abbrev pub started : ℕ → System → System
started call s =
    enter call (acquire_channel call s.executor).0 (acquire_channel call s.executor).1 s

abbrev leave : Option ℕ → List ℕ → SshShellExecutor → System → System
leave none rest x s = record {
  executor = x;
  running = rest;
  arrived = s.arrived;
  granted = s.granted;
}
leave (some next) rest x s = record {
  executor = x;
  running = rest ++ next ∷ [];
  arrived = s.arrived;
  granted = s.granted ++ next ∷ [];
}

-- The system after a call has ended, with the calls that still run.
abbrev pub ended : List ℕ → System → System
ended rest s = leave (release_channel s.executor).0 rest (release_channel s.executor).1 s

abbrev pub with_executor : SshShellExecutor → System → System
with_executor x s = record {
  executor = x;
  running = s.running;
  arrived = s.arrived;
  granted = s.granted;
}

abbrev pub idle : System
idle = record { executor = fresh; running = []; arrived = []; granted = [] }

-- The states that can be reached. A call ends only if it runs, and the timer fires only if it was
-- armed.
pub data Reachable : System → Type 0 where
  at_start : Reachable idle
  starts : (call : ℕ) (s : System) → Reachable s → Reachable (started call s)
  ends :
      (call : ℕ) (before later : List ℕ) (s : System)
      → s.running ≡ before ++ call ∷ later
      → Reachable s
      → Reachable (ended (before ++ later) s)
  fires :
      (s : System)
      → s.executor.idle_timer ≡ true
      → Reachable s
      → Reachable (with_executor (disconnect_idle s.executor) s)
  acquires :
      (s : System) → Reachable s → Reachable (with_executor (acquire_connection s.executor).1 s)
  opens :
      (c : Option ℕ) (s : System) → Reachable s → Reachable (with_executor (opened c s.executor) s)
  drops :
      (c : ℕ) (s : System)
      → Reachable s
      → Reachable (with_executor (drop_connection c s.executor) s)

-- Every slot is held by a running call, there are at most four, calls wait only while all four are
-- held, the timer runs only while none is, and slots are given in the order of arrival.
pub IsSound : System → Type 0
IsSound s =
    (length s.running ≡ s.executor.active_channels)
    × ((s.executor.active_channels ≤ 4)
        × ((s.executor.waiters ≡ [] ⊎ s.executor.active_channels ≡ 4)
            × ((s.executor.idle_timer ≡ true → s.executor.active_channels ≡ 0)
                × (s.arrived ≡ s.granted ++ s.executor.waiters))))

append_assoc : (xs ys zs : List ℕ) → (xs ++ ys) ++ zs ≡ xs ++ (ys ++ zs)
append_assoc [] ys zs = refl
append_assoc (x ∷ xs) ys zs = rw (append_assoc xs ys zs)

append_nil : (xs : List ℕ) → xs ++ [] ≡ xs
append_nil [] = refl
append_nil (x ∷ xs) = rw (append_nil xs)

length-snoc : (xs : List ℕ) (x : ℕ) → length (xs ++ x ∷ []) ≡ length xs + 1
length-snoc xs x = length-append xs (x ∷ [])

started-IsSound : (call : ℕ) (s : System) → IsSound s → IsSound (started call s)
unfolding IsSound acquire_channel
started-IsSound call s (r, (b, (w, (t, o)))) =
    elim (Bool-cases (ltb s.executor.active_channels 4)) [
      | inl e ↦
          let nobody : s.executor.waiters ≡ [] =
            none_waits (ltb→lt s.executor.active_channels 4 e) w in
          rw (e, acquire_channel)
            (
              omega (arith, length-snoc s.running call, r),
              (
                omega (arith, ltb→lt s.executor.active_channels 4 e),
                (inl nobody, ((λ h. ground arith), in_order nobody)),
              ),
            )
      | inr e ↦
          rw (e, acquire_channel)
            (
              r,
              (
                b,
                (
                  inr (ground arith),
                  (
                    (λ h. ground arith),
                    rw o (append_assoc s.granted s.executor.waiters (call ∷ [])),
                  ),
                ),
              ),
            )
    ]
  where
    none_waits :
        s.executor.active_channels < 4
        → (s.executor.waiters ≡ [] ⊎ s.executor.active_channels ≡ 4)
        → s.executor.waiters ≡ []
    none_waits l (inl e) = e
    none_waits l (inr e) = absurd (omega arith)

    in_order :
        s.executor.waiters ≡ []
        → s.arrived ++ call ∷ [] ≡ (s.granted ++ call ∷ []) ++ s.executor.waiters
    in_order e = rw e (
        rw (append_nil (s.granted ++ call ∷ []))
          (ap (λ xs. xs ++ call ∷ []) (o ∙ ap (λ ws. s.granted ++ ws) e ∙ append_nil s.granted)))

-- `ended` for a call that frees its slot, and for one that hands it to a waiter.
freed-IsSound :
    (rest : List ℕ) (s : System)
    → s.executor.waiters ≡ []
    → suc (length rest) ≡ s.executor.active_channels
    → IsSound s
    → IsSound (ended rest s)
unfolding IsSound release_channel free_slot
freed-IsSound rest s e l (r, (b, (w, (t, o)))) =
    elim (Bool-cases (s.executor.active_channels - 1 == 0)) [
      | inl z ↦
          rw (e, release_channel)
            (rw (z, free_slot)
              (
                omega arith,
                (omega arith, (inl e, ((λ h. (==_iff (s.executor.active_channels - 1) 0).0 z), o))),
              ))
      | inr z ↦
          rw (e, release_channel)
            (rw (z, free_slot)
              (omega arith, (omega arith, (inl e, ((λ h. omega (arith, t h)), o)))))
    ]

handed-IsSound :
    (rest : List ℕ) (s : System) (next : ℕ) (waiters : List ℕ)
    → s.executor.waiters ≡ next ∷ waiters
    → suc (length rest) ≡ s.executor.active_channels
    → IsSound s
    → IsSound (ended rest s)
unfolding IsSound release_channel
handed-IsSound rest s next waiters e l (r, (b, (w, (t, o)))) =
    rw (e, release_channel)
      (
        omega (arith, length-snoc rest next),
        (
          b,
          (
            inr (all_held w),
            (
              t,
              o ∙ ap (λ ws. s.granted ++ ws) e ∙ sym (append_assoc s.granted (next ∷ []) waiters),
            ),
          ),
        ),
      )
  where
    all_held :
        (s.executor.waiters ≡ [] ⊎ s.executor.active_channels ≡ 4) → s.executor.active_channels ≡ 4
    all_held (inl n) = absurd (ground arith)
    all_held (inr f) = f

length-middle :
    (call : ℕ) (before later running : List ℕ)
    → running ≡ before ++ call ∷ later
    → suc (length (before ++ later)) ≡ length running
length-middle call before later running e =
    rw e (omega (arith, length-append before (call ∷ later), length-append before later))

ended-IsSound :
    (call : ℕ) (before later : List ℕ) (s : System)
    → s.running ≡ before ++ call ∷ later
    → IsSound s
    → IsSound (ended (before ++ later) s)
unfolding IsSound
ended-IsSound call before later s e i = elim (waiters-cases s.executor.waiters) [
  | inl n ↦ freed-IsSound (before ++ later) s n held i
  | inr (next, (waiters, w)) ↦ handed-IsSound (before ++ later) s next waiters w held i
]
  where
    waiters-cases : (ws : List ℕ) → (ws ≡ []) ⊎ ((w : ℕ) × ((rest : List ℕ) × (ws ≡ w ∷ rest)))
    waiters-cases [] = inl refl
    waiters-cases (w ∷ ws) = inr (w, (ws, refl))

    held : suc (length (before ++ later)) ≡ s.executor.active_channels
    held = length-middle call before later s.running e ∙ i.0

acquire-IsSound :
    (s : System) → IsSound s → IsSound (with_executor (acquire_connection s.executor).1 s)
unfolding IsSound acquire_connection
acquire-IsSound s i = elim (Option-cases s.executor.connection) [
  | inl e ↦ elim (Bool-cases s.executor.connecting) [
    | inl c ↦ rw (e, acquire_connection) (rw (c, acquire_connection) i)
    | inr c ↦ rw (e, acquire_connection) (rw (c, acquire_connection) i)
  ]
  | inr (c, e) ↦ rw (e, acquire_connection) i
]

opened-IsSound :
    (c : Option ℕ) (s : System) → IsSound s → IsSound (with_executor (opened c s.executor) s)
unfolding IsSound opened
opened-IsSound none s i = i
opened-IsSound (some c) s i = i

other-IsSound : (s : System) → IsSound s → IsSound (with_executor (disconnect_idle s.executor) s)
unfolding IsSound disconnect_idle
other-IsSound s (r, (b, (w, (t, o)))) = (r, (b, (w, ((λ h. ground arith), o))))

drops-IsSound :
    (c : ℕ) (s : System) → IsSound s → IsSound (with_executor (drop_connection c s.executor) s)
unfolding IsSound drop_connection
drops-IsSound c s i = i

idle-IsSound : IsSound idle
unfolding IsSound
idle-IsSound = (refl, (omega arith, (inl refl, ((λ h. refl), refl))))

-- In every reachable state: each running command holds one of the counted slots, at most four do,
-- calls wait only while all four are held, the idle timer runs only while no command does, and the
-- slots were given to the calls in the order of their arrival, those that wait being the last.
pub Reachable-IsSound : (s : System) → Reachable s → IsSound s
Reachable-IsSound _ at_start = idle-IsSound
Reachable-IsSound _ (starts call s h) = started-IsSound call s (Reachable-IsSound s h)
Reachable-IsSound _ (ends call before later s e h) =
    ended-IsSound call before later s e (Reachable-IsSound s h)
Reachable-IsSound _ (fires s t h) = other-IsSound s (Reachable-IsSound s h)
Reachable-IsSound _ (acquires s h) = acquire-IsSound s (Reachable-IsSound s h)
Reachable-IsSound _ (opens c s h) = opened-IsSound c s (Reachable-IsSound s h)
Reachable-IsSound _ (drops c s h) = drops-IsSound c s (Reachable-IsSound s h)

-- No command is cut off by the idle timer: when it fires in a reachable state, no command runs and
-- none waits for a slot.
pub idle_disconnect_safe :
    (s : System)
    → Reachable s
    → s.executor.idle_timer ≡ true
    → (s.running ≡ []) × (s.executor.waiters ≡ [])
unfolding IsSound
idle_disconnect_safe s h fired =
    let (r, (b, (w, (t, o)))) = Reachable-IsSound s h in
    (
      empty_list s.running (r ∙ t fired),
      elim w [ inl e ↦ e | inr f ↦ absurd (omega (arith, f, t fired)) ],
    )
  where
    empty_list : (xs : List ℕ) → length xs ≡ 0 → xs ≡ []
    empty_list [] e = refl
    empty_list (x ∷ xs) e = absurd (omega (arith, e))
