-- ===== src/Shell/Executor/Liveness.antt =====
-- A call that waits for a slot gets one.
use better_unraid_mcp.Base.{
  ℕ, suc, ◌<◌, ◌≡◌, refl, ap, ◌∙◌, inl, inr, List, [], ◌∷◌, ◌++◌, Option, none, some, ltb, length,
  Bool-cases, arith,
}
use mathlib.Core.List.{append_assoc}
use better_unraid_mcp.Shell.Executor.{
  SshShellExecutor, acquire_channel, release_channel, max_concurrent_channels,
}

-- What happens to the slots: a call asks for one, or a running call gives its slot back.
pub data Event : Type 0 where
  asks : ℕ → Event
  returns : Event

-- The call that a slot went to, in front of those that follow.
abbrev cons_some : Option ℕ → List ℕ → List ℕ
cons_some none calls = calls
cons_some (some call) calls = call ∷ calls

-- The calls that are resumed, in order.
abbrev pub resumed : List Event → SshShellExecutor → List ℕ
resumed [] x = []
resumed (asks call ∷ events) x = resumed events (acquire_channel call x).1
resumed (returns ∷ events) x =
    cons_some (release_channel x).0 (resumed events (release_channel x).1)

abbrev pub count_returns : List Event → ℕ
count_returns [] = 0
count_returns (asks call ∷ events) = count_returns events
count_returns (returns ∷ events) = suc (count_returns events)

abbrev pub Occurs : ℕ → List ℕ → Type 0
Occurs call calls = (before : List ℕ) × (after : List ℕ) × (calls ≡ before ++ call ∷ after)

waiters-acquire :
    (call other : ℕ) (before after : List ℕ) (x : SshShellExecutor)
    → x.waiters ≡ before ++ call ∷ after
    → (more : List ℕ) × ((acquire_channel other x).1.waiters ≡ before ++ call ∷ more)
unfolding acquire_channel
waiters-acquire call other before after x e =
    elim (Bool-cases (ltb x.active_channels max_concurrent_channels)) [
      | inl f ↦ (after, rw f e)
      | inr f ↦ (
        after ++ other ∷ [],
        rw f (ap (λ ws. ws ++ other ∷ []) e ∙ append_assoc before (call ∷ after) (other ∷ [])),
      )
    ]

release_waiting :
    (next : ℕ) (waiters : List ℕ) (x : SshShellExecutor)
    → x.waiters ≡ next ∷ waiters
    → ((release_channel x).0 ≡ some next) × ((release_channel x).1.waiters ≡ waiters)
unfolding release_channel
release_waiting next waiters x e = (rw (e, release_channel) refl, rw (e, release_channel) refl)

-- A call that waits behind some others is resumed once more slots were given back than calls are in front
-- of it, whatever other calls ask for slots in between.
pub waiting-Occurs :
    (call : ℕ) (before after : List ℕ) (events : List Event) (x : SshShellExecutor)
    → x.waiters ≡ before ++ call ∷ after
    → length before < count_returns events
    → Occurs call (resumed events x)
waiting-Occurs call before after [] x e l = ground arith
waiting-Occurs call before after (asks other ∷ events) x e l =
    let (more, f) = waiters-acquire call other before after x e in
    waiting-Occurs call before more events (acquire_channel other x).1 f l
waiting-Occurs call [] after (returns ∷ events) x e l =
    let (next, rest) = release_waiting call after x e in
    ([], resumed events (release_channel x).1, rw next refl)
waiting-Occurs call (first ∷ before) after (returns ∷ events) x e l =
    let (next, rest) = release_waiting first (before ++ call ∷ after) x e in
    let (earlier, later, o) =
      waiting-Occurs call before after events (release_channel x).1 rest (omega (arith, l)) in
    (first ∷ earlier, later, rw next (ap (λ calls. first ∷ calls) o))
