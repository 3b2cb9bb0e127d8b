-- ===== src/Shell/Executor.antt =====
-- shell/executor.ts: one kept-alive connection, its idle timer and the slots for concurrent commands.
-- The calls of the executor and the connections are numbered; each function is the code between two
-- awaits.
pub mod Laws
pub mod Liveness
use better_unraid_mcp.Base.{
  ℕ, zero, suc, ◌+◌, ◌-◌, ◌≡◌, List, [], ◌∷◌, ◌++◌, Bool, true, false, Option, none, some, ltb,
  ◌==◌, if◌then◌else◌,
}

abbrev pub max_concurrent_channels : ℕ
max_concurrent_channels = 4

-- `connecting` tells that a connection is being opened, `idle_timer` that the timer runs; the
-- waiters are the calls that wait for a slot, the first to come first.
pub record SshShellExecutor : Type 0 where
  pub connection : Option ℕ
  pub connecting : Bool
  pub idle_timer : Bool
  pub active_channels : ℕ
  pub waiters : List ℕ

abbrev pub fresh : SshShellExecutor
fresh = record {
  connection = none;
  connecting = false;
  idle_timer = false;
  active_channels = 0;
  waiters = [];
}

-- What a call does for its connection: it has one, it waits for the one that is being opened, or it
-- opens one.
pub data Acquired : Type 0 where
  live : ℕ → Acquired
  joined : Acquired
  opening : Acquired

-- `acquireConnection` up to its `await`
pub acquire_connection : SshShellExecutor → Acquired × SshShellExecutor
acquire_connection x = elim x.connection [
  | some c ↦ (live c, x)
  | none ↦ if x.connecting then (joined, x) else (opening, record x { connecting = true })
]

-- The rest of `openConnection`, when the factory has given a connection or failed, and the `finally` of each
-- call that waits for it: these run right after it, with no other code of the program between them.
pub opened : Option ℕ → SshShellExecutor → SshShellExecutor
opened (some c) x = record x { connection = some c; connecting = false }
opened none x = record x { connecting = false }

-- `dropConnection`, the listener on the close of a connection.
drop_if : ℕ → Option ℕ → Option ℕ
drop_if dropped none = none
drop_if dropped (some c) = if c == dropped then none else some c

pub drop_connection : ℕ → SshShellExecutor → SshShellExecutor
unfolding drop_if
drop_connection dropped x = record x { connection = drop_if dropped x.connection }

-- `acquireChannel`: whether the call has a slot, or waits for one.
unfoldable pub acquire_channel : ℕ → SshShellExecutor → Bool × SshShellExecutor
acquire_channel call x =
    let awake = record x { idle_timer = false } in
    if ltb x.active_channels max_concurrent_channels
    then (true, record awake { active_channels = x.active_channels + 1 })
    else (false, record awake { waiters = x.waiters ++ call ∷ [] })

-- The counter after a call ended with nobody waiting, with the timer armed if it was the last.
unfoldable pub free_slot : SshShellExecutor → SshShellExecutor
free_slot x =
    if x.active_channels - 1 == 0
    then record x { active_channels = x.active_channels - 1; idle_timer = true }
    else record x { active_channels = x.active_channels - 1 }

-- `releaseChannel`: the call that is resumed, if one waits.
unfoldable pub release_channel : SshShellExecutor → Option ℕ × SshShellExecutor
unfolding free_slot
release_channel x = elim x.waiters [
  | [] ↦ (none, free_slot x)
  | next ∷ waiters ↦ (some next, record x { waiters = waiters })
]

-- The timer fires: `disconnectIdle`.
pub disconnect_idle : SshShellExecutor → SshShellExecutor
disconnect_idle x = record x { connection = none; idle_timer = false }
