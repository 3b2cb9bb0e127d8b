-- ===== src/Tools/MoverAction/Laws.antt =====
-- What `mover_action` runs on the host, and what its result tells.
use better_unraid_mcp.Base.{◌≡◌, refl, ◌⊎◌, inl, inr, [], ◌∷◌, Option, some}
use better_unraid_mcp.Gate.{ElicitationChannel}
use better_unraid_mcp.Gate.Laws.{Confirmed, confirmation_gated}
use better_unraid_mcp.Tools.Ssh.{ShellExecutor}
use better_unraid_mcp.Tools.Ssh.Laws.{checked_then}
use better_unraid_mcp.Tools.MoverAction.{
  MoverActionArgs, mover_command, describe, run_mover, mover_action,
}

-- A call sends nothing, or it is confirmed and sends the one command of its verb.
pub mover_action-Sends :
    (shell : ShellExecutor) (channel : Option ElicitationChannel) (args : MoverActionArgs)
    → let sent = (mover_action (some shell) channel args []).1 in
      (sent ≡ [])
      ⊎ (Confirmed args.confirm (describe args.action) channel
          × (sent ≡ mover_command args.action ∷ []))
unfolding mover_action run_mover
mover_action-Sends shell channel args =
    confirmation_gated
      (λ p.
        (p.1 ≡ [])
        ⊎ (Confirmed args.confirm (describe args.action) channel
            × (p.1 ≡ mover_command args.action ∷ [])))
      args.confirm (describe args.action) channel _ [] (λ r e. inl refl)
      (λ g. inr (
        g,
        checked_then (λ p. p.1 ≡ mover_command args.action ∷ []) shell (mover_command args.action)
            [] _ _ (λ m. refl) (λ result. refl) (λ result a ok. refl),
      ))
