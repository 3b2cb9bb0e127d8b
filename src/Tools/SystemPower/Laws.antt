-- ===== src/Tools/SystemPower/Laws.antt =====
-- When `system_power` sends its command, and exactly when it says that the server goes down.
use better_unraid_mcp.Base.{
  ◌≡◌, refl, ◌⊎◌, inl, inr, ◌↔◌, Text, List, [], ◌∷◌, true, false, Option, some, includes,
  Bool-cases, arith,
}
use better_unraid_mcp.Effects.{Attempt, returned, thrown, try_catch}
use better_unraid_mcp.Respond.{ToolResult}
use better_unraid_mcp.Gate.{ElicitationChannel}
use better_unraid_mcp.Gate.Laws.{RiskAccepted, risk_gated}
use better_unraid_mcp.Tools.Ssh.{ShellCommand, ShellResult, ShellExecutor, succeeded, is_success}
use better_unraid_mcp.Tools.Ssh.Laws.{Succeeds, no_success}
use better_unraid_mcp.Tools.SystemPower.{
  PowerAction, SystemPowerArgs, refusal_message, exec_phase_marker, map_power_error, power_command,
  run_power, system_power,
}

-- The command exited with code 0, or the executor gave up on it after it was sent.
abbrev pub Issued : ShellExecutor → PowerAction → Type 0
Issued shell action =
    Succeeds shell [] (power_command action)
    ⊎ ((message : Text) × (shell [] (power_command action) ≡ thrown message)
        × (includes message exec_phase_marker ≡ true))

-- What a call comes to, by what it returns and what it sent.
abbrev pub Outcome :
    ShellExecutor
    → Option ElicitationChannel
    → SystemPowerArgs
    → Attempt ToolResult × List ShellCommand
    → Type 0
Outcome shell channel args p =
    ((p.1 ≡ []) × (is_success p.0 ≡ false))
    ⊎ (RiskAccepted args.flags (refusal_message args.action) channel
        × (p.1 ≡ power_command args.action ∷ [])
        × ((is_success p.0 ≡ true) ↔ Issued shell args.action))

Reply : PowerAction → Attempt ShellResult → Type 0
Reply action reply =
    ((result : ShellResult) × (reply ≡ returned result) × (succeeded result ≡ true))
    ⊎ ((message : Text) × (reply ≡ thrown message) × (includes message exec_phase_marker ≡ true))

run_power_reply :
    (shell : ShellExecutor) (action : PowerAction) (reply : Attempt ShellResult)
    → shell [] (power_command action) ≡ reply
    → let p = try_catch (run_power shell action) (map_power_error action) [] in
      (p.1 ≡ power_command action ∷ []) × ((is_success p.0 ≡ true) ↔ Reply action reply)
unfolding run_power map_power_error Reply
run_power_reply shell action (returned result) e = elim (Bool-cases (succeeded result)) [
  | inl ok ↦
      rw (e, run_power) (rw (ok, run_power) (refl, ((λ h. inl (result, refl, ok)), λ h. refl)))
  | inr bad ↦
      rw (e, run_power) (rw (bad, run_power) (refl, (no_success, λ h. absurd (ground arith))))
]
run_power_reply shell action (thrown message) e =
    elim (Bool-cases (includes message exec_phase_marker)) [
      | inl sent ↦
          rw (e, run_power)
            (rw (sent, map_power_error) (refl, ((λ h. inr (message, refl, sent)), λ h. refl)))
      | inr lost ↦
          rw (e, run_power)
            (rw (lost, map_power_error) (refl, (no_success, λ h. absurd (ground arith))))
    ]

-- A call sends nothing and fails, or it is authorised and sends the power command alone, once. Then it
-- reports success exactly if the command exited with code 0 or the executor's error says that it was
-- sent.
pub system_power-Outcome :
    (shell : ShellExecutor) (channel : Option ElicitationChannel) (args : SystemPowerArgs)
    → Outcome shell channel args (system_power (some shell) channel args [])
unfolding system_power Reply
system_power-Outcome shell channel args =
    risk_gated (Outcome shell channel args) args.flags (refusal_message args.action) channel _ []
      (λ r e. inl (refl, ground arith))
      (λ g.
        let (alone, outcome) =
          run_power_reply shell args.action (shell [] (power_command args.action)) refl in
        inr (g, alone, outcome))
