-- ===== src/Tools/ZfsSnapshotAction/Laws.antt =====
-- What `zfs_snapshot_action` runs on the host, and what the shell makes of it.
use better_unraid_mcp.Base.{
  ℕ, ◌≡◌, refl, ◌⊎◌, inl, inr, ap, ◌∙◌, Text, u, List, [], ◌∷◌, ◌++◌, Bool, true, false, Option,
  some, All, split_on, is_alnum, is_alpha, is_digit, ◌==◌, Bool-cases, arith, split_on-append,
  split_on-plain,
}
use better_unraid_mcp.Effects.{Attempt, guarded_cases}
use better_unraid_mcp.Respond.{ToolResult}
use better_unraid_mcp.Gate.{ElicitationChannel}
use better_unraid_mcp.Gate.Laws.{RiskAccepted, risk_gated}
use better_unraid_mcp.Tools.QuoteShell.{quote_for_shell}
use better_unraid_mcp.Tools.QuoteShell.Reader.{words, read, move, in_word, push, close, is_literal}
use better_unraid_mcp.Tools.QuoteShell.Laws.{read-quote_for_shell_last}
use better_unraid_mcp.Tools.Ssh.{ShellCommand, ShellExecutor, refuse_unless}
use better_unraid_mcp.Tools.Ssh.Laws.{Succeeds, checked_then, refuse_unless-none}
use better_unraid_mcp.Tools.ZfsSnapshotAction.{
  SnapshotAction, create, destroy, rollback, SnapshotActionArgs, is_name_char, dataset_rest,
  dataset_pattern, name_rest, snapshot_name_pattern, subcommand, build_command, snapshot_target,
  refusal_message, probe_command, zfs_command, names_valid, probe_zfs, run_action,
  zfs_snapshot_action,
}

zfs_snapshot_action-Sends :
    (shell : ShellExecutor) (channel : Option ElicitationChannel) (args : SnapshotActionArgs)
    → let sent = (zfs_snapshot_action (some shell) channel args []).1 in
      (sent ≡ [])
      ⊎ ((names_valid args ≡ true)
          × RiskAccepted args.flags (refusal_message args) channel
          × ((sent ≡ probe_command ∷ [])
              ⊎ (Succeeds shell [] probe_command × (sent ≡ zfs_command args ∷ probe_command ∷ []))))
unfolding zfs_snapshot_action run_action probe_zfs
zfs_snapshot_action-Sends shell channel args =
    guarded_cases Q (refuse_unless (names_valid args) _) _ [] (λ r e. inl refl)
      (λ e.
        risk_gated Q args.flags (refusal_message args) channel _ [] (λ r g. inl refl)
          (λ g. inr (
            refuse_unless-none (names_valid args) _ e,
            g,
            checked_then (λ p. Runs p.1) shell probe_command [] _ _ (λ m. inl refl)
                (λ probe. inl refl)
                (λ probe a ok. inr (
                  (probe, a, ok),
                  checked_then (λ p. p.1 ≡ zfs_command args ∷ probe_command ∷ []) shell
                      (zfs_command args) (probe_command ∷ []) _ _ (λ m. refl) (λ result. refl)
                      (λ result b done. refl),
                )),
          )))
  where
    Runs : List ShellCommand → Type 0
    Runs sent =
        (sent ≡ probe_command ∷ [])
        ⊎ (Succeeds shell [] probe_command × (sent ≡ zfs_command args ∷ probe_command ∷ []))

    Q : Attempt ToolResult × List ShellCommand → Type 0
    Q p =
        (p.1 ≡ [])
        ⊎ ((names_valid args ≡ true)
            × RiskAccepted args.flags (refusal_message args) channel
            × Runs p.1)

name_char≢at : (c : ℕ) → is_name_char c ≡ true → (c == b'@') ≡ false
unfolding is_name_char is_alnum is_alpha is_digit
name_char≢at c h = ground arith

dataset_rest-All :
    (started : Bool) (s : Text) → dataset_rest started s ≡ true → All (λ c. (c == b'@') ≡ false) s
unfolding dataset_rest
dataset_rest-All started [] h = tt
dataset_rest-All started (c ∷ s) h = elim (Bool-cases (c == b'/')) [
  | inl e ↦ (ground arith, dataset_rest-All false s (ground arith))
  | inr e ↦ (name_char≢at c (ground arith), dataset_rest-All true s (ground arith))
]

name_rest-All : (s : Text) → name_rest s ≡ true → All (λ c. (c == b'@') ≡ false) s
unfolding name_rest
name_rest-All [] h = tt
name_rest-All (c ∷ s) h = (name_char≢at c (ground arith), name_rest-All s (ground arith))

-- The word that zfs takes for each action.
abbrev pub zfs_verb : SnapshotAction → Text
zfs_verb create = u "snapshot"
zfs_verb destroy = u "destroy"
zfs_verb rollback = u "rollback"

read_subcommand :
    (action : SnapshotAction) (target : Text)
    → words (u "zfs " ++ (subcommand action ++ (u " " ++ quote_for_shell target)))
      ≡ some (u "zfs" ∷ zfs_verb action ∷ target ∷ [])
unfolding words read move in_word push close subcommand u is_literal is_alnum is_alpha is_digit
read_subcommand create target = rw (read-quote_for_shell_last target) refl
read_subcommand destroy target = rw (read-quote_for_shell_last target) refl
read_subcommand rollback target = rw (read-quote_for_shell_last target) refl

-- Three words to the shell, the last of which is the dataset, one `@`, and the snapshot's name.
abbrev pub IsOneTarget : SnapshotActionArgs → Type 0
IsOneTarget args =
    (words (build_command args) ≡ some (u "zfs" ∷ zfs_verb args.action ∷ snapshot_target args ∷ []))
    × (split_on b'@' (snapshot_target args) ≡ args.dataset ∷ args.snapshot ∷ [])

build_command-words : (args : SnapshotActionArgs) → names_valid args ≡ true → IsOneTarget args
unfolding build_command snapshot_target u dataset_pattern snapshot_name_pattern
build_command-words args h = (read_subcommand args.action (snapshot_target args), separate)
  where
    plain : (s : Text) → snapshot_name_pattern s ≡ true → All (λ c. (c == b'@') ≡ false) s
    plain [] e = tt
    plain (c ∷ s) e = name_rest-All (c ∷ s) e

    separate :
        split_on b'@' (args.dataset ++ b'@' ∷ args.snapshot) ≡ args.dataset ∷ args.snapshot ∷ []
    separate =
        split_on-append b'@' args.dataset args.snapshot
          (dataset_rest-All false args.dataset (ground arith))
        ∙ ap (λ parts. args.dataset ∷ parts)
            (split_on-plain b'@' args.snapshot (plain args.snapshot (ground arith)))

-- A call sends nothing, or its names are valid, it is authorised, and it sends the probe and, only if that
-- succeeded, the one command. To the shell that command is the three words `zfs`, the action's verb
-- (`snapshot`, `destroy` or `rollback`) and the target, and the target has exactly one `@`, between the
-- dataset and the snapshot's name: no name adds a word, and none aims the command at a bare dataset.
pub zfs_snapshot_action_lem :
    (shell : ShellExecutor) (channel : Option ElicitationChannel) (args : SnapshotActionArgs)
    → let sent = (zfs_snapshot_action (some shell) channel args []).1 in
      (sent ≡ [])
      ⊎ ((names_valid args ≡ true)
          × RiskAccepted args.flags (refusal_message args) channel
          × IsOneTarget args
          × ((sent ≡ probe_command ∷ [])
              ⊎ (Succeeds shell [] probe_command × (sent ≡ zfs_command args ∷ probe_command ∷ []))))
zfs_snapshot_action_lem shell channel args = elim (zfs_snapshot_action-Sends shell channel args) [
  | inl e ↦ inl e
  | inr (valid, accepted, runs) ↦ inr (valid, accepted, build_command-words args valid, runs)
]
