-- ===== src/Tools/DiskSpin.antt =====
-- tools/disk/disk-spin.ts: the handler of the tool `disk_spin`.
pub mod Laws
use better_unraid_mcp.Base.{
  ℕ, Text, u, [], ◌∷◌, ◌++◌, Bool, true, false, ◌&&◌, ◌||◌, Option, none, some, is_digit, trim, leb,
  ◌==◌, if◌then◌else◌,
}
use better_unraid_mcp.Effects.{Action, pure, ◌>>=◌, execute, try_catch, guarded}
use better_unraid_mcp.Respond.{ToolResult, tool_error, tool_text}
use better_unraid_mcp.Gate.{ElicitationChannel, require_confirmation_interactive}
use better_unraid_mcp.Tools.Ssh.{
  ShellCommand, ShellResult, ShellExecutor, succeeded, exit_text, or_text, with_shell,
  refuse_unless,
}

-- What follows a literal at the start of a text.
unfoldable pub after : Text → Text → Option Text
after [] s = some s
after (p ∷ ps) [] = none
after (p ∷ ps) (c ∷ s) = let rest = after ps s in if c == p then rest else none

-- `[0-9]*` and `[a-z]*`, up to the end.
unfoldable pub all_digits : Text → Bool
all_digits [] = true
all_digits (c ∷ s) = is_digit c && all_digits s

unfoldable pub is_small : ℕ → Bool
is_small c = leb b'a' c && leb c b'z'

pub all_small : Text → Bool
unfolding is_small
all_small [] = true
all_small (c ∷ s) = is_small c && all_small s

-- `[0-9]+`, `[0-9]?` and `[a-z]+`, up to the end.
unfoldable pub some_digits : Text → Bool
unfolding all_digits
some_digits [] = false
some_digits (c ∷ s) = all_digits (c ∷ s)

pub optional_digit : Text → Bool
optional_digit [] = true
optional_digit (c ∷ []) = is_digit c
optional_digit (c ∷ (d ∷ s)) = false

pub some_small : Text → Bool
unfolding all_small
some_small [] = false
some_small (c ∷ s) = all_small (c ∷ s)

-- The rest after a literal, if it is there, passes a test.
unfoldable pub continues : (Text → Bool) → Option Text → Bool
continues test none = false
continues test (some rest) = test rest

-- `DISK_NAME_PATTERN.test(disk)`
unfoldable pub disk_name_pattern : Text → Bool
unfolding after continues some_digits optional_digit
disk_name_pattern disk =
    continues some_digits (after (u "disk") disk)
    || (continues optional_digit (after (u "parity") disk)
        || continues all_digits (after (u "cache") disk))

-- `DEVICE_PATTERN.test(device)`
unfoldable pub device_pattern : Text → Bool
unfolding after continues some_small
device_pattern device = continues some_small (after (u "/dev/sd") device)

pub data SpinAction : Type 0 where
  up down : SpinAction

pub record DiskSpinArgs : Type 0 where
  pub action : SpinAction
  pub disk : Option Text
  pub device : Option Text
  pub confirm : Option Bool

exactly_one : Text
exactly_one =
    u
      "Pass exactly one of `disk` (array slot like disk1/parity/cache) or `device` (/dev/sdX for unassigned devices)."

-- `validateTarget`, by the two optional arguments.
unfoldable pub target_error : Option Text → Option Text → Option Text
unfolding exactly_one
target_error none none = some exactly_one
target_error (some disk) (some device) = some exactly_one
target_error (some disk) none =
    if disk_name_pattern disk
    then none
    else some
        (u "Invalid array disk name: " ++ (disk ++ u " (expected disk1, parity, cache, ...)."))
target_error none (some device) =
    if device_pattern device
    then none
    else some
        (u "Invalid device: " ++ (device ++ u " (expected /dev/sdX; NVMe devices do not spin)."))

pub validate_target : DiskSpinArgs → Option Text
unfolding target_error
validate_target args = target_error args.disk args.device

pub action_text : SpinAction → Text
action_text up = u "up"
action_text down = u "down"

pub verb : SpinAction → Text
verb up = u "cmdSpinup"
verb down = u "cmdSpindown"

-- A template prints an argument that is absent as `undefined`.
pub device_text : Option Text → Text
device_text none = u "undefined"
device_text (some device) = device

-- `buildCommand`, by the two optional arguments.
pub command_for : SpinAction → Option Text → Option Text → Text
unfolding verb action_text device_text
command_for action (some disk) device =
    u "/usr/local/sbin/emcmd" ++ (u " " ++ (verb action ++ (u "=" ++ disk)))
command_for action none device =
    u "/usr/local/sbin/sdspin" ++ (u " " ++ (device_text device ++ (u " " ++ action_text action)))

pub build_command : DiskSpinArgs → Text
unfolding command_for
build_command args = command_for args.action args.disk args.device

-- `args.disk ?? args.device ?? ""`
or_empty : Option Text → Text
or_empty none = []
or_empty (some s) = s

target_of : Option Text → Option Text → Text
unfolding or_empty
target_of (some disk) device = disk
target_of none device = or_empty device

pub target : DiskSpinArgs → Text
unfolding target_of
target args = target_of args.disk args.device

pub spin_command : DiskSpinArgs → ShellCommand
spin_command args = record { command = build_command args; timeout_ms = 30000 }

failed_error : DiskSpinArgs → ShellResult → ToolResult
failed_error args result = tool_error (
    u "disk_spin "
    ++ (action_text args.action
        ++ (u " failed (exit "
            ++ (exit_text result
                ++ (u "): "
                    ++ or_text (trim result.stderr)
                        (or_text (trim result.stdout) (u "(no output)")))))))

run_spin : ShellExecutor → DiskSpinArgs → Action ShellCommand ToolResult
unfolding failed_error
run_spin shell args = do
  result ← execute shell (spin_command args)
  guarded (refuse_unless (succeeded result) (failed_error args result)) (
      pure (
        tool_text (
          u "Spin "
          ++ (action_text args.action
              ++ (u " requested for " ++ (target args ++ u ". Verify with disk_list."))))))

pub describe : DiskSpinArgs → Text
describe args = u "spin " ++ (action_text args.action ++ (u " " ++ target args))

-- `if (invalid) { return toolError(…); }`
abbrev pub refuse_invalid : Option Text → Option ToolResult
refuse_invalid none = none
refuse_invalid (some invalid) = some (tool_error (invalid ++ u " No changes were made."))

pub disk_spin :
    Option ShellExecutor → Option ElicitationChannel → DiskSpinArgs → Action ShellCommand ToolResult
unfolding run_spin
disk_spin shell channel args = with_shell shell (λ host.
    guarded (refuse_invalid (validate_target args)) (
      guarded (require_confirmation_interactive args.confirm (describe args) channel) (
        try_catch (run_spin host args) (λ message. tool_error (
          u "Failed to spin "
          ++ (action_text args.action
              ++ (u " " ++ (target args ++ (u " over SSH: " ++ message)))))))))
