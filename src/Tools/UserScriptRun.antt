-- ===== src/Tools/UserScriptRun.antt =====
-- tools/userscripts/user-script-run.ts: the handler of the tool `user_script_run`.
pub mod Laws
use better_unraid_mcp.Base.{
  ℕ, ◌*◌, Text, u, [], ◌∷◌, ◌++◌, List, Bool, true, false, not, ◌&&◌, ◌||◌, Option, none, some,
  is_alnum, is_blank, trim, reverse, join, ◌==◌, if◌then◌else◌,
}
use better_unraid_mcp.Effects.{Action, pure, ◌>>=◌, execute, try_catch, guarded}
use better_unraid_mcp.Json.{Json, num, negative, str, obj, end, field}
use better_unraid_mcp.Respond.{ToolResult, tool_error, ResponseFormat, format_response}
use better_unraid_mcp.Respond.Truncate.{truncate_output}
use better_unraid_mcp.Gate.{
  ElicitationChannel, RiskGateFlags, require_risk_acknowledgement_interactive,
}
use better_unraid_mcp.Tools.QuoteShell.{quote_for_shell}
use better_unraid_mcp.Tools.Ssh.{
  ShellCommand, ShellResult, ShellExecutor, exit_text, with_shell, refuse_unless,
}

-- `[A-Za-z0-9 ._-]`
unfoldable pub is_script_char : ℕ → Bool
is_script_char c = is_alnum c || (c == b' ' || (c == b'.' || (c == b'_' || c == b'-')))

pub script_rest : Text → Bool
unfolding is_script_char
script_rest [] = true
script_rest (c ∷ s) = is_script_char c && script_rest s

-- `SCRIPT_NAME_PATTERN.test(name)`
unfoldable pub script_name_pattern : Text → Bool
unfolding script_rest
script_name_pattern [] = false
script_name_pattern (c ∷ s) = script_rest (c ∷ s)

pub dots : Text → Bool
dots [] = true
dots (c ∷ s) = (c == b'.') && dots s

-- `DOT_ONLY_PATTERN.test(name)`
unfoldable pub dot_only_pattern : Text → Bool
unfolding dots
dot_only_pattern [] = false
dot_only_pattern (c ∷ s) = dots (c ∷ s)

pub record UserScriptRunArgs : Type 0 where
  pub response_format : ResponseFormat
  pub name : Text
  pub timeout_seconds : ℕ
  pub flags : RiskGateFlags

-- The script's path.
pub script_path : Text → Text
script_path name = u "/boot/config/plugins/user.scripts/scripts" ++ (u "/" ++ (name ++ u "/script"))

-- The steps of the runner after the first.
unfoldable pub runner_steps : Text
runner_steps =
    u
      "if [ ! -f \"$S\" ]; then echo \"script not found: $S\" >&2; exit 127; fi; T=$(mktemp); tr -d '\\r' < \"$S\" > \"$T\"; bash \"$T\"; RC=$?; rm -f \"$T\"; exit $RC"

pub build_runner : Text → Text
unfolding script_path runner_steps
build_runner name = u "S=" ++ (quote_for_shell (script_path name) ++ (u "; " ++ runner_steps))

pub run_command : UserScriptRunArgs → ShellCommand
run_command args = record {
  command = build_runner args.name;
  timeout_ms = args.timeout_seconds * 1000;
}

-- `s.trimEnd()`
drop_blanks : Text → Text
drop_blanks [] = []
drop_blanks (c ∷ s) = let rest = drop_blanks s in if is_blank c then rest else c ∷ s

trim_end : Text → Text
unfolding drop_blanks
trim_end s = reverse (drop_blanks (reverse s))

-- `if (text.trim()) { parts.push(label, …); }`
section : Text → Text → List Text
unfolding trim_end
section label text = elim (trim text) [
  | [] ↦ []
  | c ∷ s ↦ label ∷ truncate_output (trim_end text) ∷ []
]

pub summarize : Text → ShellResult → Text
unfolding section
summarize name result = join (u "\n") (
    (u "Script \"" ++ (name ++ (u "\" finished with exit code " ++ (exit_text result ++ u "."))))
    ∷ (section (u "--- stdout ---") result.stdout ++ section (u "--- stderr ---") result.stderr))

payload_of : UserScriptRunArgs → ShellResult → Json
payload_of args result = obj (
    field (u "name") (str args.name) (
      field (u "exit_code") (code result.exit_code) (
        field (u "stdout") (str (truncate_output result.stdout))
          (field (u "stderr") (str (truncate_output result.stderr)) end))))
  where
    code : Option ℕ → Json
    code none = negative 1
    code (some n) = num n

invalid_name : Text → ToolResult
invalid_name name = tool_error (u "Invalid script name: " ++ (name ++ u ". No changes were made."))

pub refusal_message : Text → Text
refusal_message name =
    u "Refusing to run user script \""
    ++ (name
        ++ u
            "\": user scripts are arbitrary code running as root on your server. Re-call with \"confirm\": true and \"acknowledge_risk\": true to proceed. No changes were made.")

run_script : ShellExecutor → UserScriptRunArgs → Action ShellCommand ToolResult
unfolding summarize payload_of
run_script shell args = do
  result ← execute shell (run_command args)
  pure (format_response args.response_format (summarize args.name result) (payload_of args result))

abbrev pub name_valid : Text → Bool
name_valid name = script_name_pattern name && not (dot_only_pattern name)

pub user_script_run :
    Option ShellExecutor
    → Option ElicitationChannel
    → UserScriptRunArgs
    → Action ShellCommand ToolResult
unfolding run_script invalid_name
user_script_run shell channel args = with_shell shell (λ host.
    guarded (refuse_unless (name_valid args.name) (invalid_name args.name)) (
      guarded
        (require_risk_acknowledgement_interactive args.flags (refusal_message args.name) channel)
        (try_catch (run_script host args) (λ message.
          tool_error
            (u "Failed to run user script \"" ++ (args.name ++ (u "\" over SSH: " ++ message)))))))
