-- ===== src/Tools/Share/WriteFlow.antt =====
-- tools/share/write-flow.ts: the steps that the three handlers are made of.
pub mod Laws
use better_unraid_mcp.Base.{
  ℕ, Text, u, List, [], ◌∷◌, ◌++◌, Bool, true, false, not, ◌&&◌, Option, none, some, map, member,
  join, text_eq, starts_with, length, drop, trim, if◌then◌else◌,
}
use better_unraid_mcp.Effects.{Action, Attempt, returned, thrown, pure, ◌>>=◌, execute, guarded}
use better_unraid_mcp.Respond.{ToolResult, tool_error, tool_text}
use better_unraid_mcp.Tools.QuoteShell.{quote_for_shell}
use better_unraid_mcp.Tools.Ssh.{
  ShellCommand, ShellResult, ShellExecutor, succeeded, exit_text, or_text, refuse_unless,
}
use better_unraid_mcp.Tools.Share.Parse.{
  Config, get, parse_share_cfg, parse_pool_names, parse_disk_names, parse_reserved_names,
}
use better_unraid_mcp.Tools.Share.Name.{is_reserved_name, share_cfg_path}
use better_unraid_mcp.Tools.Share.Query.{
  ShareSettings, Submit, add_share, apply, delete, EditQueryInput, changed_fields, changes_smb,
  build_edit_query, smb_pairs, encode_pairs,
}

pub emcmd_command : Text → Text
emcmd_command query =
    quote_for_shell (u "/usr/local/sbin/emcmd") ++ (u " " ++ quote_for_shell query)

-- A call that throws for a text that has no encoding.
abbrev pub encoded : {A : Type 0} → Option A → Action ShellCommand A
encoded none sent = (thrown (u "URI malformed"), sent)
encoded (some a) sent = (returned a, sent)

pub record HostContext : Type 0 where
  pub pools : List Text
  pub disk_names : List Text
  pub reserved : List Text

pub cfg_command : Text → ShellCommand
cfg_command name = record {
  command = u "cat " ++ quote_for_shell (share_cfg_path name);
  timeout_ms = 10000;
}

-- What `readShareCfg` makes of a reply; `none` where the file does not exist.
unfoldable pub cfg_of : ShellResult → Option Config
cfg_of result = if succeeded result then some (parse_share_cfg result.stdout) else none

unfoldable pub context_separator : Text
context_separator = u "=== VAR"

pub host_command : ShellCommand
host_command = record {
  command =
      u "cat "
      ++ (quote_for_shell (u "/var/local/emhttp/disks.ini")
          ++ (u "; echo '"
              ++ (context_separator
                  ++ (u "'; grep '^reservedNames=' "
                      ++ quote_for_shell (u "/var/local/emhttp/var.ini")))));
  timeout_ms = 10000;
}

-- What stands before the first separator, and after it.
cut : Text → Text → Text × Text
cut separator [] = ([], [])
cut separator (c ∷ s) =
    let (part, rest) = cut separator s in
    if starts_with (c ∷ s) separator
    then ([], drop (length separator) (c ∷ s))
    else (c ∷ part, rest)

-- `readHostContext`, by the standard output: the first two parts of its split.
pub context_of : Text → HostContext
unfolding cut context_separator
context_of stdout =
    let (disks_ini, rest) = cut (context_separator ++ u "\n") stdout in
    let (var_ini, more) = cut (context_separator ++ u "\n") rest in
    record {
      pools = parse_pool_names disks_ini;
      disk_names = parse_disk_names disks_ini;
      reserved = parse_reserved_names var_ini;
    }

abbrev pub known_pool : Option Text → List Text → Bool
known_pool none pools = true
known_pool (some pool) pools = member pool pools

pool_text : Option Text → Text
pool_text none = u "undefined"
pool_text (some pool) = pool

pub check_against_host : Text → ShareSettings → HostContext → Option ToolResult
unfolding pool_text
check_against_host name changes host =
    if is_reserved_name name (host.reserved ++ (host.disk_names ++ host.pools))
    then some (
        tool_error (
          u "\""
          ++ (name
              ++ u
                  "\" is a reserved name (Unraid pseudo-share, disk, or pool name). No changes were made.")))
    else if not (known_pool changes.cache_pool host.pools)
    then some (
        tool_error (
          u "Unknown cache pool \""
          ++ (pool_text changes.cache_pool
              ++ (u "\". Pools on this server: "
                  ++ (or_text (join (u ", ") host.pools) (u "(none)")
                      ++ u ". No changes were made.")))))
    else none

pub submit_command : Text → ShellCommand
submit_command query = record { command = emcmd_command query; timeout_ms = 60000 }

rejected : ShellResult → ToolResult
rejected result = tool_error (
    u "emhttpd rejected the change (exit "
    ++ (exit_text result
        ++ (u "): "
            ++ (or_text (trim result.stdout) (trim result.stderr)
                ++ u ". Nothing was verified — check the share in the web UI."))))

-- `submitToEmhttpd`, whose failure ends the handler, and what follows it.
pub submit_to_emhttpd :
    ShellExecutor → Text → Action ShellCommand ToolResult → Action ShellCommand ToolResult
unfolding rejected
submit_to_emhttpd shell query rest = do
  result ← execute shell (submit_command query)
  guarded (refuse_unless (succeeded result) (rejected result)) rest

-- The requested settings that do not stand in the configuration that was read back.
differs : Option Text → Text → Bool
differs none value = true
differs (some found) value = not (text_eq found value)

unfoldable pub unverified : Config → Config → List Text
unfolding differs
unverified [] cfg_after = []
unverified ((key, value) ∷ fields) cfg_after =
    let rest = unverified fields cfg_after in
    if differs (get key cfg_after) value then key ∷ rest else rest

pub unverified_keys : ShareSettings → Config → List Text
unfolding unverified
unverified_keys changes cfg_after = unverified (changed_fields changes) cfg_after

not_read_back : Text → ToolResult
not_read_back name = tool_error (
    u "emhttpd accepted the change but "
    ++ (share_cfg_path name
        ++ u " could not be read back — not verified. Check the share in the web UI."))

mismatch : Text → List Text → ToolResult
mismatch name keys = tool_error (
    u "emhttpd accepted the change but the read-back differs for "
    ++ (join (u ", ") keys
        ++ (u " — not verified. Check the share in the web UI (Shares → " ++ (name ++ u ")."))))

verb_text : Submit → Text
verb_text add_share = u "created"
verb_text _ = u "updated"

smb_note : Bool → Text
smb_note true = u " (SMB settings applied)"
smb_note false = []

-- What the handler answers after the configuration was read back.
pub verdict : EditQueryInput → Option Config → ToolResult
unfolding not_read_back mismatch verb_text smb_note
verdict input none = not_read_back input.name
verdict input (some after) = elim (unverified_keys input.changes after) [
  | [] ↦ tool_text (
      u "Share \""
      ++ (input.name
          ++ (u "\" "
              ++ (verb_text input.command
                  ++ (u " — verified by re-reading "
                      ++ (share_cfg_path input.name
                          ++ (smb_note (changes_smb input.changes)
                              ++ (u ". Data path: /mnt/user/" ++ (input.name ++ u ".")))))))))
  | key ∷ keys ↦ mismatch input.name (key ∷ keys)
]

pub read_back : ShellExecutor → EditQueryInput → Action ShellCommand ToolResult
read_back shell input = do
  result ← execute shell (cfg_command input.name)
  pure (verdict input (cfg_of result))

-- The SMB form, if one of its settings is asked for, before what follows.
pub submit_smb :
    ShellExecutor → EditQueryInput → Action ShellCommand ToolResult → Action ShellCommand ToolResult
unfolding submit_to_emhttpd
submit_smb shell input rest =
    if changes_smb input.changes
    then (do
      query ← encoded (encode_pairs (smb_pairs input.name input.current input.changes))
      submit_to_emhttpd shell query rest)
    else rest

pub apply_and_verify : ShellExecutor → EditQueryInput → Action ShellCommand ToolResult
unfolding submit_smb read_back
apply_and_verify shell input = do
  query ← encoded (build_edit_query input)
  submit_to_emhttpd shell query (submit_smb shell input (read_back shell input))
