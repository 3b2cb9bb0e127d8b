-- ===== src/Tools/Share/Delete.antt =====
-- tools/share/share-delete.ts: the handler of the tool `share_delete`.
pub mod Laws
pub mod Form
use better_unraid_mcp.Base.{
  Text, u, [], ◌∷◌, ◌++◌, Bool, ◌||◌, Option, none, some, trim, split_on, join, filter_b,
  starts_with, if◌then◌else◌,
}
use better_unraid_mcp.Effects.{Action, pure, ◌>>=◌, execute, try_catch, guarded}
use better_unraid_mcp.Respond.{ToolResult, tool_error, tool_text}
use better_unraid_mcp.Gate.{
  ElicitationChannel, RiskGateFlags, require_risk_acknowledgement_interactive,
}
use better_unraid_mcp.Tools.QuoteShell.{quote_for_shell}
use better_unraid_mcp.Tools.Ssh.{ShellCommand, ShellResult, ShellExecutor, with_shell}
use better_unraid_mcp.Tools.Share.Parse.{Config}
use better_unraid_mcp.Tools.Share.Name.{validate_share_name, share_cfg_path}
use better_unraid_mcp.Tools.Share.Query.{ShareSettings, EditQueryInput, delete, build_edit_query}
use better_unraid_mcp.Tools.Share.WriteFlow.{cfg_command, cfg_of, encoded, submit_to_emhttpd}
use better_unraid_mcp.Tools.Share.Write.{refuse_name}

pub record ShareDeleteArgs : Type 0 where
  pub name : Text
  pub flags : RiskGateFlags

pub entry_command : Text → ShellCommand
entry_command name = record {
  command =
      u "find "
      ++ (quote_for_shell (u "/mnt/user" ++ (u "/" ++ name))
          ++ u " -mindepth 1 -print -quit 2>/dev/null");
  timeout_ms = 10000;
}

-- `/^(shareName|shareNameOrig|cmdEditShare)=/.test(pair)`
unfoldable pub is_name_pair : Text → Bool
is_name_pair pair =
    starts_with pair (u "shareName=")
    || (starts_with pair (u "shareNameOrig=") || starts_with pair (u "cmdEditShare="))

unfoldable pub delete_query_only : Text → Text
unfolding is_name_pair
delete_query_only full_query = join (u "&") (filter_b is_name_pair (split_on b'&' full_query))

no_settings : ShareSettings
no_settings = record {
  comment = none;
  allocator = none;
  use_cache = none;
  cache_pool = none;
  smb_export = none;
  smb_security = none;
}

pub delete_input : Text → EditQueryInput
unfolding no_settings
delete_input name = record {
  name = name;
  name_orig = name;
  current = [];
  changes = no_settings;
  command = delete;
}

no_config : Text → ToolResult
no_config name = tool_error (
    u "Share \"" ++ (name ++ u "\" has no config under /boot/config/shares. No changes were made."))

still_data : Text → Text → ToolResult
still_data name entry = tool_error (
    u "Share \""
    ++ (name
        ++ (u "\" still contains data (e.g. "
            ++ (entry
                ++ (u
                      "). share_delete only removes the share configuration, never files: move or delete the contents of /mnt/user/"
                    ++ (name
                        ++ u
                            " first (they live on the array/pool disks). No changes were made."))))))

still_exists : Text → ToolResult
still_exists name = tool_error (
    u "emhttpd accepted the delete but "
    ++ (share_cfg_path name ++ u " still exists — not verified. Check Shares in the web UI."))

deleted : Text → ToolResult
deleted name = tool_text (
    u "Share \""
    ++ (name
        ++ (u "\" configuration deleted — verified: "
            ++ (share_cfg_path name ++ u " is gone. No files were touched."))))

-- What the handler answers after the configuration was looked up again.
pub gone : Text → Option Config → ToolResult
unfolding still_exists deleted
gone name (some cfg) = still_exists name
gone name none = deleted name

submit_delete : ShellExecutor → Text → Action ShellCommand ToolResult
unfolding gone
submit_delete shell name = do
  query ← encoded (build_edit_query (delete_input name))
  submit_to_emhttpd shell (delete_query_only query)
      (do after ← execute shell (cfg_command name); pure (gone name (cfg_of after)))

-- `if (entry) { return …; }`
unless_entry : ShellExecutor → Text → Text → Action ShellCommand ToolResult
unfolding still_data submit_delete
unless_entry shell name [] = submit_delete shell name
unless_entry shell name (c ∷ entry) = pure (still_data name (c ∷ entry))

if_configured : ShellExecutor → Text → Option Config → Action ShellCommand ToolResult
unfolding no_config unless_entry
if_configured shell name none = pure (no_config name)
if_configured shell name (some cfg) = do
  entry ← execute shell (entry_command name)
  unless_entry shell name (trim entry.stdout)

pub run_delete : ShellExecutor → Text → Action ShellCommand ToolResult
unfolding if_configured
run_delete shell name = do
  found ← execute shell (cfg_command name)
  if_configured shell name (cfg_of found)

pub delete_message : Text → Text
delete_message name =
    u "Refusing to delete share \""
    ++ (name
        ++ u
            "\": this removes the share's configuration (SMB/NFS export, allocation settings). It never deletes files, and refuses while the share holds data. Re-call with \"confirm\": true and \"acknowledge_risk\": true to proceed. No changes were made.")

pub share_delete :
    Option ShellExecutor
    → Option ElicitationChannel
    → ShareDeleteArgs
    → Action ShellCommand ToolResult
unfolding run_delete
share_delete shell channel args = with_shell shell (λ host.
    guarded (refuse_name (validate_share_name args.name)) (
      guarded
        (require_risk_acknowledgement_interactive args.flags (delete_message args.name) channel)
        (try_catch (run_delete host args.name)
          (λ message. tool_error (u "Failed to delete share over SSH: " ++ message)))))
