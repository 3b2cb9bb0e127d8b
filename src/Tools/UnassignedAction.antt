-- ===== src/Tools/UnassignedAction.antt =====
-- tools/unassigned/unassigned-action.ts and _shared.ts: the handler of the tool `unassigned_action`. The JSON
-- parser is a parameter.
pub mod Mountpoint
pub mod Laws
use better_unraid_mcp.Base.{
  ◌≡◌, refl, not, Text, u, List, [], ◌∷◌, ◌++◌, Bool, true, false, ◌&&◌, ◌||◌, Option, none, some,
  is_digit, member, map, starts_with, text_eq, length, decimal, drop, trim, reverse, ◌==◌,
  if◌then◌else◌, ◌+◌, ℕ,
}
use better_unraid_mcp.Effects.{Action, pure, ◌>>=◌, execute, try_catch, guarded}
use better_unraid_mcp.Json.{
  Json, Items, Fields, null, bool, num, negative, str, arr, obj, nil, cons, end, field,
}
use better_unraid_mcp.Respond.{ToolResult, tool_error, ResponseFormat, concise, format_response}
use better_unraid_mcp.Gate.{
  ElicitationChannel, RiskGateFlags, require_risk_acknowledgement_interactive,
}
use better_unraid_mcp.Tools.QuoteShell.{quote_for_shell}
use better_unraid_mcp.Tools.Ssh.{
  ShellCommand, ShellResult, ShellExecutor, succeeded, exit_text, or_text, with_shell,
  refuse_unless,
}
use better_unraid_mcp.Tools.DiskSpin.{after, is_small, some_digits, continues}
use better_unraid_mcp.Tools.Share.Parse.{Match, match_all, until_quote}

pub data MountAction : Type 0 where
  mount unmount : MountAction

pub record UnassignedActionArgs : Type 0 where
  pub response_format : Option ResponseFormat
  pub action : MountAction
  pub device : Text
  pub flags : RiskGateFlags

-- `[0-9]+` and then the given letter, up to what follows it.
number_then : ℕ → Text → Option Text
number_then letter [] = none
number_then letter (c ∷ s) = let rest = more s in if is_digit c then rest else none
  where
    more : Text → Option Text
    more [] = none
    more (d ∷ t) =
        let rest = more t in if d == letter then some t else if is_digit d then rest else none

-- `[a-z]*[0-9]+`, up to the end.
letters_digits : Text → Bool
letters_digits [] = false
letters_digits (c ∷ s) =
    let rest = letters_digits s in if is_small c then rest else some_digits (c ∷ s)

-- `[a-z]+[0-9]+`
sd_rest : Text → Bool
unfolding letters_digits
sd_rest [] = false
sd_rest (c ∷ s) = is_small c && letters_digits s

then_number : ℕ → Option Text → Option Text
unfolding number_then
then_number letter none = none
then_number letter (some s) = number_then letter s

-- `PARTITION_PATTERN.test(device)`
unfoldable pub partition_pattern : Text → Bool
unfolding sd_rest then_number
partition_pattern device =
    continues sd_rest (after (u "/dev/sd") device)
    || continues some_digits (then_number b'p' (then_number b'n' (after (u "/dev/nvme") device)))

-- `^device="([^"]+)"`
device_match : Text → Match
device_match s = elim (starts_with s (u "device=\"")) [
  | false ↦ none
  | true ↦ elim (until_quote (drop 8 s)) [
    | none ↦ none
    | some [] ↦ none
    | some (c ∷ value) ↦ some (c ∷ value, [], length (c ∷ value) + 9)
  ]
]

pub parse_assigned_devices : Text → List Text
unfolding device_match
parse_assigned_devices disks_ini = map (λ found. found.0) (match_all device_match 0 true disks_ini)

-- A text without the digits at its end, read from the back.
drop_digits : Text → Text
drop_digits [] = []
drop_digits (c ∷ s) = let rest = drop_digits s in if is_digit c then rest else c ∷ s

-- `replace(/[0-9]+$/, "")`
strip_digits : Text → Text
unfolding drop_digits
strip_digits s = reverse (drop_digits (reverse s))

-- `replace(/p[0-9]+$/, "")`, from the back: the digits, of which there must be one, and then the letter.
drop_p : Text → Text → Text
drop_p whole [] = whole
drop_p whole (c ∷ s) = if c == b'p' then s else whole

strip_partition : Text → Text
unfolding drop_digits drop_p
strip_partition s = elim (reverse s) [
  | [] ↦ s
  | c ∷ back ↦ if is_digit c then reverse (drop_p (c ∷ back) (drop_digits (c ∷ back))) else s
]

without_dev : Text → Option Text → Text
without_dev whole none = whole
without_dev whole (some name) = name

pub parent_disk_of : Text → Text
unfolding without_dev strip_digits strip_partition
parent_disk_of partition =
    let name = without_dev partition (after (u "/dev/") partition) in
    if starts_with name (u "nvme") then strip_partition name else strip_digits name

pub ud_verb : MountAction → Text
ud_verb mount = u "mount"
ud_verb unmount = u "umount"

action_text : MountAction → Text
action_text mount = u "mount"
action_text unmount = u "unmount"

consequence : MountAction → Text
consequence mount =
    u
      "mounts the partition under /mnt/disks via the Unassigned Devices plugin (which may run its device scripts and share it over SMB per its settings)"
consequence unmount =
    u "unmounts the partition — anything still writing to it (containers, copies) will fail"

pub refusal_message : UnassignedActionArgs → Text
unfolding action_text consequence
refusal_message args =
    u "Refusing to "
    ++ (action_text args.action
        ++ (u " "
            ++ (args.device
                ++ (u ": this "
                    ++ (consequence args.action
                        ++ u
                            ". Re-call with \"confirm\": true and \"acknowledge_risk\": true to proceed. No changes were made.")))))

-- A value that is neither missing nor null.
pub present : Option Json → Option Json
present none = none
present (some null) = none
present (some value) = some value

-- A member of an object, the last of several with one key.
pub member_of : Text → Fields → Option Json
member_of key end = none
member_of key (field k value fields) = elim (member_of key fields) [
  | some later ↦ some later
  | none ↦ if text_eq k key then some value else none
]

-- `value?.[key] ?? null` for a key that no text, number or array has.
pub property : Text → Option Json → Option Json
unfolding member_of present
property key (some (obj fields)) = present (member_of key fields)
property key _ = none

-- `value?.[0] ?? null`; the first letter of a text is a text, and has no member `mountpoint`.
pub first_element : Option Json → Option Json
unfolding property present
first_element (some (arr (cons value rest))) = present (some value)
first_element (some (obj fields)) = property (u "0") (some (obj fields))
first_element _ = none

-- `parsed.blockdevices?.[0]?.mountpoint ?? null`; where there is no JSON, null.
pub mountpoint_of : Option Json → Option Json
unfolding first_element property
mountpoint_of parsed =
    property (u "mountpoint") (first_element (property (u "blockdevices") parsed))

pub plugin_command : ShellCommand
plugin_command = record {
  command = u "test -x " ++ quote_for_shell (u "/usr/local/sbin/rc.unassigned");
  timeout_ms = 10000;
}

pub disks_command : ShellCommand
disks_command = record {
  command = u "cat " ++ quote_for_shell (u "/var/local/emhttp/disks.ini");
  timeout_ms = 10000;
}

pub ud_command : UnassignedActionArgs → ShellCommand
ud_command args = record {
  command =
      quote_for_shell (u "/usr/local/sbin/rc.unassigned")
      ++ (u " " ++ (ud_verb args.action ++ (u " " ++ quote_for_shell args.device)));
  timeout_ms = 120000;
}

pub mountpoint_command : Text → ShellCommand
mountpoint_command device = record {
  command = u "lsblk -J -o KNAME,MOUNTPOINT " ++ quote_for_shell device;
  timeout_ms = 10000;
}

no_plugin : ToolResult
no_plugin = tool_error (
    u
      "The Unassigned Devices plugin is not installed (no /usr/local/sbin/rc.unassigned). Install it from Community Applications; a raw mount is deliberately not offered because UD owns mount-point naming, SMB sharing, and cleanup. No changes were made.")

belongs : Text → ToolResult
belongs device = tool_error (
    device
    ++ u
        " belongs to an assigned disk (array, pool, or flash) — it is not an unassigned device. No changes were made.")

failed_error : UnassignedActionArgs → ShellResult → ToolResult
failed_error args result = tool_error (
    u "rc.unassigned "
    ++ (ud_verb args.action
        ++ (u " failed (exit "
            ++ (exit_text result
                ++ (u "): " ++ or_text (trim result.stderr) (trim result.stdout))))))

-- Whether the mount point is as the action should leave it.
pub is_verified : MountAction → Option Json → Bool
is_verified mount none = false
is_verified mount (some point) = true
is_verified unmount none = true
is_verified unmount (some point) = false

-- A value as a condition.
is_truthy : Json → Bool
is_truthy null = false
is_truthy (bool b) = b
is_truthy (num n) = not (n == 0)
is_truthy (str []) = false
is_truthy _ = true

-- An element of an array in a template, by its own text: null stands as the empty one.
element_text : Json → Text → Text
element_text null text = []
element_text value text = text

mutual
  -- A value in a template.
  string_of : Json → Text
  string_of null = u "null"
  string_of (bool true) = u "true"
  string_of (bool false) = u "false"
  string_of (num n) = decimal n
  string_of (negative n) = b'-' ∷ decimal n
  string_of (str s) = s
  string_of (arr items) = string_of_items items
  string_of (obj fields) = u "[object Object]"

  -- The elements of an array between commas.
  string_of_items : Items → Text
  string_of_items nil = []
  string_of_items (cons value nil) = element_text value (string_of value)
  string_of_items (cons value (cons next rest)) =
      element_text value (string_of value) ++ b',' ∷ string_of_items (cons next rest)

-- `mountpoint ? … : …`
state_text : Option Json → Text
unfolding is_truthy string_of
state_text none = u "not mounted"
state_text (some point) =
    if is_truthy point then u "still mounted at " ++ string_of point else u "not mounted"

point_text : Option Json → Text
unfolding string_of
point_text none = u "null"
point_text (some point) = string_of point

summary : UnassignedActionArgs → Option Json → Text
unfolding point_text
summary args point = elim args.action [
  | mount ↦ args.device ++ (u " mounted at " ++ (point_text point ++ u " (verified with lsblk)."))
  | unmount ↦ args.device ++ u " unmounted (verified with lsblk)."
]

point_json : Option Json → Json
point_json none = null
point_json (some point) = point

or_concise : Option ResponseFormat → ResponseFormat
or_concise none = concise
or_concise (some format) = format

pub render_outcome : UnassignedActionArgs → Option Json → ToolResult
unfolding is_verified state_text summary point_json or_concise
render_outcome args point =
    if is_verified args.action point
    then format_response (or_concise args.response_format) (summary args point) (
        obj (
          field (u "action") (str (action_text args.action)) (
            field (u "device") (str args.device)
              (field (u "mountpoint") (point_json point) (field (u "verified") (bool true) end)))))
    else tool_error (
        u "rc.unassigned "
        ++ (ud_verb args.action
            ++ (u " "
                ++ (args.device
                    ++ (u " ran, but lsblk shows the partition "
                        ++ (state_text point
                            ++ u
                                ". Check the Unassigned Devices log in the web UI (Main → Unassigned Devices)."))))))

-- Whether the partition's disk is free.
abbrev pub is_unassigned : Text → ShellResult → Bool
is_unassigned device disks_ini =
    not (member (parent_disk_of device) (parse_assigned_devices disks_ini.stdout))

pub run_action :
    (Text → Option Json) → ShellExecutor → UnassignedActionArgs → Action ShellCommand ToolResult
unfolding no_plugin belongs failed_error
run_action json_parse shell args = do
  plugin ← execute shell plugin_command
  guarded (refuse_unless (succeeded plugin) no_plugin) (do
    disks_ini ← execute shell disks_command
    guarded (refuse_unless (is_unassigned args.device disks_ini) (belongs args.device)) (do
      result ← execute shell (ud_command args)
      guarded (refuse_unless (succeeded result) (failed_error args result)) (do
        listed ← execute shell (mountpoint_command args.device)
        pure (render_outcome args (mountpoint_of (json_parse listed.stdout))))))

no_partition : Text → ToolResult
no_partition device = tool_error (
    u "\""
    ++ (device
        ++ u
            "\" is not a partition path (expected /dev/sdX1 or /dev/nvmeXnYpZ — see unassigned_list). No changes were made."))

pub unassigned_action :
    (Text → Option Json)
    → Option ShellExecutor
    → Option ElicitationChannel
    → UnassignedActionArgs
    → Action ShellCommand ToolResult
unfolding run_action no_partition
unassigned_action json_parse shell channel args = with_shell shell (λ host.
    guarded (refuse_unless (partition_pattern args.device) (no_partition args.device)) (
      guarded (require_risk_acknowledgement_interactive args.flags (refusal_message args) channel) (
        try_catch (run_action json_parse host args) (λ message. tool_error (
          u "Failed to "
          ++ (action_text args.action
              ++ (u " " ++ (args.device ++ (u " over SSH: " ++ message)))))))))

partition_pattern_example :
    (map partition_pattern
      (u "/dev/sdz1" ∷ u "/dev/nvme0n1p1" ∷ u "/dev/sda" ∷ u "/dev/nvme0n1" ∷ u "/dev/sd1" ∷ []))
    ≡ true ∷ true ∷ false ∷ false ∷ false ∷ []
unfolding partition_pattern after continues is_small some_digits is_digit u
partition_pattern_example = refl

parent_disk_of_example :
    map parent_disk_of (u "/dev/sdz1" ∷ u "/dev/nvme0n1p12" ∷ []) ≡ u "sdz" ∷ u "nvme0n1" ∷ []
unfolding parent_disk_of after is_digit starts_with u
parent_disk_of_example = refl
