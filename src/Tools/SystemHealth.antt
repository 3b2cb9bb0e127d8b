-- ===== src/Tools/SystemHealth.antt =====
-- tools/system/system-health.ts: the rollup of the tool `system_health`. The API's numbers that come as
-- strings stand here by their values, and the percentage is rounded exactly where the source rounds a
-- quotient of doubles.
pub mod Laws
use better_unraid_mcp.Base.{
  ℕ, ◌+◌, ◌-◌, ◌*◌, ◌/◌, Text, u, List, [], ◌∷◌, ◌++◌, map, Bool, true, false, not, ◌&&◌, ◌||◌,
  Option, none, some, text_eq, member, join, trim, is_blank, leb, ltb, ◌==◌, if◌then◌else◌, decimal,
  keep, any, length, is_true,
}
use better_unraid_mcp.Effects.{Attempt, returned, thrown, Action, Executor}

pub data Severity : Type 0 where
  ok warning critical : Severity

pub severity_text : Severity → Text
severity_text ok = u "ok"
severity_text warning = u "warning"
severity_text critical = u "critical"

-- `SEVERITY_RANK`
unfoldable pub severity_rank : Severity → ℕ
severity_rank ok = 0
severity_rank warning = 1
severity_rank critical = 2

pub record SubsystemHealth : Type 0 where
  pub subsystem : Text
  pub severity : Severity
  pub detail : Text

pub record Disk : Type 0 where
  pub name : Option Text
  pub status : Option Text
  pub temp : Option ℕ

pub record HealthArray : Type 0 where
  pub state : Text
  pub total_kilobytes : ℕ
  pub used_kilobytes : ℕ
  pub parities : List Disk
  pub disks : List Disk
  pub caches : List Disk
  pub parity_errors : ℕ
  pub parity_running : Option Bool

-- The one combined read; of each container whether an update is available.
pub record HealthData : Type 0 where
  pub array : HealthArray
  pub unread_alerts : ℕ
  pub unread_warnings : ℕ
  pub updates : List (Option Bool)

pub record Ups : Type 0 where
  pub name : Text
  pub status : Option Text

pub data UpsReading : Type 0 where
  devices : List Ups → UpsReading
  failure : Text → UpsReading

report : Text → Severity → Text → SubsystemHealth
report subsystem severity detail = record {
  subsystem = subsystem;
  severity = severity;
  detail = detail;
}

pub check_array_state : HealthArray → SubsystemHealth
unfolding report
check_array_state array =
    if text_eq array.state (u "STARTED")
    then report (u "array") ok (u "Array is started.")
    else report (u "array") warning (
        u "Array state is "
        ++ (array.state ++ u " — shares, containers, and VMs are offline while stopped."))

-- `Math.round((used / total) * 100)`
unfoldable pub percent_of : ℕ → ℕ → ℕ
percent_of used total = (200 * used + total) / (2 * total)

full_text : ℕ → Text
full_text percent = u "Array is " ++ (decimal percent ++ u "% full.")

pub check_capacity : HealthArray → SubsystemHealth
unfolding report full_text
check_capacity array =
    let percent = percent_of array.used_kilobytes array.total_kilobytes in
    if array.total_kilobytes == 0
    then report (u "capacity") ok (u "Capacity not reported.")
    else if leb 95 percent
    then report (u "capacity") critical (full_text percent)
    else if leb 90 percent
    then report (u "capacity") warning (full_text percent)
    else report (u "capacity") ok (full_text percent)

or_np : Option Text → Text
or_np none = u "DISK_NP"
or_np (some status) = status

pub or_zero : Option ℕ → ℕ
or_zero none = 0
or_zero (some n) = n

pub is_healthy_status : Option Text → Bool
unfolding or_np
is_healthy_status status = member (or_np status) (u "DISK_OK" ∷ u "DISK_NP" ∷ [])

pub disk_severity : Disk → Severity
unfolding or_zero is_healthy_status
disk_severity disk =
    if not (is_healthy_status disk.status)
    then critical
    else if leb 60 (or_zero disk.temp)
    then critical
    else if leb 50 (or_zero disk.temp)
    then warning
    else ok

abbrev pub is_ok : Severity → Bool
is_ok ok = true
is_ok _ = false

abbrev pub is_critical : Severity → Bool
is_critical critical = true
is_critical _ = false

disk_name : Option Text → Text
disk_name none = u "(unnamed)"
disk_name (some name) = name

-- `disks.map(…)`, by name and severity.
graded : List Disk → List (Text × Severity)
unfolding disk_name disk_severity
graded [] = []
graded (disk ∷ disks) = (disk_name disk.name, disk_severity disk) ∷ graded disks

problem_text : Text × Severity → Text
unfolding severity_text
problem_text (name, severity) = name ++ (u " (" ++ (severity_text severity ++ u ")"))

pub problems_of : List Disk → List (Text × Severity)
unfolding graded
problems_of disks = keep (λ entry. not (is_ok entry.1)) (graded disks)

disks_report : ℕ → List (Text × Severity) → SubsystemHealth
unfolding report problem_text
disks_report count [] = report (u "disks") ok (decimal count ++ u " disks healthy.")
disks_report count (problem ∷ problems) =
    report (u "disks")
      (if any (λ p. is_critical p.1) (problem ∷ problems) then critical else warning)
      (u "Disk problems: " ++ (join (u ", ") (map problem_text (problem ∷ problems)) ++ u "."))

abbrev pub all_disks : HealthArray → List Disk
all_disks array = array.parities ++ (array.disks ++ array.caches)

pub check_disks : HealthArray → SubsystemHealth
unfolding disks_report problems_of
check_disks array = disks_report (length (all_disks array)) (problems_of (all_disks array))

pub check_parity : HealthArray → SubsystemHealth
unfolding report
check_parity array =
    if ltb 0 array.parity_errors
    then report (u "parity") warning
        (u "Last parity check reported " ++ (decimal array.parity_errors ++ u " error(s)."))
    else report (u "parity") ok (
        u "No parity errors reported."
        ++ (if is_true array.parity_running then u " A parity check is running." else []))

pub check_notifications : HealthData → SubsystemHealth
unfolding report
check_notifications data_ =
    if ltb 0 data_.unread_alerts
    then report (u "notifications") critical
        (decimal data_.unread_alerts ++ u " unread alert(s) — read notification_alerts.")
    else if ltb 0 data_.unread_warnings
    then report (u "notifications") warning
        (decimal data_.unread_warnings ++ u " unread warning(s).")
    else report (u "notifications") ok (u "No unread warnings or alerts.")

-- `status ?? ""`
or_empty : Option Text → Text
or_empty none = []
or_empty (some status) = status

-- `toUpperCase` on the ASCII letters.
upper : Text → Text
upper [] = []
upper (c ∷ s) = (if leb b'a' c && leb c b'z' then c - 32 else c) ∷ upper s

-- One character of `split(/\s+/)` on a trimmed text, from the right: a run of blanks ends one token.
token_step : ℕ → List Text → List Text
token_step c [] = []
token_step c ([] ∷ tokens) = if is_blank c then [] ∷ tokens else (c ∷ []) ∷ tokens
token_step c ((d ∷ token) ∷ tokens) =
    if is_blank c then [] ∷ (d ∷ token) ∷ tokens else (c ∷ d ∷ token) ∷ tokens

split_blanks : Text → List Text
unfolding token_step
split_blanks [] = [] ∷ []
split_blanks (c ∷ s) = token_step c (split_blanks s)

pub status_tokens : Text → List Text
unfolding upper split_blanks
status_tokens status = split_blanks (upper (trim status))

pub is_reporting : Ups → Bool
unfolding or_empty
is_reporting ups = not (text_eq (trim (or_empty ups.status)) [])

pub has_token : Text → Ups → Bool
unfolding status_tokens or_empty
has_token token ups = member token (status_tokens (or_empty ups.status))

ups_text : Ups → Text
unfolding or_empty
ups_text ups = ups.name ++ (u ": " ++ or_empty ups.status)

pub is_offline : Ups → Bool
unfolding has_token
is_offline ups = not (has_token (u "ONLINE") ups)

offline_report : List Ups → SubsystemHealth
unfolding report ups_text
offline_report [] = report (u "ups") ok (u "UPS online.")
offline_report (device ∷ offline) =
    report (u "ups") warning (join (u ", ") (map ups_text (device ∷ offline)))

reporting_report : List Ups → SubsystemHealth
unfolding report ups_text offline_report is_offline
reporting_report [] = report (u "ups") ok (u "No UPS reporting live data.")
reporting_report (device ∷ reporting) =
    if any (has_token (u "ONBATT")) (device ∷ reporting)
    then report (u "ups") critical (join (u ", ") (map ups_text (device ∷ reporting)))
    else offline_report (keep is_offline (device ∷ reporting))

pub check_ups : UpsReading → SubsystemHealth
unfolding report reporting_report is_reporting
check_ups (failure message) = report (u "ups") ok (
    u
      "UPS data unavailable — the Unraid API reads apcupsd only; NUT-managed or absent UPSes report nothing here ("
    ++ (message ++ u ")."))
check_ups (devices all_devices) = reporting_report (keep is_reporting all_devices)

pub check_docker_updates : HealthData → SubsystemHealth
unfolding report
check_docker_updates data_ =
    let pending = length (keep is_true data_.updates) in
    if pending == 0
    then report (u "docker") ok (u "All container images current.")
    else report (u "docker") warning
        (decimal pending ++ u " container update(s) available (docker_container_update).")

-- The callback of `reduce`.
worse : Severity → SubsystemHealth → Severity
worse worst r = if ltb (severity_rank worst) (severity_rank r.severity) then r.severity else worst

pub worst_from : Severity → List SubsystemHealth → Severity
unfolding worse
worst_from worst [] = worst
worst_from worst (r ∷ reports) = worst_from (worse worst r) reports

pub worst_severity : List SubsystemHealth → Severity
worst_severity reports = worst_from ok reports

pub record SystemHealthReport : Type 0 where
  pub overall : Severity
  pub subsystems : List SubsystemHealth

pub checks : HealthData → UpsReading → List SubsystemHealth
checks data_ ups =
    check_array_state data_.array
    ∷ check_capacity data_.array
    ∷ check_disks data_.array
    ∷ check_parity data_.array
    ∷ check_notifications data_
    ∷ check_ups ups
    ∷ check_docker_updates data_
    ∷ []

pub data Query : Type 0 where
  system_health ups_status : Query

abbrev pub Reply : Query → Type 0
Reply system_health = HealthData
Reply ups_status = List Ups

-- `readUps`, by the reply.
reading_of : Attempt (List Ups) → UpsReading
reading_of (returned all_devices) = devices all_devices
reading_of (thrown message) = failure message

rolled_up : Attempt HealthData → UpsReading → Attempt SystemHealthReport
unfolding checks
rolled_up (thrown message) ups = thrown message
rolled_up (returned data_) ups =
    returned (record { overall = worst_severity (checks data_ ups); subsystems = checks data_ ups })

-- Both reads are sent before either is waited for.
pub run_system_health : Executor Query Reply → Action Query SystemHealthReport
unfolding rolled_up reading_of
run_system_health client sent = (
  rolled_up (client sent system_health) (reading_of (client (system_health ∷ sent) ups_status)),
  ups_status ∷ system_health ∷ sent,
)
