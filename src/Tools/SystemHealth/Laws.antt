-- ===== src/Tools/SystemHealth/Laws.antt =====
-- What the overall verdict says about the server.
use better_unraid_mcp.Base.{
  ◌<◌, ◌≤◌, ◌≡◌, refl, ◌⊎◌, inl, inr, ◌↔◌, u, List, [], ◌∷◌, Bool, true, false, Option, All,
  All-map, text_eq, keep, keep_none, any, is_true, Bool-cases, List-cases, arith,
}
use better_unraid_mcp.Tools.SystemHealth.{
  Severity, ok, warning, critical, severity_rank, SubsystemHealth, Disk, HealthArray, HealthData,
  Ups, UpsReading, devices, failure, report, check_array_state, percent_of, check_capacity, or_zero,
  is_healthy_status, disk_severity, is_ok, graded, problems_of, disks_report, all_disks,
  check_disks, check_parity, check_notifications, is_reporting, has_token, is_offline,
  offline_report, reporting_report, check_ups, check_docker_updates, worse, worst_from,
  worst_severity, checks,
}

-- The verdict is as bad as every report, and one of the reports is as bad as the verdict.
rank-worse :
    (worst : Severity) (r : SubsystemHealth)
    → (severity_rank worst ≤ severity_rank (worse worst r))
      × (severity_rank r.severity ≤ severity_rank (worse worst r))
unfolding worse
rank-worse worst r = (ground arith, ground arith)

worst_from-le :
    (worst : Severity) (reports : List SubsystemHealth)
    → (severity_rank worst ≤ severity_rank (worst_from worst reports))
      × All (λ r. severity_rank r.severity ≤ severity_rank (worst_from worst reports)) reports
unfolding worst_from
worst_from-le worst [] = (omega arith, tt)
worst_from-le worst (r ∷ reports) =
    let (before, here) = rank-worse worst r in
    let (later, rest) = worst_from-le (worse worst r) reports in
    (omega (arith, before, later), (omega (arith, here, later), rest))

rank-zero : (s : Severity) → severity_rank s ≤ 0 → s ≡ ok
unfolding severity_rank
rank-zero ok h = refl
rank-zero warning h = ground arith
rank-zero critical h = ground arith

abbrev AllOk : List SubsystemHealth → Type 0
AllOk reports = All (λ r. r.severity ≡ ok) reports

AllOk-worst : (reports : List SubsystemHealth) → AllOk reports → worst_from ok reports ≡ ok
unfolding worst_from worse severity_rank
AllOk-worst [] h = refl
AllOk-worst (r ∷ reports) (here, rest) = rw (here, worse) (AllOk-worst reports rest)

worst-AllOk : (reports : List SubsystemHealth) → worst_from ok reports ≡ ok → AllOk reports
unfolding severity_rank
worst-AllOk reports h =
    All-map (λ r l. rank-zero r.severity (rw (h, severity_rank) at l)) reports
      (worst_from-le ok reports).1

array-ok :
    (array : HealthArray)
    → ((check_array_state array).severity ≡ ok) ↔ (text_eq array.state (u "STARTED") ≡ true)
unfolding check_array_state report
array-ok array = ground arith

-- The array is not full, or reports no capacity.
abbrev pub HasRoom : HealthArray → Type 0
HasRoom array =
    (array.total_kilobytes ≡ 0) ⊎ (percent_of array.used_kilobytes array.total_kilobytes < 90)

capacity-ok : (array : HealthArray) → ((check_capacity array).severity ≡ ok) ↔ HasRoom array
unfolding check_capacity report
capacity-ok array = ground arith

-- The disk has no fault and is cooler than 50 degrees, where no temperature counts as 0.
abbrev pub IsFine : Disk → Type 0
IsFine disk = (is_healthy_status disk.status ≡ true) × (or_zero disk.temp < 50)

disk-ok : (disk : Disk) → (disk_severity disk ≡ ok) ↔ IsFine disk
unfolding disk_severity
disk-ok disk = ground arith

is_ok_lem : (s : Severity) → (is_ok s ≡ true) ↔ (s ≡ ok)
is_ok_lem ok = (λ h. refl, λ h. refl)
is_ok_lem warning = (λ h. ground arith, λ h. ground arith)
is_ok_lem critical = (λ h. ground arith, λ h. ground arith)

problems-none : (all : List Disk) → problems_of all ≡ [] → All IsFine all
unfolding problems_of graded
problems-none [] h = tt
problems-none (disk ∷ all) h = elim (Bool-cases (is_ok (disk_severity disk))) [
  | inl e ↦ (
    (disk-ok disk).0 ((is_ok_lem (disk_severity disk)).0 e),
    problems-none all (rw (e, problems_of) at h),
  )
  | inr e ↦ absurd (ground arith)
]

none-problems : (all : List Disk) → All IsFine all → problems_of all ≡ []
unfolding problems_of graded
none-problems [] h = refl
none-problems (disk ∷ all) (fine, rest) =
    rw ((disk-ok disk).1 fine, problems_of) (none-problems all rest)

disks-ok :
    (array : HealthArray) → ((check_disks array).severity ≡ ok) ↔ All IsFine (all_disks array)
unfolding check_disks disks_report report
disks-ok array = (sound, λ h. rw (none-problems (all_disks array) h, check_disks) refl)
  where
    sound : (check_disks array).severity ≡ ok → All IsFine (all_disks array)
    sound h = elim (List-cases (problems_of (all_disks array))) [
      | inl e ↦ problems-none (all_disks array) e
      | inr (problem, problems, e) ↦ absurd (ground arith)
    ]

parity-ok : (array : HealthArray) → ((check_parity array).severity ≡ ok) ↔ (array.parity_errors ≡ 0)
unfolding check_parity report
parity-ok array = ground arith

notifications-ok :
    (d : HealthData)
    → ((check_notifications d).severity ≡ ok) ↔ ((d.unread_alerts ≡ 0) × (d.unread_warnings ≡ 0))
unfolding check_notifications report
notifications-ok d = ground arith

-- The device has no status, or its status has `ONLINE` and not `ONBATT` among its tokens.
abbrev pub IsPowered : Ups → Type 0
IsPowered ups =
    (is_reporting ups ≡ false)
    ⊎ ((has_token (u "ONBATT") ups ≡ false) × (has_token (u "ONLINE") ups ≡ true))

-- The reporting devices, none of them on battery and none offline.
IsClean : List Ups → Type 0
IsClean reporting =
    (any (has_token (u "ONBATT")) reporting ≡ false) × (keep is_offline reporting ≡ [])

clean-IsPowered : (all : List Ups) → IsClean (keep is_reporting all) → All IsPowered all
unfolding IsClean is_offline
clean-IsPowered [] h = tt
clean-IsPowered (ups ∷ all) h = elim (Bool-cases (is_reporting ups)) [
  | inr e ↦ (inl e, clean-IsPowered all (rw e at h))
  | inl e ↦
      let (battery, offline) : IsClean (ups ∷ keep is_reporting all) = rw e at h in
      (inr (ground arith, ground arith), clean-IsPowered all (ground arith, ground arith))
]

powered-IsClean : (all : List Ups) → All IsPowered all → IsClean (keep is_reporting all)
unfolding IsClean is_offline
powered-IsClean [] h = (refl, refl)
powered-IsClean (ups ∷ all) (inl e, rest) = rw e (powered-IsClean all rest)
powered-IsClean (ups ∷ all) (inr (battery, online), rest) =
    let (b, o) = powered-IsClean all rest in (ground arith, ground arith)

offline-ok : (offline : List Ups) → ((offline_report offline).severity ≡ ok) ↔ (offline ≡ [])
unfolding offline_report report
offline-ok [] = (λ h. refl, λ h. refl)
offline-ok (ups ∷ offline) = (λ h. ground arith, λ h. ground arith)

reporting-ok :
    (reporting : List Ups) → ((reporting_report reporting).severity ≡ ok) ↔ IsClean reporting
unfolding reporting_report offline_report report IsClean
reporting-ok [] = (λ h. (refl, refl), λ h. refl)
reporting-ok (ups ∷ reporting) =
    let (sound, complete) = offline-ok (keep is_offline (ups ∷ reporting)) in
    elim (Bool-cases (any (has_token (u "ONBATT")) (ups ∷ reporting))) [
      | inl e ↦ (λ h. absurd (ground arith), λ h. absurd (ground arith))
      | inr e ↦ (λ h. (e, sound (rw e at h)), λ h. rw e (complete h.1))
    ]

-- No device is on battery or offline; without a reading there is nothing to say.
abbrev pub HasPower : UpsReading → Type 0
HasPower (failure message) = Unit
HasPower (devices all) = All IsPowered all

ups-ok : (reading : UpsReading) → ((check_ups reading).severity ≡ ok) ↔ HasPower reading
unfolding check_ups report
ups-ok (failure message) = (λ h. tt, λ h. refl)
ups-ok (devices all) =
    let (sound, complete) = reporting-ok (keep is_reporting all) in
    (λ h. clean-IsPowered all (sound h), λ h. complete (powered-IsClean all h))

none-pending :
    (updates : List (Option Bool))
    → All (λ o. is_true o ≡ false) updates
    → keep is_true updates ≡ []
none-pending [] h = refl
none-pending (o ∷ updates) (n, rest) = rw n (none-pending updates rest)

docker-ok :
    (d : HealthData)
    → ((check_docker_updates d).severity ≡ ok) ↔ All (λ o. is_true o ≡ false) d.updates
unfolding check_docker_updates report
docker-ok d = (sound, λ h. rw (none-pending d.updates h) refl)
  where
    sound : (check_docker_updates d).severity ≡ ok → All (λ o. is_true o ≡ false) d.updates
    sound h = elim (List-cases (keep is_true d.updates)) [
      | inl e ↦ keep_none is_true d.updates e
      | inr (o, rest, e) ↦ absurd (ground arith)
    ]

-- What a server must be like for the verdict `ok`.
abbrev pub IsHealthy : HealthData → UpsReading → Type 0
IsHealthy d reading =
    (text_eq d.array.state (u "STARTED") ≡ true)
    × HasRoom d.array
    × All IsFine (all_disks d.array)
    × (d.array.parity_errors ≡ 0)
    × ((d.unread_alerts ≡ 0) × (d.unread_warnings ≡ 0))
    × HasPower reading
    × All (λ o. is_true o ≡ false) d.updates

-- The rollup's verdict is `ok` exactly if the array is started and less than 90 percent full, no disk has a
-- fault or 50 degrees, the last parity check had no errors, no alert or warning is unread, no UPS that
-- reports is on battery or offline, and no container has an update.
pub worst_severity-ok_iff :
    (d : HealthData) (reading : UpsReading)
    → (worst_severity (checks d reading) ≡ ok) ↔ IsHealthy d reading
unfolding worst_severity checks
worst_severity-ok_iff d reading = (sound, complete)
  where
    sound : worst_severity (checks d reading) ≡ ok → IsHealthy d reading
    sound h =
        let (a, (c, (k, (p, (n, (v, (g, t))))))) = worst-AllOk (checks d reading) h in
        (
          (array-ok d.array).0 a,
          (capacity-ok d.array).0 c,
          (disks-ok d.array).0 k,
          (parity-ok d.array).0 p,
          (notifications-ok d).0 n,
          (ups-ok reading).0 v,
          (docker-ok d).0 g,
        )

    complete : IsHealthy d reading → worst_severity (checks d reading) ≡ ok
    complete (a, c, k, p, n, v, g) = AllOk-worst (checks d reading) (
      (array-ok d.array).1 a,
      (
        (capacity-ok d.array).1 c,
        (
          (disks-ok d.array).1 k,
          (
            (parity-ok d.array).1 p,
            ((notifications-ok d).1 n, ((ups-ok reading).1 v, ((docker-ok d).1 g, tt))),
          ),
        ),
      ),
    )
