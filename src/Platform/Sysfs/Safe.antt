-- ===== src/Platform/Sysfs/Safe.antt =====
-- `tm_collect_generic_linux` has no undefined behaviour on paths of the usual length.
use thermal_observatory.Base.{
  ◌<◌, lt→ltb, Bool-cases, true, inl, inr, Option, Option-cases, none, some, ◌≡◌, refl, List, ◌++◌,
  All, everywhere, Bytes, codes, length,
}
use thermal_observatory.Base.Int.{ℤ}
use thermal_observatory.Base.Loops.{while_room_total}
use thermal_observatory.Double.{Double}
use thermal_observatory.Libc.Scan.{split_first, contains}
use thermal_observatory.Platform.{Host, read_long}
use thermal_observatory.Platform.Paths.{copy_path, retarget, tm_glob_join}
use thermal_observatory.Platform.Sysfs.{
  zone_room, collect_zone, collect_zone_paths, collect_zones, label_path_of, hwmon_record,
  hwmon_sensor, with_directory, with_reading, read_hwmon, hwmon_room, collect_hwmon,
  collect_hwmon_paths, collect_hwmons, tm_collect_generic_linux, add_hwmon,
}
use thermal_observatory.Snapshot.{Sensor, Snapshot}
use thermal_observatory.Snapshot.Capability.{with_cap, linux_thermal, linux_hwmon}

-- A path that a `char[512]` array holds with its NUL, as `strncpy(…, 511)` fills it.
abbrev pub FitsPath : Bytes → Type 0
FitsPath path = length path < 511

pub copy_path-some : (path : Bytes) → FitsPath path → copy_path 512 path ≡ some path
unfolding copy_path
copy_path-some path h = rw (lt→ltb _ _ h)

-- Where the text is found there is a place to write the new one.
pub retarget-some :
    (old new path : Bytes)
    → contains path old ≡ true
    → (r : Bytes) × (retarget old new path ≡ some r)
unfolding retarget contains
retarget-some old new path h = elim (Option-cases (split_first old path)) [
  | inl e ↦ cc (rw (e, contains) at h)
  | inr ((front, rest), e) ↦ (front ++ new, rw (e, retarget))
]

label_path_of-some : (path : Bytes) → (r : Bytes) × (label_path_of path ≡ some r)
unfolding label_path_of
label_path_of-some path = elim (Bool-cases (contains path (codes "_input"))) [
  | inl found ↦ rw found (retarget-some (codes "_input") (codes "_label") path found)
  | inr missing ↦ (path, rw missing)
]

module _ {ℓ} {D : Type ℓ} ⦃d : Double D⦄ (host : Host) where
  hwmon_sensor-some :
      (path : Bytes) (temp_mc : ℤ) (hwmon : Bytes)
      → FitsPath path
      → (x : Sensor D) × (hwmon_sensor host path temp_mc hwmon ≡ some x)
  unfolding hwmon_sensor
  hwmon_sensor-some path temp_mc hwmon h =
      let (label, e) = label_path_of-some path in
      (hwmon_record host temp_mc hwmon path label, rw (copy_path-some path h) (rw e))

  with_directory-some :
      (path : Bytes) (temp_mc : ℤ) (name : Option Bytes)
      → FitsPath path
      → (x : Option (Sensor D)) × (with_directory host path temp_mc name ≡ some x)
  with_directory-some path temp_mc none h = (none, refl)
  with_directory-some path temp_mc (some hwmon) h =
      let (x, e) = hwmon_sensor-some path temp_mc hwmon h in (some x, rw e)

  with_reading-some :
      (path : Bytes) (reading : Option ℤ)
      → FitsPath path
      → (x : Option (Sensor D)) × (with_reading host path reading ≡ some x)
  with_reading-some path none h = (none, refl)
  with_reading-some path (some temp_mc) h = with_directory-some path temp_mc _ h

  collect_hwmon-some :
      (path : Bytes) (s : Snapshot D)
      → FitsPath path
      → (t : Snapshot D) × (collect_hwmon host path s ≡ some t)
  unfolding collect_hwmon read_hwmon
  collect_hwmon-some path s h =
      let (x, e) = with_reading-some path (read_long host path) h in (add_hwmon host s x, rw e)

  collect_hwmons-some :
      (s : Snapshot D)
      → ((paths : List Bytes)
          → host.glob (tm_glob_join host 256 (codes "/sys/class/hwmon/hwmon*/temp*_input"))
            ≡ some paths
          → All FitsPath paths)
      → (t : Snapshot D) × (collect_hwmons host s ≡ some t)
  unfolding collect_hwmons collect_hwmon_paths
  collect_hwmons-some s fits =
      elim (Option-cases
        (host.glob (tm_glob_join host 256 (codes "/sys/class/hwmon/hwmon*/temp*_input")))) [
          | inl e ↦ (s, rw e)
          | inr (paths, e) ↦
              let (after, looped) =
                while_room_total (hwmon_room host) (collect_hwmon host) FitsPath collect_hwmon-some
                  paths s (fits paths e) in
              (
                record after { capabilities = with_cap after.capabilities linux_hwmon },
                rw e (rw looped),
              )
        ]

  -- A zone never faults.
  collect_zones-some : (s : Snapshot D) → (t : Snapshot D) × (collect_zones host s ≡ some t)
  unfolding collect_zones collect_zone_paths collect_zone
  collect_zones-some s =
      elim (Option-cases
        (host.glob (tm_glob_join host 256 (codes "/sys/class/thermal/thermal_zone*/temp")))) [
          | inl e ↦ (s, rw e)
          | inr (paths, e) ↦
              let (after, looped) =
                while_room_total (zone_room host) (collect_zone host) (λ _. Unit {0})
                  (λ path u _. (_, refl)) paths s (everywhere _ paths (λ _. tt)) in
              (
                record after { capabilities = with_cap after.capabilities linux_thermal },
                rw e (rw looped),
              )
        ]

  -- Where each path that `glob` gives for the pattern of inputs is shorter than 511 bytes, the
  -- collector has a result, so it does nothing that C leaves undefined.
  pub tm_collect_generic_linux-some :
      (s : Snapshot D)
      → ((paths : List Bytes)
          → host.glob (tm_glob_join host 256 (codes "/sys/class/hwmon/hwmon*/temp*_input"))
            ≡ some paths
          → All FitsPath paths)
      → (t : Snapshot D) × (tm_collect_generic_linux host s ≡ some t)
  unfolding tm_collect_generic_linux
  tm_collect_generic_linux-some s fits =
      let (zoned, e) = collect_zones-some s in
      let (t, e') = collect_hwmons-some zoned fits in (t, rw e e')
