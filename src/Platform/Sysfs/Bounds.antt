-- ===== src/Platform/Sysfs/Bounds.antt =====
-- `tm_collect_generic_linux` keeps every array and every text within its bounds.
use thermal_observatory.Base.{
  ℕ, ◌<◌, true, Option, none, some, ◌≡◌, refl, subst, some-injective, ltb→lt, [], arith, Bytes,
  length, codes, >>=-eq-some, List, Option-cases, inl, inr,
}
use thermal_observatory.Base.Int.{ℤ}
use thermal_observatory.Base.Loops.{while_room, while_room_inv, with_list_inv}
use thermal_observatory.Double.{Double}
use thermal_observatory.Libc.Scan.{after_last}
use thermal_observatory.Platform.Paths.{copy_path, tm_strip_sysroot_path}
use thermal_observatory.Platform.{Host, read_long, read_string}
use thermal_observatory.Platform.Bounds.{length-take-le, read_string-lt}
use thermal_observatory.Platform.Sysfs.{
  or_else, scan_name, read_zone, add_zone, zone_room, collect_zone, collect_zone_paths,
  with_directory, add_hwmon, label_path_of, hwmon_record, collect_hwmon_paths, collect_zones,
  hwmon_label, hwmon_sensor, read_hwmon, hwmon_room, collect_hwmon, collect_hwmons,
  tm_collect_generic_linux,
}
use thermal_observatory.Snapshot.{Sensor, Snapshot, max_thermal_zones, max_hwmon_sensors}
use thermal_observatory.Snapshot.Bounds.{
  SensorFits, FitsArray-concat, IsBounded, IsBounded-capabilities,
}

pub or_else-lt :
    (o : Option Bytes) (s : Bytes) (n : ℕ)
    → ((t : Bytes) → o ≡ some t → length t < n)
    → length s < n
    → length (or_else o s) < n
or_else-lt none s n h k = k
or_else-lt (some t) s n h k = h t refl

-- A text that a file or a fallback gives fits a buffer of 64 bytes.
pub read_or_else-lt :
    (host : Host) (path s : Bytes)
    → length s < 64
    → length (or_else (read_string host path 64) s) < 64
read_or_else-lt host path s h =
    or_else-lt (read_string host path 64) s 64 (λ t e. read_string-lt host path 63 e) h

hwmon_label-lt : (host : Host) (path input : Bytes) → length (hwmon_label host path input) < 64
unfolding hwmon_label
hwmon_label-lt host path input =
    read_or_else-lt host path _
      (omega (arith, length-take-le {0} 63 (or_else (after_last b'/' input) (codes "temp"))))

hwmon_record-SensorFits {ℓ} :
    (D : Type ℓ) ⦃d : Double D⦄ (host : Host) (temp_mc : ℤ) (hwmon input label : Bytes)
    → SensorFits (hwmon_record {D = D} host temp_mc hwmon input label)
unfolding hwmon_record
hwmon_record-SensorFits D host temp_mc hwmon input label =
    (read_or_else-lt host _ [] (omega arith), hwmon_label-lt host label input, omega arith)

module _ {ℓ} {D : Type ℓ} ⦃d : Double D⦄ (host : Host) where
  read_zone-SensorFits : (path : Bytes) {s : Sensor D} → read_zone host path ≡ some s → SensorFits s
  unfolding read_zone
  read_zone-SensorFits path e =
      let (temp, _, e1) = >>=-eq-some (read_long host path) _ e in
      let (zone, _, e2) =
        >>=-eq-some (scan_name (codes "/sys/class/thermal/") (tm_strip_sysroot_path host path 512))
          _ e1 in
      subst SensorFits (some-injective _ _ e2) (
        omega (arith, length-take-le {0} 63 zone),
        read_or_else-lt host _ [] (omega arith),
        omega arith,
      )

  add_zone-IsBounded :
      (s : Snapshot D) (found : Option (Sensor D))
      → IsBounded s
      → length s.thermal_zones < max_thermal_zones
      → ((x : Sensor D) → found ≡ some x → SensorFits x)
      → IsBounded (add_zone host s found)
  add_zone-IsBounded s none h lt fits = h
  add_zone-IsBounded s (some x) h lt fits = ground (
    arith,
    FitsArray-concat max_thermal_zones SensorFits s.thermal_zones x h.zones_fit lt (fits x refl),
  )

  collect_zone-IsBounded :
      (path : Bytes) (s t : Snapshot D)
      → IsBounded s
      → zone_room host s ≡ true
      → collect_zone host path s ≡ some t
      → IsBounded t
  unfolding collect_zone zone_room
  collect_zone-IsBounded path s t h room e = subst IsBounded (some-injective _ _ e) (
      add_zone-IsBounded s (read_zone host path) h (ltb→lt _ _ room)
        (λ x r. read_zone-SensorFits path r))

  collect_zone_paths-IsBounded :
      (paths : List Bytes) (s t : Snapshot D)
      → IsBounded s
      → collect_zone_paths host paths s ≡ some t
      → IsBounded t
  unfolding collect_zone_paths
  collect_zone_paths-IsBounded paths s t h e =
      let (after, looped, done) =
        >>=-eq-some (while_room (zone_room host) (collect_zone host) paths s) _ e in
      subst IsBounded (some-injective _ _ done) (
        IsBounded-capabilities after _ (
          while_room_inv (zone_room host) (collect_zone host) IsBounded collect_zone-IsBounded paths
            s after h looped))

  collect_zones-IsBounded :
      (s t : Snapshot D) → IsBounded s → collect_zones host s ≡ some t → IsBounded t
  unfolding collect_zones
  collect_zones-IsBounded s t h e =
      with_list_inv IsBounded (host.glob _) (collect_zone_paths host) s
        (λ paths u. collect_zone_paths-IsBounded paths s u h) t h e

  hwmon_sensor-SensorFits :
      (path : Bytes) (temp_mc : ℤ) (hwmon : Bytes) {x : Sensor D}
      → hwmon_sensor host path temp_mc hwmon ≡ some x
      → SensorFits x
  unfolding hwmon_sensor
  hwmon_sensor-SensorFits path temp_mc hwmon e =
      let (input, _, e1) = >>=-eq-some (copy_path 512 path) _ e in
      let (copied, _, e2) = >>=-eq-some (copy_path 512 path) _ e1 in
      let (label, _, e3) = >>=-eq-some (label_path_of copied) _ e2 in
      subst SensorFits (some-injective _ _ e3)
        (hwmon_record-SensorFits D host temp_mc hwmon input label)

  found_hwmon-SensorFits :
      (path : Bytes) (temp_mc : ℤ) (name : Option Bytes) {x : Sensor D}
      → with_directory host path temp_mc name ≡ some (some x)
      → SensorFits x
  found_hwmon-SensorFits path temp_mc none e = cc (some-injective _ _ e)
  found_hwmon-SensorFits path temp_mc (some hwmon) e =
      let (sensor, found, e1) = >>=-eq-some (hwmon_sensor host path temp_mc hwmon) _ e in
      subst SensorFits (some-injective _ _ (some-injective _ _ e1))
        (hwmon_sensor-SensorFits path temp_mc hwmon found)

  read_hwmon-SensorFits :
      (path : Bytes) {x : Sensor D} → read_hwmon host path ≡ some (some x) → SensorFits x
  unfolding read_hwmon
  read_hwmon-SensorFits path e = elim (Option-cases (read_long host path)) [
    | inl r ↦ cc (some-injective _ _ (rw r at e))
    | inr (temp_mc, r) ↦ found_hwmon-SensorFits path temp_mc _ (rw r at e)
  ]

  add_hwmon-IsBounded :
      (s : Snapshot D) (found : Option (Sensor D))
      → IsBounded s
      → length s.hwmon_sensors < max_hwmon_sensors
      → ((x : Sensor D) → found ≡ some x → SensorFits x)
      → IsBounded (add_hwmon host s found)
  add_hwmon-IsBounded s none h lt fits = h
  add_hwmon-IsBounded s (some x) h lt fits = ground (
    arith,
    FitsArray-concat max_hwmon_sensors SensorFits s.hwmon_sensors x h.hwmon_fit lt (fits x refl),
  )

  collect_hwmon-IsBounded :
      (path : Bytes) (s t : Snapshot D)
      → IsBounded s
      → hwmon_room host s ≡ true
      → collect_hwmon host path s ≡ some t
      → IsBounded t
  unfolding collect_hwmon hwmon_room
  collect_hwmon-IsBounded path s t h room e =
      let (found, r, e1) = >>=-eq-some (read_hwmon host path) _ e in
      subst IsBounded (some-injective _ _ e1) (
        add_hwmon-IsBounded s found h (ltb→lt _ _ room)
          (λ x f. read_hwmon-SensorFits path (rw f at r)))

  collect_hwmon_paths-IsBounded :
      (paths : List Bytes) (s t : Snapshot D)
      → IsBounded s
      → collect_hwmon_paths host paths s ≡ some t
      → IsBounded t
  unfolding collect_hwmon_paths
  collect_hwmon_paths-IsBounded paths s t h e =
      let (after, looped, done) =
        >>=-eq-some (while_room (hwmon_room host) (collect_hwmon host) paths s) _ e in
      subst IsBounded (some-injective _ _ done) (
        IsBounded-capabilities after _ (
          while_room_inv (hwmon_room host) (collect_hwmon host) IsBounded collect_hwmon-IsBounded
            paths s after h looped))

  collect_hwmons-IsBounded :
      (s t : Snapshot D) → IsBounded s → collect_hwmons host s ≡ some t → IsBounded t
  unfolding collect_hwmons
  collect_hwmons-IsBounded s t h e =
      with_list_inv IsBounded (host.glob _) (collect_hwmon_paths host) s
        (λ paths u. collect_hwmon_paths-IsBounded paths s u h) t h e

  -- Where the generic collector has a result, it is a snapshot that fits its arrays and texts if the
  -- one before did.
  pub tm_collect_generic_linux-IsBounded :
      (s t : Snapshot D) → IsBounded s → tm_collect_generic_linux host s ≡ some t → IsBounded t
  unfolding tm_collect_generic_linux
  tm_collect_generic_linux-IsBounded s t h e =
      let (zoned, e1, e2) = >>=-eq-some (collect_zones host s) _ e in
      collect_hwmons-IsBounded zoned t (collect_zones-IsBounded s zoned h e1) e2
