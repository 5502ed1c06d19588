-- ===== src/Platform/Sysfs/Hwmons.antt =====
-- Which hwmon sensors `tm_collect_generic_linux` records: the first ones that can be read.
use thermal_observatory.Base.{
  ◌≡◌, refl, sym, ap, ◌∙◌, some-injective, Option, none, some, List, [], ◌∷◌, ◌++◌, ◌>>=◌,
  >>=-eq-some, Bytes, codes,
}
use thermal_observatory.Base.Collect.{Collects, all_found, add_found, fill, while_room-fill}
use thermal_observatory.Base.Loops.{while_room, while_room_inv, with_list_inv}
use thermal_observatory.Double.{Double}
use thermal_observatory.Platform.{Host}
use thermal_observatory.Platform.Paths.{tm_glob_join}
use thermal_observatory.Platform.Sysfs.{
  read_zone, add_zone, zone_room, collect_zone, collect_zone_paths, collect_zones, read_hwmon,
  add_hwmon, hwmon_room, collect_hwmon, collect_hwmon_paths, collect_hwmons,
  tm_collect_generic_linux,
}
use thermal_observatory.Snapshot.{Sensor, Snapshot, max_hwmon_sensors}

module _ {ℓ} {D : Type ℓ} ⦃d : Double D⦄ (host : Host) where
  abbrev append_hwmon : Snapshot D → Sensor D → Snapshot D
  append_hwmon s sensor = record s { hwmon_sensors = s.hwmon_sensors ++ sensor ∷ [] }

  add_hwmon-found :
      (s : Snapshot D) (found : Option (Sensor D))
      → add_hwmon host s found ≡ add_found append_hwmon s found
  add_hwmon-found s none = refl
  add_hwmon-found s (some sensor) = refl

  hwmons-Collects :
      Collects
        (λ (s : Snapshot D). s.hwmon_sensors)
        max_hwmon_sensors
        append_hwmon
        (read_hwmon host)
        (hwmon_room host)
        (collect_hwmon host)
  unfolding hwmon_room collect_hwmon
  hwmons-Collects = record {
    has_room = λ s. refl;
    appends = λ s sensor. refl;
    reads = λ path s.
        ap
          (λ (f : Option (Sensor D) → Snapshot D). read_hwmon host path >>= λ found. some (f found))
          (λ i found. add_hwmon-found s found i);
  }

  hwmons-add_zone :
      (s : Snapshot D) (found : Option (Sensor D))
      → (add_zone host s found).hwmon_sensors ≡ s.hwmon_sensors
  hwmons-add_zone s none = refl
  hwmons-add_zone s (some sensor) = refl

  hwmons-collect_zone_paths :
      (s : Snapshot D) (paths : List Bytes) (t : Snapshot D)
      → collect_zone_paths host paths s ≡ some t
      → t.hwmon_sensors ≡ s.hwmon_sensors
  unfolding collect_zone_paths collect_zone
  hwmons-collect_zone_paths s paths t h =
      let (after, looped, e) =
        >>=-eq-some (while_room (zone_room host) (collect_zone host) paths s) _ h in
      ap (λ (x : Snapshot D). x.hwmon_sensors) (sym (some-injective _ _ e))
      ∙ while_room_inv (zone_room host) (collect_zone host)
          (λ (v : Snapshot D). v.hwmon_sensors ≡ s.hwmon_sensors)
          (λ path v w same room step.
            ap (λ (x : Snapshot D). x.hwmon_sensors) (sym (some-injective _ _ step))
            ∙ hwmons-add_zone v (read_zone host path)
            ∙ same)
          paths s after refl looped

  hwmons-collect_hwmon_paths :
      (s : Snapshot D) (paths : List Bytes) (t : Snapshot D)
      → collect_hwmon_paths host paths s ≡ some t
      → t.hwmon_sensors ≡ fill max_hwmon_sensors s.hwmon_sensors (all_found (read_hwmon host) paths)
  unfolding collect_hwmon_paths
  hwmons-collect_hwmon_paths s paths t h =
      let (after, looped, e) =
        >>=-eq-some (while_room (hwmon_room host) (collect_hwmon host) paths s) _ h in
      ap (λ (x : Snapshot D). x.hwmon_sensors) (sym (some-injective _ _ e))
      ∙ while_room-fill hwmons-Collects paths s after looped

  -- Where `glob` finds the paths of inputs and the generic collector has a result: the hwmon sensors
  -- in it are those before and, in the order of the paths, the sensors that can be read, the first
  -- ones as far as the array has room.
  pub tm_collect_generic_linux-fill_hwmons :
      (s t : Snapshot D) (paths : List Bytes)
      → host.glob (tm_glob_join host 256 (codes "/sys/class/hwmon/hwmon*/temp*_input")) ≡ some paths
      → tm_collect_generic_linux host s ≡ some t
      → t.hwmon_sensors ≡ fill max_hwmon_sensors s.hwmon_sensors (all_found (read_hwmon host) paths)
  unfolding tm_collect_generic_linux collect_zones collect_hwmons
  tm_collect_generic_linux-fill_hwmons s t paths found h =
      let (zoned, e1, e2) = >>=-eq-some (collect_zones host s) _ h in
      let kept =
        with_list_inv (λ (v : Snapshot D). v.hwmon_sensors ≡ s.hwmon_sensors) (host.glob _)
          (collect_zone_paths host) s (hwmons-collect_zone_paths s) zoned refl e1 in
      hwmons-collect_hwmon_paths zoned paths t (rw found at e2)
      ∙ ap (λ before. fill max_hwmon_sensors before (all_found (read_hwmon host) paths)) kept
