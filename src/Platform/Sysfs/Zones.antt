-- ===== src/Platform/Sysfs/Zones.antt =====
-- Which thermal zones `tm_collect_generic_linux` records: the first ones that can be read.
use thermal_observatory.Base.{
  ◌≡◌, refl, sym, ap, ◌∙◌, some-injective, Option, none, some, List, [], ◌∷◌, ◌++◌, >>=-eq-some,
  Bytes, codes,
}
use thermal_observatory.Base.Collect.{Collects, all_found, add_found, fill, while_room-fill}
use thermal_observatory.Base.Loops.{while_room, while_room_inv, with_list_inv}
use thermal_observatory.Double.{Double}
use thermal_observatory.Platform.{Host}
use thermal_observatory.Platform.Paths.{tm_glob_join}
use thermal_observatory.Platform.Sysfs.{
  read_zone, add_zone, zone_room, collect_zone, collect_zone_paths, collect_zones, read_hwmon,
  add_hwmon, hwmon_room, collect_hwmon, collect_hwmon_paths, collect_hwmons,
  tm_collect_generic_linux,
}
use thermal_observatory.Snapshot.{Sensor, Snapshot, max_thermal_zones}

module _ {ℓ} {D : Type ℓ} ⦃d : Double D⦄ (host : Host) where
  -- The sensors of the paths that can be read, in their order.
  abbrev pub readable_zones : List Bytes → List (Sensor D)
  readable_zones = all_found (λ path. some (read_zone host path))

  -- The zones before, and behind them the readable ones as far as there is room.
  abbrev pub with_zones : Snapshot D → List (Sensor D) → List (Sensor D)
  with_zones s sensors = fill max_thermal_zones s.thermal_zones sensors

  abbrev append_zone : Snapshot D → Sensor D → Snapshot D
  append_zone s sensor = record s { thermal_zones = s.thermal_zones ++ sensor ∷ [] }

  add_zone-found :
      (s : Snapshot D) (found : Option (Sensor D))
      → add_zone host s found ≡ add_found append_zone s found
  add_zone-found s none = refl
  add_zone-found s (some sensor) = refl

  zones-Collects :
      Collects
        (λ (s : Snapshot D). s.thermal_zones)
        max_thermal_zones
        append_zone
        (λ path. some (read_zone host path))
        (zone_room host)
        (collect_zone host)
  unfolding zone_room collect_zone
  zones-Collects = record {
    has_room = λ s. refl;
    appends = λ s sensor. refl;
    reads = λ path s. ap some (add_zone-found s (read_zone host path));
  }

  zones-add_hwmon :
      (s : Snapshot D) (found : Option (Sensor D))
      → (add_hwmon host s found).thermal_zones ≡ s.thermal_zones
  zones-add_hwmon s none = refl
  zones-add_hwmon s (some sensor) = refl

  zones-collect_hwmon :
      (path : Bytes) (s t : Snapshot D)
      → collect_hwmon host path s ≡ some t
      → t.thermal_zones ≡ s.thermal_zones
  unfolding collect_hwmon
  zones-collect_hwmon path s t h =
      let (found, _, e) = >>=-eq-some (read_hwmon host path) _ h in
      ap (λ (x : Snapshot D). x.thermal_zones) (sym (some-injective _ _ e))
      ∙ zones-add_hwmon s found

  zones-collect_hwmon_paths :
      (s : Snapshot D) (paths : List Bytes) (t : Snapshot D)
      → collect_hwmon_paths host paths s ≡ some t
      → t.thermal_zones ≡ s.thermal_zones
  unfolding collect_hwmon_paths
  zones-collect_hwmon_paths s paths t h =
      let (after, looped, e) =
        >>=-eq-some (while_room (hwmon_room host) (collect_hwmon host) paths s) _ h in
      ap (λ (x : Snapshot D). x.thermal_zones) (sym (some-injective _ _ e))
      ∙ while_room_inv (hwmon_room host) (collect_hwmon host)
          (λ (v : Snapshot D). v.thermal_zones ≡ s.thermal_zones)
          (λ path v w same room step. zones-collect_hwmon path v w step ∙ same) paths s after refl
          looped

  zones-collect_zone_paths :
      (s : Snapshot D) (paths : List Bytes) (t : Snapshot D)
      → collect_zone_paths host paths s ≡ some t
      → t.thermal_zones ≡ with_zones s (readable_zones paths)
  unfolding collect_zone_paths
  zones-collect_zone_paths s paths t h =
      let (after, looped, e) =
        >>=-eq-some (while_room (zone_room host) (collect_zone host) paths s) _ h in
      ap (λ (x : Snapshot D). x.thermal_zones) (sym (some-injective _ _ e))
      ∙ while_room-fill zones-Collects paths s after looped

  -- Where `glob` finds the paths of thermal zones and the generic collector has a result: the
  -- thermal zones in it are those before and, in the order of the paths, the sensors of the paths
  -- that can be read, the first ones as far as the array has room.
  pub tm_collect_generic_linux-with_zones :
      (s t : Snapshot D) (paths : List Bytes)
      → host.glob (tm_glob_join host 256 (codes "/sys/class/thermal/thermal_zone*/temp"))
        ≡ some paths
      → tm_collect_generic_linux host s ≡ some t
      → t.thermal_zones ≡ with_zones s (readable_zones paths)
  unfolding tm_collect_generic_linux collect_zones collect_hwmons
  tm_collect_generic_linux-with_zones s t paths found h =
      let (zoned, e1, e2) = >>=-eq-some (collect_zones host s) _ h in
      let kept =
        with_list_inv (λ (v : Snapshot D). v.thermal_zones ≡ zoned.thermal_zones) (host.glob _)
          (collect_hwmon_paths host) zoned (zones-collect_hwmon_paths zoned) t refl e2 in
      kept ∙ zones-collect_zone_paths s paths zoned (rw found at e1)
