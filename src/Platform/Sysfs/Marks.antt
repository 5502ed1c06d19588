-- ===== src/Platform/Sysfs/Marks.antt =====
-- Which bits `tm_collect_generic_linux` sets.
use thermal_observatory.Base.{
  Bool, true, false, ◌||◌, ◌&&◌, ◌≡◌, refl, sym, ap, ◌∙◌, some-injective, Option, none, some, List,
  ◌==◌, >>=-eq-some, Bytes, codes,
}
use thermal_observatory.Base.Loops.{while_room, while_room_inv, with_list}
use thermal_observatory.Double.{Double}
use thermal_observatory.Platform.{Host}
use thermal_observatory.Platform.Paths.{tm_glob_join}
use thermal_observatory.Platform.Sysfs.{
  read_zone, add_zone, zone_room, collect_zone, collect_zone_paths, collect_zones, read_hwmon,
  add_hwmon, hwmon_room, collect_hwmon, collect_hwmon_paths, collect_hwmons,
  tm_collect_generic_linux,
}
use thermal_observatory.Snapshot.{Sensor, Snapshot}
use thermal_observatory.Snapshot.Capability.{
  Capability, has, with_cap, place, has-with_cap, linux_thermal, linux_hwmon,
}

-- `glob(…) == 0`
abbrev pub is_some {ℓ} : {A : Type ℓ} → Option A → Bool
is_some none = false
is_some (some x) = true

pub or_false : (b : Bool) → b ≡ (b || false)
or_false true = refl
or_false false = refl

module _ {ℓ} {D : Type ℓ} where
  -- A step that sets the bit `c` if `glob` has a result.
  has-with_list :
      (o : Option (List Bytes)) (body : List Bytes → Snapshot D → Option (Snapshot D))
      → (c e : Capability) (s t : Snapshot D)
      → ((paths : List Bytes) (u : Snapshot D)
          → body paths s ≡ some u
          → u.capabilities ≡ with_cap s.capabilities c)
      → with_list o body s ≡ some t
      → has t.capabilities e ≡ (has s.capabilities e || is_some o && place c == place e)
  has-with_list none body c e s t marks h =
      ap (λ (u : Snapshot D). has u.capabilities e) (sym (some-injective _ _ h))
      ∙ or_false (has s.capabilities e)
  has-with_list (some paths) body c e s t marks h =
      ap (λ caps. has caps e) (marks paths t h) ∙ has-with_cap s.capabilities c e

module _ {ℓ} {D : Type ℓ} ⦃d : Double D⦄ (host : Host) where
  capabilities-add_zone :
      (s : Snapshot D) (found : Option (Sensor D))
      → (add_zone host s found).capabilities ≡ s.capabilities
  capabilities-add_zone s none = refl
  capabilities-add_zone s (some x) = refl

  capabilities-add_hwmon :
      (s : Snapshot D) (found : Option (Sensor D))
      → (add_hwmon host s found).capabilities ≡ s.capabilities
  capabilities-add_hwmon s none = refl
  capabilities-add_hwmon s (some x) = refl

  capabilities-collect_zone_paths :
      (s : Snapshot D) (paths : List Bytes) (u : Snapshot D)
      → collect_zone_paths host paths s ≡ some u
      → u.capabilities ≡ with_cap s.capabilities linux_thermal
  unfolding collect_zone_paths collect_zone
  capabilities-collect_zone_paths s paths u h =
      let (after, looped, e) =
        >>=-eq-some (while_room (zone_room host) (collect_zone host) paths s) _ h in
      let kept =
        while_room_inv (zone_room host) (collect_zone host)
          (λ (v : Snapshot D). v.capabilities ≡ s.capabilities)
          (λ path v w same room step.
            ap (λ (x : Snapshot D). x.capabilities) (sym (some-injective _ _ step))
            ∙ capabilities-add_zone v (read_zone host path)
            ∙ same)
          paths s after refl looped in
      ap (λ (x : Snapshot D). x.capabilities) (sym (some-injective _ _ e))
      ∙ ap (λ caps. with_cap caps linux_thermal) kept

  capabilities-collect_hwmon :
      (path : Bytes) (s t : Snapshot D)
      → collect_hwmon host path s ≡ some t
      → t.capabilities ≡ s.capabilities
  unfolding collect_hwmon
  capabilities-collect_hwmon path s t h =
      let (found, _, e) = >>=-eq-some (read_hwmon host path) _ h in
      ap (λ (x : Snapshot D). x.capabilities) (sym (some-injective _ _ e))
      ∙ capabilities-add_hwmon s found

  capabilities-collect_hwmon_paths :
      (s : Snapshot D) (paths : List Bytes) (u : Snapshot D)
      → collect_hwmon_paths host paths s ≡ some u
      → u.capabilities ≡ with_cap s.capabilities linux_hwmon
  unfolding collect_hwmon_paths
  capabilities-collect_hwmon_paths s paths u h =
      let (after, looped, e) =
        >>=-eq-some (while_room (hwmon_room host) (collect_hwmon host) paths s) _ h in
      let kept =
        while_room_inv (hwmon_room host) (collect_hwmon host)
          (λ (v : Snapshot D). v.capabilities ≡ s.capabilities)
          (λ path v w same room step. capabilities-collect_hwmon path v w step ∙ same) paths s after
          refl looped in
      ap (λ (x : Snapshot D). x.capabilities) (sym (some-injective _ _ e))
      ∙ ap (λ caps. with_cap caps linux_hwmon) kept

  -- Where the generic collector has a result: it sets the thermal bit exactly if `glob` finds
  -- thermal zones and the hwmon bit exactly if it finds inputs, whether or not one of them could be
  -- read, and changes no other bit. A bit is thus set also where nothing was observed.
  pub tm_collect_generic_linux-has :
      (s t : Snapshot D) (e : Capability)
      → tm_collect_generic_linux host s ≡ some t
      → has t.capabilities e ≡ (
          (has s.capabilities e
            || is_some
                (host.glob (tm_glob_join host 256 (codes "/sys/class/thermal/thermal_zone*/temp")))
              && place linux_thermal == place e)
          || is_some
              (host.glob (tm_glob_join host 256 (codes "/sys/class/hwmon/hwmon*/temp*_input")))
            && place linux_hwmon == place e)
  unfolding tm_collect_generic_linux collect_zones collect_hwmons
  tm_collect_generic_linux-has s t e h =
      let (zoned, e1, e2) = >>=-eq-some (collect_zones host s) _ h in
      has-with_list
        (host.glob (tm_glob_join host 256 (codes "/sys/class/hwmon/hwmon*/temp*_input")))
        (collect_hwmon_paths host) linux_hwmon e zoned t (capabilities-collect_hwmon_paths zoned) e2
      ∙ ap
          (λ b.
            b
            || is_some
                (host.glob (tm_glob_join host 256 (codes "/sys/class/hwmon/hwmon*/temp*_input")))
              && place linux_hwmon == place e)
          (has-with_list
            (host.glob (tm_glob_join host 256 (codes "/sys/class/thermal/thermal_zone*/temp")))
            (collect_zone_paths host) linux_thermal e s zoned (capabilities-collect_zone_paths s)
            e1)
