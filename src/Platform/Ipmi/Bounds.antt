-- ===== src/Platform/Ipmi/Bounds.antt =====
-- `tm_collect_ipmi` keeps every array and every text within its bounds.
use thermal_observatory.Base.{
  Bool, Bool-cases, true, false, Option, Option-cases, none, some, List, [], ◌∷◌, arith, Bytes,
  length, codes, leb, ltb, ◌||◌, not, inl, inr, if◌then◌else◌,
}
use thermal_observatory.Double.{Double}
use thermal_observatory.Libc.Lines.{lines}
use thermal_observatory.Libc.Scan.{contains}
use thermal_observatory.Platform.{Host}
use thermal_observatory.Platform.Bounds.{length-take-le}
use thermal_observatory.Platform.Ipmi.{
  add_board_sensor, add_fan_sensor, record_reading, collect_fields, fields_of_line,
  collect_ipmi_line, collect_ipmi_lines, mark_ipmi, tm_collect_ipmi, command_exists, trim,
  scan_reading,
}
use thermal_observatory.Snapshot.{Snapshot, max_board_sensors, max_fans}
use thermal_observatory.Snapshot.Bounds.{
  BoardFits, FanFits, FitsArray-concat, IsBounded, IsBounded-capabilities,
}

module _ {ℓ} {D : Type ℓ} ⦃d : Double D⦄ where
  pub add_board_sensor-IsBounded :
      (source : Bytes) (s : Snapshot D) (name type : Bytes) (value : D) (unit : Bytes)
      → IsBounded s
      → IsBounded (add_board_sensor source s name type value unit)
  unfolding add_board_sensor
  add_board_sensor-IsBounded source s name type value unit h =
      elim (Bool-cases (leb max_board_sensors (length s.board_sensors))) [
        | inl full ↦ rw full h
        | inr free ↦ rw free (record {
          packages_fit = h.packages_fit;
          clusters_fit = h.clusters_fit;
          nvidia_fit = h.nvidia_fit;
          amd_fit = h.amd_fit;
          hwmon_fit = h.hwmon_fit;
          zones_fit = h.zones_fit;
          boards_fit =
              FitsArray-concat max_board_sensors BoardFits s.board_sensors _ h.boards_fit
                (ground arith)
                (
                  omega (arith, length-take-le {0} 63 name),
                  omega (arith, length-take-le {0} 31 type),
                  omega (arith, length-take-le {0} 31 source),
                  omega (arith, length-take-le {0} 15 unit),
                );
          fans_fit = h.fans_fit;
          psus_fit = h.psus_fit;
        })
      ]

  add_fan_sensor-IsBounded :
      (s : Snapshot D) (name : Bytes) (rpm : D)
      → IsBounded s
      → IsBounded (add_fan_sensor s name rpm)
  unfolding add_fan_sensor
  add_fan_sensor-IsBounded s name rpm h = elim (Bool-cases (leb max_fans (length s.fan_sensors))) [
    | inl full ↦ rw full h
    | inr free ↦ rw free (record {
      packages_fit = h.packages_fit;
      clusters_fit = h.clusters_fit;
      nvidia_fit = h.nvidia_fit;
      amd_fit = h.amd_fit;
      hwmon_fit = h.hwmon_fit;
      zones_fit = h.zones_fit;
      boards_fit = h.boards_fit;
      fans_fit =
          FitsArray-concat max_fans FanFits s.fan_sensors _ h.fans_fit (ground arith)
            (omega (arith, length-take-le {0} 63 name), omega arith);
      psus_fit = h.psus_fit;
    })
  ]

  -- Both branches of a test keep what they keep.
  pub IsBounded-if :
      (b : Bool) (s t : Snapshot D) → IsBounded s → IsBounded t → IsBounded (if b then s else t)
  IsBounded-if true s t h k = h
  IsBounded-if false s t h k = k

  record_reading-IsBounded :
      (s : Snapshot D) (name : Bytes) (reading : Option (D × Bytes))
      → IsBounded s
      → IsBounded (record_reading s name reading)
  unfolding record_reading
  record_reading-IsBounded s name none h = h
  record_reading-IsBounded s name (some (value, unit)) h =
      IsBounded-if (contains unit (codes "degrees") || contains unit (codes "C")) _ _
        (add_board_sensor-IsBounded (codes "ipmi") s name (codes "temperature") value
          (codes "celsius") h)
        (IsBounded-if (contains unit (codes "RPM")) _ _ (add_fan_sensor-IsBounded s name value h) (
          IsBounded-if (contains unit (codes "Watts")) _ _
            (add_board_sensor-IsBounded (codes "ipmi") s name (codes "power") value (codes "watts")
              h)
            h))

  collect_fields-IsBounded :
      (s : Snapshot D) (fields : Option (Bytes × Bytes))
      → IsBounded s
      → IsBounded (collect_fields s fields)
  collect_fields-IsBounded s none h = h
  collect_fields-IsBounded s (some (name, reading)) h =
      record_reading-IsBounded s (trim name) (scan_reading (trim reading)) h

  collect_ipmi_lines-IsBounded :
      (s : Snapshot D) (rest : List Bytes) → IsBounded s → IsBounded (collect_ipmi_lines s rest)
  unfolding collect_ipmi_lines collect_ipmi_line
  collect_ipmi_lines-IsBounded s [] h = h
  collect_ipmi_lines-IsBounded s (line ∷ rest) h =
      collect_ipmi_lines-IsBounded (collect_fields s (fields_of_line line)) rest
        (collect_fields-IsBounded s (fields_of_line line) h)

  mark_ipmi-IsBounded : (s : Snapshot D) → IsBounded s → IsBounded (mark_ipmi s)
  unfolding mark_ipmi
  mark_ipmi-IsBounded s h =
      IsBounded-if (ltb 0 (length s.board_sensors) || ltb 0 (length s.fan_sensors)) _ _
        (IsBounded-capabilities s _ h) h

  -- Whatever `ipmitool` prints, and whether it is there or not: where the snapshot fits its arrays
  -- and texts, so does the one that `tm_collect_ipmi` leaves.
  pub tm_collect_ipmi-IsBounded :
      (host : Host) (s : Snapshot D) → IsBounded s → IsBounded (tm_collect_ipmi host s)
  unfolding tm_collect_ipmi
  tm_collect_ipmi-IsBounded host s h =
      elim (Option-cases (host.popen (codes "ipmitool sdr elist all 2>/dev/null"))) [
        | inl e ↦ rw e (IsBounded-if (not (command_exists host (codes "ipmitool"))) _ _ h h)
        | inr (output, e) ↦ rw e (
            IsBounded-if (not (command_exists host (codes "ipmitool"))) _ _ h
              (mark_ipmi-IsBounded _ (collect_ipmi_lines-IsBounded s (lines 512 output) h)))
      ]
