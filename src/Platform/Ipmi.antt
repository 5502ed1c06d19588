-- ===== src/Platform/Ipmi.antt =====
-- src/platform/ipmi.c: `tm_collect_ipmi` over the output of `ipmitool`.
pub mod Bounds
pub mod Rows
use thermal_observatory.Base.{
  Bool, not, ◌||◌, Option, none, some, List, [], ◌∷◌, ◌++◌, ltb, leb, if◌then◌else◌, Bytes, codes,
  length, take, ◌>>=◌,
}
use thermal_observatory.Double.{Double, minus_one}
use thermal_observatory.Libc.Scan.{is_space, skip_space, take_until, contains, strtok}
use thermal_observatory.Libc.Lines.{lines, leading_space, trim_end}
use thermal_observatory.Platform.{Host}
use thermal_observatory.Snapshot.{Snapshot, max_board_sensors, max_fans}
use thermal_observatory.Snapshot.Capability.{with_cap, platform_ipmi}

-- `trim(s)`: the pointer that skips white space is the function's own, so the caller's text keeps
-- the white space in front and loses what stands behind.
unfoldable pub trim : Bytes → Bytes
trim s = leading_space s ++ trim_end (skip_space s)

-- "%31s": at most 31 bytes that are no white space
unfoldable pub take_word : Bytes → Bytes
take_word [] = []
take_word (c ∷ s) = if is_space c then [] else c ∷ take_word s

-- `command -v ipmitool`
unfoldable pub command_exists : Host → Bytes → Bool
command_exists host cmd =
    host.system (take 127 (codes "command -v " ++ (cmd ++ codes " >/dev/null 2>&1")))

unfoldable pub fields_of_line : Bytes → Option (Bytes × Bytes)
fields_of_line line = do
  (name, rest) ← strtok b'|' (take_until 0 line)
  (reading, _) ← strtok b'|' rest
  some (name, reading)

module _ {ℓ} {D : Type ℓ} ⦃d : Double D⦄ where
  -- `add_board_sensor`, for the collector that `source` names
  unfoldable pub add_board_sensor : Bytes → Snapshot D → Bytes → Bytes → D → Bytes → Snapshot D
  add_board_sensor source snap name type value unit =
      if leb max_board_sensors (length snap.board_sensors) then snap else record snap {
        board_sensors =
            snap.board_sensors
            ++ record {
              name = take 63 name;
              sensor_type = take 31 type;
              source = take 31 source;
              value = value;
              unit = take 15 unit;
            }
              ∷ [];
      }

  unfoldable pub add_fan_sensor : Snapshot D → Bytes → D → Snapshot D
  add_fan_sensor snap name rpm =
      if leb max_fans (length snap.fan_sensors) then snap else record snap {
        fan_sensors =
            snap.fan_sensors
            ++ record { name = take 63 name; source = codes "ipmi"; rpm = rpm; pwm_pct = minus_one }
              ∷ [];
      }

  -- `sscanf(reading, "%lf %31s", &value, unit) == 2`
  unfoldable pub scan_reading : Bytes → Option (D × Bytes)
  scan_reading reading = do
    (value, rest) ← d.strtod reading
    elim (take 31 (take_word (skip_space rest))) [ [] ↦ none | c ∷ unit ↦ some (value, c ∷ unit) ]

  -- what the body of the loop does with a name and a reading
  unfoldable pub record_reading : Snapshot D → Bytes → Option (D × Bytes) → Snapshot D
  record_reading snap name none = snap
  record_reading snap name (some (value, unit)) =
      if contains unit (codes "degrees") || contains unit (codes "C")
      then add_board_sensor (codes "ipmi") snap name (codes "temperature") value (codes "celsius")
      else if contains unit (codes "RPM")
      then add_fan_sensor snap name value
      else if contains unit (codes "Watts")
      then add_board_sensor (codes "ipmi") snap name (codes "power") value (codes "watts")
      else snap

  abbrev collect_fields : Snapshot D → Option (Bytes × Bytes) → Snapshot D
  collect_fields snap none = snap
  collect_fields snap (some (name, reading)) =
      record_reading snap (trim name) (scan_reading (trim reading))

  unfoldable pub collect_ipmi_line : Snapshot D → Bytes → Snapshot D
  collect_ipmi_line snap line = collect_fields snap (fields_of_line line)

  unfoldable pub collect_ipmi_lines : Snapshot D → List Bytes → Snapshot D
  collect_ipmi_lines snap [] = snap
  collect_ipmi_lines snap (line ∷ rest) = collect_ipmi_lines (collect_ipmi_line snap line) rest

  unfoldable pub mark_ipmi : Snapshot D → Snapshot D
  mark_ipmi snap =
      if ltb 0 (length snap.board_sensors) || ltb 0 (length snap.fan_sensors)
      then record snap { capabilities = with_cap snap.capabilities platform_ipmi }
      else snap

  unfoldable pub tm_collect_ipmi : Host → Snapshot D → Snapshot D
  tm_collect_ipmi host snap =
      if not (command_exists host (codes "ipmitool"))
      then snap
      else elim (host.popen (codes "ipmitool sdr elist all 2>/dev/null")) [
        | none ↦ snap
        | some output ↦ mark_ipmi (collect_ipmi_lines snap (lines 512 output))
      ]
