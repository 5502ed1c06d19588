-- ===== src/Platform/Redfish.antt =====
-- src/platform/redfish.c: `tm_collect_redfish` over a sample file of comma-separated values.
pub mod Bounds
pub mod Marks
pub mod Csv
pub mod Trims
pub mod Rows
use thermal_observatory.Base.{
  ℕ, ◌-◌, Option, none, some, List, [], ◌∷◌, ltb, if◌then◌else◌, Bytes, codes, length, take, ◌>>=◌,
}
use thermal_observatory.Double.{Double, nought}
use thermal_observatory.Libc.Scan.{skip_space, take_until, strtok}
use thermal_observatory.Libc.Lines.{lines, trim_end}
use thermal_observatory.Platform.{Host}
use thermal_observatory.Platform.Ipmi.{add_board_sensor}
use thermal_observatory.Snapshot.{Snapshot}
use thermal_observatory.Snapshot.Capability.{with_cap, platform_redfish}

-- `trim_copy(dst, len, src)`: the text is cut to the buffer before its end is trimmed.
unfoldable pub trim_copy : ℕ → Bytes → Bytes
trim_copy len src = trim_end (take (len - 1) (skip_space src))

-- The four fields of a line, as `strtok` finds them.
pub record Row : Type 0 where
  pub name_field : Bytes
  pub type_field : Bytes
  pub value_field : Bytes
  pub unit_field : Bytes

unfoldable pub row_of_line : Bytes → Option Row
row_of_line line = do
  (name, r1) ← strtok b',' (take_until 0 line)
  (type, r2) ← strtok b',' r1
  (value, r3) ← strtok b',' r2
  (unit, _) ← strtok b',' r3
  some (record { name_field = name; type_field = type; value_field = value; unit_field = unit })

module _ {ℓ} {D : Type ℓ} ⦃d : Double D⦄ where
  -- `atof(s)`
  unfoldable pub atof : Bytes → D
  atof s = elim (d.strtod s) [ none ↦ nought | some (value, _) ↦ value ]

  -- this file's `add_board_sensor`
  unfoldable pub add_redfish_sensor : Snapshot D → Bytes → Bytes → D → Bytes → Snapshot D
  add_redfish_sensor = add_board_sensor (codes "redfish")

  abbrev collect_row : Snapshot D → Option Row → Snapshot D
  collect_row snap none = snap
  collect_row snap (some row) =
      add_redfish_sensor snap (trim_copy 128 row.name_field) (trim_copy 64 row.type_field)
        (atof row.value_field) (trim_copy 32 row.unit_field)

  unfoldable pub collect_redfish_lines : Snapshot D → List Bytes → Snapshot D
  collect_redfish_lines snap [] = snap
  collect_redfish_lines snap (line ∷ rest) =
      collect_redfish_lines (collect_row snap (row_of_line line)) rest

  -- The test is on all board sensors, whichever collector added them.
  unfoldable pub mark_redfish : Snapshot D → Snapshot D
  mark_redfish snap =
      if ltb 0 (length snap.board_sensors)
      then record snap { capabilities = with_cap snap.capabilities platform_redfish }
      else snap

  -- `file_exists` and the second `fopen` agree, as the file stays.
  unfoldable pub tm_collect_redfish : Host → Snapshot D → Snapshot D
  tm_collect_redfish host snap =
      elim (do path ← host.getenv (codes "TM_REDFISH_SAMPLE"); host.file path) [
        | none ↦ snap
        | some contents ↦ mark_redfish (collect_redfish_lines snap (lines 512 contents))
      ]
