-- ===== src/Platform/Redfish/Rows.antt =====
-- Which sensors `tm_collect_redfish` records of a file of comma-separated values.
use thermal_observatory.Base.{
  Bool-cases, ◌≡◌, refl, ap, ◌∙◌, inl, inr, some, List, [], ◌∷◌, map, ltb, Bytes, codes, length,
  All,
}
use thermal_observatory.Base.Collect.{fill, fill_none, fill-fill}
use thermal_observatory.Double.{Double}
use thermal_observatory.Platform.{Host}
use thermal_observatory.Platform.Ipmi.Rows.{board_sensor, add_board_sensor-fill}
use thermal_observatory.Platform.Redfish.{
  trim_copy, Row, row_of_line, atof, add_redfish_sensor, collect_row, collect_redfish_lines,
  mark_redfish, tm_collect_redfish,
}
use thermal_observatory.Platform.Redfish.Csv.{
  csv_line, csv, IsRow, with_newline, row_of_line-csv_line,
}
use thermal_observatory.Platform.Redfish.Csv.Files.{lines-csv}
use thermal_observatory.Platform.Redfish.Trims.{trim_copy-newline}
use thermal_observatory.Platform.Redfish.Marks.{tm_collect_redfish_sample}
use thermal_observatory.Snapshot.{BoardSensor, Snapshot, max_board_sensors}

module _ {ℓ} {D : Type ℓ} ⦃d : Double D⦄ where
  -- The sensor of a row: its texts trimmed and cut, its value as a number.
  abbrev pub row_sensor : Row → BoardSensor D
  row_sensor row =
      board_sensor (codes "redfish") (trim_copy 128 row.name_field) (trim_copy 64 row.type_field)
        (atof row.value_field) (trim_copy 32 row.unit_field)

  row_sensor-with_newline : (row : Row) → row_sensor (with_newline row) ≡ row_sensor row
  row_sensor-with_newline row =
      ap
        (λ unit.
          board_sensor (codes "redfish") (trim_copy 128 row.name_field)
            (trim_copy 64 row.type_field) (atof row.value_field) unit)
        (trim_copy-newline 32 row.unit_field)

  boards-collect_row :
      (s : Snapshot D) (row : Row)
      → (collect_row s (some row)).board_sensors
        ≡ fill max_board_sensors s.board_sensors (row_sensor row ∷ [])
  unfolding add_redfish_sensor
  boards-collect_row s row = (add_board_sensor-fill (codes "redfish") s _ _ _ _).0

  boards-collect_csv_line :
      (s : Snapshot D) (row : Row)
      → IsRow row
      → (collect_row s (row_of_line (csv_line row))).board_sensors
        ≡ fill max_board_sensors s.board_sensors (row_sensor row ∷ [])
  boards-collect_csv_line s row h =
      ap (λ found. (collect_row s found).board_sensors) (row_of_line-csv_line row h)
      ∙ boards-collect_row s (with_newline row)
      ∙ ap (λ sensor. fill max_board_sensors s.board_sensors (sensor ∷ []))
          (row_sensor-with_newline row)

  boards-collect_redfish_lines :
      (s : Snapshot D) (rows : List Row)
      → All IsRow rows
      → (collect_redfish_lines s (map csv_line rows)).board_sensors
        ≡ fill max_board_sensors s.board_sensors (map row_sensor rows)
  unfolding collect_redfish_lines
  boards-collect_redfish_lines s [] h = fill_none max_board_sensors s.board_sensors
  boards-collect_redfish_lines s (row ∷ rows) (here, h) =
      boards-collect_redfish_lines (collect_row s (row_of_line (csv_line row))) rows h
      ∙ ap (λ before. fill max_board_sensors before (map row_sensor rows))
          (boards-collect_csv_line s row here)
      ∙ fill-fill max_board_sensors s.board_sensors (row_sensor row ∷ []) (map row_sensor rows)

  boards-mark_redfish : (s : Snapshot D) → (mark_redfish s).board_sensors ≡ s.board_sensors
  unfolding mark_redfish
  boards-mark_redfish s = elim (Bool-cases (ltb 0 (length s.board_sensors))) [
    | inl filled ↦ rw filled refl
    | inr empty ↦ rw empty refl
  ]

  -- Where the sample file is the text of some rows, each of four fields that are not empty and have
  -- no comma, newline or NUL, and at most 511 bytes long with its newline: behind the collector the
  -- board sensors are those before and one for each row, in their order, the first ones as far as
  -- the array has room.
  pub tm_collect_redfish-csv :
      (host : Host) (path : Bytes) (rows : List Row) (s : Snapshot D)
      → host.getenv (codes "TM_REDFISH_SAMPLE") ≡ some path
      → host.file path ≡ some (csv rows)
      → All IsRow rows
      → (tm_collect_redfish host s).board_sensors
        ≡ fill max_board_sensors s.board_sensors (map row_sensor rows)
  tm_collect_redfish-csv host path rows s named opened h =
      ap (λ (t : Snapshot D). t.board_sensors)
        (tm_collect_redfish_sample host path (csv rows) s named opened)
      ∙ boards-mark_redfish (collect_redfish_lines s _)
      ∙ ap (λ ls. (collect_redfish_lines s ls).board_sensors) (lines-csv rows h)
      ∙ boards-collect_redfish_lines s rows h
