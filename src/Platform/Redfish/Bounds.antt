-- ===== src/Platform/Redfish/Bounds.antt =====
-- `tm_collect_redfish` keeps every array and every text within its bounds.
use thermal_observatory.Base.{
  Option, Option-cases, none, some, List, [], ◌∷◌, Bytes, codes, inl, inr, ◌>>=◌, ltb, length,
}
use thermal_observatory.Double.{Double}
use thermal_observatory.Libc.Lines.{lines}
use thermal_observatory.Platform.{Host}
use thermal_observatory.Platform.Ipmi.Bounds.{add_board_sensor-IsBounded, IsBounded-if}
use thermal_observatory.Platform.Redfish.{
  Row, row_of_line, collect_row, add_redfish_sensor, collect_redfish_lines, mark_redfish,
  tm_collect_redfish,
}
use thermal_observatory.Snapshot.{Snapshot}
use thermal_observatory.Snapshot.Bounds.{IsBounded, IsBounded-capabilities}

module _ {ℓ} {D : Type ℓ} ⦃d : Double D⦄ where
  collect_row-IsBounded :
      (s : Snapshot D) (row : Option Row) → IsBounded s → IsBounded (collect_row s row)
  unfolding add_redfish_sensor
  collect_row-IsBounded s none h = h
  collect_row-IsBounded s (some row) h = add_board_sensor-IsBounded _ s _ _ _ _ h

  collect_redfish_lines-IsBounded :
      (s : Snapshot D) (rest : List Bytes) → IsBounded s → IsBounded (collect_redfish_lines s rest)
  unfolding collect_redfish_lines
  collect_redfish_lines-IsBounded s [] h = h
  collect_redfish_lines-IsBounded s (line ∷ rest) h =
      collect_redfish_lines-IsBounded (collect_row s (row_of_line line)) rest
        (collect_row-IsBounded s (row_of_line line) h)

  mark_redfish-IsBounded : (s : Snapshot D) → IsBounded s → IsBounded (mark_redfish s)
  unfolding mark_redfish
  mark_redfish-IsBounded s h =
      IsBounded-if (ltb 0 (length s.board_sensors)) _ _ (IsBounded-capabilities s _ h) h

  -- Whatever the sample file holds, and whether it is there or not: where the snapshot fits its
  -- arrays and texts, so does the one that `tm_collect_redfish` leaves.
  pub tm_collect_redfish-IsBounded :
      (host : Host) (s : Snapshot D) → IsBounded s → IsBounded (tm_collect_redfish host s)
  unfolding tm_collect_redfish
  tm_collect_redfish-IsBounded host s h =
      elim (Option-cases (do path ← host.getenv (codes "TM_REDFISH_SAMPLE"); host.file path)) [
        | inl e ↦ rw (e, tm_collect_redfish) h
        | inr (contents, e) ↦
            rw (e, tm_collect_redfish)
              (mark_redfish-IsBounded _ (collect_redfish_lines-IsBounded s (lines 512 contents) h))
      ]
