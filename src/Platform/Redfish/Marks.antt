-- ===== src/Platform/Redfish/Marks.antt =====
-- Which bits `tm_collect_redfish` sets.
use thermal_observatory.Base.{
  Bool, true, false, Bool-cases, ◌||◌, ◌&&◌, ◌≡◌, refl, sym, ap, ◌∙◌, Option, none, some, List, [],
  ◌∷◌, ltb, leb, ◌==◌, Bytes, codes, length, inl, inr,
}
use thermal_observatory.Double.{Double}
use thermal_observatory.Libc.Lines.{lines}
use thermal_observatory.Platform.{Host}
use thermal_observatory.Platform.Ipmi.{add_board_sensor}
use thermal_observatory.Platform.Redfish.{
  Row, row_of_line, collect_row, add_redfish_sensor, collect_redfish_lines, mark_redfish,
  tm_collect_redfish,
}
use thermal_observatory.Snapshot.{Snapshot, max_board_sensors}
use thermal_observatory.Snapshot.Capability.{Capability, has, place, has-with_cap, platform_redfish}

or-false : (a : Bool) → (a || false) ≡ a
or-false true = refl
or-false false = refl

module _ {ℓ} {D : Type ℓ} ⦃d : Double D⦄ where
  capabilities-add_board_sensor :
      (source : Bytes) (s : Snapshot D) (name type : Bytes) (value : D) (unit : Bytes)
      → (add_board_sensor source s name type value unit).capabilities ≡ s.capabilities
  unfolding add_board_sensor
  capabilities-add_board_sensor source s name type value unit =
      elim (Bool-cases (leb max_board_sensors (length s.board_sensors))) [
        | inl full ↦ rw full refl
        | inr free ↦ rw free refl
      ]

  capabilities-collect_row :
      (s : Snapshot D) (row : Option Row) → (collect_row s row).capabilities ≡ s.capabilities
  unfolding add_redfish_sensor
  capabilities-collect_row s none = refl
  capabilities-collect_row s (some row) = capabilities-add_board_sensor _ s _ _ _ _

  capabilities-collect_redfish_lines :
      (s : Snapshot D) (rest : List Bytes)
      → (collect_redfish_lines s rest).capabilities ≡ s.capabilities
  unfolding collect_redfish_lines
  capabilities-collect_redfish_lines s [] = refl
  capabilities-collect_redfish_lines s (line ∷ rest) =
      capabilities-collect_redfish_lines (collect_row s (row_of_line line)) rest
      ∙ capabilities-collect_row s (row_of_line line)

  has-mark_redfish :
      (s : Snapshot D) (e : Capability)
      → has (mark_redfish s).capabilities e ≡ (
          has s.capabilities e
          || ltb 0 (length (mark_redfish s).board_sensors) && place platform_redfish == place e)
  unfolding mark_redfish
  has-mark_redfish s e = elim (Bool-cases (ltb 0 (length s.board_sensors))) [
    | inl filled ↦ rw (filled, filled) (has-with_cap s.capabilities platform_redfish e)
    | inr empty ↦ rw (empty, empty) (sym (or-false _))
  ]

  pub tm_collect_redfish_sample :
      (host : Host) (path contents : Bytes) (s : Snapshot D)
      → host.getenv (codes "TM_REDFISH_SAMPLE") ≡ some path
      → host.file path ≡ some contents
      → tm_collect_redfish host s ≡ mark_redfish (collect_redfish_lines s (lines 512 contents))
  unfolding tm_collect_redfish mark_redfish
  tm_collect_redfish_sample host path contents s h k = rw (h, k, tm_collect_redfish) refl

  -- Where a sample file can be read: the collector sets the Redfish bit exactly if the snapshot that
  -- it leaves has a board sensor, from whichever source, and sets and clears no other bit.
  pub tm_collect_redfish-has :
      (host : Host) (path contents : Bytes) (s : Snapshot D) (e : Capability)
      → host.getenv (codes "TM_REDFISH_SAMPLE") ≡ some path
      → host.file path ≡ some contents
      → has (tm_collect_redfish host s).capabilities e ≡ (
          has s.capabilities e
          || ltb 0 (length (tm_collect_redfish host s).board_sensors)
            && place platform_redfish == place e)
  tm_collect_redfish-has host path contents s e h k =
      let marked =
        ltb 0 (length (mark_redfish (collect_redfish_lines s (lines 512 contents))).board_sensors)
        && place platform_redfish == place e in
      rw (tm_collect_redfish_sample host path contents s h k) (
        has-mark_redfish (collect_redfish_lines s (lines 512 contents)) e
        ∙ ap (λ caps. has caps e || marked)
            (capabilities-collect_redfish_lines s (lines 512 contents)))
