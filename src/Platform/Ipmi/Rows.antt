-- ===== src/Platform/Ipmi/Rows.antt =====
-- Which sensors `tm_collect_ipmi` records, in terms of the lines of `ipmitool`.
use thermal_observatory.Base.{
  Bool-cases, true, ◌||◌, ◌≡◌, refl, ap, ◌∙◌, inl, inr, Option, none, some, List, [], ◌∷◌, ◌++◌,
  ltb, leb, if◌then◌else◌, Bytes, codes, length, take,
}
use thermal_observatory.Base.Collect.{fill, fill_none, fill_one, fill-fill}
use thermal_observatory.Double.{Double, minus_one}
use thermal_observatory.Libc.Lines.{lines}
use thermal_observatory.Libc.Scan.{contains}
use thermal_observatory.Platform.{Host}
use thermal_observatory.Platform.Ipmi.{
  trim, command_exists, fields_of_line, add_board_sensor, add_fan_sensor, scan_reading,
  record_reading, collect_fields, collect_ipmi_line, collect_ipmi_lines, mark_ipmi, tm_collect_ipmi,
}
use thermal_observatory.Snapshot.{BoardSensor, FanSensor, Snapshot, max_board_sensors, max_fans}

-- What a unit says of a reading.
pub data Kind : Type 0 where
  temperature speed power unknown : Kind

abbrev kind_of : Bytes → Kind
kind_of unit =
    if contains unit (codes "degrees") || contains unit (codes "C")
    then temperature
    else if contains unit (codes "RPM")
    then speed
    else if contains unit (codes "Watts")
    then power
    else unknown

module _ {ℓ} {D : Type ℓ} ⦃d : Double D⦄ where
  -- One record of the array of board sensors, each text cut to its field.
  abbrev pub board_sensor : Bytes → Bytes → Bytes → D → Bytes → BoardSensor D
  board_sensor source name type value unit = record {
    name = take 63 name;
    sensor_type = take 31 type;
    source = take 31 source;
    value = value;
    unit = take 15 unit;
  }

  abbrev fan_sensor : Bytes → D → FanSensor D
  fan_sensor name rpm = record {
    name = take 63 name;
    source = codes "ipmi";
    rpm = rpm;
    pwm_pct = minus_one;
  }

  abbrev board_of_kind : Bytes → D → Kind → List (BoardSensor D)
  board_of_kind name value temperature =
      board_sensor (codes "ipmi") name (codes "temperature") value (codes "celsius") ∷ []
  board_of_kind name value power =
      board_sensor (codes "ipmi") name (codes "power") value (codes "watts") ∷ []
  board_of_kind name value speed = []
  board_of_kind name value unknown = []

  abbrev fan_of_kind : Bytes → D → Kind → List (FanSensor D)
  fan_of_kind name value speed = fan_sensor name value ∷ []
  fan_of_kind name value temperature = []
  fan_of_kind name value power = []
  fan_of_kind name value unknown = []

  abbrev board_of_reading : Bytes → Option (D × Bytes) → List (BoardSensor D)
  board_of_reading name none = []
  board_of_reading name (some (value, unit)) = board_of_kind name value (kind_of unit)

  abbrev fan_of_reading : Bytes → Option (D × Bytes) → List (FanSensor D)
  fan_of_reading name none = []
  fan_of_reading name (some (value, unit)) = fan_of_kind name value (kind_of unit)

  abbrev board_of_fields : Option (Bytes × Bytes) → List (BoardSensor D)
  board_of_fields none = []
  board_of_fields (some (name, reading)) =
      board_of_reading (trim name) (scan_reading (trim reading))

  abbrev fan_of_fields : Option (Bytes × Bytes) → List (FanSensor D)
  fan_of_fields none = []
  fan_of_fields (some (name, reading)) = fan_of_reading (trim name) (scan_reading (trim reading))

  -- The board sensors and the fans of all lines, in their order.
  abbrev pub boards_in : List Bytes → List (BoardSensor D)
  boards_in [] = []
  boards_in (line ∷ rest) = board_of_fields (fields_of_line line) ++ boards_in rest

  abbrev pub fans_in : List Bytes → List (FanSensor D)
  fans_in [] = []
  fans_in (line ∷ rest) = fan_of_fields (fields_of_line line) ++ fans_in rest

  -- That a snapshot is another with these sensors behind its own, as far as there is room.
  abbrev Grows : Snapshot D → List (BoardSensor D) → List (FanSensor D) → Snapshot D → Type ℓ
  Grows s boards fans t =
      (t.board_sensors ≡ fill max_board_sensors s.board_sensors boards)
      × (t.fan_sensors ≡ fill max_fans s.fan_sensors fans)

  Grows-nothing : (s : Snapshot D) → Grows s [] [] s
  Grows-nothing s = (fill_none max_board_sensors s.board_sensors, fill_none max_fans s.fan_sensors)

  Grows-again :
      (s : Snapshot D) (boards more : List (BoardSensor D)) (fans others : List (FanSensor D))
      → (t u : Snapshot D) → Grows s boards fans t
      → Grows t more others u
      → Grows s (boards ++ more) (fans ++ others) u
  Grows-again s boards more fans others t u (b, f) (b', f') = (
    b'
        ∙ ap (λ before. fill max_board_sensors before more) b
        ∙ fill-fill max_board_sensors s.board_sensors boards more,
    f'
        ∙ ap (λ before. fill max_fans before others) f
        ∙ fill-fill max_fans s.fan_sensors fans others,
  )

  pub add_board_sensor-fill :
      (source : Bytes) (s : Snapshot D) (name type : Bytes) (value : D) (unit : Bytes)
      → ((add_board_sensor source s name type value unit).board_sensors
          ≡ fill max_board_sensors s.board_sensors (board_sensor source name type value unit ∷ []))
        × ((add_board_sensor source s name type value unit).fan_sensors ≡ s.fan_sensors)
  unfolding add_board_sensor
  add_board_sensor-fill source s name type value unit =
      let one =
        fill_one max_board_sensors s.board_sensors (board_sensor source name type value unit) in
      elim (Bool-cases (leb max_board_sensors (length s.board_sensors))) [
        | inl full ↦ (rw full (rw full at one), rw full refl)
        | inr free ↦ (rw free (rw free at one), rw free refl)
      ]

  add_fan_sensor-fill :
      (s : Snapshot D) (name : Bytes) (rpm : D)
      → Grows s [] (fan_sensor name rpm ∷ []) (add_fan_sensor s name rpm)
  unfolding add_fan_sensor
  add_fan_sensor-fill s name rpm =
      let one = fill_one max_fans s.fan_sensors (fan_sensor name rpm) in
      elim (Bool-cases (leb max_fans (length s.fan_sensors))) [
        | inl full ↦ (rw full (Grows-nothing s).0, rw full (rw full at one))
        | inr free ↦ (rw free (Grows-nothing s).0, rw free (rw free at one))
      ]

  record_reading-Grows :
      (s : Snapshot D) (name : Bytes) (found : Option (D × Bytes))
      → Grows s
          (board_of_reading name found)
          (fan_of_reading name found)
          (record_reading s name found)
  unfolding record_reading
  record_reading-Grows s name none = Grows-nothing s
  record_reading-Grows s name (some (value, unit)) =
      elim (Bool-cases (contains unit (codes "degrees") || contains unit (codes "C"))) [
        | inl hot ↦ rw hot (with_board (codes "temperature") (codes "celsius"))
        | inr cold ↦ elim (Bool-cases (contains unit (codes "RPM"))) [
          | inl turns ↦ rw (cold, turns) (add_fan_sensor-fill s name value)
          | inr still ↦ elim (Bool-cases (contains unit (codes "Watts"))) [
            | inl watts ↦ rw (cold, still, watts) (with_board (codes "power") (codes "watts"))
            | inr other ↦ rw (cold, still, other) (Grows-nothing s)
          ]
        ]
      ]
    where
      with_board :
          (type shown : Bytes)
          → Grows s
              (board_sensor (codes "ipmi") name type value shown ∷ [])
              []
              (add_board_sensor (codes "ipmi") s name type value shown)
      with_board type shown =
          let (boards, fans) = add_board_sensor-fill (codes "ipmi") s name type value shown in
          (boards, fans ∙ fill_none max_fans s.fan_sensors)

  collect_fields-Grows :
      (s : Snapshot D) (fields : Option (Bytes × Bytes))
      → Grows s (board_of_fields fields) (fan_of_fields fields) (collect_fields s fields)
  collect_fields-Grows s none = Grows-nothing s
  collect_fields-Grows s (some (name, reading)) =
      record_reading-Grows s (trim name) (scan_reading (trim reading))

  collect_ipmi_lines-Grows :
      (s : Snapshot D) (rest : List Bytes)
      → Grows s (boards_in rest) (fans_in rest) (collect_ipmi_lines s rest)
  unfolding collect_ipmi_lines collect_ipmi_line
  collect_ipmi_lines-Grows s [] = Grows-nothing s
  collect_ipmi_lines-Grows s (line ∷ rest) =
      let next = collect_ipmi_line s line in
      Grows-again s (board_of_fields (fields_of_line line)) (boards_in rest)
        (fan_of_fields (fields_of_line line)) (fans_in rest) next (collect_ipmi_lines next rest)
        (collect_fields-Grows s (fields_of_line line)) (collect_ipmi_lines-Grows next rest)

  sensors-mark_ipmi :
      (s : Snapshot D)
      → ((mark_ipmi s).board_sensors ≡ s.board_sensors)
        × ((mark_ipmi s).fan_sensors ≡ s.fan_sensors)
  unfolding mark_ipmi
  sensors-mark_ipmi s =
      elim (Bool-cases (ltb 0 (length s.board_sensors) || ltb 0 (length s.fan_sensors))) [
        | inl filled ↦ (rw filled refl, rw filled refl)
        | inr empty ↦ (rw empty refl, rw empty refl)
      ]

  -- Where `ipmitool` is there and its output can be read: behind the collector the board sensors are
  -- those before and, in the order of the lines, the temperatures and powers that the lines give,
  -- the first ones as far as the array has room; and likewise the fans, whether or not the other
  -- array is full.
  pub tm_collect_ipmi-fill :
      (host : Host) (output : Bytes) (s : Snapshot D)
      → command_exists host (codes "ipmitool") ≡ true
      → host.popen (codes "ipmitool sdr elist all 2>/dev/null") ≡ some output
      → ((tm_collect_ipmi host s).board_sensors
          ≡ fill max_board_sensors s.board_sensors (boards_in (lines 512 output)))
        × ((tm_collect_ipmi host s).fan_sensors
            ≡ fill max_fans s.fan_sensors (fans_in (lines 512 output)))
  unfolding tm_collect_ipmi
  tm_collect_ipmi-fill host output s found opened =
      let read = collect_ipmi_lines s (lines 512 output) in
      let (boards, fans) = collect_ipmi_lines-Grows s (lines 512 output) in
      let (same_boards, same_fans) = sensors-mark_ipmi read in
      rw (found, opened, tm_collect_ipmi) (same_boards ∙ boards, same_fans ∙ fans)
