-- ===== src/Json/Sensors.antt =====
-- The loops over sensors, fans and power supplies in `tm_snapshot_to_json`.
use thermal_observatory.Base.{Bytes, codes}
use thermal_observatory.Base.Int.{ℤ}
use thermal_observatory.Double.{Double}
use thermal_observatory.Json.{lit, append_json_string, append_metric_number, append_metric_bool}
use thermal_observatory.Snapshot.{Sensor, BoardSensor, FanSensor, PsuSensor}
use thermal_observatory.Writer.{Action, Sink, ◌>>◌}

module _ {ℓ} {W : Type 0} ⦃sink : Sink W⦄ {D : Type ℓ} ⦃d : Double D⦄ (ts_ns : ℤ) where
  -- The bodies for `hwmon_sensors` and `thermal_zones` differ in the source alone.
  unfoldable pub json_sensor : Bytes → Sensor D → Action W
  json_sensor source sensor =
      lit "{\"name\":"
      >> append_json_string sensor.name
      >> lit ",\"label\":"
      >> append_json_string sensor.label
      >> lit ",\"metric\":"
      >> append_metric_number sensor.value sensor.unit source ts_ns
      >> lit "}"

  unfoldable pub json_board_sensor : BoardSensor D → Action W
  json_board_sensor sensor =
      lit "{\"name\":"
      >> append_json_string sensor.name
      >> lit ",\"sensor_type\":"
      >> append_json_string sensor.sensor_type
      >> lit ",\"metric\":"
      >> append_metric_number sensor.value sensor.unit sensor.source ts_ns
      >> lit "}"

  unfoldable pub json_fan : FanSensor D → Action W
  json_fan fan =
      lit "{\"name\":"
      >> append_json_string fan.name
      >> lit ",\"metrics\":{\"rpm\":"
      >> append_metric_number fan.rpm (codes "rpm") fan.source ts_ns
      >> lit ",\"pwm_pct\":"
      >> append_metric_number fan.pwm_pct (codes "percent") fan.source ts_ns
      >> lit "}}"

  unfoldable pub json_psu : PsuSensor D → Action W
  json_psu psu =
      lit "{\"name\":"
      >> append_json_string psu.name
      >> lit ",\"metrics\":{\"inlet_temp_c\":"
      >> append_metric_number psu.inlet_temp_c (codes "celsius") psu.source ts_ns
      >> lit ",\"exhaust_temp_c\":"
      >> append_metric_number psu.exhaust_temp_c (codes "celsius") psu.source ts_ns
      >> lit ",\"power_w\":"
      >> append_metric_number psu.power_w (codes "watts") psu.source ts_ns
      >> lit ",\"present\":"
      >> append_metric_bool psu.present psu.source ts_ns
      >> lit "}}"
