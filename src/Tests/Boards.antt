-- ===== src/Tests/Boards.antt =====
-- The theorems on board sensors and fans at the machine of Tests/Machine.antt.
use thermal_observatory.Base.{
  map, ◌<◌, true, ◌≡◌, refl, List, [], ◌∷◌, arith, Bytes, codes, All, length,
}
use thermal_observatory.Snapshot.{max_board_sensors, max_fans}
use thermal_observatory.Platform.Ipmi.{command_exists, tm_collect_ipmi}
use thermal_observatory.Platform.Ipmi.Rows.{boards_in, fans_in, tm_collect_ipmi-fill}
use thermal_observatory.Platform.Redfish.Csv.{all_inner, IsField, IsRow}
use thermal_observatory.Platform.Redfish.Rows.{row_sensor, tm_collect_redfish-csv}
use thermal_observatory.Base.Collect.{fill}
use thermal_observatory.Libc.Lines.{lines}
use thermal_observatory.Platform.Redfish.{Row, tm_collect_redfish}
use thermal_observatory.Tests.Machine.{milli_double, machine, blank}
use thermal_observatory.Tests.Collectors.{sample_path, sample_contents}

abbrev sample_rows : List Row
sample_rows =
    record {
      name_field = codes "CPU0";
      type_field = codes "temperature";
      value_field = codes "55";
      unit_field = codes "celsius";
    }
    ∷ record {
      name_field = codes "PSU1";
      type_field = codes "power";
      value_field = codes "120";
      unit_field = codes "watts";
    }
    ∷ []

abbrev ascii : (s : Bytes) → 0 < length s → all_inner s ≡ true → IsField s
ascii s filled inner = record { filled = filled; inner = inner }

sample_rows-IsRow : All IsRow sample_rows
sample_rows-IsRow = (
  record {
    name_is_field = ascii (codes "CPU0") (omega arith) refl;
    type_is_field = ascii (codes "temperature") (omega arith) refl;
    value_is_field = ascii (codes "55") (omega arith) refl;
    unit_is_field = ascii (codes "celsius") (omega arith) refl;
    fits_line = omega arith;
  },
  (
    record {
      name_is_field = ascii (codes "PSU1") (omega arith) refl;
      type_is_field = ascii (codes "power") (omega arith) refl;
      value_is_field = ascii (codes "120") (omega arith) refl;
      unit_is_field = ascii (codes "watts") (omega arith) refl;
      fits_line = omega arith;
    },
    tt,
  ),
)

tm_collect_redfish-csv_example :
    (tm_collect_redfish machine blank).board_sensors
    ≡ fill max_board_sensors [] (map row_sensor sample_rows)
tm_collect_redfish-csv_example =
    tm_collect_redfish-csv machine (codes "/tmp/board.csv") sample_rows blank sample_path
      sample_contents sample_rows-IsRow

-- What `ipmitool` prints on the machine.
abbrev sdr_text : Bytes
sdr_text = codes "CPU Temp | 41 degrees C\nFAN1 | 5200 RPM\nJunk\n"

ipmitool_found : command_exists machine (codes "ipmitool") ≡ true
unfolding command_exists
ipmitool_found = refl

tm_collect_ipmi-fill_example :
    ((tm_collect_ipmi machine blank).board_sensors
      ≡ fill max_board_sensors [] (boards_in (lines 512 sdr_text)))
    × ((tm_collect_ipmi machine blank).fan_sensors
        ≡ fill max_fans [] (fans_in (lines 512 sdr_text)))
tm_collect_ipmi-fill_example = tm_collect_ipmi-fill machine sdr_text blank ipmitool_found refl
