-- ===== src/Tests/Format.antt =====
-- The formatter's theorems at concrete snapshots and strings.
use thermal_observatory.Base.{◌≡◌, some, none, [], ◌∷◌, ◌++◌, if◌then◌else◌, codes}
use thermal_observatory.Json.{append_json_string}
use thermal_observatory.Json.Document.{tm_snapshot_to_json}
use thermal_observatory.Json.Renders.{snapshot_text, tm_snapshot_to_json-Renders}
use thermal_observatory.Json.Strings.{append_json_string-read_string}
use thermal_observatory.Json.Tree.Strings.{is_text, read_string}
use thermal_observatory.Prometheus.Document.{tm_snapshot_to_prometheus}
use thermal_observatory.Prometheus.Renders.{tm_snapshot_to_prometheus-Renders}
use thermal_observatory.Prometheus.Samples.{prometheus_text}
use thermal_observatory.Tests.Machine.{milli_double}
use thermal_observatory.Tests.Collectors.{cored}
use thermal_observatory.Writer.{text_sink, text_of}
use thermal_observatory.Writer.Renders.{Renders}

tm_snapshot_to_json-Renders_example :
    Renders (snapshot_text cored) (λ j. 0) 4096 (tm_snapshot_to_json cored (λ j. 0) 4096)
tm_snapshot_to_json-Renders_example = tm_snapshot_to_json-Renders cored (λ j. 0) 4096

append_json_string-read_string_example :
    read_string (text_of (append_json_string (codes "GPU \"0\"\n")) ++ codes "}")
    ≡ (if is_text (codes "GPU \"0\"\n") then some (codes "GPU \"0\"\n", codes "}") else none)
append_json_string-read_string_example =
    append_json_string-read_string (codes "GPU \"0\"\n") (codes "}")

-- A bell in a name makes the string that the program writes no JSON string.
bell : read_string (text_of (append_json_string (7 ∷ [])) ++ codes "}") ≡ none
unfolding is_text
bell = append_json_string-read_string (7 ∷ []) (codes "}")

tm_snapshot_to_prometheus-Renders_example :
    Renders (prometheus_text cored) (λ j. 0) 4096 (tm_snapshot_to_prometheus cored (λ j. 0) 4096)
tm_snapshot_to_prometheus-Renders_example = tm_snapshot_to_prometheus-Renders cored (λ j. 0) 4096
