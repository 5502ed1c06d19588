-- ===== src/Tests/Monitor.antt =====
-- The theorems on one snapshot, its plain text and the loop of `main`, at concrete machines.
use thermal_observatory.Base.{
  ◌≡◌, ◌+◌, ◌/◌, ◌%◌, ltb, refl, Bool, true, false, some, none, List, [], ◌∷◌, ◌++◌, Bytes, codes,
  if◌then◌else◌, arith, ℕ, equal,
}
use thermal_observatory.Base.Int.{pos, pos_part, neg_part}
use thermal_observatory.Libc.Print.Plain.{
  newlines, IsPlain, newlines-append, decimal-IsPlain, padded-IsPlain,
}
use thermal_observatory.Libc.Print.{decimal, zero_padded}
use thermal_observatory.Monitor.{tm_collect_snapshot}
use thermal_observatory.Monitor.Bounds.{WritesWithin, tm_collect_snapshot-IsBounded}
use thermal_observatory.Monitor.Loop.{Round, exits, rest_events, watch_loop, main}
use thermal_observatory.Monitor.Loop.Complains.{GoesOn, IsClosed, main-complains}
use thermal_observatory.Monitor.Loop.Rounds.{IsGood, watch_loop-once, main-ends}
use thermal_observatory.Monitor.Options.{
  Options, default_options, read_arguments, choose, take_value, set_flag, interval_of, atoi,
}
use thermal_observatory.Monitor.Options.Interval.{Waits, read_arguments-Waits}
use thermal_observatory.Monitor.Safe.{UsualPaths, WholeLibraries, tm_collect_snapshot-some}
use thermal_observatory.Monitor.Show.{complains, show}
use thermal_observatory.Monitor.Show.Announces.{announce, show-announce}
use thermal_observatory.Platform.Sysfs.{Context}
use thermal_observatory.Snapshot.{Snapshot, x86_64}
use thermal_observatory.Snapshot.Bounds.{IsBounded}
use thermal_observatory.Tests.Collectors.{glob_labels, glob_hwmons, cored}
use thermal_observatory.Tests.Gpu.{
  libraries, nvml_texts, nvml-IsComplete, rsmi_names, rsmi-IsWhole, no_names, with_nvidia,
}
use thermal_observatory.Tests.Machine.{Milli, milli_double, machine}
use thermal_observatory.Text.{tm_print_snapshot_text}
use thermal_observatory.Text.Counts.{IsOneLined, snapshot_lines, tm_print_snapshot_text-lines}
use thermal_observatory.Writer.{text_of, text_sink}
use thermal_observatory.Libc.Scan.{scan_long, to_int}

abbrev ctx : Context
ctx = record { arch = x86_64; want_json = true; want_experimental_kernel = false }

machine-UsualPaths : UsualPaths machine
machine-UsualPaths = record { inputs = glob_hwmons; labels = glob_labels; names = no_names }

libraries-WholeLibraries : WholeLibraries libraries
libraries-WholeLibraries = record { nvml_whole = nvml-IsComplete; rsmi_whole = rsmi-IsWhole }

libraries-WritesWithin : WritesWithin libraries
libraries-WritesWithin = record { nvml_texts = nvml_texts; rsmi_names = rsmi_names }

tm_collect_snapshot-some_example :
    (t : Snapshot Milli) × (tm_collect_snapshot machine libraries ctx ≡ some t)
tm_collect_snapshot-some_example =
    tm_collect_snapshot-some machine machine-UsualPaths libraries ctx libraries-WholeLibraries

collected : (t : Snapshot Milli) × (tm_collect_snapshot machine libraries ctx ≡ some t)
collected =
    tm_collect_snapshot-some machine machine-UsualPaths libraries ctx libraries-WholeLibraries

tm_collect_snapshot-IsBounded_example : IsBounded collected.0
tm_collect_snapshot-IsBounded_example =
    tm_collect_snapshot-IsBounded machine libraries ctx collected.0 libraries-WritesWithin
      collected.1

abbrev watching_options : Options
watching_options = record default_options { watch = true; want_json = true; interval = pos 5 }

abbrev arguments : List Bytes
arguments = codes "--json" ∷ codes "--watch" ∷ codes "--interval" ∷ codes "5" ∷ []

reads_arguments : read_arguments arguments default_options ≡ some watching_options
unfolding read_arguments choose take_value set_flag interval_of atoi equal scan_long to_int
reads_arguments = refl

read_arguments-Waits_example : Waits watching_options
read_arguments-Waits_example =
    read_arguments-Waits arguments default_options watching_options refl reads_arguments

show-announce_example :
    show watching_options (λ path. true) (λ address. 0) cored
    ≡ announce watching_options (λ path. true) cored
show-announce_example = show-announce watching_options (λ path. true) (λ address. 0) cored

abbrev quiet : Round
quiet = record {
  host = machine;
  libraries = libraries;
  writable = λ path. true;
  buf = λ address. 0;
  signal_before = false;
  signal_after = false;
}

abbrev interrupted : Round
interrupted = record quiet { signal_after = true }

round-IsGood : (signal_after : Bool) → IsGood none (record quiet { signal_after = signal_after })
round-IsGood signal_after = record {
  usual = machine-UsualPaths;
  whole = libraries-WholeLibraries;
  opens = λ path e. cc;
}

main-ends_example :
    (main Milli machine (codes "thermal") arguments (quiet ∷ interrupted ∷ [])).1 ≡ exits (pos 0)
main-ends_example =
    main-ends Milli machine (codes "thermal") arguments watching_options quiet (interrupted ∷ [])
      reads_arguments (round-IsGood false, (round-IsGood true, tt))

watch_loop-once_example :
    (snap : Snapshot Milli) × (tm_collect_snapshot machine libraries ctx ≡ some snap)
    × (watch_loop Milli ctx watching_options (interrupted ∷ quiet ∷ []) true ≡ (
      (show watching_options (λ path. true) (λ address. 0) snap).0
          ++ rest_events watching_options true,
      exits (pos 0),
    ))
watch_loop-once_example =
    watch_loop-once Milli ctx watching_options interrupted (quiet ∷ []) (round-IsGood true) refl

abbrev file_options : Options
file_options = record default_options {
  watch = true;
  prometheus_textfile = some (codes "/run/thermal.prom");
}

abbrev file_arguments : List Bytes
file_arguments = codes "--watch" ∷ codes "--prometheus-textfile" ∷ codes "/run/thermal.prom" ∷ []

reads_file_arguments : read_arguments file_arguments default_options ≡ some file_options
unfolding read_arguments choose take_value set_flag equal
reads_file_arguments = refl

quiet-GoesOn : GoesOn file_options quiet
quiet-GoesOn = record {
  good = record {
    usual = machine-UsualPaths;
    whole = libraries-WholeLibraries;
    opens = λ path e. refl;
  };
  watches = refl;
}

abbrev readonly : Round
readonly = record quiet { writable = λ path. false }

readonly-IsClosed : IsClosed (codes "/run/thermal.prom") readonly
readonly-IsClosed = record {
  usual = machine-UsualPaths;
  whole = libraries-WholeLibraries;
  closed = refl;
}

-- The file is written in the first round and cannot be opened in the second.
main-complains_example :
    main Milli machine (codes "thermal") file_arguments (quiet ∷ readonly ∷ quiet ∷ []) ≡ (
      (main Milli machine (codes "thermal") file_arguments (quiet ∷ [])).0 ++ complains ∷ [],
      exits (pos 1),
    )
main-complains_example =
    main-complains Milli machine (codes "thermal") file_arguments file_options
      (codes "/run/thermal.prom") (quiet ∷ []) readonly (quiet ∷ []) reads_file_arguments refl
      (quiet-GoesOn, tt) readonly-IsClosed

sign-IsPlain : (negative : Bool) → IsPlain (if negative then b'-' ∷ [] else [])
unfolding newlines
sign-IsPlain true = refl
sign-IsPlain false = refl

milli-IsPlain : (digits : ℕ) (x : Milli) → IsPlain (milli_double.fixed digits x)
unfolding newlines
milli-IsPlain digits x =
    let whole = decimal ((pos_part x + neg_part x) / 1000) in
    let behind = zero_padded 3 (decimal ((pos_part x + neg_part x) % 1000)) in
    omega (
      arith,
      newlines-append (if ltb 0 (neg_part x) then b'-' ∷ [] else [])
          (whole ++ (b'.' ∷ behind ++ codes "000")),
      sign-IsPlain (ltb 0 (neg_part x)),
      newlines-append whole (b'.' ∷ behind ++ codes "000"),
      decimal-IsPlain ((pos_part x + neg_part x) / 1000),
      newlines-append behind (codes "000"),
      padded-IsPlain 3 _ (decimal-IsPlain ((pos_part x + neg_part x) % 1000)),
    )

with_nvidia-IsOneLined : IsOneLined with_nvidia
unfolding newlines
with_nvidia-IsOneLined = record {
  clusters = tt;
  nvidia = ((refl, refl), tt);
  amd = tt;
  boards = tt;
  fans = tt;
  psus = tt;
}

tm_print_snapshot_text-lines_example :
    newlines (text_of (tm_print_snapshot_text with_nvidia)) ≡ snapshot_lines with_nvidia
tm_print_snapshot_text-lines_example =
    tm_print_snapshot_text-lines milli-IsPlain with_nvidia with_nvidia-IsOneLined
