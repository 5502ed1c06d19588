-- ===== src/Tests/Machine.antt =====
-- A `Double` that counts thousandths, and a machine with the files of tests/fixtures/linux_x86_mock.
use thermal_observatory.Base.{
  ℕ, ◌+◌, ◌*◌, ◌/◌, ◌%◌, true, Option, none, some, List, [], ◌∷◌, ◌++◌, arith, ltb, if◌then◌else◌,
  Bytes, codes, equal,
}
use thermal_observatory.Base.Int.{ℤ, pos, pos_part, neg_part, sub_ℕ, ltb_ℤ}
use thermal_observatory.Cpu.X86.Peak.{IsOrdered}
use thermal_observatory.Double.{Double}
use thermal_observatory.Libc.Print.{decimal, zero_padded}
use thermal_observatory.Libc.Scan.{scan_long, skip_space}
use thermal_observatory.Platform.{Host}
use thermal_observatory.Snapshot.{Snapshot, Arch}

-- Thousandths, as an integer; `quotient` rounds towards zero.
abbrev pub Milli : Type 0
Milli = ℤ

abbrev thousandfold : ℤ → Milli
thousandfold n = sub_ℕ (1000 * pos_part n) (1000 * neg_part n)

abbrev quotient : Milli → Milli → Milli
quotient x y = sub_ℕ (1000 * pos_part x / pos_part y) (1000 * neg_part x / pos_part y)

abbrev sum : Milli → Milli → Milli
sum x y = sub_ℕ (pos_part x + pos_part y) (neg_part x + neg_part y)

-- Three digits behind the point, and zeros behind those.
abbrev fixed_text : ℕ → Milli → Bytes
fixed_text digits x =
    (if ltb 0 (neg_part x) then b'-' ∷ [] else [])
    ++ (decimal ((pos_part x + neg_part x) / 1000)
        ++ (b'.' ∷ zero_padded 3 (decimal ((pos_part x + neg_part x) % 1000)) ++ codes "000"))

abbrev after_digits : Bytes → Bytes
after_digits [] = []
after_digits (c ∷ s) = if ltb 47 c then (if ltb c 58 then after_digits s else c ∷ s) else c ∷ s

-- Whole numbers only.
abbrev read_number : Bytes → Option (Milli × Bytes)
read_number s = elim (scan_long s) [
  | none ↦ none
  | some n ↦ some (thousandfold n, after_digits (skip_space s))
]

instance abbrev pub milli_double : Double Milli
milli_double = record {
  of_int = thousandfold;
  div = quotient;
  add = sum;
  gt = λ x y. ltb_ℤ y x;
  fixed = fixed_text;
  strtod = read_number;
}

pub milli_IsOrdered : IsOrdered Milli
milli_IsOrdered = record {
  gt_irrefl = λ x. ground arith;
  le_trans = λ x y z h k. ground arith;
  gt_asymm = λ x y h. ground arith;
}

abbrev pub lookup {ℓ} : {A : Type ℓ} → List (Bytes × A) → Bytes → Option A
lookup [] key = none
lookup ((k, v) ∷ rest) key = let later = lookup rest key in if equal k key then some v else later

abbrev files : List (Bytes × Bytes)
files =
    (codes "/mock/sys/class/thermal/thermal_zone0/temp", codes "47000\n")
    ∷ (codes "/mock/sys/class/thermal/thermal_zone0/type", codes "x86_pkg_temp\n")
    ∷ (codes "/mock/sys/class/hwmon/hwmon0/name", codes "coretemp\n")
    ∷ (codes "/mock/sys/class/hwmon/hwmon0/temp1_input", codes "45500\n")
    ∷ (codes "/mock/sys/class/hwmon/hwmon0/temp1_label", codes "Package id 0\n")
    ∷ (codes "/mock/sys/devices/platform/coretemp.0/hwmon/hwmon0/temp2_label", codes "Core 0\n")
    ∷ (codes "/mock/sys/devices/platform/coretemp.0/hwmon/hwmon0/temp2_input", codes "44000\n")
    ∷ (codes "/mock/sys/devices/platform/coretemp.0/hwmon/hwmon0/temp2_crit", codes "100000\n")
    ∷ (codes "/mock/sys/devices/platform/coretemp.0/hwmon/hwmon0/temp2_max", codes "85000\n")
    ∷ (codes "/mock/sys/class/powercap/intel-rapl/intel-rapl_0/energy_uj", codes "123456789\n")
    ∷ (codes "/tmp/board.csv", codes "CPU0,temperature,55,celsius\nPSU1,power,120,watts\n")
    ∷ []

abbrev pub zone_paths : List Bytes
zone_paths = codes "/mock/sys/class/thermal/thermal_zone0/temp" ∷ []

abbrev pub hwmon_paths : List Bytes
hwmon_paths = codes "/mock/sys/class/hwmon/hwmon0/temp1_input" ∷ []

abbrev pub label_paths : List Bytes
label_paths = codes "/mock/sys/devices/platform/coretemp.0/hwmon/hwmon0/temp2_label" ∷ []

abbrev matches : List (Bytes × List Bytes)
matches =
    (codes "/mock/sys/class/thermal/thermal_zone*/temp", zone_paths)
    ∷ (codes "/mock/sys/class/hwmon/hwmon*/temp*_input", hwmon_paths)
    ∷ (codes "/mock/sys/devices/platform/coretemp.*/hwmon/hwmon*/temp*_label", label_paths)
    ∷ []

abbrev variables : List (Bytes × Bytes)
variables =
    (codes "TM_SYSROOT", codes "/mock") ∷ (codes "TM_REDFISH_SAMPLE", codes "/tmp/board.csv") ∷ []

abbrev pub machine : Host
machine = record {
  getenv = lookup variables;
  file = lookup files;
  glob = lookup matches;
  system = λ command. true;
  popen = λ command. some (codes "CPU Temp | 41 degrees C\nFAN1 | 5200 RPM\nJunk\n");
  machine = some (codes "x86_64");
  clock = record { sec = pos 1; nsec = pos 500 };
}

-- what memset leaves, on an x86 machine
abbrev pub blank : Snapshot Milli
blank = record {
  timestamp = record { sec = pos 1; nsec = pos 500 };
  arch = Arch.x86_64;
  capabilities = 0;
  cpu_packages = [];
  arm_clusters = [];
  nvidia_gpus = [];
  amd_gpus = [];
  hwmon_sensors = [];
  thermal_zones = [];
  board_sensors = [];
  fan_sensors = [];
  psu_sensors = [];
}
