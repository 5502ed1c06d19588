-- ===== src/Json/Readable.antt =====
-- The parts of the document of a snapshot are JSON, where its strings are texts and its readings
-- are numbers.
pub mod Gpu
use thermal_observatory.Base.{
  ℕ, Bool, Bool-cases, true, false, not, ◌&&◌, ◌≡◌, refl, inl, inr, List, [], ◌∷◌, Bytes, codes,
  All, everywhere, if◌then◌else◌,
}
use thermal_observatory.Base.Int.{ℤ}
use thermal_observatory.Double.{Double, of_unsigned}
use thermal_observatory.Json.{nvidia_source, amd_source}
use thermal_observatory.Json.Tree.{Json, bool, items}
use thermal_observatory.Json.Tree.Document.{
  metric, set_names, number, core_tree, package_tree, cluster_tree, board_tree, fan_tree, psu_tree,
  sensor_tree, nvidia_metrics_fields, nvidia_cuda_fields, nvidia_tree, amd_tree,
}
use thermal_observatory.Json.Tree.Numbers.{is_number}
use thermal_observatory.Json.Tree.Reader.{is_readable, are_readable, have_readable}
use thermal_observatory.Json.Tree.Strings.{is_text}
use thermal_observatory.Libc.Print.Numbers.{is_number-signed}
use thermal_observatory.Snapshot.{
  CpuCore, CpuPackage, ArmCluster, NvidiaGpu, AmdGpu, Sensor, BoardSensor, FanSensor, PsuSensor,
}
use thermal_observatory.Snapshot.Capability.{
  Capability, has, nvidia_nvml, nvidia_cuda, amd_rocm_smi, amdgpu_hwmon,
}

abbrev pub IsText : Bytes → Type 0
IsText s = is_text s ≡ true

pub items-readable {ℓ κ} :
    {A : Type ℓ} (f : A → Json) (Q : A → Type κ)
    → ((x : A) → Q x → is_readable (f x) ≡ true)
    → (xs : List A) → All Q xs
    → are_readable (items f xs) ≡ true
unfolding are_readable
items-readable f Q each [] h = refl
items-readable f Q each (x ∷ xs) (here, later) =
    rw (each x here, items-readable f Q each xs later) refl

pub set_names-readable :
    (caps : ℕ) (names : List (Capability × Bytes))
    → All (λ (n : Capability × Bytes). IsText n.1) names
    → are_readable (set_names caps names) ≡ true
unfolding are_readable is_readable
set_names-readable caps [] h = refl
set_names-readable caps ((bit, name) ∷ names) (here, later) =
    elim (Bool-cases (not (has caps bit))) [
      | inl unset ↦ rw unset (set_names-readable caps names later)
      | inr is_set ↦ rw is_set (rw (here, set_names-readable caps names later) refl)
    ]

pub nvidia_source-IsText : (caps : ℕ) → IsText (nvidia_source caps)
unfolding nvidia_source is_text
nvidia_source-IsText caps =
    elim (has caps nvidia_nvml)
      as (λ a. IsText (
        if a && has caps nvidia_cuda
        then codes "nvml+cuda"
        else if a
        then codes "nvml"
        else if has caps nvidia_cuda
        then codes "cuda"
        else codes "unknown")) [
          | true ↦
              elim (has caps nvidia_cuda)
                as (λ b. IsText (if b then codes "nvml+cuda" else codes "nvml")) [
                  | true ↦ refl
                  | false ↦ refl
                ]
          | false ↦
              elim (has caps nvidia_cuda)
                as (λ b. IsText (if b then codes "cuda" else codes "unknown")) [
                  | true ↦ refl
                  | false ↦ refl
                ]
        ]

pub amd_source-IsText : (caps : ℕ) → IsText (amd_source caps)
unfolding amd_source is_text
amd_source-IsText caps =
    elim (has caps amd_rocm_smi)
      as (λ a. IsText (
        if a
        then codes "rocm_smi"
        else if has caps amdgpu_hwmon
        then codes "amdgpu_hwmon"
        else codes "unknown")) [
          | true ↦ refl
          | false ↦
              elim (has caps amdgpu_hwmon)
                as (λ b. IsText (if b then codes "amdgpu_hwmon" else codes "unknown")) [
                  | true ↦ refl
                  | false ↦ refl
                ]
        ]

pub metric-readable :
    (value : Json) (unit source : Bytes) (ts_ns : ℤ)
    → is_readable value ≡ true
    → IsText unit
    → IsText source
    → is_readable (metric value unit source ts_ns) ≡ true
unfolding metric is_readable have_readable is_text
metric-readable value unit source ts_ns v u s = simp (v, u, s, is_number-signed ts_ns) refl

flag-readable :
    (b : Bool) (unit source : Bytes) (ts_ns : ℤ)
    → IsText unit
    → IsText source
    → is_readable (metric (bool b) unit source ts_ns) ≡ true
unfolding is_readable
flag-readable b unit source ts_ns u s = metric-readable (bool b) unit source ts_ns refl u s

module _ {ℓ} {D : Type ℓ} ⦃d : Double D⦄
    (numeric : (digits : ℕ) (x : D) → is_number (d.fixed digits x) ≡ true) (ts_ns : ℤ) where
  number-readable :
      (value : D) (unit source : Bytes)
      → IsText unit
      → IsText source
      → is_readable (number ts_ns value unit source) ≡ true
  unfolding is_readable
  number-readable value unit source u s = metric-readable _ unit source ts_ns (numeric 6 value) u s

  core_tree-readable : (core : CpuCore D) → is_readable (core_tree ts_ns core) ≡ true
  unfolding core_tree is_readable have_readable is_text
  core_tree-readable core =
      simp
        (
          is_number-signed core.core_id,
          number-readable core.temp_c (codes "celsius") (codes "coretemp") refl refl,
          number-readable core.crit_c (codes "celsius") (codes "coretemp") refl refl,
          number-readable core.max_c (codes "celsius") (codes "coretemp") refl refl,
          flag-readable core.throttling (codes "bool") (codes "coretemp") ts_ns refl refl,
        )
        refl

  pub package_tree-readable : (pkg : CpuPackage D) → is_readable (package_tree ts_ns pkg) ≡ true
  unfolding package_tree is_readable have_readable is_text
  package_tree-readable pkg =
      simp
        (
          is_number-signed pkg.package_id,
          number-readable pkg.package_temp_c (codes "celsius") (codes "coretemp") refl refl,
          number-readable pkg.tjmax_c (codes "celsius") (codes "coretemp") refl refl,
          number-readable pkg.rapl_energy_uj (codes "microjoules") (codes "powercap") refl refl,
          number-readable pkg.power_limit_1_w (codes "watts") (codes "powercap") refl refl,
          number-readable pkg.power_limit_2_w (codes "watts") (codes "powercap") refl refl,
          items-readable (core_tree ts_ns) (λ _. Unit {0}) (λ core _. core_tree-readable core)
              pkg.cores (everywhere _ pkg.cores (λ _. tt)),
        )
        refl

  pub cluster_tree-readable :
      (cluster : ArmCluster D)
      → IsText cluster.zone_name × IsText cluster.zone_type
      → is_readable (cluster_tree ts_ns cluster) ≡ true
  unfolding cluster_tree is_readable have_readable is_text
  cluster_tree-readable cluster (n, t) =
      simp
        (
          is_number-signed cluster.cluster_id,
          n,
          t,
          number-readable cluster.temp_c (codes "celsius") (codes "thermal_zone") refl refl,
          number-readable cluster.cur_freq_mhz (codes "mhz") (codes "cpufreq") refl refl,
          flag-readable cluster.throttling (codes "bool") (codes "thermal_zone") ts_ns refl refl,
        )
        refl

  pub board_tree-readable :
      (s : BoardSensor D)
      → IsText s.name × IsText s.sensor_type × IsText s.unit × IsText s.source
      → is_readable (board_tree ts_ns s) ≡ true
  unfolding board_tree is_readable have_readable is_text
  board_tree-readable s (n, t, u, src) =
      simp (n, t, number-readable s.value s.unit s.source u src) refl

  pub fan_tree-readable :
      (fan : FanSensor D)
      → IsText fan.name × IsText fan.source
      → is_readable (fan_tree ts_ns fan) ≡ true
  unfolding fan_tree is_readable have_readable is_text
  fan_tree-readable fan (n, src) =
      simp
        (
          n,
          number-readable fan.rpm (codes "rpm") fan.source refl src,
          number-readable fan.pwm_pct (codes "percent") fan.source refl src,
        )
        refl

  pub psu_tree-readable :
      (psu : PsuSensor D)
      → IsText psu.name × IsText psu.source
      → is_readable (psu_tree ts_ns psu) ≡ true
  unfolding psu_tree is_readable have_readable is_text
  psu_tree-readable psu (n, src) =
      simp
        (
          n,
          number-readable psu.inlet_temp_c (codes "celsius") psu.source refl src,
          number-readable psu.exhaust_temp_c (codes "celsius") psu.source refl src,
          number-readable psu.power_w (codes "watts") psu.source refl src,
          flag-readable psu.present (codes "bool") psu.source ts_ns refl src,
        )
        refl

  pub sensor_tree-readable :
      (src : Bytes)
      → IsText src
      → (s : Sensor D) → IsText s.name × IsText s.label × IsText s.unit
      → is_readable (sensor_tree ts_ns src s) ≡ true
  unfolding sensor_tree is_readable have_readable is_text
  sensor_tree-readable src h s (n, l, u) = simp (n, l, number-readable s.value s.unit src u h) refl
