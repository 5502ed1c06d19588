-- ===== src/Monitor/Options.antt =====
-- src/thermal_main.c: the loop of `main` over the arguments.
pub mod Interval
use thermal_observatory.Base.{
  ◌≡◌, refl, Bool, true, false, ◌&&◌, ◌||◌, Option, none, some, List, [], ◌∷◌, if◌then◌else◌, Bytes,
  codes, equal, ◌>>=◌,
}
use thermal_observatory.Base.Int.{ℤ, pos, ltb_ℤ}
use thermal_observatory.Libc.Scan.{scan_long, to_int}

-- The local variables of `main` and the two flags of the context that the arguments set.
pub record Options : Type 0 where
  pub want_json : Bool
  pub want_experimental_kernel : Bool
  pub want_prometheus : Bool
  pub prometheus_textfile : Option Bytes
  pub watch : Bool
  pub interval : ℤ

abbrev pub default_options : Options
default_options = record {
  want_json = false;
  want_experimental_kernel = false;
  want_prometheus = false;
  prometheus_textfile = none;
  watch = false;
  interval = pos 1;
}

-- The branches of the chain of tests; `other` is the end of it.
pub data Choice : Type 0 where
  json prometheus textfile watching every experimental help other : Choice

-- The flag is `i + 1 < argc`.
unfoldable pub choose : Bool → Bytes → Choice
choose more arg =
    if equal arg (codes "--json")
    then json
    else if equal arg (codes "--prometheus")
    then prometheus
    else if equal arg (codes "--prometheus-textfile") && more
    then textfile
    else if equal arg (codes "--watch") || equal arg (codes "-w")
    then watching
    else if equal arg (codes "--interval") && more
    then every
    else if equal arg (codes "--experimental-kernel")
    then experimental
    else if equal arg (codes "--help") || equal arg (codes "-h")
    then help
    else other

-- `atoi(s)`
unfoldable pub atoi : Bytes → ℤ
atoi s = elim (scan_long s) [ none ↦ pos 0 | some n ↦ to_int n ]

-- `interval = atoi(s); if (interval < 1) interval = 1;`
unfoldable pub interval_of : Bytes → ℤ
interval_of s = if ltb_ℤ (atoi s) (pos 1) then pos 1 else atoi s

-- A branch that takes no value; `none` is the `return 0` behind the usage.
unfoldable pub set_flag : Choice → Options → Option Options
set_flag json o = some (record o { want_json = true })
set_flag prometheus o = some (record o { want_prometheus = true })
set_flag watching o = some (record o { watch = true })
set_flag experimental o = some (record o { want_experimental_kernel = true })
set_flag help o = none
set_flag textfile o = some o
set_flag every o = some o
set_flag other o = some o

-- A branch where a value follows: `after` is the loop behind the value, and `next` the loop that
-- begins with it.
unfoldable pub take_value :
    Choice
    → Bytes
    → (Options → Option Options)
    → (Options → Option Options)
    → Options
    → Option Options
take_value textfile value after next o = after (record o { prometheus_textfile = some value })
take_value every value after next o = after (record o { interval = interval_of value })
take_value json value after next o = set_flag json o >>= next
take_value prometheus value after next o = set_flag prometheus o >>= next
take_value watching value after next o = set_flag watching o >>= next
take_value experimental value after next o = set_flag experimental o >>= next
take_value help value after next o = set_flag help o >>= next
take_value other value after next o = set_flag other o >>= next

unfoldable pub read_arguments : List Bytes → Options → Option Options
read_arguments [] o = some o
read_arguments (arg ∷ []) o = set_flag (choose false arg) o
read_arguments (arg ∷ value ∷ rest) o =
    let after = read_arguments rest in
    let next = read_arguments (value ∷ rest) in take_value (choose true arg) value after next o

read_arguments_runs :
    (read_arguments (codes "--watch" ∷ codes "--interval" ∷ codes "5" ∷ []) default_options
      ≡ some (record default_options { watch = true; interval = pos 5 }))
    × (read_arguments (codes "--interval" ∷ codes "--watch" ∷ []) default_options
        ≡ some default_options)
    × (read_arguments (codes "--interval" ∷ []) default_options ≡ some default_options)
    × (read_arguments (codes "x" ∷ codes "-h" ∷ []) default_options ≡ none)
unfolding read_arguments choose take_value set_flag interval_of atoi equal scan_long to_int
read_arguments_runs = (refl, refl, refl, refl)
