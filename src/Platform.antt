-- ===== src/Platform.antt =====
-- src/platform: what the collectors ask of the machine, and the helpers on paths and files. The
-- host is a parameter of the model: its answers do not change during one collection.
pub mod Paths
pub mod Bounds
pub mod Sysfs
pub mod Ipmi
pub mod Redfish
use thermal_observatory.Base.{ℕ, Bool, Option, none, some, List, Bytes, ◌>>=◌}
use thermal_observatory.Base.Int.{ℤ}
use thermal_observatory.Libc.Scan.{scan_long, fgets, cut_line}
use thermal_observatory.Snapshot.{Timespec}

pub record Host : Type 0 where
  pub getenv : Bytes → Option Bytes
  -- the contents of a file that `fopen(path, "r")` opens
  pub file : Bytes → Option Bytes
  -- the paths of a `glob` that returns 0
  pub glob : Bytes → Option (List Bytes)
  -- `system(command) == 0`
  pub system : Bytes → Bool
  -- the output of a command that `popen` starts
  pub popen : Bytes → Option Bytes
  -- `uts.machine` of a `uname` that returns 0
  pub machine : Option Bytes
  pub clock : Timespec

module _ (host : Host) where
  -- `read_long(path, &value)`; `none` is a negative result, which leaves the variable as it was.
  unfoldable pub read_long : Bytes → Option ℤ
  read_long path = do contents ← host.file path; scan_long contents

  -- `read_string(path, buf, len)`; `none` is a negative result, which leaves the buffer as it was.
  unfoldable pub read_string : Bytes → ℕ → Option Bytes
  read_string path len = do
    contents ← host.file path
    line ← fgets len contents
    some (cut_line line)
