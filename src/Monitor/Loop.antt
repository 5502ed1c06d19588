-- ===== src/Monitor/Loop.antt =====
-- src/thermal_main.c: `handle_signal` and the `do … while` of `main`.
pub mod Rounds
pub mod Complains
pub mod JsonRun
use thermal_observatory.Base.{
  Bool, true, false, ◌&&◌, Option, none, some, List, [], ◌∷◌, ◌++◌, if◌then◌else◌, Bytes, codes,
}
use thermal_observatory.Base.Int.{ℤ, pos}
use thermal_observatory.Double.{Double}
use thermal_observatory.Gpu.{Libraries}
use thermal_observatory.Monitor.{tm_collect_snapshot}
use thermal_observatory.Monitor.Options.{Options, default_options, read_arguments}
use thermal_observatory.Monitor.Show.{Event, prints, sleeps, show}
use thermal_observatory.Platform.{Host}
use thermal_observatory.Platform.Sysfs.{Context, tm_context_init}
use thermal_observatory.Snapshot.{Snapshot}
use thermal_observatory.Writer.{Memory}

-- The world of one round: the machine, the paths that `fopen(path, "w")` opens, what the buffer holds
-- before, and whether a signal arrives before the test in front of `sleep`, or after it.
pub record Round : Type 0 where
  pub host : Host
  pub libraries : Libraries
  pub writable : Bytes → Bool
  pub buf : Memory
  pub signal_before : Bool
  pub signal_after : Bool

-- How a run ends within the rounds that are given: with an exit status, by a fault, or not yet.
pub data Outcome : Type 0 where
  exits : ℤ → Outcome
  faults : Outcome
  runs_on : Outcome

-- `keep_running` after the time in which a signal may arrive
unfoldable pub handle_signal : Bool → Bool → Bool
handle_signal arrived keep_running = if arrived then false else keep_running

abbrev pub before : List Event → List Event × Outcome → List Event × Outcome
before events (later, outcome) = (events ++ later, outcome)

-- the flags that the arguments set in the context
abbrev pub with_flags : Context → Options → Context
with_flags ctx o = record ctx {
  want_json = o.want_json;
  want_experimental_kernel = o.want_experimental_kernel;
}

-- `if (watch && keep_running) sleep((unsigned int)interval);`
unfoldable pub rest_events : Options → Bool → List Event
rest_events o keep_running = if o.watch && keep_running then sleeps o.interval ∷ [] else []

-- What follows what is shown: `next` is the next round.
unfoldable pub end_round :
    Options
    → Round
    → Bool
    → (Bool → List Event × Outcome)
    → List Event × Bool
    → List Event × Outcome
end_round o round keep_running next (events, false) = (events, exits (pos 1))
end_round o round keep_running next (events, true) =
    let awake = handle_signal round.signal_before keep_running in
    let at_end = handle_signal round.signal_after awake in
    before (events ++ rest_events o awake)
      (if o.watch && at_end then next at_end else ([], exits (pos 0)))

module _ {ℓ} (D : Type ℓ) ⦃d : Double D⦄ (ctx : Context) (o : Options) where
  abbrev pub play_round :
      Round → Bool → (Bool → List Event × Outcome) → Option (Snapshot D) → List Event × Outcome
  play_round round keep_running next none = ([], faults)
  play_round round keep_running next (some snap) =
      end_round o round keep_running next (show o round.writable round.buf snap)

  -- `do { … } while (watch && keep_running);`
  unfoldable pub watch_loop : List Round → Bool → List Event × Outcome
  watch_loop [] keep_running = ([], runs_on)
  watch_loop (round ∷ rounds) keep_running =
      let next = watch_loop rounds in
      play_round round keep_running next (tm_collect_snapshot round.host round.libraries ctx)

unfoldable pub usage : Bytes → Bytes
usage program =
    codes "Usage: "
    ++ (program
        ++ codes
            " [--json] [--prometheus] [--prometheus-textfile PATH] [--watch] [--interval N] [--experimental-kernel]\n")

-- `main`: the machine at its start, the arguments, and the rounds that the loop may take.
unfoldable pub main {ℓ} :
    (D : Type ℓ) ⦃d : Double D⦄ → Host → Bytes → List Bytes → List Round → List Event × Outcome
main D host program arguments rounds = elim (read_arguments arguments default_options) [
  | none ↦ (prints (usage program) ∷ [], exits (pos 0))
  | some o ↦ watch_loop D (with_flags (tm_context_init host) o) o rounds true
]
