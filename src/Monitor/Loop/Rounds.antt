-- ===== src/Monitor/Loop/Rounds.antt =====
-- How the `do … while` of `main` goes through its rounds, and when it ends.
use thermal_observatory.Base.{
  Bool, true, false, not, ◌&&◌, ◌||◌, ◌≡◌, refl, ap, ◌∙◌, Option, none, some, List, [], ◌∷◌, ◌++◌,
  if◌then◌else◌, Bytes, All, arith, append-nil,
}
use thermal_observatory.Base.Int.{pos}
use thermal_observatory.Double.{Double}
use thermal_observatory.Monitor.{tm_collect_snapshot}
use thermal_observatory.Monitor.Loop.{
  Round, Outcome, exits, runs_on, handle_signal, before, with_flags, rest_events, end_round,
  watch_loop, main,
}
use thermal_observatory.Monitor.Options.{Options, default_options, read_arguments}
use thermal_observatory.Monitor.Safe.{UsualPaths, WholeLibraries, tm_collect_snapshot-some}
use thermal_observatory.Monitor.Show.{Event, show, show_to, show_textfile}
use thermal_observatory.Platform.{Host}
use thermal_observatory.Platform.Sysfs.{Context, tm_context_init}
use thermal_observatory.Snapshot.{Snapshot}
use thermal_observatory.Writer.{Memory}

-- Whether a signal arrives in a round.
abbrev pub is_signalled : Round → Bool
is_signalled round = round.signal_before || round.signal_after

abbrev pub any_signal : List Round → Bool
any_signal [] = false
any_signal (round ∷ rounds) = is_signalled round || any_signal rounds

-- A round whose machine has paths of the usual form and whole libraries, and lets the file that was
-- asked for be written.
pub record IsGood (file : Option Bytes) (round : Round) : Type 0 where
  pub usual : UsualPaths round.host
  pub whole : WholeLibraries round.libraries
  pub opens : (path : Bytes) → file ≡ some path → round.writable path ≡ true

module _ {ℓ} {D : Type ℓ} ⦃d : Double D⦄ where
  show_to-goes_on :
      (file : Option Bytes) (o : Options) (writable : Bytes → Bool) (buf : Memory)
      → (snap : Snapshot D) → ((path : Bytes) → file ≡ some path → writable path ≡ true)
      → (show_to file o writable buf snap).1 ≡ true
  unfolding show_textfile
  show_to-goes_on none o writable buf snap opens = refl
  show_to-goes_on (some path) o writable buf snap opens = rw (opens path refl) refl

-- The way on from what a round shows.
end_round-goes_on :
    (o : Options) (round : Round) (keep : Bool) (next : Bool → List Event × Outcome)
    → (shown : List Event × Bool) → shown.1 ≡ true
    → end_round o round keep next shown
      ≡ before (shown.0 ++ rest_events o (handle_signal round.signal_before keep)) (
          if o.watch && handle_signal round.signal_after (handle_signal round.signal_before keep)
          then next (handle_signal round.signal_after (handle_signal round.signal_before keep))
          else ([], exits (pos 0)))
unfolding end_round
end_round-goes_on o round keep next (events, true) h = refl
end_round-goes_on o round keep next (events, false) h = cc

-- `keep_running` from the start of a round to its end: the signals of the round decide.
kept_running :
    (o : Options) (watch early late : Bool) (events : List Event)
    → (next : Bool → List Event × Outcome) (stop : List Event × Outcome)
    → before (events ++ rest_events o (handle_signal early true)) (
        if watch && handle_signal late (handle_signal early true)
        then next (handle_signal late (handle_signal early true))
        else stop)
      ≡ before
          (events ++ rest_events o (not early))
          (if watch && not (early || late) then next true else stop)
unfolding handle_signal
kept_running o watch true true events next stop = grind arith
kept_running o watch true false events next stop = grind arith
kept_running o watch false true events next stop = grind arith
kept_running o watch false false events next stop = refl

-- How a round and what follows it end.
ends_with :
    (watch signalled later : Bool) (events : List Event) (next : List Event × Outcome)
    → next.1 ≡ (if not watch || later then exits (pos 0) else runs_on)
    → (before events (if watch && not signalled then next else ([], exits (pos 0)))).1
      ≡ (if not watch || (signalled || later) then exits (pos 0) else runs_on)
ends_with true true later events next h = refl
ends_with true false later events next h = h
ends_with false true later events next h = refl
ends_with false false later events next h = refl

-- The round behind which no other is given.
last_round :
    (watch signalled : Bool) (events : List Event)
    → (before events (if watch && not signalled then ([], runs_on) else ([], exits (pos 0)))).1
      ≡ (if not watch || (signalled || false) then exits (pos 0) else runs_on)
last_round true true events = refl
last_round true false events = refl
last_round false true events = refl
last_round false false events = refl

over_with :
    (going : Bool) (events : List Event) (next : List Event × Outcome)
    → going ≡ false
    → before events (if going then next else ([], exits (pos 0))) ≡ (events, exits (pos 0))
over_with true events next h = cc
over_with false events next h = ap (λ es. (es, exits (pos 0))) (append-nil events)

module _ {ℓ} (D : Type ℓ) ⦃d : Double D⦄ (ctx : Context) (o : Options) where
  -- What a good round does: it shows its snapshot, sleeps if it is to go on, and goes on so long as
  -- no signal arrived.
  pub watch_loop-good :
      (round : Round) (rounds : List Round)
      → IsGood o.prometheus_textfile round
      → (snap : Snapshot D) × (tm_collect_snapshot round.host round.libraries ctx ≡ some snap)
        × (watch_loop D ctx o (round ∷ rounds) true
            ≡ before
                ((show o round.writable round.buf snap).0
                  ++ rest_events o (not round.signal_before))
                (if o.watch && not (is_signalled round)
                  then watch_loop D ctx o rounds true
                  else ([], exits (pos 0))))
  unfolding watch_loop show
  watch_loop-good round rounds good =
      let (snap, e) =
        tm_collect_snapshot-some round.host good.usual round.libraries ctx good.whole in
      (
        snap,
        e,
        rw e (
            end_round-goes_on o round true (watch_loop D ctx o rounds)
              (show o round.writable round.buf snap)
              (show_to-goes_on o.prometheus_textfile o round.writable round.buf snap good.opens)
            ∙ kept_running o o.watch round.signal_before round.signal_after
                (show o round.writable round.buf snap).0 (watch_loop D ctx o rounds)
                ([], exits (pos 0))),
      )

  watch_loop-ends :
      (round : Round) (rounds : List Round)
      → All (IsGood o.prometheus_textfile) (round ∷ rounds)
      → (watch_loop D ctx o (round ∷ rounds) true).1
        ≡ (if not o.watch || any_signal (round ∷ rounds) then exits (pos 0) else runs_on)
  unfolding watch_loop
  watch_loop-ends round [] (good, _) =
      let (snap, _, e) = watch_loop-good round [] good in
      ap (λ (r : List Event × Outcome). r.1) e ∙ last_round o.watch (is_signalled round) []
  watch_loop-ends round (later ∷ rounds) (good, goods) =
      let (snap, _, e) = watch_loop-good round (later ∷ rounds) good in
      ap (λ (r : List Event × Outcome). r.1) e
      ∙ ends_with o.watch (is_signalled round) (any_signal (later ∷ rounds)) []
          (watch_loop D ctx o (later ∷ rounds) true) (watch_loop-ends later rounds goods)

  -- Where the first round is good, and `--watch` was not given or a signal arrives in that round: the
  -- loop shows one snapshot and no other, does not reach the later rounds, and ends with status 0.
  pub watch_loop-once :
      (round : Round) (rounds : List Round)
      → IsGood o.prometheus_textfile round
      → o.watch && not (is_signalled round) ≡ false
      → (snap : Snapshot D) × (tm_collect_snapshot round.host round.libraries ctx ≡ some snap)
        × (watch_loop D ctx o (round ∷ rounds) true ≡ (
          (show o round.writable round.buf snap).0 ++ rest_events o (not round.signal_before),
          exits (pos 0),
        ))
  watch_loop-once round rounds good over =
      let (snap, collected, e) = watch_loop-good round rounds good in
      (snap, collected, e ∙ over_with (o.watch && not (is_signalled round)) _ _ over)

module _ {ℓ} (D : Type ℓ) ⦃d : Double D⦄ where
  -- Where the arguments are read without `--help`, the rounds are good, and there is at least one:
  -- `main` ends with status 0 if `--watch` was not given or a signal arrives in one of the rounds,
  -- and is still running after them if not. It never faults.
  pub main-ends :
      (host : Host) (program : Bytes) (arguments : List Bytes) (o : Options)
      → (round : Round) (rounds : List Round) → read_arguments arguments default_options ≡ some o
      → All (IsGood o.prometheus_textfile) (round ∷ rounds)
      → (main D host program arguments (round ∷ rounds)).1
        ≡ (if not o.watch || any_signal (round ∷ rounds) then exits (pos 0) else runs_on)
  unfolding main
  main-ends host program arguments o round rounds read goods =
      rw (read, main) (watch_loop-ends D (with_flags (tm_context_init host) o) o round rounds goods)
