-- ===== src/Monitor/Loop/Complains.antt =====
-- How the `do … while` of `main` ends where the file of `--prometheus-textfile` cannot be opened.
use thermal_observatory.Base.{
  Bool, true, false, not, ◌&&◌, ◌≡◌, refl, sym, ap, ◌∙◌, some, some-injective, List, [], ◌∷◌, ◌++◌,
  if◌then◌else◌, Bytes, All, append_assoc,
}
use thermal_observatory.Base.Int.{pos}
use thermal_observatory.Double.{Double}
use thermal_observatory.Monitor.{tm_collect_snapshot}
use thermal_observatory.Monitor.Loop.{
  Round, Outcome, exits, before, with_flags, rest_events, end_round, watch_loop, main,
}
use thermal_observatory.Monitor.Loop.Rounds.{IsGood, is_signalled, watch_loop-good}
use thermal_observatory.Monitor.Options.{Options, default_options, read_arguments}
use thermal_observatory.Monitor.Safe.{UsualPaths, WholeLibraries, tm_collect_snapshot-some}
use thermal_observatory.Monitor.Show.{Event, complains, show, show_to, show_textfile}
use thermal_observatory.Platform.{Host}
use thermal_observatory.Platform.Sysfs.{Context, tm_context_init}
use thermal_observatory.Snapshot.{Snapshot}
use thermal_observatory.Writer.{Memory}

-- A good round behind which `main` goes on: it watches, and no signal arrives.
pub record GoesOn (o : Options) (round : Round) : Type 0 where
  pub good : IsGood o.prometheus_textfile round
  pub watches : o.watch && not (is_signalled round) ≡ true

-- A round in which nothing faults, but the file cannot be opened.
pub record IsClosed (path : Bytes) (round : Round) : Type 0 where
  pub usual : UsualPaths round.host
  pub whole : WholeLibraries round.libraries
  pub closed : round.writable path ≡ false

module _ {ℓ} {D : Type ℓ} ⦃d : Double D⦄ where
  show-closed :
      (o : Options) (writable : Bytes → Bool) (buf : Memory) (snap : Snapshot D) (path : Bytes)
      → o.prometheus_textfile ≡ some path
      → writable path ≡ false
      → show o writable buf snap ≡ (complains ∷ [], false)
  unfolding show show_textfile
  show-closed o writable buf snap path file closed =
      ap (λ f. show_to f o writable buf snap) file ∙ rw closed refl

going_on :
    (going : Bool) (events : List Event) (next : List Event × Outcome)
    → going ≡ true
    → before events (if going then next else ([], exits (pos 0))) ≡ before events next
going_on true events next h = refl
going_on false events next h = cc

before-before :
    (events more last : List Event) (outcome : Outcome)
    → before events (more ++ last, outcome) ≡ ((events ++ more) ++ last, outcome)
before-before events more last outcome =
    ap (λ es. (es, outcome)) (sym (append_assoc events more last))

module _ {ℓ} (D : Type ℓ) ⦃d : Double D⦄ (ctx : Context) (o : Options) (path : Bytes) where
  watch_loop-closed :
      (round : Round) (rounds : List Round)
      → o.prometheus_textfile ≡ some path
      → IsClosed path round
      → watch_loop D ctx o (round ∷ rounds) true ≡ (complains ∷ [], exits (pos 1))
  unfolding watch_loop end_round
  watch_loop-closed round rounds file c =
      let (snap, collected) =
        tm_collect_snapshot-some {D = D} round.host c.usual round.libraries ctx c.whole in
      rw collected (
        ap (end_round o round true (watch_loop D ctx o rounds))
          (show-closed o round.writable round.buf snap path file c.closed))

  -- What a round shows of its snapshot, and the sleep behind it.
  abbrev shown : Round → Snapshot D → List Event
  shown round snap =
      (show o round.writable round.buf snap).0 ++ rest_events o (not round.signal_before)

  watch_loop-GoesOn :
      (round : Round) (rounds : List Round)
      → GoesOn o round
      → (snap : Snapshot D) × (tm_collect_snapshot round.host round.libraries ctx ≡ some snap)
        × (watch_loop D ctx o (round ∷ rounds) true
            ≡ before (shown round snap) (watch_loop D ctx o rounds true))
  watch_loop-GoesOn round rounds going =
      let (snap, collected, e) = watch_loop-good D ctx o round rounds going.good in
      (snap, collected, e ∙ going_on _ (shown round snap) _ going.watches)

  watch_loop-complains :
      (earlier : List Round) (round : Round) (later : List Round)
      → o.prometheus_textfile ≡ some path
      → All (GoesOn o) earlier
      → IsClosed path round
      → watch_loop D ctx o (earlier ++ round ∷ later) true
        ≡ ((watch_loop D ctx o earlier true).0 ++ complains ∷ [], exits (pos 1))
  unfolding watch_loop
  watch_loop-complains [] round later file going c = watch_loop-closed round later file c
  watch_loop-complains (first ∷ earlier) round later file (here, going) c =
      let (snap, collected, e) = watch_loop-GoesOn first (earlier ++ round ∷ later) here in
      let (snap', collected', e') = watch_loop-GoesOn first earlier here in
      let alone = watch_loop D ctx o earlier true in
      e
      ∙ ap (before (shown first snap)) (watch_loop-complains earlier round later file going c)
      ∙ before-before (shown first snap) alone.0 (complains ∷ []) (exits (pos 1))
      ∙ ap (λ (s : Snapshot D). ((shown first s ++ alone.0) ++ complains ∷ [], exits (pos 1)))
          (some-injective _ _ (sym collected ∙ collected'))
      ∙ ap (λ (r : List Event × Outcome). (r.0 ++ complains ∷ [], exits (pos 1))) (sym e')

module _ {ℓ} (D : Type ℓ) ⦃d : Double D⦄ where
  -- Where the arguments are read without `--help` and name a file: if, behind any number of good
  -- rounds that go on, the file cannot be opened in some round, `main` does there what it would do
  -- with the rounds before alone, complains, and ends with status 1; no later round is reached.
  pub main-complains :
      (host : Host) (program : Bytes) (arguments : List Bytes) (o : Options) (path : Bytes)
      → (earlier : List Round) (round : Round) (later : List Round)
      → read_arguments arguments default_options ≡ some o
      → o.prometheus_textfile ≡ some path
      → All (GoesOn o) earlier
      → IsClosed path round
      → main D host program arguments (earlier ++ round ∷ later)
        ≡ ((main D host program arguments earlier).0 ++ complains ∷ [], exits (pos 1))
  unfolding main
  main-complains host program arguments o path earlier round later read file going c =
      rw (read, main)
        (watch_loop-complains D (with_flags (tm_context_init host) o) o path earlier round later
          file going c)
