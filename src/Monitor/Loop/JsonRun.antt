-- ===== src/Monitor/Loop/JsonRun.antt =====
-- A run of the program with `--json`, from the arguments to the text on standard output.
use thermal_observatory.Base.{
  ℕ, ◌<◌, true, ◌≡◌, refl, ap, ◌∙◌, lt→ltb, some, List, [], ◌∷◌, ◌++◌, Bytes, codes, length,
}
use thermal_observatory.Base.Int.{pos}
use thermal_observatory.Double.{Double}
use thermal_observatory.Json.Renders.{snapshot_text}
use thermal_observatory.Json.Tree.Document.{document_tree}
use thermal_observatory.Json.Tree.Nul.{take_until-print}
use thermal_observatory.Json.Tree.Numbers.{is_number}
use thermal_observatory.Json.Tree.Reader.{read_json}
use thermal_observatory.Json.Tree.RoundTrip.Whole.{read_json-print}
use thermal_observatory.Json.Valid.{HasTexts, document_tree-readable}
use thermal_observatory.Libc.Scan.{take_until}
use thermal_observatory.Monitor.{tm_collect_snapshot}
use thermal_observatory.Monitor.Loop.{
  Round, exits, with_flags, rest_events, end_round, watch_loop, main,
}
use thermal_observatory.Monitor.Options.{Options, default_options, read_arguments}
use thermal_observatory.Monitor.Show.{prints, put_line, buffer_size, show}
use thermal_observatory.Monitor.Show.Announces.{fitting, show-announce}
use thermal_observatory.Platform.{Host}
use thermal_observatory.Platform.Sysfs.{tm_context_init}
use thermal_observatory.Snapshot.{Snapshot}

-- What `--json` alone asks for.
abbrev pub json_options : Options
json_options = record default_options { want_json = true }

module _ {ℓ} {D : Type ℓ} ⦃d : Double D⦄
    (numeric : (digits : ℕ) (x : D) → is_number (d.fixed digits x) ≡ true) where
  fitting-snapshot_text :
      (snap : Snapshot D)
      → HasTexts snap
      → length (snapshot_text snap) < buffer_size
      → fitting (snapshot_text snap) ≡ some (snapshot_text snap)
  unfolding take_until
  fitting-snapshot_text snap h lt =
      rw (lt→ltb _ _ lt)
        (ap some (take_until-print (document_tree snap) (document_tree-readable numeric snap h) []))

  shows_json :
      (round : Round) (snap : Snapshot D)
      → HasTexts snap
      → length (snapshot_text snap) < buffer_size
      → show json_options round.writable round.buf snap
        ≡ (prints (snapshot_text snap ++ codes "\n") ∷ [], true)
  shows_json round snap h lt =
      show-announce json_options round.writable round.buf snap
      ∙ ap (λ text. (put_line text, true)) (fitting-snapshot_text snap h lt)

  -- Where "%.nf" writes a JSON number for every value; the arguments ask for `--json` and nothing
  -- else; the collection has a result whose texts have no control character but newline, carriage
  -- return and tab; and its JSON text is shorter than 65536 bytes: `main` prints one text and a
  -- newline, ends with status 0, and a strict JSON reader reads the text as the value that the
  -- snapshot stands for.
  pub main-read_json :
      (host : Host) (program : Bytes) (arguments : List Bytes) (round : Round) (rounds : List Round)
      → (snap : Snapshot D) → read_arguments arguments default_options ≡ some json_options
      → tm_collect_snapshot round.host round.libraries
          (with_flags (tm_context_init host) json_options)
        ≡ some snap
      → HasTexts snap
      → length (snapshot_text snap) < buffer_size
      → (text : Bytes) × (main D host program arguments (round ∷ rounds)
          ≡ (prints (text ++ codes "\n") ∷ [], exits (pos 0)))
        × (read_json text ≡ some (document_tree snap))
  unfolding main watch_loop rest_events
  main-read_json host program arguments round rounds snap read collected h lt = (
    snapshot_text snap,
    rw (read, main)
        (rw collected (
          ap
            (end_round json_options round true
              (watch_loop D (with_flags (tm_context_init host) json_options) json_options rounds))
            (shows_json round snap h lt)
          ∙ unfold end_round in refl)),
    read_json-print (document_tree snap) (document_tree-readable numeric snap h),
  )
