-- ===== src/Main/Replays.antt =====
-- A capture of the wire, and the unit test on what it has captured.
use industrial_control.Prelude.{
  ◌<◌, ◌≡◌, ltb, refl, sym, ◌∙◌, ap, Bool, true, false, some, List, [], ◌∷◌, Bytes, length, All,
  map, arith,
}
use industrial_control.Prelude.Bits.{has, raise, lower}
use industrial_control.Outcome.{ok, ◌>>=◌}
use industrial_control.Parser.State.{Engine}
use industrial_control.Parser.Header.{parse_open}
use industrial_control.Capture.Dump.{capture_file, capture_reads-capture_file}
use industrial_control.Capture.Scan.{lines}
use industrial_control.Capture.Reader.{run_frames, replay}
use industrial_control.Capture.Replay.{IsSingle, replay-run_frames}
use industrial_control.Options.{
  opt_c, opt_d, opt_p, opt_s, opt_u, Settings, options, take_options, initial_settings, file_size,
  starts_with_digit,
}
use industrial_control.Main.{is_supported, runs_interactively, runs_unit_test, captures}
use industrial_control.Main.Run.{World, Run, finished, going, live, capture_wire, test_file, main}
use industrial_control.Main.Starts.{directories, missing, Gives, flags_on, set_up_lem, main_lem}

-- The flags at the start, and the settings behind the options of a capture and of a unit test.
abbrev capture_settings : Bytes → Settings
capture_settings file = record { flags = 0x20; capfile = file; testfile = [] }

abbrev test_settings : Bytes → Settings
test_settings file = record { flags = 0xc0; capfile = []; testfile = file }

take_capture :
    (file : Bytes)
    → length file < file_size
    → take_options (opt_s ∷ opt_c file ∷ []) initial_settings ≡ ok (options (capture_settings file))
unfolding take_options lower raise
take_capture file h = let fits : ltb (length file) file_size ≡ true = ground arith in rw fits refl

take_test :
    (file : Bytes)
    → length file < file_size
    → starts_with_digit file ≡ false
    → take_options (opt_d ∷ opt_p ∷ opt_s ∷ opt_u file ∷ []) initial_settings
      ≡ ok (options (test_settings file))
unfolding take_options lower raise
take_test file h letter =
    let fits : ltb (length file) file_size ≡ true = ground arith in rw (letter, fits) refl

test_file-captures :
    (world : World) (made : List Bytes) (on_target : Bool) (name : Bytes) (s : Engine)
    (frames : List Bytes)
    → world.capture_opens ≡ true
    → world.reads ≡ map some frames
    → test_file world made (flags_on on_target 0x20) name s
      ≡ ok (record (going made s) { captured = capture_file frames })
unfolding test_file capture_wire runs_unit_test captures has raise
test_file-captures world made true name s frames h e =
    simp (h, e, capture_reads-capture_file frames)
test_file-captures world made false name s frames h e =
    simp (h, e, capture_reads-capture_file frames)

test_file-replays :
    (world : World) (made : List Bytes) (on_target : Bool) (name text : Bytes) (s : Engine)
    → world.file name ≡ some text
    → test_file world made (flags_on on_target 0xc0) name s
      ≡ (replay world.clock world.env (lines text) s >>= λ t. ok (finished made t))
unfolding test_file capture_wire live runs_interactively runs_unit_test captures has raise
test_file-replays world made true name text s h = simp h
test_file-replays world made false name text s h = simp h

captured_of : {r t : Run} → ok r ≡ ok t → r.captured ≡ t.captured
captured_of h = cc

-- A capture, `printem -s -c` with a file, loops and writes what the port gives to the file.
pub main-captures :
    (world : World) (on_target : Bool) (file : Bytes) (frames : List Bytes)
    → world.arguments ≡ opt_s ∷ opt_c file ∷ []
    → length file < file_size
    → Gives world on_target
    → world.capture_opens ≡ true
    → world.reads ≡ map some frames
    → main world
      ≡ ok
          (record (going
            (missing world (directories on_target))
            (parse_open (flags_on on_target 0x20) 0 world.now world.readings)) {
              captured = capture_file frames;
            })
unfolding is_supported has
main-captures world on_target file frames a n g h e =
    main_lem world (capture_settings file)
      (ap (λ xs. take_options xs initial_settings) a ∙ take_capture file n)
    ∙ set_up_lem world on_target (capture_settings file) g refl
    ∙ test_file-captures world _ on_target _ _ frames h e

main-replays :
    (world : World) (on_target : Bool) (file text : Bytes)
    → world.arguments ≡ opt_d ∷ opt_p ∷ opt_s ∷ opt_u file ∷ []
    → length file < file_size
    → starts_with_digit file ≡ false
    → Gives world on_target
    → world.file file ≡ some text
    → main world ≡ (
        replay world.clock world.env
          (lines text)
          (parse_open (flags_on on_target 0xc0) 0 world.now world.readings)
        >>= λ t. ok (finished (missing world (directories on_target)) t))
unfolding is_supported has
main-replays world on_target file text a n letter g h =
    main_lem world (test_settings file)
      (ap (λ xs. take_options xs initial_settings) a ∙ take_test file n letter)
    ∙ set_up_lem world on_target (test_settings file) g refl
    ∙ test_file-replays world _ on_target _ text _ h

-- What `printem -s -c` captures, `printem -d -p -s -u` runs the engine on: with file names below 128
-- characters, the second not starting with a digit, and systems that give what `main` asks for, where
-- the reads of the first run succeed with datagrams that are frames of their own and the second finds in
-- its file what the first has written, the second is a run of the passive engine on these datagrams,
-- call by call, and ends with success if that makes no fault.
pub main-captures-replays :
    (world later : World) (on_target later_on_target : Bool) (file name : Bytes)
    (frames : List Bytes) (r : Run)
    → world.arguments ≡ opt_s ∷ opt_c file ∷ []
    → length file < file_size
    → Gives world on_target
    → world.capture_opens ≡ true
    → world.reads ≡ map some frames
    → main world ≡ ok r
    → All IsSingle frames
    → later.arguments ≡ opt_d ∷ opt_p ∷ opt_s ∷ opt_u name ∷ []
    → length name < file_size
    → starts_with_digit name ≡ false
    → Gives later later_on_target
    → later.file name ≡ some r.captured
    → main later ≡ (
        run_frames later.clock later.env 0 frames
          (parse_open (flags_on later_on_target 0xc0) 0 later.now later.readings)
        >>= λ t. ok (finished (missing later (directories later_on_target)) t))
main-captures-replays world later on_target later_on_target file name frames r a n g o e ran singles
      b m letter h found =
    let written : r.captured ≡ capture_file frames =
      captured_of (sym ran ∙ main-captures world on_target file frames a n g o e) in
    main-replays later later_on_target name (capture_file frames) b m letter h
      (found ∙ ap some written)
    ∙ rw
        (replay-run_frames later.clock later.env frames
          (parse_open (flags_on later_on_target 0xc0) 0 later.now later.readings) singles)
        refl
