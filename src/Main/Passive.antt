-- ===== src/Main/Passive.antt =====
-- The passive dump to stdout.
use industrial_control.Prelude.{ℕ, ◌≡◌, ◌∙◌, Bool, true, false, List, Bytes, arith}
use industrial_control.Prelude.Bits.{has-raise}
use industrial_control.Outcome.{ok}
use industrial_control.Parser.State.{Engine}
use industrial_control.Parser.Header.{parse_open}
use industrial_control.Options.{Settings, options, take_options, initial_settings}
use industrial_control.Main.{
  is_supported, runs_interactively, runs_unit_test, captures, dumps_passively,
}
use industrial_control.Main.Run.{World, finished, live, capture_wire, test_file, main}
use industrial_control.Main.Starts.{directories, missing, Gives, flags_on, set_up_lem, main_lem}

-- The flags of a passive dump choose none of the three blocks.
test_file-passive :
    (world : World) (made : List Bytes) (on_target : Bool) (o : ℕ) (name : Bytes) (s : Engine)
    → dumps_passively o ≡ true
    → test_file world made (flags_on on_target o) name s ≡ ok (finished made s)
unfolding test_file capture_wire live runs_interactively runs_unit_test captures dumps_passively
test_file-passive world made true o name s h =
    ground (arith, has-raise 6 4 o, has-raise 5 4 o, has-raise 0 4 o)
test_file-passive world made false o name s h = ground arith

-- Any options that ask for the passive dump to stdout, such as -d -p, where the system gives what
-- `main` asks for, make it open the port and the engine, close both, and end with success without
-- having read a byte.
pub main-passive :
    (world : World) (on_target : Bool) (t : Settings)
    → take_options world.arguments initial_settings ≡ ok (options t)
    → dumps_passively t.flags ≡ true
    → Gives world on_target
    → main world
      ≡ ok (
          finished
            (missing world (directories on_target))
            (parse_open (flags_on on_target t.flags) 0 world.now world.readings))
unfolding is_supported
main-passive world on_target t a h g =
    main_lem world t a
    ∙ set_up_lem world on_target t g (ground arith)
    ∙ test_file-passive world _ on_target t.flags t.testfile _ h
