-- ===== src/Main/Run.antt =====
-- The whole run of `main` of Printer-Emulator/main.c.
use industrial_control.Prelude.{
  ℕ, Bool, true, false, not, ◌&&◌, ◌||◌, Option, none, some, List, [], ◌∷◌, ◌++◌, ◌==◌,
  if◌then◌else◌, Bytes, codes,
}
use industrial_control.Prelude.Bits.{raise}
use industrial_control.Flags.{target, desktop_disk_dir, target_disk_dir, target_ram_dir}
use industrial_control.Outcome.{Outcome, ok, ◌>>=◌}
use industrial_control.Parser.State.{Engine, Event, Env}
use industrial_control.Parser.Header.{parse_open, parse_close}
use industrial_control.Serial.{Port, serial_port_open}
use industrial_control.Options.{
  Opt, Settings, Parsed, options, exit_success, exit_failure, take_options, initial_settings,
}
use industrial_control.Capture.Dump.{capture_reads}
use industrial_control.Capture.Scan.{lines}
use industrial_control.Capture.Reader.{replay}
use industrial_control.Main.{
  Round, is_supported, runs_interactively, runs_unit_test, captures, serve,
}

-- What the system gives a run of the program.
pub record World : Type 0 where
  pub arguments : List Opt
  -- the output of `uname -a` that `fgets` reads, or no pipe
  pub uname : Option Bytes
  pub is_dir : Bytes → Bool
  pub mkdir : Bytes → Bool
  pub port : Port
  -- the time of `parse_open`, and whether readings.txt is opened
  pub now : ℕ
  pub readings : Bool
  -- the unit test's file, and the times and answers of its calls of `parse_header`
  pub file : Bytes → Option Bytes
  pub clock : ℕ → ℕ
  pub env : ℕ → ℕ → Env
  -- whether the capture file is opened, and what each read from the port returns, `none` for -1
  pub capture_opens : Bool
  pub reads : List (Option Bytes)
  pub creates_queue : Bool
  pub removes_queue : Bool
  pub rounds : List Round

-- How a run ends; `endless` is a loop that goes on behind the reads or rounds that are given.
pub data Ending : Type 0 where
  success failure endless : Ending

pub record Run : Type 0 where
  pub ending : Ending
  -- the directories made
  pub made : List Bytes
  pub port_open : Bool
  -- whether `parse_open` was called and `parse_close` was, and what the engine has done
  pub opened : Bool
  pub closed : Bool
  pub events : List Event
  pub captured : Bytes
  -- whether the queue of the server is left behind
  pub queue_left : Bool

abbrev pub failed : List Bytes → Bool → Run
failed made port_open = record {
  ending = Ending.failure;
  made = made;
  port_open = port_open;
  opened = false;
  closed = false;
  events = [];
  captured = [];
  queue_left = false;
}

-- `strstr( text, name ) != NULL`
unfoldable pub starts : Bytes → Bytes → Bool
starts text [] = true
starts [] (c ∷ name) = false
starts (b ∷ text) (c ∷ name) = b == c && starts text name

unfoldable pub contains : Bytes → Bytes → Bool
unfolding starts
contains [] name = starts [] name
contains (b ∷ text) name = starts (b ∷ text) name || contains text name

-- TARGET_STG
abbrev pub target_stg : Bytes
target_stg = codes "rpi"

-- Make a directory unless it is there; `none` is a failure.
unfoldable pub make_dir : World → Bytes → List Bytes → Option (List Bytes)
make_dir world dir made =
    if world.is_dir dir
    then some made
    else if world.mkdir dir
    then some (made ++ (dir ∷ []))
    else none

-- The end of `main` behind `parse_open`.
abbrev pub finished : List Bytes → Engine → Run
finished made s = record {
  ending = Ending.success;
  made = made;
  port_open = false;
  opened = true;
  closed = true;
  events = parse_close s;
  captured = [];
  queue_left = false;
}

-- A loop that goes on.
abbrev pub going : List Bytes → Engine → Run
going made s = record (finished made s) {
  ending = Ending.endless;
  port_open = true;
  closed = false;
  events = s.events;
}

-- What follows the loop of the live block.
abbrev pub behind_loop : World → List Bytes → Engine × Bool → Run
behind_loop world made (s, true) = record (going made s) { queue_left = true }
behind_loop world made (s, false) = record (finished made s) {
  queue_left = not world.removes_queue;
}

-- The block that parses live data, and what follows it.
unfoldable pub live : World → List Bytes → ℕ → Engine → Outcome Run
live world made o s =
    if runs_interactively o
    then (if world.creates_queue
        then (serve world.rounds s >>= λ r. ok (behind_loop world made r))
        else ok (record (finished made s) { ending = Ending.failure }))
    else ok (finished made s)

-- The block that captures, which never ends, and what follows it.
unfoldable pub capture_wire : World → List Bytes → ℕ → Engine → Outcome Run
capture_wire world made o s =
    if captures o
    then (capture_reads world.capture_opens world.reads >>= λ text.
        ok (record (going made s) { captured = text }))
    else live world made o s

-- The block of the unit test, and what follows it.
unfoldable pub test_file : World → List Bytes → ℕ → Bytes → Engine → Outcome Run
test_file world made o name s =
    if runs_unit_test o
    then elim (world.file name) [
      | none ↦ ok (record (going made s) { ending = Ending.failure })
      | some text ↦ replay world.clock world.env (lines text) s >>= capture_wire world made o
    ]
    else capture_wire world made o s

-- The port and the engine.
unfoldable pub open_port : World → List Bytes → ℕ → Bytes → Outcome Run
open_port world made o name =
    let port = serial_port_open world.port in
    if port.succeeds
    then test_file world made o name (parse_open o 0 world.now world.readings)
    else ok (failed made port.is_open)

-- The directory in RAM on the target, and the rest.
unfoldable pub ram_dir : World → List Bytes → ℕ → Bytes → Bool → Outcome Run
ram_dir world made o name on_target =
    if on_target
    then elim (make_dir world target_ram_dir made) [
      | none ↦ ok (failed made false)
      | some made' ↦ open_port world made' o name
    ]
    else open_port world made o name

-- The directory on the disk, for the target or the desktop, and the rest.
unfoldable pub disk_dir : World → ℕ → Bytes → Bool → Outcome Run
disk_dir world o name on_target =
    elim (make_dir world (if on_target then target_disk_dir else desktop_disk_dir) []) [
      | none ↦ ok (failed [] false)
      | some made ↦ ram_dir world made (if on_target then raise o target else o) name on_target
    ]

-- `main` behind its options.
unfoldable pub set_up : World → Settings → Outcome Run
set_up world t =
    if is_supported t.flags
    then elim world.uname [
      | none ↦ ok (failed [] false)
      | some text ↦ disk_dir world t.flags t.testfile (contains text target_stg)
    ]
    else ok (failed [] false)

abbrev pub go : World → Parsed → Outcome Run
go world (options t) = set_up world t
go world exit_success = ok (record (failed [] false) { ending = Ending.success })
go world exit_failure = ok (failed [] false)

unfoldable pub main : World → Outcome Run
main world = take_options world.arguments initial_settings >>= go world
