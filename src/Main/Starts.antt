-- ===== src/Main/Starts.antt =====
-- What `main` does where the system gives it all that it asks for.
use industrial_control.Prelude.{
  ℕ, ◌≡◌, refl, ◌∙◌, ap, Bool, true, false, ◌||◌, some, if◌then◌else◌, List, [], ◌∷◌, ◌++◌, Bytes,
  All, arith,
}
use industrial_control.Prelude.Bits.{has, raise}
use industrial_control.Flags.{target, target_disk_dir, target_ram_dir, desktop_disk_dir}
use industrial_control.Outcome.{ok, ◌>>=◌}
use industrial_control.Parser.State.{Engine}
use industrial_control.Parser.Header.{parse_open}
use industrial_control.Serial.{serial_port_open}
use industrial_control.Options.{Settings, options, take_options, initial_settings}
use industrial_control.Main.{serve, is_supported, runs_interactively, runs_unit_test, captures}
use industrial_control.Main.Run.{
  World, behind_loop, live, capture_wire, test_file, open_port, ram_dir, disk_dir, make_dir,
  contains, target_stg, set_up, main,
}

-- The directories for the data files.
abbrev pub directories : Bool → List Bytes
directories true = target_disk_dir ∷ target_ram_dir ∷ []
directories false = desktop_disk_dir ∷ []

-- Those of them that are not there.
abbrev pub missing : World → List Bytes → List Bytes
missing world [] = []
missing world (d ∷ ds) = let rest = missing world ds in if world.is_dir d then rest else d ∷ rest

-- The system that `main` asks for: `uname` answers, the directories are there or can be made, and
-- the port works. The flag is for the target.
pub record Gives (world : World) (on_target : Bool) : Type 0 where
  pub text : Bytes
  pub answers : world.uname ≡ some text
  pub is_target : contains text target_stg ≡ on_target
  pub has_dirs : All (λ d. (world.is_dir d || world.mkdir d) ≡ true) (directories on_target)
  pub has_port : (serial_port_open world.port).succeeds ≡ true

abbrev pub flags_on : Bool → ℕ → ℕ
flags_on on_target o = if on_target then raise o target else o

make_dir_lem :
    (world : World) (d : Bytes) (made : List Bytes)
    → (world.is_dir d || world.mkdir d) ≡ true
    → make_dir world d made ≡ some (if world.is_dir d then made else made ++ (d ∷ []))
unfolding make_dir
make_dir_lem world d made h = ground arith

open_port_lem :
    (world : World) (made : List Bytes) (o : ℕ) (name : Bytes)
    → (serial_port_open world.port).succeeds ≡ true
    → open_port world made o name
      ≡ test_file world made o name (parse_open o 0 world.now world.readings)
unfolding open_port
open_port_lem world made o name h = rw h refl

disk_dir_lem :
    (world : World) (on_target : Bool) (o : ℕ) (name : Bytes)
    → All (λ d. (world.is_dir d || world.mkdir d) ≡ true) (directories on_target)
    → (serial_port_open world.port).succeeds ≡ true
    → disk_dir world o name on_target
      ≡ test_file world
          (missing world (directories on_target))
          (flags_on on_target o)
          name
          (parse_open (flags_on on_target o) 0 world.now world.readings)
unfolding disk_dir ram_dir
disk_dir_lem world true o name dirs port =
    let made = if world.is_dir target_disk_dir then [] else target_disk_dir ∷ [] in
    ground (
      arith,
      make_dir_lem world target_disk_dir [] dirs.0,
      make_dir_lem world target_ram_dir made dirs.1.0,
      open_port_lem world (missing world (directories true)) (raise o target) name port,
    )
disk_dir_lem world false o name dirs port = ground (
  arith,
  make_dir_lem world desktop_disk_dir [] dirs.0,
  open_port_lem world (missing world (directories false)) o name port,
)

pub set_up_lem :
    (world : World) (on_target : Bool) (t : Settings)
    → Gives world on_target
    → is_supported t.flags ≡ true
    → set_up world t
      ≡ test_file world
          (missing world (directories on_target))
          (flags_on on_target t.flags)
          t.testfile
          (parse_open (flags_on on_target t.flags) 0 world.now world.readings)
unfolding set_up
set_up_lem world on_target t g h =
    ground (arith, disk_dir_lem world on_target t.flags t.testfile g.has_dirs g.has_port)

pub main_lem :
    (world : World) (t : Settings)
    → take_options world.arguments initial_settings ≡ ok (options t)
    → main world ≡ set_up world t
unfolding main
main_lem world t h = rw h refl

test_file-live :
    (world : World) (made : List Bytes) (on_target : Bool) (name : Bytes) (s : Engine)
    → world.creates_queue ≡ true
    → test_file world made (flags_on on_target 3) name s
      ≡ (serve world.rounds s >>= λ r. ok (behind_loop world made r))
unfolding test_file capture_wire live runs_interactively runs_unit_test captures has raise serve
test_file-live world made true name s h = rw h refl
test_file-live world made false name s h = rw h refl

-- `printem` without options, where the system gives what it asks for and a queue for its clients,
-- makes the directories that are missing and serves the clients and the 1022 from the state of
-- `parse_open`, with TARGET set if `uname` names the target. If a client ends it, it closes the
-- engine and the port and removes the queue, or leaves it if that fails.
pub main-serves :
    (world : World) (on_target : Bool)
    → world.arguments ≡ []
    → Gives world on_target
    → world.creates_queue ≡ true
    → main world ≡ (
        serve world.rounds (parse_open (flags_on on_target 3) 0 world.now world.readings) >>= λ r.
        ok (behind_loop world (missing world (directories on_target)) r))
unfolding take_options is_supported has
main-serves world on_target a g q =
    main_lem world initial_settings (ap (λ xs. take_options xs initial_settings) a)
    ∙ set_up_lem world on_target initial_settings g refl
    ∙ test_file-live world _ on_target _ _ q
