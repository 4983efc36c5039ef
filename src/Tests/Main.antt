-- ===== src/Tests/Main.antt =====
-- The port, the options and whole runs of the engine's `main` at concrete inputs.
use industrial_control.Prelude.{
  ◌≡◌, ◌∙◌, ap, refl, true, false, none, some, [], ◌∷◌, ◌+◌, ◌⊎◌, Bytes, codes, arith,
}
use industrial_control.Prelude.Bits.{has, raise, lower}
use industrial_control.Flags.{desktop_disk_dir}
use industrial_control.Outcome.{Ensures, ok, ◌>>=◌}
use industrial_control.Parser.Header.{parse_open}
use industrial_control.Capture.Reader.{run_frames}
use industrial_control.Capture.Dump.{capture_file}
use industrial_control.Serial.{Port, serial_port_open}
use industrial_control.Serial.Laws.{SetsRaw, Fails, serial_port_open-IsRaw}
use industrial_control.Options.{
  opt_c, opt_d, opt_h, opt_p, opt_s, opt_u, unknown, Settings, options, exit_success, take_options,
  initial_settings,
}
use industrial_control.Options.Laws.{Describes, take_options-Describes}
use industrial_control.Options.Ending.{take_options-ending}
use industrial_control.Main.{dumps_passively}
use industrial_control.Main.Run.{World, finished, contains, main}
use industrial_control.Main.Ends.{IsTidy, main-IsTidy}
use industrial_control.Main.Starts.{Gives, missing, directories}
use industrial_control.Main.Replays.{main-captures, main-captures-replays}
use industrial_control.Main.Passive.{main-passive}
use industrial_control.Tests.Data.{always, usual}
use industrial_control.Tests.Capture.{request, reading, singles}

abbrev port : Port
port = record { opens = true; settings = some usual; accepts = true }

serial_port_open-IsRaw_example : SetsRaw port ⊎ Fails port
serial_port_open-IsRaw_example = serial_port_open-IsRaw port

take_options-Describes_example :
    (t : Settings) × (take_options (opt_s ∷ opt_c (codes "a.txt") ∷ opt_d ∷ []) initial_settings
      ≡ ok (options t))
    × Describes (opt_s ∷ opt_c (codes "a.txt") ∷ opt_d ∷ []) initial_settings t
take_options-Describes_example =
    take_options-Describes (opt_s ∷ opt_c (codes "a.txt") ∷ opt_d ∷ []) initial_settings
      (refl, (refl, (refl, tt)))

take_options-ending_example :
    take_options (opt_d ∷ opt_h ∷ unknown ∷ []) initial_settings ≡ ok exit_success
take_options-ending_example =
    take_options-ending (opt_d ∷ []) (unknown ∷ []) opt_h initial_settings (refl, tt) refl

-- A desktop without its directory.
abbrev pub desktop : World
desktop = record {
  arguments = [];
  uname = some (codes "Linux host 6.1 x86_64");
  is_dir = λ d. false;
  mkdir = λ d. true;
  port = port;
  now = 1000;
  readings = true;
  file = λ name. none;
  clock = λ n. 1000 + n;
  env = λ n. always;
  capture_opens = true;
  reads = some request ∷ some reading ∷ [];
  creates_queue = true;
  removes_queue = true;
  rounds = [];
}

port_works : (serial_port_open port).succeeds ≡ true
unfolding serial_port_open
port_works = refl

pub gives :
    (world : World)
    → world.uname ≡ some (codes "Linux host 6.1 x86_64")
    → world.port ≡ port
    → ((d : Bytes) → world.mkdir d ≡ true)
    → Gives world false
unfolding contains
gives world u p m = record {
  text = codes "Linux host 6.1 x86_64";
  answers = u;
  is_target = refl;
  has_dirs = (ground (arith, m desktop_disk_dir), tt);
  has_port = ap (λ (q : Port). (serial_port_open q).succeeds) p ∙ port_works;
}

main-IsTidy_example : Ensures IsTidy (main desktop)
main-IsTidy_example = main-IsTidy desktop

-- A capture to a.txt, and the unit test that reads it.
abbrev capture_run : World
capture_run = record desktop { arguments = opt_s ∷ opt_c (codes "a.txt") ∷ [] }

abbrev replay_run : World
replay_run = record desktop {
  arguments = opt_d ∷ opt_p ∷ opt_s ∷ opt_u (codes "a.txt") ∷ [];
  file = λ name. some (capture_file (request ∷ reading ∷ []));
}

main-captures-replays_example : main replay_run ≡ (
    run_frames replay_run.clock replay_run.env 0
      (request ∷ reading ∷ [])
      (parse_open 0xc0 0 1000 true)
    >>= λ t. ok (finished (missing replay_run (directories false)) t))
main-captures-replays_example =
    main-captures-replays capture_run replay_run false false (codes "a.txt") (codes "a.txt")
      (request ∷ reading ∷ []) _ refl (omega arith) (gives capture_run refl refl (λ d. refl)) refl
      refl
      (main-captures capture_run false (codes "a.txt") (request ∷ reading ∷ []) refl (omega arith)
        (gives capture_run refl refl (λ d. refl)) refl refl)
      singles refl (omega arith) refl (gives replay_run refl refl (λ d. refl)) refl

-- `printem -d -p`
abbrev passive : World
passive = record desktop { arguments = opt_d ∷ opt_p ∷ [] }

main-passive_example :
    main passive ≡ ok (finished (missing passive (directories false)) (parse_open 0x82 0 1000 true))
unfolding take_options raise lower dumps_passively has
main-passive_example =
    main-passive passive false (record { flags = 0x82; capfile = []; testfile = [] }) refl refl
      (gives passive refl refl (λ d. refl))
