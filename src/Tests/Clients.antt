-- ===== src/Tests/Clients.antt =====
-- The clients, the file names and the options of the engine on concrete inputs.
use industrial_control.Prelude.{
  ◌≡◌, ◌||◌, refl, inl, true, false, some, List, [], ◌∷◌, codes, All, length, arith, if◌then◌else◌,
}
use industrial_control.Prelude.Bits.{has, lower}
use industrial_control.Filename.{time_text, decimal, two_digits}
use industrial_control.Filename.Laws.{IsTime, unique_filename_injective}
use industrial_control.Server.{ClientReq}
use industrial_control.Client.{received, log_message}
use industrial_control.Control
use industrial_control.Control.Laws.{verdict, main_success, main-is_log_mode, main_leaves_queue}
use industrial_control.Console
use industrial_control.Console.Laws.{leaves, is_some, main_loop-leaves, main-IsOwn}
use industrial_control.Serial.{isig}
use industrial_control.Terminal.{Terminal, ready, byte, end_of_input, cfmakeraw}
use industrial_control.Console.Cleanup.{is_waiting, made_raw, main-terminal}
use industrial_control.Main.{is_supported}
use industrial_control.Tests.Data.{a_time, usual}

a_time-IsTime : IsTime a_time
a_time-IsTime = omega arith

report_name : time_text a_time ≡ codes "20250607080910"
unfolding time_text decimal two_digits
report_name = refl

unique_filename_injective_example : a_time ≡ a_time
unique_filename_injective_example =
    unique_filename_injective (codes "./Data/report-") 128 a_time a_time a_time-IsTime a_time-IsTime
      (omega arith) refl

-- The answer to a toggle of the log mode.
abbrev answered : Control.World
answered = record {
  arguments = (b'l' ∷ []) ∷ [];
  server_mq = some 3;
  client_mq = some 7;
  sends = true;
  responses =
      received 256 (record { mtype = 1; rsp = [] })
      ∷ received 256 (record { mtype = 3; rsp = codes "logmode 1" })
      ∷ [];
  removes = true;
}

abbrev toggled : Control.Run
toggled = record {
  exit_value = Control.exit_success;
  requests = log_message (record { client_mq = 7; server_mq_client = 3 }) ∷ [];
  queue_created = true;
  queue_removed = true;
  is_log_mode = 0;
}

main-toggled : Control.main answered ≡ some toggled
unfolding Control.main Control.log_mode_of
main-toggled = refl

main_success_example :
    (length toggled.requests ≡ 1)
    × (verdict answered.responses ≡ some true)
    × (toggled.queue_removed ≡ true)
main_success_example = main_success answered toggled main-toggled refl

main-is_log_mode_example : toggled.is_log_mode ≡ 0
main-is_log_mode_example = main-is_log_mode answered toggled main-toggled

-- A letter that is no command.
abbrev refused : Control.World
refused = record answered { arguments = (b'z' ∷ []) ∷ [] }

main_leaves_queue_example :
    (r : Control.Run) × (Control.main refused ≡ some r)
    × (r.exit_value ≡ Control.exit_failure)
    × (r.queue_created ≡ true)
    × (r.queue_removed ≡ false)
unfolding Control.request_of_char
main_leaves_queue_example = main_leaves_queue refused b'z' 3 7 refl refl refl (inl refl)

abbrev console : Console.Console
console = Console.started (record { client_mq = 7; server_mq_client = 3 })

-- A report is requested, its success comes in, and the user quits.
abbrev turns : List Console.Turn
turns =
    Console.key true b'r'
    ∷ Console.idle (received 256 (record { mtype = 3; rsp = codes "logmode 1" }))
    ∷ Console.key true b'q'
    ∷ []

main_loop-leaves_example :
    is_some (Console.main_loop turns console) ≡ (console.is_break || leaves false turns)
main_loop-leaves_example = main_loop-leaves turns console

-- The terminal of the console, with nothing saved.
abbrev pub terminal : Terminal
terminal = record {
  tty = some usual;
  orig_termios = record {
    c_iflag = 0;
    c_oflag = 0;
    c_cflag = 0;
    c_lflag = 0;
    c_cc = λ i. 0;
    ispeed = 0;
    ospeed = 0;
  };
  registered = false;
}

-- The console that quits at once.
abbrev pub quitting : Console.World
quitting = record {
  terminal = terminal;
  server_mq = some 3;
  client_mq = some 7;
  init_sends = true;
  inputs =
      Console.poll (record {
        select = ready 1;
        message = received 0 (record { mtype = 0; rsp = [] });
        read = byte b'q';
        unset = 0;
        sends = true;
      })
      ∷ [];
}

abbrev left : Console.Console
left = record console { is_break = true }

main_quits : (Console.main quitting).ending ≡ Console.exit_success left
unfolding Console.main
main_quits = refl

main-IsOwn_example : (left.is_log_mode ≡ 0) × All (λ (m : ClientReq). m.client_id ≡ 7) left.requests
main-IsOwn_example = main-IsOwn quitting 3 7 left refl refl main_quits

main-terminal_example :
    (Console.main quitting).terminal.tty
    ≡ (if is_waiting (Console.main quitting).ending then made_raw (some usual) else some usual)
main-terminal_example = main-terminal quitting

-- The file that is no terminal, at its end: a key that nothing has set.
key_unset :
    Console.turn_of (
      Console.poll (record {
        select = ready 1;
        message = received 0 (record { mtype = 0; rsp = [] });
        read = end_of_input;
        unset = 113;
        sends = true;
      }))
    ≡ Console.key true b'q'
unfolding Console.turn_of
key_unset = refl

-- Ctrl-C at a raw terminal is a key, and no key that the console knows.
raw_interrupt :
    (has (cfmakeraw usual).c_lflag isig ≡ false) × (Console.action true 3 console ≡ console)
unfolding has lower Console.action
raw_interrupt = (refl, refl)

-- The options of "printem -d -p".
passive_dump_supported : is_supported 0x82 ≡ true
unfolding is_supported has
passive_dump_supported = refl
