-- ===== src/Tests/Exits.antt =====
-- The console and the engine ended by a key.
use industrial_control.Prelude.{◌≡◌, refl, true, false, some, [], ◌∷◌, codes, map}
use industrial_control.Outcome.{ok}
use industrial_control.Parser.State.{Engine, ss_display, notify}
use industrial_control.Parser.Buffer.{update, msg_send_to_client}
use industrial_control.Parser.Header.{parse_open, parse_header, parse_bytes, dispatch}
use industrial_control.Parser.Notices.{notices}
use industrial_control.Server.{received, control_receive_msg}
use industrial_control.Client.{queues, init_message, exit_message}
use industrial_control.Control.Service.{mailbox}
use industrial_control.Console
use industrial_control.Console.Exits.{hears, hits_exit, exit_ends_both}
use industrial_control.Main.{Round, take_triggers, triggers_of, serve}
use industrial_control.Main.Run as Run
use industrial_control.Main.Starts.{missing, directories}
use industrial_control.Tests.Data.{always}
use industrial_control.Tests.Clients.{terminal}
use industrial_control.Tests.Main.{desktop, gives}

-- The round with the request, and the status poll of the 1022 behind it.
abbrev last_round : Round
last_round = record {
  signals = [];
  message = received 256 (exit_message (queues 3 7));
  received = 0x91 ∷ [];
  now = 1001;
  env = always;
}

abbrev ended_desktop : Run.World
ended_desktop = record desktop { rounds = last_round ∷ [] }

abbrev start : Engine
start = parse_open 3 0 1000 true

-- The engine behind that round.
abbrev stopped : Engine
stopped = record start {
  buffer = update (λ i. 0) 0 0x91;
  buffer_len = 1;
  header_state = ss_display;
  client_mq_server = 7;
  events = notify 7 1 (codes "exit") ∷ [];
}

handles_last :
    parse_header last_round.now last_round.env last_round.received
      (control_receive_msg last_round.message (take_triggers last_round start)).0
    ≡ ok stopped
unfolding parse_header parse_bytes dispatch control_receive_msg take_triggers triggers_of parse_open
    msg_send_to_client
handles_last = refl

-- The console whose user hits 'x'.
abbrev exiting : Console.World
exiting = record {
  terminal = terminal;
  server_mq = some 3;
  client_mq = some 7;
  init_sends = true;
  inputs = hits_exit ∷ map hears (mailbox 7 (notices stopped.events));
}

exit_ends_both_example :
    (Run.main ended_desktop
      ≡ ok (record (Run.finished (missing ended_desktop (directories false)) stopped) {
        queue_left = false;
      }))
    × ((k : Console.Console) × ((Console.main exiting).ending ≡ Console.exit_success k)
        × (k.requests ≡ exit_message (queues 3 7) ∷ init_message (queues 3 7) ∷ []))
    × ((Console.main exiting).terminal.tty ≡ terminal.tty)
unfolding serve
exit_ends_both_example =
    exit_ends_both ended_desktop false exiting 255 3 7 [] [] last_round start stopped refl
      (gives ended_desktop refl refl (λ d. refl)) refl refl refl refl handles_last refl refl refl
      refl
