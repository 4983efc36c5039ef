-- ===== src/Tests/Engine.antt =====
-- The engine of Printer-Emulator on concrete bytes.
use industrial_control.Prelude.{
  ◌+◌, ◌*◌, ◌≤◌, ◌≡◌, refl, true, some, List, [], ◌∷◌, ◌++◌, codes, arith,
}
use industrial_control.Prelude.Bits.{has}
use industrial_control.Outcome.{ok, fault, Ensures, write_outside, read_outside}
use industrial_control.Parser.State.{Engine, ss_unknown, ss_pause, hst_data, log_display, transmit}
use industrial_control.Parser.Header.{step, dispatch, parse_bytes, parse_open}
use industrial_control.Parser.Bounds.{IsBounded, step-IsBounded}
use industrial_control.Parser.Faults.{Cause, step-Cause, step_total, hst_data_short}
use industrial_control.Parser.Overflow.{parse_bytes_overflow}
use industrial_control.Parser.Status.{HasStatus, step-HasStatus}
use industrial_control.Parser.Files.{HasFiles, step-HasFiles}
use industrial_control.Parser.Polls.{Answers, step-Answers}
use industrial_control.Parser.Requests.{KeepsRequests, step-KeepsRequests}
use industrial_control.Parser.Notices.{Notifies, step-Notifies}
use industrial_control.Parser.Snapshots.{shots}
use industrial_control.Parser.Graph.{Edge, step-Edge}
use industrial_control.Server.{ClientReq, received, control_receive_msg}
use industrial_control.Main.{Round, serve}
use industrial_control.Main.Readings.{session_pace}
use industrial_control.Server.Laws.{Serves, control_receive_msg-Serves}
use industrial_control.Tests.Data.{good, always, engine}

-- Between two records in the steady state, with a pending Report request.
abbrev asked : Engine
asked = engine 1 1 ss_pause 0x44 (0x98 ∷ [])

-- In the log display behind a 0x98.
abbrev logging : Engine
logging = engine 1 1 log_display 0x54 (0x91 ∷ 0x20 ∷ 0x98 ∷ [])

-- A poll is answered by the status and 'R'.
answers_report :
    Ensures (λ t. t.events ≡ transmit (0x44 ∷ b'R' ∷ 0x0D ∷ []) ∷ []) (step good 0x90 asked)
unfolding dispatch has
answers_report = refl

-- The last record of a History sequence that a client asked for.
abbrev last_record : Engine
last_record = record (engine 1 0x80 hst_data 0x44 (0x98 ∷ codes ";end" ++ 0x0D ∷ [])) {
  f_hst = some (record { path = codes "./Data/history-1"; written = codes "one" });
}

step-Answers_example : Ensures (Answers log_display 0x90 logging) (step good 0x90 logging)
step-Answers_example = step-Answers good 0x90 logging

step-KeepsRequests_example : Ensures (KeepsRequests 0x90 asked) (step good 0x90 asked)
step-KeepsRequests_example = step-KeepsRequests good 0x90 asked

step-Notifies_example : Ensures (Notifies hst_data 0x91 last_record) (step good 0x91 last_record)
step-Notifies_example = step-Notifies good 0x91 last_record

step-HasStatus_example : Ensures HasStatus (step good 0x90 logging)
step-HasStatus_example = step-HasStatus good 0x90 logging refl

step-HasFiles_example : Ensures HasFiles (step good 0x90 asked)
step-HasFiles_example =
    step-HasFiles good 0x90 asked refl
      (record { report = refl; history = refl; log = tt; log_closed = λ _. refl })

step-IsBounded_example : Ensures IsBounded (step good 0x90 logging)
step-IsBounded_example = step-IsBounded good 0x90 logging (omega arith)

-- A display byte behind the header of a History record.
abbrev short_record : Engine
short_record = engine 1 0 hst_data 0x44 (0x98 ∷ [])

reads_before : step good 0x91 short_record ≡ fault read_outside
reads_before = hst_data_short good short_record refl (omega arith)

step-Cause_example : Cause hst_data good 0x91 short_record read_outside
step-Cause_example = step-Cause read_outside good 0x91 short_record (omega arith) reads_before

step_total_example : (t : Engine) × (step good 0x90 logging ≡ ok t)
step_total_example = step_total good 0x90 logging refl (record {
  bounded = omega arith;
  room = omega arith;
  readings = λ e. cc;
  history_open = λ e. cc;
  history_long = λ e. cc;
  log_not_empty = λ e. cc;
})

abbrev looking : Engine
looking = parse_open 1 0 1000 true

-- A buffer with one free cell.
abbrev nearly_full : Engine
nearly_full = record (engine 1 0 ss_unknown 0x44 []) { buffer_len = 255 }

parse_bytes_overflow_example :
    parse_bytes always 0 (0x20 ∷ 0x31 ∷ []) nearly_full ≡ fault write_outside
parse_bytes_overflow_example =
    parse_bytes_overflow (0x20 ∷ 0x31 ∷ []) 0x91 always 0 nearly_full refl (omega arith)
      (omega arith) (omega arith)

step-Edge_example : Ensures (λ t. Edge ss_pause 0x90 asked t.header_state) (step good 0x90 asked)
step-Edge_example = step-Edge good 0x90 asked

-- The steady state without active mode.
abbrev watching : Engine
watching = engine 0 0 ss_pause 0x44 (0x98 ∷ [])

-- A client asks for a report, and then for the end of the server.
abbrev rounds : List Round
rounds =
    record {
      signals = [];
      message = received 256 (record { mtype = 2; client_id = 7; cmd = codes "report" });
      received = 0x91 ∷ 0x98 ∷ 0x90 ∷ 0x98 ∷ [];
      now = 1001;
      env = always;
    }
    ∷ record {
      signals = [];
      message = received 256 (record { mtype = 5; client_id = 7; cmd = codes "exit" });
      received = 0x31 ∷ [];
      now = 1002;
      env = always;
    }
    ∷ []

session_pace_example :
    Ensures (λ r. 1000 + 5 * shots r.0.events ≤ 1002) (serve rounds (parse_open 3 0 1000 true))
session_pace_example =
    session_pace rounds 3 0 1000 1002 true (omega arith, (omega arith, omega arith))

-- Client 9 asks for a Report between two records.
abbrev report_message : ClientReq
report_message = record { mtype = 2; client_id = 9; cmd = codes "report" }

control_receive_msg-Serves_example :
    Serves report_message watching (control_receive_msg (received 256 report_message) watching).0
    × ((control_receive_msg (received 256 report_message) watching).1 ≡ true)
control_receive_msg-Serves_example = control_receive_msg-Serves 255 report_message watching
