-- ===== src/Tests/Services.antt =====
-- Runs of PE-Control with the engine on concrete bytes.
use industrial_control.Prelude.{
  Bytes, List, map, ℕ, none, some, codes, ◌≡◌, refl, true, [], ◌∷◌, ◌++◌, arith,
}
use industrial_control.Prelude.Bits.{has}
use industrial_control.Outcome.{ok, ◌>>=◌}
use industrial_control.Parser.State.{Engine, ss_pause}
use industrial_control.Parser.Header.{step, parse_bytes}
use industrial_control.Parser.Notices.{notices}
use industrial_control.Parser.Triple.{Yields}
use industrial_control.Parser.Transfer.{report, history, closings}
use industrial_control.Parser.Transfer.Records.{wire, records}
use industrial_control.Parser.Transfer.Whole.{report_path}
use industrial_control.Parser.Transfer.History.{history_path}
use industrial_control.Server.{ClientReq, received, control_receive_msg}
use industrial_control.Control
use industrial_control.Control.{request_of_char}
use industrial_control.Client.{queues, report_message, history_message, log_message}
use industrial_control.Control.Service.{SucceedsWith, Asks, answered}
use industrial_control.Control.Report.{Fetches}
use industrial_control.Control.Reads.{control_report_reads, control_history_reads}
use industrial_control.Parser.Chunks.{but_readings}
use industrial_control.Main.{serve}
use industrial_control.Main.Stream.{
  Reading, quiet, stream, answers, asks_in, loop_but_readings, serve-stream,
}
use industrial_control.Control.Logs.{Logs, control_log}
use industrial_control.Parser.Transfer.Logging.{line_wire, open_wire}
use industrial_control.Control.Rivals.{control_rivals}
use industrial_control.Tests.Data.{engine, good, always}
use industrial_control.Tests.Transfer.{
  first, last, first-IsPart, last-IsRecord, event, wait, event-IsLine, wait-IsLine, log_path,
  log_name,
}

-- The target between two records.
abbrev between : Engine
between = engine 0x11 0 ss_pause 0x44 (0x98 ∷ [])

-- `pecontrol` with a letter, on a queue.
abbrev asking : ℕ → ℕ → Control.World
asking letter client = record {
  arguments = (letter ∷ []) ∷ [];
  server_mq = some 3;
  client_mq = some client;
  sends = true;
  responses = [];
  removes = true;
}

abbrev given :
    (letter client : ℕ) (m : ClientReq)
    → request_of_char letter (queues 3 client) ≡ some m
    → Asks (asking letter client) letter 3 client m
given letter client m h = record {
  argument = refl;
  has_server = refl;
  has_client = refl;
  request = h;
  sends = refl;
  removes = refl;
}

-- A read of the port.
abbrev read_at : ℕ → Bytes → Reading
read_at now cs = record { received = cs; now = now; env = always }

-- The poll and a Report in four reads, the third one with the snapshot timer due.
abbrev report_reads : List Reading
report_reads =
    read_at 1002 (codes "A")
    ∷ read_at 1007 (codes "BC" ++ (0x0D ∷ 0x91 ∷ codes "66"))
    ∷ read_at 1008
        (codes ".7" ++ (0x98 ∷ 0x90 ∷ 0x44 ∷ 0x98 ∷ (codes "B;end" ++ (0x0D ∷ 0x91 ∷ []))))
    ∷ []

control_report_reads_example :
    (t : Engine) × (serve
        (asks_in (report_message (queues 3 9)) (read_at 1001 (0x90 ∷ 0x98 ∷ []))
          ∷ map quiet report_reads)
        between
      ≡ ok (t, true))
    × Fetches
        (asking b'r' 9)
        9
        (report_message (queues 3 9))
        report_path
        (records (first ∷ []) last)
        between
        t
unfolding has request_of_char
control_report_reads_example =
    control_report_reads (asking b'r' 9) b'r' 3 9 (read_at 1001 (0x90 ∷ 0x98 ∷ [])) report_reads
      (first ∷ []) last between (given b'r' 9 _ refl) refl refl refl refl refl refl
      (first-IsPart report (omega arith), tt) (last-IsRecord report (omega arith)) refl refl

-- The same of History.
abbrev history_reads : List Reading
history_reads =
    read_at 1002 (0x98 ∷ 0x90 ∷ []) ∷ read_at 1003 (codes "T" ++ (0x98 ∷ [])) ∷ report_reads

control_history_reads_example :
    (t : Engine) × (serve
        (asks_in (history_message (queues 3 9)) (read_at 1001 (0x90 ∷ []))
          ∷ map quiet history_reads)
        between
      ≡ ok (t, true))
    × Fetches
        (asking b'h' 9)
        9
        (history_message (queues 3 9))
        history_path
        (records (first ∷ []) last)
        between
        t
unfolding has request_of_char
control_history_reads_example =
    control_history_reads (asking b'h' 9) b'h' 3 9 (read_at 1001 (0x90 ∷ [])) history_reads
      (codes "T") (first ∷ []) last between (given b'h' 9 _ refl) refl refl refl refl refl refl refl
      (record {
        display_plain = tt;
        display_room = omega arith;
        reply_plain = omega arith;
        reply_room = omega arith;
      })
      (first-IsPart history (omega arith), tt) (last-IsRecord history (omega arith)) refl refl

serve-stream_example : loop_but_readings (serve (map quiet report_reads) between) ≡ (
    parse_bytes (answers report_reads) 0 (stream report_reads) (but_readings between) >>= λ t.
    ok (t, true))
serve-stream_example = serve-stream report_reads between refl

-- Two clients toggle the Log mode in turn.
control_log_example :
    Yields (Logs (asking b'l' 9) (asking b'l' 11) 3 9 11 log_path (codes "EVT1EVT1") between) (
      step good 0x90 (control_receive_msg (received 256 (log_message (queues 3 9))) between).0
      >>= λ t.
          parse_bytes always 0 (0x98 ∷ line_wire (event ∷ wait ∷ []) (open_wire event)) t >>= λ u.
          step good 0x90 (control_receive_msg (received 256 (log_message (queues 3 11))) u).0)
unfolding has request_of_char
control_log_example =
    control_log (asking b'l' 9) (asking b'l' 11) b'l' b'l' 3 9 11 255 255 good good always 0
      (event ∷ wait ∷ []) event log_path between (omega arith) (given b'l' 9 _ refl)
      (given b'l' 11 _ refl) refl refl refl refl refl
      (record { active = refl; no_report = refl; no_history = refl; no_end = refl }) log_name refl
      refl (event-IsLine, (wait-IsLine, tt)) event-IsLine

control_rivals_example :
    Yields
      (λ t.
        (closings t.events
          ≡ record { path = report_path; written = records (first ∷ []) last } ∷ [])
        × (Control.main (answered (asking b'r' 9) 9 (notices t.events)) ≡ none)
        × SucceedsWith
            (answered (asking b'h' 11) 11 (notices t.events))
            (history_message (queues 3 11)))
      (step good 0x90 (control_receive_msg (received 256 (report_message (queues 3 9))) between).0
        >>= λ t.
            parse_bytes always 0
              (0x98 ∷ wire (first ∷ []) last)
              (control_receive_msg (received 256 (history_message (queues 3 11))) t).0)
unfolding has request_of_char
control_rivals_example =
    control_rivals (asking b'r' 9) (asking b'h' 11) b'r' b'h' 3 9 11 255 255 good always 0
      (first ∷ []) last between (omega arith) (given b'r' 9 _ refl) (given b'h' 11 _ refl) refl refl
      refl refl refl refl refl (first-IsPart report (omega arith), tt)
      (last-IsRecord report (omega arith)) refl
