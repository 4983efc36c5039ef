-- ===== src/Tests/Transfer.antt =====
-- A Report, a History sequence and a log on concrete bytes.
use industrial_control.Prelude.{codes, ◌≡◌, ◌≤◌, refl, true, [], ◌∷◌, ◌++◌, Bytes, arith}
use industrial_control.Prelude.Bits.{has}
use industrial_control.Flags.{target_disk_dir, data_filename_size}
use industrial_control.Filename.{unique_filename, strftime, time_text, decimal, two_digits}
use industrial_control.Parser.State.{Engine, rpt_start, hst_start, log_start}
use industrial_control.Parser.Header.{parse_bytes}
use industrial_control.Parser.Triple.{Yields}
use industrial_control.Parser.Transfer.{Kind, report, history, log, Delivers, job_of}
use industrial_control.Parser.Transfer.Steps.{Part, IsRecord, least}
use industrial_control.Parser.Transfer.Records.{IsPart, wire, records}
use industrial_control.Parser.Transfer.Whole.{report_path, report_session}
use industrial_control.Parser.Transfer.History.{history_path, history_session}
use industrial_control.Parser.Transfer.Log.{log_wire, log_session}
use industrial_control.Parser.Transfer.Logging.{Line, IsLine}
use industrial_control.Tests.Data.{engine, always}

-- The target, asked for a Report.
abbrev starting : Engine
starting = engine 0x11 0 rpt_start 0x44 (0x98 ∷ 0x90 ∷ 0x44 ∷ 0x52 ∷ 0x0D ∷ [])

abbrev pub first : Part
first = record { bytes = b'A' ∷ b'B' ∷ b'C' ∷ 0x0D ∷ []; display = codes "66.7"; reply = 0x44 ∷ [] }

abbrev pub last : Bytes
last = b'B' ∷ b';' ∷ b'e' ∷ b'n' ∷ b'd' ∷ 0x0D ∷ []

bytes_on_the_wire :
    0x98 ∷ wire (first ∷ []) last
    ≡ 0x98
      ∷ (codes "ABC"
          ++ (0x0D
              ∷ 0x91
              ∷ (codes "66.7"
                  ++ (0x98 ∷ 0x90 ∷ 0x44 ∷ 0x98 ∷ (codes "B;end" ++ (0x0D ∷ 0x91 ∷ []))))))
bytes_on_the_wire = refl

pub first-IsPart : (kind : Kind) → least kind ≤ 4 → IsPart kind first
first-IsPart kind h = record {
  is_record = record { plain = omega arith; room = omega arith; enough = h };
  goes_on = refl;
  pause = record {
    display_plain = omega arith;
    display_room = omega arith;
    reply_plain = omega arith;
    reply_room = omega arith;
  };
}

pub last-IsRecord : (kind : Kind) → least kind ≤ 4 → IsRecord kind last
last-IsRecord kind h = record { plain = omega arith; room = omega arith; enough = omega (arith, h) }

report_session_example :
    Yields
      (Delivers report report_path (records (first ∷ []) last) (job_of starting))
      (parse_bytes always 0 (0x98 ∷ wire (first ∷ []) last) starting)
unfolding has
report_session_example =
    report_session always 0 (first ∷ []) last starting refl refl refl refl
      (first-IsPart report (omega arith), tt) (last-IsRecord report (omega arith)) refl

-- The target, asked for History.
abbrev pub starting_history : Engine
starting_history = engine 0x11 0x80 hst_start 0x44 (0x98 ∷ 0x90 ∷ 0x44 ∷ 0x49 ∷ 0x0D ∷ [])

history_session_example :
    Yields (Delivers history history_path (records (first ∷ []) last) (job_of starting_history)) (
      parse_bytes always 0
        (0x98 ∷ 0x90 ∷ (codes "T" ++ (0x98 ∷ wire (first ∷ []) last)))
        starting_history)
unfolding has
history_session_example =
    history_session always 0 (codes "T") (first ∷ []) last starting_history refl refl refl refl refl
      (record {
        display_plain = tt;
        display_room = omega arith;
        reply_plain = omega arith;
        reply_room = omega arith;
      })
      (first-IsPart history (omega arith), tt) (last-IsRecord history (omega arith)) refl

-- The target at the start of a log.
abbrev starting_log : Engine
starting_log = engine 0x11 0x80 log_start 0x44 (0x98 ∷ 0x90 ∷ 0x54 ∷ 0x54 ∷ 0x0D ∷ [])

abbrev pub event : Line
event = record { letter = b'E'; rest = codes "VT1"; display = codes "66.7"; reply = codes "L" }

abbrev pub wait : Line
wait = record { letter = b';'; rest = codes "wait"; display = []; reply = codes "L" }

pub event-IsLine : IsLine event
event-IsLine = record {
  is_record = record { plain = omega arith; room = omega arith; enough = omega arith };
  no_directive = omega arith;
  pause = record {
    display_plain = omega arith;
    display_room = omega arith;
    reply_plain = omega arith;
    reply_room = omega arith;
  };
}

pub wait-IsLine : IsLine wait
wait-IsLine = record {
  is_record = record { plain = omega arith; room = omega arith; enough = omega arith };
  no_directive = omega arith;
  pause = record {
    display_plain = tt;
    display_room = omega arith;
    reply_plain = omega arith;
    reply_room = omega arith;
  };
}

abbrev pub log_path : Bytes
log_path = codes "/var/log/lsc/logmode-20250607080910"

pub log_name :
    unique_filename
      (target_disk_dir ++ codes "/logmode-")
      []
      data_filename_size
      (always 0).local_time
    ≡ (log_path, true)
unfolding unique_filename strftime time_text decimal two_digits
log_name = refl

log_session_example :
    Yields
      (Delivers log log_path (codes "EVT1@L") (job_of starting_log))
      (parse_bytes always 0 (0x98 ∷ log_wire (event ∷ wait ∷ []) [] (codes "66.7")) starting_log)
unfolding has
log_session_example =
    log_session always 0 (event ∷ wait ∷ []) [] (codes "66.7") log_path starting_log refl refl
      log_name refl refl
      (record { active = refl; no_report = refl; no_history = refl; no_end = refl })
      (event-IsLine, (wait-IsLine, tt))
      (record { plain = omega arith; room = omega arith; enough = omega arith })
      (record {
        display_plain = omega arith;
        display_room = omega arith;
        reply_plain = tt;
        reply_room = omega arith;
      })
