-- ===== src/Parser/Transfer/Whole.antt =====
-- A whole Report, from the header of its first record to the file.
use industrial_control.Prelude.{
  ℕ, suc, ◌≤◌, ◌≡◌, refl, true, false, some, List, [], ◌∷◌, ◌++◌, arith, Bytes, length, All, codes,
}
use industrial_control.Prelude.Bits.{has}
use industrial_control.Flags.{buffer_size, target, target_ram_dir}
use industrial_control.Outcome.{ok}
use industrial_control.Parser.State.{rpt_data, rpt_display, rpt_start, opened, Env, Engine}
use industrial_control.Parser.Buffer.{
  put, back, take_snapshot, notify_success, msg_send_to_client, fresh,
}
use industrial_control.Parser.Report.{open_report, take_report}
use industrial_control.Parser.Header.{dispatch, step, parse_bytes}
use industrial_control.Parser.Triple.{Yields, at_state, then_bytes}
use industrial_control.Parser.Transfer.{
  report, Job, job_of, Receives, Displays, Expects, Replies, Delivers, is_open, is_last,
  ends_report-is_last, contents_header,
}
use industrial_control.Parser.Transfer.Steps.{Part, IsRecord}
use industrial_control.Parser.Transfer.Records.{IsPart, wire, records, Handles, transfer}

module _ (path text : Bytes) (job : Job) (env : Env) where
  next_record :
      (got : Bytes) (s : Engine)
      → is_last got ≡ false
      → length got ≤ buffer_size
      → Receives report path text job got s
      → Yields (Displays report path (text ++ got) job 2) (step env 0x91 s)
  unfolding dispatch take_report
  next_record got s l room h = at_state _ rpt_data env 0x91 s h.state (
      rw (ends_report-is_last s got h.buffered h.size room, l)
        (ground (arith, h.buffered, h.writes)))

  last_record :
      (got : Bytes) (s : Engine)
      → is_last got ≡ true
      → length got ≤ buffer_size
      → Receives report path text job got s
      → Yields (Delivers report path (text ++ got) job) (step env 0x91 s)
  unfolding dispatch take_report notify_success msg_send_to_client
  last_record got s l room h = at_state _ rpt_data env 0x91 s h.state (
      rw (ends_report-is_last s got h.buffered h.size room, l)
        (ground (arith, h.buffered, h.writes)))

  polled :
      (s : Engine)
      → Expects report path text job s
      → Yields (Replies report path text job 5) (step env 0x90 s)
  unfolding dispatch put back take_snapshot
  polled s h = at_state _ rpt_display env 0x90 s h.state (ground arith)

-- The Report file on the target.
abbrev pub report_path : Bytes
report_path = target_ram_dir ++ codes "/report.txt"

abbrev opened_on_target : Engine → Engine
opened_on_target s = record s {
  f_rpt = some (fresh report_path);
  curr_report_file = report_path;
  events = opened report_path ∷ s.events;
}

open_report_on_target :
    (env : Env) (s : Engine)
    → has s.options target ≡ true
    → env.fopen_succeeds ≡ true
    → open_report env s ≡ ok (opened_on_target s)
unfolding open_report
open_report_on_target env s o f = rw (o, f) refl

-- On the target, the 0x98 of the first record opens the Report file.
pub begins_report :
    (env : Env) (s : Engine)
    → s.header_state ≡ rpt_start
    → has s.options target ≡ true
    → env.fopen_succeeds ≡ true
    → is_open s.f_rdg ≡ true
    → Yields (Receives report report_path [] (job_of s) (0x98 ∷ [])) (step env 0x98 s)
unfolding dispatch
begins_report env s q o f r = at_state _ rpt_start env 0x98 s q (
    rw (open_report_on_target env s o f) (record {
      state = refl;
      buffered = contents_header rpt_data (opened_on_target s);
      size = refl;
      writes = record {
        file = refl;
        name = refl;
        before = refl;
        told = refl;
        queue = refl;
        control = refl;
        options = refl;
        readings = r;
      };
    }))

report-Handles : (path : Bytes) (job : Job) → Handles report path job
report-Handles path job = record {
  next_record = λ text got env s l enough. next_record path text job env got s l;
  last_record = λ text got env s. last_record path text job env got s;
  polled = λ text env s. polled path text job env s;
}

-- In the state that begins a Report, on the target, with readings.txt open and the Report file to
-- be opened, records that fit in the buffer, and texts and answers between them that fit and hold
-- no 0x98: if the last record alone ends with ";end" and a carriage return, the bytes of the whole
-- sequence are handled without a fault, the file /mnt/ramdisk/lsc/report.txt is closed with the
-- records as they were sent, each with its header, and nothing else, no other data file is closed,
-- and the latest client is told of that file, once, if a client's request is marked, and else no
-- client is told anything.
pub report_session :
    (env : ℕ → Env) (i : ℕ) (parts : List Part) (last : Bytes) (s : Engine)
    → s.header_state ≡ rpt_start
    → has s.options target ≡ true
    → (env i).fopen_succeeds ≡ true
    → is_open s.f_rdg ≡ true
    → All (IsPart report) parts
    → IsRecord report last
    → is_last (0x98 ∷ last) ≡ true
    → Yields
        (Delivers report report_path (records parts last) (job_of s))
        (parse_bytes env i (0x98 ∷ wire parts last) s)
report_session env i parts last s q o f r a c l =
    then_bytes (Receives report report_path [] (job_of s) (0x98 ∷ [])) _ env i 0x98
      (wire parts last) s (begins_report (env i) s q o f r)
      (λ t.
        transfer report report_path (job_of s) (report-Handles report_path (job_of s)) parts last []
          a c l env (suc i) t)
