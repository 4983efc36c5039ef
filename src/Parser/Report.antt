-- ===== src/Parser/Report.antt =====
-- The Report handlers of Printer-Emulator/parser.c.
use industrial_control.Prelude.{
  ℕ, Bool, false, ◌&&◌, none, some, [], ◌∷◌, ◌++◌, leb, ◌==◌, if◌then◌else◌, codes,
}
use industrial_control.Prelude.Bits.{has}
use industrial_control.Flags.{target, data_filename_size, desktop_disk_dir, target_ram_dir}
use industrial_control.Filename.{unique_filename}
use industrial_control.Outcome.{Outcome, ok, fault, null_stream, ◌>>=◌}
use industrial_control.Parser.State.{
  Env, Engine, opened, closed, ss_display, rpt_data, rpt_display, rpt_printer, log_display,
}
use industrial_control.Parser.Buffer.{
  put, back, refill, goto, contents, is_active, send, notify_success, take_snapshot, append_record,
  append_if_open, matches_back, end_mark, fresh,
}
use industrial_control.Parser.SteadyState.{status_is_logmode}

-- Open the Report file: on the target a fixed name and a `rewind`, else a name with the time.
unfoldable pub open_report : Env → Engine → Outcome Engine
unfolding unique_filename
open_report env s =
    if has s.options target
    then (let p = target_ram_dir ++ codes "/report.txt" in
        if env.fopen_succeeds
        then ok (record s {
          f_rpt = some (fresh p);
          curr_report_file = p;
          events = opened p ∷ s.events;
        })
        else fault null_stream)
    else (let (name, made) =
          unique_filename (desktop_disk_dir ++ codes "/report-") [] data_filename_size
            env.local_time in
        if made
        then (if env.fopen_succeeds
            then ok (record s {
              f_rpt = some (fresh name);
              curr_report_file = name;
              events = opened name ∷ s.events;
            })
            else ok (record s { f_rpt = none; curr_report_file = name }))
        else ok (record s { curr_report_file = name }))

unfoldable pub handle_rpt_start : Env → ℕ → Engine → Outcome Engine
unfolding open_report
handle_rpt_start env c s =
    if c == 0x98
    then (do t ← open_report env s; ok (goto rpt_data (refill (c ∷ []) t)))
    else put c s

-- Write the last record, and close the file.
unfoldable pub close_report : Engine → Engine
close_report s = elim s.f_rpt [
  | none ↦ s
  | some f ↦ record s { f_rpt = none; events = closed (append_record (contents s) f) ∷ s.events }
]

-- Where a Report or History sequence goes back to.
unfoldable pub resume_display : ℕ → Engine → Engine
unfolding status_is_logmode
resume_display c s =
    if status_is_logmode s
    then goto log_display (refill (c ∷ []) s)
    else goto ss_display (refill (c ∷ []) s)

-- `buffer_len >= 5 && …`: the record ends with the end mark.
unfoldable pub ends_report : Engine → Outcome Bool
ends_report s = if leb 5 s.buffer_len then matches_back end_mark s else ok false

-- What a 0x91 does; the flag says whether this was the last record.
unfoldable pub take_report : Bool → ℕ → Engine → Engine
unfolding close_report resume_display
take_report last c s =
    if last
    then resume_display c (notify_success (codes "report " ++ s.curr_report_file) (close_report s))
    else goto rpt_display
        (refill (c ∷ []) (record s { f_rpt = append_if_open (contents s) s.f_rpt }))

unfoldable pub handle_rpt_data : ℕ → Engine → Outcome Engine
unfolding ends_report take_report
handle_rpt_data c s =
    if c == 0x91 then (do last ← ends_report s; ok (take_report last c s)) else put c s

-- The status is sent in active mode only.
unfoldable pub answer_poll : ℕ → Engine → Engine
answer_poll c s =
    if is_active s
    then refill (0x98 ∷ c ∷ s.status ∷ []) (send (s.status ∷ []) s)
    else refill (0x98 ∷ c ∷ []) s

unfoldable pub handle_rpt_display : ℕ → Engine → Outcome Engine
unfolding answer_poll
handle_rpt_display c s = do
  last ← back 1 s
  if last == 0x98 && c == 0x90
      then (do t ← take_snapshot s; ok (goto rpt_printer (answer_poll c t)))
      else put c s

unfoldable pub handle_rpt_printer : ℕ → Engine → Outcome Engine
handle_rpt_printer c s = if c == 0x98 then ok (goto rpt_data (refill (c ∷ []) s)) else put c s
