-- ===== src/Parser/LogMode.antt =====
-- The Log mode handlers of Printer-Emulator/parser.c.
use industrial_control.Prelude.{
  ℕ, ◌-◌, not, ◌&&◌, none, some, [], ◌∷◌, ◌++◌, ◌==◌, if◌then◌else◌, Bytes, codes,
}
use industrial_control.Prelude.Bits.{has, raise, lower}
use industrial_control.Flags.{
  target, report_req, history_req, logmode_off_req, st_logmode, data_filename_size,
  desktop_disk_dir, target_disk_dir,
}
use industrial_control.Filename.{unique_filename}
use industrial_control.Outcome.{Outcome, ok, fault, read_outside, ◌>>=◌}
use industrial_control.Parser.State.{
  Env, Engine, opened, closed, ss_display, ss_printer, rpt_start, hst_start, log_data, log_display,
  log_printer, log_printer_active,
}
use industrial_control.Parser.Buffer.{
  put, back, refill, goto, segment, is_active, send, notify_success, take_snapshot, append_record,
  fresh,
}
use industrial_control.Parser.SteadyState.{
  status_set_logmode, status_clr_logmode, send_request, start_report, start_history,
}

-- Open the log file, named with the time.
unfoldable pub open_log : Env → Engine → Engine
unfolding unique_filename
open_log env s =
    let dir = if has s.options target then target_disk_dir else desktop_disk_dir in
    let (name, made) =
      unique_filename (dir ++ codes "/logmode-") [] data_filename_size env.local_time in
    if made
    then (if env.fopen_succeeds
        then record s {
          f_log = some (fresh name);
          curr_log_file = name;
          events = opened name ∷ s.events;
        }
        else record s { f_log = none; curr_log_file = name })
    else record s { curr_log_file = name }

unfoldable pub handle_log_start : Env → ℕ → Engine → Outcome Engine
unfolding open_log status_set_logmode
handle_log_start env c s =
    if c == 0x98
    then ok (goto log_data (refill (c ∷ []) (status_set_logmode (open_log env s))))
    else put c s

-- The `switch` on the letter that the 1022 sends behind an '@' in Log mode.
unfoldable pub log_request_of_letter : ℕ → ℕ → ℕ
log_request_of_letter letter control =
    if letter == 0x4C
    then raise control logmode_off_req
    else if letter == 0x52
    then raise control report_req
    else if letter == 0x48
    then raise control history_req
    else control

-- The record without a leading 0x98. With an empty buffer behind a stale 0x98 the length is -1,
-- which `fwrite` takes for the largest `size_t`.
unfoldable pub log_record : Engine → Outcome Bytes
unfolding segment
log_record s =
    if s.buffer 0 == 0x98
    then (if s.buffer_len == 0
        then fault read_outside
        else ok (segment s.buffer 1 (s.buffer_len - 1)))
    else ok (segment s.buffer 0 s.buffer_len)

-- Write the record unless it is a ";wait" string.
unfoldable pub write_log : Engine → Outcome Engine
write_log s = elim s.f_log [
  | none ↦ ok s
  | some f ↦
      if not (s.buffer 1 == 0x3B)
      then (do cs ← log_record s; ok (record s { f_log = some (append_record cs f) }))
      else ok s
]

unfoldable pub handle_log_data : ℕ → Engine → Outcome Engine
unfolding write_log
handle_log_data c s =
    if c == 0x91
    then (do
      t ← write_log (
          if is_active s && s.buffer 1 == 0x40
          then record s { control = log_request_of_letter (s.buffer 2) s.control }
          else s)
      ok (goto log_display (refill (c ∷ []) t)))
    else put c s

-- `if( f_log != NULL )` close the log file.
unfoldable pub close_log : Engine → Engine
close_log s = elim s.f_log [
  | none ↦ s
  | some f ↦ record s { f_log = none; events = closed f ∷ s.events }
]

-- The branch for a pending Logmode Off request.
unfoldable pub stop_logmode : ℕ → Engine → Engine
unfolding status_clr_logmode close_log
stop_logmode c s =
    let t = status_clr_logmode (record s { control = lower s.control logmode_off_req }) in
    let u = notify_success (codes "logmode 0 " ++ t.curr_log_file) t in
    goto ss_printer (refill (0x98 ∷ c ∷ u.status ∷ []) (close_log (send (u.status ∷ []) u)))

-- The answer to a poll in active mode.
unfoldable pub log_display_active : ℕ → Engine → Engine
unfolding stop_logmode start_report start_history
log_display_active c s =
    if has s.control logmode_off_req
    then stop_logmode c s
    else if has s.control report_req
    then start_report (0x98 ∷ c ∷ []) s
    else if has s.control history_req
    then start_history (0x98 ∷ c ∷ []) s
    else goto log_printer_active (send_request (0x98 ∷ c ∷ []) 0x4C s)

-- The answer to a poll.
unfoldable pub answer_log_poll : ℕ → Engine → Engine
unfolding log_display_active
answer_log_poll c s =
    if is_active s then log_display_active c s else goto log_printer (refill (0x98 ∷ c ∷ []) s)

-- What is no poll: another display or a ";wait" string behind a 0x98, or a byte of the display.
-- `last` is the byte before.
abbrev pub read_log_display : ℕ → ℕ → Engine → Outcome Engine
read_log_display last c s =
    if last == 0x98 && c == 0x91
    then ok (goto log_display (refill (0x98 ∷ c ∷ []) s))
    else if last == 0x98 && c == 0x3B
    then ok (goto log_data (refill (0x98 ∷ c ∷ []) s))
    else put c s

unfoldable pub handle_log_display : ℕ → Engine → Outcome Engine
unfolding answer_log_poll
handle_log_display c s = do
  last ← back 1 s
  if last == 0x98 && c == 0x90
      then (do t ← take_snapshot s; ok (answer_log_poll c t))
      else read_log_display last c s

-- What a 0x98 does: the end of Log mode if the status byte of the printer module says so.
unfoldable pub end_log_printer : ℕ → Engine → Engine
unfolding status_clr_logmode close_log
end_log_printer c s =
    if not (has (s.buffer 2) st_logmode)
    then goto ss_display (refill (c ∷ []) (status_clr_logmode (close_log s)))
    else goto log_display (refill (c ∷ []) s)

unfoldable pub handle_log_printer : ℕ → Engine → Outcome Engine
unfolding end_log_printer
handle_log_printer c s = if c == 0x98 then ok (end_log_printer c s) else (do
  last ← back 1 s
  t ← put c s
  ok (
      if last == 0x4C && c == 0x0D
      then goto log_data (record t { buffer_len = 0 })
      else if last == 0x52 && c == 0x0D
      then goto rpt_start t
      else if last == 0x49 && c == 0x0D
      then goto hst_start t
      else t))

unfoldable pub handle_log_printer_active : ℕ → Engine → Outcome Engine
handle_log_printer_active c s =
    if c == 0x98 then ok (goto log_data (refill (c ∷ []) s)) else put c s
