-- ===== src/Parser/SteadyState.antt =====
-- The steady state handlers of Printer-Emulator/parser.c.
use industrial_control.Prelude.{
  ℕ, Bool, ◌&&◌, [], ◌∷◌, ◌++◌, leb, ◌==◌, if◌then◌else◌, Bytes, codes,
}
use industrial_control.Prelude.Bits.{has, raise, lower}
use industrial_control.Flags.{debug_dump, report_req, history_req, logmode_on_req, st_logmode}
use industrial_control.Outcome.{Outcome, ok, ◌>>=◌}
use industrial_control.Parser.State.{
  Engine, ss_pause, ss_display, ss_printer, rpt_start, hst_start, log_start,
}
use industrial_control.Parser.Buffer.{
  put, back, refill, goto, is_active, send, notify_success, take_snapshot,
}

unfoldable pub status_set_logmode : Engine → Engine
status_set_logmode s = record s { status = raise s.status st_logmode }

unfoldable pub status_clr_logmode : Engine → Engine
status_clr_logmode s = record s { status = lower s.status st_logmode }

unfoldable pub status_is_logmode : Engine → Bool
status_is_logmode s = has s.status st_logmode

unfoldable pub handle_ss_unknown : ℕ → Engine → Outcome Engine
handle_ss_unknown c s = if c == 0x91 then ok (goto ss_display (refill (0x91 ∷ []) s)) else put c s

-- Send the status and a request to the 1022, and put in the buffer `head`, the status and the
-- request.
abbrev pub send_request : Bytes → ℕ → Engine → Engine
send_request head letter s =
    refill (head ++ (s.status ∷ letter ∷ 0x0D ∷ [])) (send (s.status ∷ letter ∷ 0x0D ∷ []) s)

-- The branch for a pending Report request: 'R' initiates a Report.
unfoldable pub start_report : Bytes → Engine → Engine
start_report head s =
    goto rpt_start (send_request head 0x52 (record s { control = lower s.control report_req }))

-- The branch for a pending History request: 'I' initiates History.
unfoldable pub start_history : Bytes → Engine → Engine
start_history head s =
    goto hst_start (send_request head 0x49 (record s { control = lower s.control history_req }))

-- The branch for a pending Logmode On request: 'T' starts log mode.
unfoldable pub start_logmode : Bytes → Engine → Engine
unfolding status_set_logmode
start_logmode head s = goto log_start (
    send_request head 0x54 (
      notify_success (codes "logmode 1")
        (status_set_logmode (record s { control = lower s.control logmode_on_req }))))

unfoldable pub ss_pause_active : ℕ → Engine → Engine
unfolding start_report start_history start_logmode
ss_pause_active c s =
    if has s.control report_req
    then start_report (c ∷ []) s
    else if has s.control history_req
    then start_history (c ∷ []) s
    else if has s.control logmode_on_req
    then start_logmode (c ∷ []) s
    else goto ss_printer (refill (c ∷ s.status ∷ []) (send (s.status ∷ []) s))

-- The `switch` on the letter of an @ directive.
unfoldable pub request_of_letter : ℕ → ℕ → ℕ
request_of_letter letter control =
    if letter == 0x52
    then raise control report_req
    else if letter == 0x48
    then raise control history_req
    else if letter == 0x4C
    then raise control logmode_on_req
    else control

-- The body of the branch for an @ directive. The dump stores the byte before the reset.
unfoldable pub take_directive : ℕ → Engine → Outcome Engine
take_directive c s = do
  letter ← back 1 s
  let t = record s {
    control = if is_active s then request_of_letter letter s.control else s.control;
  }
  u ← if has s.options debug_dump then put c t else ok t
  ok (record u { buffer_len = 0 })

unfoldable pub handle_ss_pause : ℕ → Engine → Outcome Engine
unfolding take_directive ss_pause_active
handle_ss_pause c s =
    if c == 0x90
    then (if is_active s
        then ok (ss_pause_active c s)
        else ok (goto ss_printer (refill (c ∷ []) s)))
    else if leb 2 s.buffer_len
    then (do at ← back 2 s; if at == 0x40 && c == 0x0D then take_directive c s else put c s)
    else put c s

unfoldable pub handle_ss_display : ℕ → Engine → Outcome Engine
handle_ss_display c s =
    if c == 0x98 then (do t ← take_snapshot s; ok (goto ss_pause (refill (c ∷ []) t))) else put c s

unfoldable pub handle_ss_printer : ℕ → Engine → Outcome Engine
handle_ss_printer c s = if c == 0x98 then ok (goto ss_pause (refill (c ∷ []) s)) else do
  last ← back 1 s
  t ← put c s
  ok (
      if last == 0x52 && c == 0x0D
      then goto rpt_start t
      else if last == 0x49 && c == 0x0D
      then goto hst_start t
      else if last == 0x54 && c == 0x0D
      then goto log_start t
      else t)
