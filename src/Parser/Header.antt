-- ===== src/Parser/Header.antt =====
-- `parse_open`, `parse_header` and `parse_close` of Printer-Emulator/parser.c.
use industrial_control.Prelude.{
  ℕ, suc, ◌+◌, Bool, true, false, ◌||◌, Option, none, some, List, [], ◌∷◌, ltb, leb, if◌then◌else◌,
  Bytes,
}
use industrial_control.Flags.{st_prwon, st_ready}
use industrial_control.Prelude.Bits.{raise}
use industrial_control.Outcome.{Outcome, ok, ◌>>=◌}
use industrial_control.Parser.State.{
  HeaderState, ss_unknown, ss_pause, ss_display, ss_printer, rpt_start, rpt_data, rpt_display,
  rpt_printer, hst_start, hst_display, hst_printer, hst_printer_active, hst_data, log_start,
  log_data, log_display, log_printer, log_printer_active, Stream, Event, closed, Env, Engine,
}
use industrial_control.Parser.SteadyState.{
  handle_ss_unknown, handle_ss_pause, handle_ss_display, handle_ss_printer,
}
use industrial_control.Parser.Report.{
  handle_rpt_start, handle_rpt_data, handle_rpt_display, handle_rpt_printer,
}
use industrial_control.Parser.History.{
  handle_hst_start, handle_hst_display, handle_hst_printer, handle_hst_printer_active,
  handle_hst_data,
}
use industrial_control.Parser.LogMode.{
  handle_log_start, handle_log_data, handle_log_display, handle_log_printer,
  handle_log_printer_active,
}

-- `parse_open` at time `now`; `readings` says whether `fopen` of readings.txt succeeded. The
-- globals that it does not set are zero when the program starts.
unfoldable pub parse_open : ℕ → ℕ → ℕ → Bool → Engine
parse_open options control now readings = record {
  buffer = λ _. 0;
  buffer_len = 0;
  options = options;
  control = control;
  header_state = ss_unknown;
  status = raise st_prwon st_ready;
  hst_is_first = false;
  snapshot_interval = now;
  is_snapshot = false;
  f_rpt = none;
  f_hst = none;
  f_log = none;
  f_rdg = if readings then some [] else none;
  curr_report_file = [];
  curr_history_file = [];
  curr_log_file = [];
  client_mq_server = 0;
  events = [];
}

-- The `switch` of `parse_header`.
unfoldable pub dispatch : HeaderState → Env → ℕ → Engine → Outcome Engine
unfolding handle_ss_unknown handle_ss_pause handle_ss_display handle_ss_printer handle_rpt_start
    handle_rpt_data handle_rpt_display handle_rpt_printer handle_hst_start handle_hst_display
    handle_hst_printer handle_hst_printer_active handle_hst_data handle_log_start handle_log_data
    handle_log_display handle_log_printer handle_log_printer_active
dispatch ss_unknown env c s = handle_ss_unknown c s
dispatch ss_pause env c s = handle_ss_pause c s
dispatch ss_display env c s = handle_ss_display c s
dispatch ss_printer env c s = handle_ss_printer c s
dispatch rpt_start env c s = handle_rpt_start env c s
dispatch rpt_data env c s = handle_rpt_data c s
dispatch rpt_display env c s = handle_rpt_display c s
dispatch rpt_printer env c s = handle_rpt_printer c s
dispatch hst_start env c s = handle_hst_start env c s
dispatch hst_display env c s = handle_hst_display c s
dispatch hst_printer env c s = handle_hst_printer c s
dispatch hst_printer_active env c s = handle_hst_printer_active c s
dispatch hst_data env c s = handle_hst_data c s
dispatch log_start env c s = handle_log_start env c s
dispatch log_data env c s = handle_log_data c s
dispatch log_display env c s = handle_log_display c s
dispatch log_printer env c s = handle_log_printer c s
dispatch log_printer_active env c s = handle_log_printer_active c s

-- One round of the loop.
abbrev pub step : Env → ℕ → Engine → Outcome Engine
step env c s = dispatch s.header_state env c s

-- The loop from index `i` on; `env` holds what the system answers at each index.
unfoldable pub parse_bytes : (ℕ → Env) → ℕ → Bytes → Engine → Outcome Engine
parse_bytes env i [] s = ok s
parse_bytes env i (c ∷ cs) s = do t ← step (env i) c s; parse_bytes env (suc i) cs t

-- The snapshot timer: five seconds since the last snapshot, or a clock that was set back.
unfoldable pub snapshot_timer : ℕ → Engine → Engine
snapshot_timer now s =
    if leb (s.snapshot_interval + 5) now || ltb (now + 1) s.snapshot_interval
    then record s { snapshot_interval = now; is_snapshot = true }
    else s

unfoldable pub parse_header : ℕ → (ℕ → Env) → Bytes → Engine → Outcome Engine
unfolding snapshot_timer
parse_header now env received s = parse_bytes env 0 received (snapshot_timer now s)

abbrev closing : Option Stream → List Event → List Event
closing none es = es
closing (some f) es = closed f ∷ es

-- The files are closed when the program ends.
unfoldable pub parse_close : Engine → List Event
parse_close s = closing s.f_log (closing s.f_hst (closing s.f_rpt s.events))
