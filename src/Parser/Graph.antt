-- ===== src/Parser/Graph.antt =====
-- The transition diagram of the protocol, with the byte that takes each edge.
use industrial_control.Prelude.{ℕ, ◌≡◌, ◌⊎◌, if◌then◌else◌, refl, arith}
use industrial_control.Outcome.{Ensures}
use industrial_control.Parser.State.{
  HeaderState, ss_unknown, ss_pause, ss_display, ss_printer, rpt_start, rpt_data, rpt_display,
  rpt_printer, hst_start, hst_display, hst_printer, hst_printer_active, hst_data, log_start,
  log_data, log_display, log_printer, log_printer_active, Env, Engine,
}
use industrial_control.Parser.Buffer.{put, back, take_snapshot, notify_success, is_active}
use industrial_control.Parser.Header.{dispatch, step}
use industrial_control.Parser.Polls.{is_poll}

-- The transitions at a byte that is no poll, with that byte.
pub data ByteEdge : HeaderState → ℕ → HeaderState → Type 0 where
  found : {c : ℕ} → c ≡ 0x91 → ByteEdge ss_unknown c ss_display
  paused : {c : ℕ} → c ≡ 0x98 → ByteEdge ss_display c ss_pause
  resumed : {c : ℕ} → c ≡ 0x98 → ByteEdge ss_printer c ss_pause
  report_asked : {c : ℕ} → c ≡ 0x0D → ByteEdge ss_printer c rpt_start
  history_asked : {c : ℕ} → c ≡ 0x0D → ByteEdge ss_printer c hst_start
  log_asked : {c : ℕ} → c ≡ 0x0D → ByteEdge ss_printer c log_start
  report_began : {c : ℕ} → c ≡ 0x98 → ByteEdge rpt_start c rpt_data
  report_shown : {c : ℕ} → c ≡ 0x91 → ByteEdge rpt_data c rpt_display
  report_went_on : {c : ℕ} → c ≡ 0x98 → ByteEdge rpt_printer c rpt_data
  report_ended : {c : ℕ} → c ≡ 0x91 → ByteEdge rpt_data c ss_display
  report_ended_in_log : {c : ℕ} → c ≡ 0x91 → ByteEdge rpt_data c log_display
  history_began : {c : ℕ} → c ≡ 0x98 → ByteEdge hst_start c hst_display
  history_shown : {c : ℕ} → c ≡ 0x91 → ByteEdge hst_data c hst_display
  history_sent : {c : ℕ} → c ≡ 0x98 → ByteEdge hst_printer c hst_data
  history_went_on : {c : ℕ} → c ≡ 0x98 → ByteEdge hst_printer c hst_display
  history_sent_active : {c : ℕ} → c ≡ 0x98 → ByteEdge hst_printer_active c hst_data
  history_ended : {c : ℕ} → c ≡ 0x91 → ByteEdge hst_data c ss_display
  history_ended_in_log : {c : ℕ} → c ≡ 0x91 → ByteEdge hst_data c log_display
  log_began : {c : ℕ} → c ≡ 0x98 → ByteEdge log_start c log_data
  log_shown : {c : ℕ} → c ≡ 0x91 → ByteEdge log_data c log_display
  log_waited : {c : ℕ} → c ≡ 0x3B → ByteEdge log_display c log_data
  log_sent : {c : ℕ} → c ≡ 0x0D → ByteEdge log_printer c log_data
  log_went_on : {c : ℕ} → c ≡ 0x98 → ByteEdge log_printer c log_display
  log_ended : {c : ℕ} → c ≡ 0x98 → ByteEdge log_printer c ss_display
  log_report : {c : ℕ} → c ≡ 0x0D → ByteEdge log_printer c rpt_start
  log_history : {c : ℕ} → c ≡ 0x0D → ByteEdge log_printer c hst_start
  log_sent_active : {c : ℕ} → c ≡ 0x98 → ByteEdge log_printer_active c log_data

-- The transitions at a poll in active mode.
pub data ActivePoll : HeaderState → HeaderState → Type 0 where
  answered : ActivePoll ss_pause ss_printer
  start_report : ActivePoll ss_pause rpt_start
  start_history : ActivePoll ss_pause hst_start
  start_log : ActivePoll ss_pause log_start
  answered_in_report : ActivePoll rpt_display rpt_printer
  ask_history : ActivePoll hst_display hst_printer_active
  ask_log : ActivePoll log_display log_printer_active
  stop_log : ActivePoll log_display ss_printer
  start_report_in_log : ActivePoll log_display rpt_start
  start_history_in_log : ActivePoll log_display hst_start

-- The transitions at a poll out of active mode.
pub data PassivePoll : HeaderState → HeaderState → Type 0 where
  watch : PassivePoll ss_pause ss_printer
  watch_report : PassivePoll rpt_display rpt_printer
  watch_history : PassivePoll hst_display hst_printer
  watch_log : PassivePoll log_display log_printer

-- Where byte `c` takes the engine `s` in state `q`: at a poll along an edge for polls, and at any
-- other byte along an edge for that byte or nowhere.
abbrev pub Edge : HeaderState → ℕ → Engine → HeaderState → Type 0
Edge q c s r =
    if is_poll q c s
    then (if is_active s then ActivePoll q r else PassivePoll q r)
    else (q ≡ r)
    ⊎ ByteEdge q c r

ruleset bytes = (
  found, paused, resumed, report_asked, history_asked, log_asked, report_began, report_shown,
  report_went_on, report_ended, report_ended_in_log, history_began, history_shown, history_sent,
  history_went_on, history_sent_active, history_ended, history_ended_in_log, log_began, log_shown,
  log_waited, log_sent, log_went_on, log_ended, log_report, log_history, log_sent_active,
)

ruleset polls = (
  answered, start_report, start_history, start_log, answered_in_report, ask_history, ask_log,
  stop_log, start_report_in_log, start_history_in_log, watch, watch_report, watch_history,
  watch_log,
)

dispatch-Edge :
    (q : HeaderState) (env : Env) (c : ℕ) (s : Engine)
    → s.header_state ≡ q
    → Ensures (λ t. Edge q c s t.header_state) (dispatch q env c s)
unfolding dispatch put back take_snapshot notify_success
dispatch-Edge ss_unknown env c s e = grind (arith, bytes, polls)
dispatch-Edge _ env c s e = grind (arith, bytes, polls)

-- A byte handled without a fault follows the transition diagram. A poll, which is a 0x90 between
-- two records in the steady state and a 0x90 behind a 0x98 in the display states of the other
-- modes, always takes an edge for polls, of the active mode or of the passive mode as the options
-- say. Any other byte takes an edge for just that byte, or leaves the state as it is.
pub step-Edge :
    (env : Env) (c : ℕ) (s : Engine)
    → Ensures (λ t. Edge s.header_state c s t.header_state) (step env c s)
step-Edge env c s = dispatch-Edge s.header_state env c s refl
