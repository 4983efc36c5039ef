-- ===== src/Parser/Files.antt =====
-- Which data files are open in which state, and that none is lost.
use industrial_control.Prelude.{ℕ, ◌≡◌, Option, none, refl, arith}
use industrial_control.Outcome.{Ensures}
use industrial_control.Parser.State.{
  HeaderState, ss_unknown, rpt_data, rpt_display, rpt_printer, hst_display, hst_printer,
  hst_printer_active, hst_data, log_start, Stream, Env, Engine,
}
use industrial_control.Parser.Buffer.{put, take_snapshot, notify_success}
use industrial_control.Parser.Header.{dispatch, step}
use industrial_control.Parser.Status.{
  StatusOf, HasStatus, steady_status, raise_logmode, lower_logmode, has_steady, has_logging,
}

-- The Report file is open in the Report sequence alone, behind its start.
abbrev pub ReportOf : HeaderState → Option Stream → Type 0
ReportOf rpt_data f = Unit
ReportOf rpt_display f = Unit
ReportOf rpt_printer f = Unit
ReportOf _ f = f ≡ none

-- The History file is open in the History sequence alone, behind its start.
abbrev pub HistoryOf : HeaderState → Option Stream → Type 0
HistoryOf hst_display f = Unit
HistoryOf hst_printer f = Unit
HistoryOf hst_printer_active f = Unit
HistoryOf hst_data f = Unit
HistoryOf _ f = f ≡ none

-- The log file is not open at the start of a log.
abbrev pub LogOf : HeaderState → Option Stream → Type 0
LogOf log_start f = f ≡ none
LogOf _ f = Unit

pub record HasFiles (s : Engine) : Type 0 where
  pub report : ReportOf s.header_state s.f_rpt
  pub history : HistoryOf s.header_state s.f_hst
  pub log : LogOf s.header_state s.f_log
  pub log_closed : s.status ≡ steady_status → s.f_log ≡ none

dispatch-HasFiles :
    (q : HeaderState) (env : Env) (c : ℕ) (s : Engine)
    → s.header_state ≡ q
    → StatusOf q s.status
    → HasFiles s
    → Ensures HasFiles (dispatch q env c s)
unfolding dispatch put take_snapshot notify_success
dispatch-HasFiles ss_unknown env c s e w h = ground arith
dispatch-HasFiles _ env c s e w h = ground (
  arith,
  raise_logmode s.status,
  lower_logmode s.status,
  has_steady s.status,
  has_logging s.status,
)

-- Where the status byte agrees with the state, handling a byte without a fault keeps that the Report file and the
-- History file are open only within their sequences, and the log file only while the status byte
-- says Log mode and not at the start of a log.
pub step-HasFiles :
    (env : Env) (c : ℕ) (s : Engine) → HasStatus s → HasFiles s → Ensures HasFiles (step env c s)
step-HasFiles env c s w h = dispatch-HasFiles s.header_state env c s refl w h
