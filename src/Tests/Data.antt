-- ===== src/Tests/Data.antt =====
-- Engines, and what the system answers them, for the tests.
use industrial_control.Prelude.{ℕ, true, none, some, [], Bytes, codes, length, get_or}
use industrial_control.Parser.State.{Engine, Env, HeaderState}
use industrial_control.Filename.{Tm}
use industrial_control.Serial.{Termios}

-- 7 June 2025, 08:09:10.
abbrev pub a_time : Tm
a_time = record { tm_year = 125; tm_mon = 5; tm_mday = 7; tm_hour = 8; tm_min = 9; tm_sec = 10 }

abbrev pub good : Env
good = record { fopen_succeeds = true; local_time = some a_time }

abbrev pub always : ℕ → Env
always i = good

-- A state of the engine in active mode with the given control word, mode, status and record.
abbrev pub engine : ℕ → ℕ → HeaderState → ℕ → Bytes → Engine
engine options control q status cs = record {
  buffer = λ i. get_or cs i 0;
  buffer_len = length cs;
  options = options;
  control = control;
  header_state = q;
  status = status;
  hst_is_first = true;
  snapshot_interval = 1000;
  is_snapshot = true;
  f_rpt = none;
  f_hst = none;
  f_log = none;
  f_rdg = some [];
  curr_report_file = codes "./Data/report-20250607080910";
  curr_history_file = [];
  curr_log_file = [];
  client_mq_server = 7;
  events = [];
}

-- A terminal in its usual mode.
abbrev pub usual : Termios
usual = record {
  c_iflag = 0x500;
  c_oflag = 0x5;
  c_cflag = 0xbf;
  c_lflag = 0x8a3b;
  c_cc = λ i. 3;
  ispeed = 15;
  ospeed = 15;
}
