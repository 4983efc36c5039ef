-- ===== src/Parser/State.antt =====
-- The globals of Printer-Emulator/parser.c, with the queue that Common/message_services.c answers
-- to, and what a handler does to the outside.
use industrial_control.Prelude.{ℕ, Bool, Option, List, Bytes}
use industrial_control.Filename.{Tm}

-- `state_t`; `LAST_STATE` is never assigned and is left out.
pub data HeaderState : Type 0 where
  ss_unknown ss_pause ss_display ss_printer : HeaderState
  rpt_start rpt_data rpt_display rpt_printer : HeaderState
  hst_start hst_display hst_printer hst_printer_active hst_data : HeaderState
  log_start log_data log_display log_printer log_printer_active : HeaderState

-- An open data file: its path and what has been written to it.
pub record Stream : Type 0 where
  pub path : Bytes
  pub written : Bytes

-- What the engine does to the outside.
pub data Event : Type 0 where
  -- `write( *p_port, tx_buf, n )`
  transmit : Bytes → Event
  -- `msgsnd` to this client queue of a message with this type and text
  notify : ℕ → ℕ → Bytes → Event
  -- `fopen( path, "w" )` of a data file, which succeeded
  opened : Bytes → Event
  -- `fclose` of a data file, with what was written to it
  closed : Stream → Event
  -- a record written over the start of readings.txt
  snapshot : Bytes → Event

-- What the system answers while one byte is handled: a handler makes at most one `fopen` and one
-- `localtime`.
pub record Env : Type 0 where
  pub fopen_succeeds : Bool
  pub local_time : Option Tm

pub record Engine : Type 0 where
  -- `buffer`, by index; the cells from `buffer_len` on hold what earlier records left there
  pub buffer : ℕ → ℕ
  pub buffer_len : ℕ
  -- `*p_options` and `*p_control`
  pub options : ℕ
  pub control : ℕ
  pub header_state : HeaderState
  pub status : ℕ
  pub hst_is_first : Bool
  pub snapshot_interval : ℕ
  pub is_snapshot : Bool
  -- `none` is NULL
  pub f_rpt : Option Stream
  pub f_hst : Option Stream
  pub f_log : Option Stream
  -- the contents of readings.txt
  pub f_rdg : Option Bytes
  pub curr_report_file : Bytes
  pub curr_history_file : Bytes
  pub curr_log_file : Bytes
  -- the client queue that message_services.c answers to
  pub client_mq_server : ℕ
  -- what was done to the outside, latest first
  pub events : List Event
