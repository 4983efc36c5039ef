-- ===== src/Parser/Bounds.antt =====
-- What every handler keeps of `buffer_len`.
use industrial_control.Prelude.{ℕ, ◌≤◌, ◌≡◌, refl, arith}
use industrial_control.Flags.{buffer_size}
use industrial_control.Outcome.{Ensures}
use industrial_control.Parser.State.{
  HeaderState, ss_unknown, ss_printer, rpt_display, hst_data, hst_display, hst_printer, log_display,
  log_printer, Env, Engine,
}
use industrial_control.Parser.Buffer.{put, back, take_snapshot}
use industrial_control.Parser.Header.{dispatch, step}

-- How many bytes there are for the handler of a state to read back: at least as many as it reads
-- with no test of the length, but for HST_Data, which reads five and has one.
abbrev pub needed : HeaderState → ℕ
needed ss_printer = 1
needed rpt_display = 1
needed hst_display = 1
needed hst_printer = 2
needed hst_data = 1
needed log_display = 1
needed log_printer = 2
needed _ = 0

pub record IsBounded (s : Engine) : Type 0 where
  pub within : s.buffer_len ≤ buffer_size
  pub enough : needed s.header_state ≤ s.buffer_len

dispatch-IsBounded :
    (q : HeaderState) (env : Env) (c : ℕ) (s : Engine)
    → s.header_state ≡ q
    → IsBounded s
    → Ensures IsBounded (dispatch q env c s)
unfolding dispatch put back take_snapshot
dispatch-IsBounded ss_unknown env c s e b = ground arith
dispatch-IsBounded _ env c s e b = ground arith

-- Handling a byte without a fault keeps that the buffer is within its 256 cells, and that it holds,
-- in the states whose handlers read back from its end with no test of the length, at least as many
-- bytes as they read: two in HST_Printer and LOG_Printer, one in SS_Printer and in the display
-- states of the other modes; but only one in HST_Data, whose test for the end mark reads back up to
-- five.
pub step-IsBounded :
    (env : Env) (c : ℕ) (s : Engine) → IsBounded s → Ensures IsBounded (step env c s)
step-IsBounded env c s b = dispatch-IsBounded s.header_state env c s refl b
