-- ===== src/Parser/Status.antt =====
-- The printer status byte agrees with the mode of the protocol.
use industrial_control.Prelude.{ℕ, ◌≡◌, ◌⊎◌, inl, inr, true, false, refl, arith}
use industrial_control.Prelude.Bits.{has, raise, lower}
use industrial_control.Flags.{st_logmode}
use industrial_control.Outcome.{Ensures}
use industrial_control.Parser.State.{
  HeaderState, ss_unknown, ss_pause, ss_display, ss_printer, log_data, log_display, log_printer,
  log_printer_active, Env, Engine,
}
use industrial_control.Parser.Buffer.{put, take_snapshot, notify_success}
use industrial_control.Parser.Header.{dispatch, step}

-- Ready and powered; and in log mode besides.
abbrev pub steady_status : ℕ
steady_status = 0x44

abbrev pub logging_status : ℕ
logging_status = 0x54

-- The status that a state may have.
abbrev pub StatusOf : HeaderState → ℕ → Type 0
StatusOf ss_unknown w = w ≡ steady_status
StatusOf ss_pause w = w ≡ steady_status
StatusOf ss_display w = w ≡ steady_status
StatusOf ss_printer w = w ≡ steady_status
StatusOf log_data w = w ≡ logging_status
StatusOf log_display w = w ≡ logging_status
StatusOf log_printer w = w ≡ logging_status
StatusOf log_printer_active w = w ≡ logging_status
StatusOf _ w = (w ≡ steady_status) ⊎ (w ≡ logging_status)

abbrev pub HasStatus : Engine → Type 0
HasStatus s = StatusOf s.header_state s.status

pub raise_logmode :
    (w : ℕ) → (w ≡ steady_status) ⊎ (w ≡ logging_status) → raise w st_logmode ≡ logging_status
unfolding raise
raise_logmode w (inl e) = rw e
raise_logmode w (inr e) = rw e

pub lower_logmode :
    (w : ℕ) → (w ≡ steady_status) ⊎ (w ≡ logging_status) → lower w st_logmode ≡ steady_status
unfolding lower
lower_logmode w (inl e) = rw e
lower_logmode w (inr e) = rw e

pub has_steady : (w : ℕ) → w ≡ steady_status → has w st_logmode ≡ false
unfolding has
has_steady w e = rw e

pub has_logging : (w : ℕ) → w ≡ logging_status → has w st_logmode ≡ true
unfolding has
has_logging w e = rw e

dispatch-HasStatus :
    (q : HeaderState) (env : Env) (c : ℕ) (s : Engine)
    → s.header_state ≡ q
    → StatusOf q s.status
    → Ensures HasStatus (dispatch q env c s)
unfolding dispatch put take_snapshot notify_success
dispatch-HasStatus ss_unknown env c s e h = ground arith
dispatch-HasStatus _ env c s e h = ground (
  arith,
  raise_logmode s.status,
  lower_logmode s.status,
  has_steady s.status,
  has_logging s.status,
)

-- The status byte is 0x44 in the steady states, 0x54 in the Log mode states behind the start of a
-- log, and one of the two anywhere else, and handling a byte without a fault keeps this.
pub step-HasStatus :
    (env : Env) (c : ℕ) (s : Engine) → HasStatus s → Ensures HasStatus (step env c s)
step-HasStatus env c s h = dispatch-HasStatus s.header_state env c s refl h
