-- ===== src/Parser/Requests.antt =====
-- A pending request stays pending until it is sent to the 1022.
use industrial_control.Prelude.{
  ℕ, ◌-◌, ◌^◌, ◌≡◌, ◌&&◌, ◌==◌, true, false, if◌then◌else◌, refl, arith,
}
use industrial_control.Prelude.Bits.{has, lower, test_bit, has-raise, has-lower}
use industrial_control.Flags.{report_req, history_req, logmode_on_req, logmode_off_req, message_src}
use industrial_control.Outcome.{Outcome, ok, fault, Ensures}
use industrial_control.Parser.State.{
  HeaderState, ss_unknown, ss_pause, log_display, ss_printer, rpt_start, hst_start, log_start, Env,
  Engine,
}
use industrial_control.Parser.Buffer.{put, back, take_snapshot, notify_success, is_active}
use industrial_control.Parser.Polls.{is_poll}
use industrial_control.Parser.SteadyState.{request_of_letter}
use industrial_control.Parser.LogMode.{log_request_of_letter}
use industrial_control.Parser.Header.{dispatch, step}

-- The request that the answer to a poll carries out in state `q`, by the order in which the
-- handlers test the flags.
abbrev pub chosen : HeaderState → Engine → ℕ
chosen ss_pause s =
    if has s.control report_req
    then report_req
    else if has s.control history_req
    then history_req
    else if has s.control logmode_on_req
    then logmode_on_req
    else 0
chosen log_display s =
    if has s.control logmode_off_req
    then logmode_off_req
    else if has s.control report_req
    then report_req
    else if has s.control history_req
    then history_req
    else 0
chosen _ s = 0

-- The pending request `flag` is taken back as state `goal` is entered, if byte `c` polls an active
-- printer module and the request is the one to choose; else it stays pending.
abbrev pub Kept : ℕ → HeaderState → HeaderState → ℕ → Engine → Engine → Type 0
Kept flag goal q c s t =
    if is_active s && is_poll q c s && chosen q s == flag
    then (has t.control flag ≡ false) × (t.header_state ≡ goal)
    else has t.control flag ≡ true

-- The directives of the 1022 only raise flags.
request_of_letter-has :
    (k letter w : ℕ) → has w (2 ^ k) ≡ true → has (request_of_letter letter w) (2 ^ k) ≡ true
unfolding request_of_letter
request_of_letter-has k letter w h =
    ground (arith, has-raise k 0 w, has-raise k 1 w, has-raise k 2 w)

log_request_of_letter-has :
    (k letter w : ℕ) → has w (2 ^ k) ≡ true → has (log_request_of_letter letter w) (2 ^ k) ≡ true
unfolding log_request_of_letter
log_request_of_letter-has k letter w h =
    ground (arith, has-raise k 0 w, has-raise k 1 w, has-raise k 3 w)

-- Flag `k` after another flag is taken back.
abbrev Lowered : ℕ → ℕ → ℕ → Type 0
Lowered k w m = has (lower w m) (2 ^ k) ≡ (has w (2 ^ k) && test_bit (0xffff_ffff - m) k)

-- What becomes of flag `k` wherever a handler changes the flags.
flag_laws :
    (k : ℕ) (s : Engine)
    → Lowered k s.control report_req
      × Lowered k s.control history_req
      × Lowered k s.control logmode_on_req
      × Lowered k s.control logmode_off_req
      × Lowered k s.control message_src
      × Lowered k (lower s.control logmode_on_req) message_src
      × Lowered k (lower s.control logmode_off_req) message_src
      × (has s.control (2 ^ k) ≡ true
          → has (request_of_letter (s.buffer (s.buffer_len - 1)) s.control) (2 ^ k) ≡ true)
      × (has s.control (2 ^ k) ≡ true
          → has (log_request_of_letter (s.buffer 2) s.control) (2 ^ k) ≡ true)
flag_laws k s = (
  has-lower k s.control report_req,
  has-lower k s.control history_req,
  has-lower k s.control logmode_on_req,
  has-lower k s.control logmode_off_req,
  has-lower k s.control message_src,
  has-lower k (lower s.control logmode_on_req) message_src,
  has-lower k (lower s.control logmode_off_req) message_src,
  request_of_letter-has k (s.buffer (s.buffer_len - 1)) s.control,
  log_request_of_letter-has k (s.buffer 2) s.control,
)

module _ (env : Env) (c : ℕ) (s : Engine) where
  keeps_report :
      (q : HeaderState)
      → s.header_state ≡ q
      → has s.control report_req ≡ true
      → Ensures (Kept report_req rpt_start q c s) (dispatch q env c s)
  unfolding dispatch put back take_snapshot notify_success
  keeps_report ss_unknown e h = ground arith
  keeps_report _ e h = ground (arith, flag_laws 0 s)

  keeps_history :
      (q : HeaderState)
      → s.header_state ≡ q
      → has s.control history_req ≡ true
      → Ensures (Kept history_req hst_start q c s) (dispatch q env c s)
  unfolding dispatch put back take_snapshot notify_success
  keeps_history ss_unknown e h = ground arith
  keeps_history _ e h = ground (arith, flag_laws 1 s)

  keeps_logmode_on :
      (q : HeaderState)
      → s.header_state ≡ q
      → has s.control logmode_on_req ≡ true
      → Ensures (Kept logmode_on_req log_start q c s) (dispatch q env c s)
  unfolding dispatch put back take_snapshot notify_success
  keeps_logmode_on ss_unknown e h = ground arith
  keeps_logmode_on _ e h = ground (arith, flag_laws 2 s)

  keeps_logmode_off :
      (q : HeaderState)
      → s.header_state ≡ q
      → has s.control logmode_off_req ≡ true
      → Ensures (Kept logmode_off_req ss_printer q c s) (dispatch q env c s)
  unfolding dispatch put back take_snapshot notify_success
  keeps_logmode_off ss_unknown e h = ground arith
  keeps_logmode_off _ e h = ground (arith, flag_laws 3 s)

pub record KeepsRequests (c : ℕ) (s t : Engine) : Type 0 where
  pub report : has s.control report_req ≡ true → Kept report_req rpt_start s.header_state c s t
  pub history : has s.control history_req ≡ true → Kept history_req hst_start s.header_state c s t
  pub logmode_on :
      has s.control logmode_on_req ≡ true → Kept logmode_on_req log_start s.header_state c s t
  pub logmode_off :
      has s.control logmode_off_req ≡ true → Kept logmode_off_req ss_printer s.header_state c s t

-- The parts of `KeepsRequests` on the state that the code goes on in.
collect :
    (c : ℕ) (s : Engine) (m : Outcome Engine)
    → (has s.control report_req ≡ true → Ensures (Kept report_req rpt_start s.header_state c s) m)
    → (has s.control history_req ≡ true → Ensures (Kept history_req hst_start s.header_state c s) m)
    → (has s.control logmode_on_req ≡ true
        → Ensures (Kept logmode_on_req log_start s.header_state c s) m)
    → (has s.control logmode_off_req ≡ true
        → Ensures (Kept logmode_off_req ss_printer s.header_state c s) m)
    → Ensures (KeepsRequests c s) m
collect c s (ok t) r h on off = record {
  report = r;
  history = h;
  logmode_on = on;
  logmode_off = off;
}
collect c s (fault f) r h on off = tt

-- In active mode a poll carries out the first pending request in the order in which its state
-- tests them: the request is taken back, and the start of the Report, of the History sequence or of
-- the log is entered, or, for the end of Log mode, the steady state. A byte that is no such poll,
-- and a poll that carries out another request, leave a pending request pending. This is of bytes
-- handled without a fault.
pub step-KeepsRequests :
    (env : Env) (c : ℕ) (s : Engine) → Ensures (KeepsRequests c s) (step env c s)
step-KeepsRequests env c s =
    collect c s (step env c s) (keeps_report env c s s.header_state refl)
      (keeps_history env c s s.header_state refl) (keeps_logmode_on env c s s.header_state refl)
      (keeps_logmode_off env c s s.header_state refl)
