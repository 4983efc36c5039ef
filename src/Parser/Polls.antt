-- ===== src/Parser/Polls.antt =====
-- What the engine sends to the 1022, and when.
use industrial_control.Prelude.{
  ℕ, ◌-◌, ◌≡◌, Bool, false, ◌&&◌, List, [], ◌∷◌, ◌==◌, if◌then◌else◌, Bytes, refl, arith,
}
use industrial_control.Prelude.Bits.{has}
use industrial_control.Flags.{report_req, history_req, logmode_on_req, logmode_off_req}
use industrial_control.Outcome.{Ensures}
use industrial_control.Parser.State.{
  HeaderState, ss_unknown, ss_pause, rpt_display, hst_display, log_display, Event, transmit, notify,
  opened, closed, snapshot, Env, Engine,
}
use industrial_control.Parser.Buffer.{put, back, take_snapshot, notify_success, is_active}
use industrial_control.Parser.Header.{dispatch, step}

-- The messages sent to the 1022, latest first.
abbrev pub sent : List Event → List Bytes
sent [] = []
sent (transmit cs ∷ es) = cs ∷ sent es
sent (notify _ _ _ ∷ es) = sent es
sent (opened _ ∷ es) = sent es
sent (closed _ ∷ es) = sent es
sent (snapshot _ ∷ es) = sent es

-- A 0x90 polls the printer module: between records in the steady state, and behind a 0x98 in the
-- display states of the other modes.
abbrev pub is_poll : HeaderState → ℕ → Engine → Bool
is_poll ss_pause c s = c == 0x90
is_poll rpt_display c s = s.buffer (s.buffer_len - 1) == 0x98 && c == 0x90
is_poll hst_display c s = s.buffer (s.buffer_len - 1) == 0x98 && c == 0x90
is_poll log_display c s = s.buffer (s.buffer_len - 1) == 0x98 && c == 0x90
is_poll _ c s = false

-- A request: a letter and a carriage return.
abbrev pub request : ℕ → Bytes
request letter = letter ∷ 0x0D ∷ []

-- What an answer to a poll asks for, by the state and the pending requests.
abbrev pub requested : HeaderState → Engine → Bytes
requested ss_pause s =
    if has s.control report_req
    then request b'R'
    else if has s.control history_req
    then request b'I'
    else if has s.control logmode_on_req
    then request b'T'
    else []
requested hst_display s = if s.hst_is_first then request b'T' else request b'H'
requested log_display s =
    if has s.control logmode_off_req
    then []
    else if has s.control report_req
    then request b'R'
    else if has s.control history_req
    then request b'I'
    else request b'L'
requested _ s = []

-- The messages sent up to the state `t` behind `s`.
abbrev pub Answers : HeaderState → ℕ → Engine → Engine → Type 0
Answers q c s t = sent t.events ≡ (
    if is_active s && is_poll q c s
    then (t.status ∷ requested q s) ∷ sent s.events
    else sent s.events)

dispatch-Answers :
    (q : HeaderState) (env : Env) (c : ℕ) (s : Engine)
    → s.header_state ≡ q
    → Ensures (Answers q c s) (dispatch q env c s)
unfolding dispatch put back take_snapshot notify_success
dispatch-Answers ss_unknown env c s e = ground arith
dispatch-Answers _ env c s e = ground arith

-- The engine writes to the port in active mode only, and there exactly once for each poll: the
-- status byte that it then has, and behind it the request that the state and the pending requests
-- call for. A byte that is no poll is never answered. This is of bytes handled without a fault.
pub step-Answers :
    (env : Env) (c : ℕ) (s : Engine) → Ensures (Answers s.header_state c s) (step env c s)
step-Answers env c s = dispatch-Answers s.header_state env c s refl
