-- ===== src/Server/Laws.antt =====
-- What a message of a client does to the engine.
use industrial_control.Prelude.{
  ℕ, suc, ◌≡◌, Bool, true, false, not, ◌||◌, [], ◌∷◌, ◌++◌, ◌==◌, if◌then◌else◌, Bytes, codes,
  arith,
}
use industrial_control.Prelude.Bits.{has, raise, lower, masked, has-raise, has-lower}
use industrial_control.Flags.{
  report_req, history_req, logmode_on_req, logmode_off_req, message_src, st_logmode, active_mode,
  client_init, client_req_report, client_req_history, client_req_log, client_req_exit,
  server_request_success, server_action_success,
}
use industrial_control.Filename.{decimal}
use industrial_control.Outcome.{ok}
use industrial_control.Parser.State.{Engine, Env, ss_pause, rpt_start}
use industrial_control.Parser.Buffer.{msg_send_to_client}
use industrial_control.Parser.SteadyState.{start_report}
use industrial_control.Parser.Header.{step, dispatch}
use industrial_control.Parser.Polls.{sent}
use industrial_control.Parser.Notices.{notices}
use industrial_control.Server.{ClientReq, received, control_receive_msg}

-- The flag that the message asks for, if it does.
abbrev pub asked_flag : ℕ → Engine → ℕ
asked_flag mtype s =
    if mtype == client_req_report
    then report_req
    else if mtype == client_req_history
    then history_req
    else if mtype == client_req_log
    then (if has s.status st_logmode then logmode_off_req else logmode_on_req)
    else 0

-- A message of this type is answered.
abbrev pub is_answered : ℕ → Bool
is_answered mtype =
    mtype == client_init
    || mtype == client_req_report
    || mtype == client_req_history
    || mtype == client_req_log
    || mtype == client_req_exit

-- The type and the text of the answer.
abbrev pub answer : ℕ → Engine → ℕ × Bytes
answer mtype s =
    if mtype == client_init
    then (server_action_success, codes "logmode " ++ decimal (masked s.status st_logmode))
    else if mtype == client_req_report
    then (server_request_success, codes "report")
    else if mtype == client_req_history
    then (server_request_success, codes "history")
    else if mtype == client_req_exit
    then (server_request_success, codes "exit")
    else (server_request_success, [])

-- The state `t` behind a message of a client in state `s`.
pub record Serves (m : ClientReq) (s t : Engine) : Type 0 where
  pub queue : t.client_mq_server ≡ m.client_id
  pub answered : notices t.events ≡ (
      if is_answered m.mtype
      then (m.client_id, (answer m.mtype s).0, (answer m.mtype s).1) ∷ notices s.events
      else notices s.events)
  pub flags : t.control ≡ (
      if asked_flag m.mtype s == 0
      then s.control
      else raise (raise s.control (asked_flag m.mtype s)) message_src)
  pub quiet : (sent t.events ≡ sent s.events) × (t.header_state ≡ s.header_state)

-- A message of a client: its queue is the one that is answered to from now on; a message of a known
-- type is answered once, there; a request raises its own flag, by the log mode for a toggle, and the
-- mark of a client's request; nothing is sent to the 1022; and the engine goes on unless the message
-- asks for the end.
pub control_receive_msg-Serves :
    (n : ℕ) (m : ClientReq) (s : Engine)
    → Serves m s (control_receive_msg (received (suc n) m) s).0
      × ((control_receive_msg (received (suc n) m) s).1 ≡ not (m.mtype == client_req_exit))
unfolding control_receive_msg msg_send_to_client
control_receive_msg-Serves n m s = (
  record {
    queue = ground arith;
    answered = ground arith;
    flags = ground arith;
    quiet = ground arith;
  },
  ground arith,
)

-- The flags behind a Report request and behind the poll that sends it.
pub raised_flags :
    (w : ℕ)
    → (has (raise (raise w report_req) message_src) report_req ≡ true)
      × (has (lower (raise (raise w report_req) message_src) report_req) report_req ≡ false)
      × (has (lower (raise (raise w report_req) message_src) report_req) message_src ≡ true)
raised_flags w =
    let u = raise w report_req in
    let v = raise u message_src in
    (
      ground (arith, has-raise 0 7 u, has-raise 0 0 w),
      ground (arith, has-lower 0 v report_req),
      ground (arith, has-lower 7 v report_req, has-raise 7 7 u),
    )

-- The flags behind a History request, with no Report pending, and behind the poll that sends it.
pub raised_history_flags :
    (w : ℕ)
    → has w report_req ≡ false
    → (has (raise (raise w history_req) message_src) report_req ≡ false)
      × (has (raise (raise w history_req) message_src) history_req ≡ true)
      × (has (lower (raise (raise w history_req) message_src) history_req) message_src ≡ true)
raised_history_flags w e =
    let u = raise w history_req in
    let v = raise u message_src in
    (
      ground (arith, has-raise 0 7 u, has-raise 0 1 w, e),
      ground (arith, has-raise 1 7 u, has-raise 1 1 w),
      ground (arith, has-lower 7 v history_req, has-raise 7 7 u),
    )

-- A Report that a client asks for between two records is sent to the 1022 at its next poll: the
-- status byte, 'R' and a carriage return, once; the request is taken back and the Report starts,
-- with the mark of a client's request set and the client's queue as the one to be told of its end.
pub report_next_poll :
    (n : ℕ) (m : ClientReq) (env : Env) (s : Engine)
    → m.mtype ≡ client_req_report
    → s.header_state ≡ ss_pause
    → has s.options active_mode ≡ true
    → (t : Engine) × (step env 0x90 (control_receive_msg (received (suc n) m) s).0 ≡ ok t)
      × (t.header_state ≡ rpt_start)
      × (sent t.events ≡ (s.status ∷ b'R' ∷ 0x0D ∷ []) ∷ sent s.events)
      × (has t.control report_req ≡ false)
      × (has t.control message_src ≡ true)
      × (t.client_mq_server ≡ m.client_id)
unfolding control_receive_msg msg_send_to_client dispatch start_report
report_next_poll n m env s e q a =
    let u = (control_receive_msg (received (suc n) m) s).0 in
    let flags = raised_flags s.control in
    (
      start_report (0x90 ∷ []) u,
      ground (arith, flags),
      ground arith,
      ground arith,
      ground (arith, flags),
      ground (arith, flags),
      ground arith,
    )
