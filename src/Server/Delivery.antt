-- ===== src/Server/Delivery.antt =====
-- A Report and a History sequence from the request of a client to the file and the message that it
-- gets.
use mathlib.Core.Path.{subst}
use industrial_control.Prelude.{
  ℕ, suc, ◌≡◌, true, false, List, [], ◌∷◌, ◌++◌, Bytes, All, codes, ◌∙◌, sym, arith,
}
use industrial_control.Prelude.Bits.{has}
use industrial_control.Flags.{
  message_src, active_mode, target, report_req, client_req_report, client_req_history,
  server_request_success, server_action_success,
}
use industrial_control.Parser.State.{HeaderState, Engine, Env, ss_pause, rpt_start, hst_start}
use industrial_control.Parser.Buffer.{msg_send_to_client}
use industrial_control.Parser.SteadyState.{start_report, start_history}
use industrial_control.Parser.Header.{step, dispatch, parse_bytes}
use industrial_control.Parser.Notices.{notices}
use industrial_control.Parser.Triple.{Yields, Yields-mono, at_state, then_bytes}
use industrial_control.Parser.Transfer.{
  Kind, report, history, label, Delivers, job_of, closings, is_open, is_last,
}
use industrial_control.Parser.Transfer.Steps.{Part, IsRecord, IsPause}
use industrial_control.Parser.Transfer.Records.{IsPart, wire, records}
use industrial_control.Parser.Transfer.Whole.{report_path, report_session}
use industrial_control.Parser.Transfer.History.{history_path, history_session}
use industrial_control.Server.{ClientReq, received, control_receive_msg}
use industrial_control.Server.Laws.{raised_flags, raised_history_flags, control_receive_msg-Serves}

-- The sequence of a client, which has been answered with `taken`, is about to start.
pub record Starts (begin : HeaderState) (taken : Bytes) (m : ClientReq) (s t : Engine)
    : Type 0 where
  pub state : t.header_state ≡ begin
  pub options : t.options ≡ s.options
  pub readings : t.f_rdg ≡ s.f_rdg
  pub done : closings t.events ≡ closings s.events
  pub told : notices t.events ≡ (m.client_id, server_request_success, taken) ∷ notices s.events
  pub queue : t.client_mq_server ≡ m.client_id
  pub asked : has t.control message_src ≡ true

-- Since the state `s` one data file has been closed, `path` with `text`, and the client has got two
-- messages and no other client has got any: `taken` for its request, and then the name of the file.
pub record HandsOver (kind : Kind) (path text taken : Bytes) (m : ClientReq) (s t : Engine)
    : Type 0 where
  pub closed_last : closings t.events ≡ record { path = path; written = text } ∷ closings s.events
  pub told :
      notices t.events
      ≡ (m.client_id, server_action_success, label kind ++ path)
        ∷ (m.client_id, server_request_success, taken)
        ∷ notices s.events

pub poll-Starts :
    (n : ℕ) (m : ClientReq) (env : Env) (s : Engine)
    → m.mtype ≡ client_req_report
    → s.header_state ≡ ss_pause
    → has s.options active_mode ≡ true
    → Yields
        (Starts rpt_start (codes "report") m s)
        (step env 0x90 (control_receive_msg (received (suc n) m) s).0)
unfolding control_receive_msg msg_send_to_client dispatch start_report
poll-Starts n m env s e q a =
    let u = (control_receive_msg (received (suc n) m) s).0 in
    let flags = raised_flags s.control in
    at_state _ ss_pause env 0x90 u ((control_receive_msg-Serves n m s).0.quiet.1 ∙ q)
      (ground (arith, flags))

history_poll-Starts :
    (n : ℕ) (m : ClientReq) (env : Env) (s : Engine)
    → m.mtype ≡ client_req_history
    → s.header_state ≡ ss_pause
    → has s.options active_mode ≡ true
    → has s.control report_req ≡ false
    → Yields
        (Starts hst_start (codes "history") m s)
        (step env 0x90 (control_receive_msg (received (suc n) m) s).0)
unfolding control_receive_msg msg_send_to_client dispatch start_history
history_poll-Starts n m env s e q a free =
    let u = (control_receive_msg (received (suc n) m) s).0 in
    let flags = raised_history_flags s.control free in
    at_state _ ss_pause env 0x90 u ((control_receive_msg-Serves n m s).0.quiet.1 ∙ q)
      (ground (arith, flags))

-- With the mark of a client's request, the client that is answered to is told of the file.
pub Delivers-told :
    (kind : Kind) (path text : Bytes) (t u : Engine)
    → has t.control message_src ≡ true
    → Delivers kind path text (job_of t) u
    → notices u.events
      ≡ (t.client_mq_server, server_action_success, label kind ++ path) ∷ notices t.events
Delivers-told kind path text t u asked d = rw asked at d.told

-- What the sequence delivers, is handed over to the client that asked for it.
Delivers-HandsOver :
    (kind : Kind) (begin : HeaderState) (path text taken : Bytes) (m : ClientReq) (s t u : Engine)
    → Starts begin taken m s t
    → Delivers kind path text (job_of t) u
    → HandsOver kind path text taken m s u
Delivers-HandsOver kind begin path text taken m s t u h d = record {
  closed_last = rw h.done at d.closed_last;
  told = rw (h.queue, h.told) at (Delivers-told kind path text t u h.asked d);
}

-- A client asks for a Report between two records, on the target in active mode, with readings.txt
-- open and the Report file to be opened. Then the next poll and the Report that the 1022 sends,
-- with records that fit in the buffer, texts and answers between them that fit and hold no 0x98,
-- and the last record alone ending with ";end" and a carriage return, are handled without a fault;
-- the file /mnt/ramdisk/lsc/report.txt is closed with the records as they were sent, each with its
-- header, and nothing else; and the client gets two messages on its queue and no other client gets
-- any: that the request has been taken, and behind it the name of the file.
pub report_delivery :
    (n : ℕ) (m : ClientReq) (env : ℕ → Env) (i : ℕ) (parts : List Part) (last : Bytes) (s : Engine)
    → m.mtype ≡ client_req_report
    → s.header_state ≡ ss_pause
    → has s.options active_mode ≡ true
    → has s.options target ≡ true
    → (env (suc i)).fopen_succeeds ≡ true
    → is_open s.f_rdg ≡ true
    → All (IsPart report) parts
    → IsRecord report last
    → is_last (0x98 ∷ last) ≡ true
    → Yields (HandsOver report report_path (records parts last) (codes "report") m s) (
        parse_bytes env i
          (0x90 ∷ 0x98 ∷ wire parts last)
          (control_receive_msg (received (suc n) m) s).0)
report_delivery n m env i parts last s e q a o f r ps c l =
    then_bytes (Starts rpt_start (codes "report") m s) _ env i 0x90 (0x98 ∷ wire parts last)
      (control_receive_msg (received (suc n) m) s).0 (poll-Starts n m (env i) s e q a)
      (λ t h.
        Yields-mono _ _ (parse_bytes env (suc i) (0x98 ∷ wire parts last) t)
          (λ u. Delivers-HandsOver report rpt_start _ _ _ m s t u h)
          (report_session env (suc i) parts last t h.state (rw h.options o) f
            (subst (λ x. is_open x ≡ true) (sym h.readings) r) ps c l))

-- A client asks for History between two records, on the target in active mode, with no Report
-- pending, readings.txt open and the History file to be opened. Then the next poll and the sequence
-- that the 1022 sends, with an answer to the first poll and texts and answers between the records
-- that fit and hold no 0x98, records of four bytes or more that fit in the buffer, and the last
-- record alone ending with ";end" and a carriage return, are handled without a fault; the file
-- /mnt/ramdisk/lsc/history.txt is closed with the records as they were sent, each with its header,
-- and nothing else; and the client gets two messages on its queue and no other client gets any:
-- that the request has been taken, and behind it the name of the file.
pub history_delivery :
    (n : ℕ) (m : ClientReq) (env : ℕ → Env) (i : ℕ) (reply : Bytes) (parts : List Part)
    (last : Bytes) (s : Engine)
    → m.mtype ≡ client_req_history
    → s.header_state ≡ ss_pause
    → has s.options active_mode ≡ true
    → has s.options target ≡ true
    → has s.control report_req ≡ false
    → (env (suc i)).fopen_succeeds ≡ true
    → is_open s.f_rdg ≡ true
    → IsPause [] reply
    → All (IsPart history) parts
    → IsRecord history last
    → is_last (0x98 ∷ last) ≡ true
    → Yields (HandsOver history history_path (records parts last) (codes "history") m s) (
        parse_bytes env i
          (0x90 ∷ 0x98 ∷ 0x90 ∷ (reply ++ (0x98 ∷ wire parts last)))
          (control_receive_msg (received (suc n) m) s).0)
history_delivery n m env i reply parts last s e q a o free f r p ps c l =
    then_bytes (Starts hst_start (codes "history") m s) _ env i 0x90
      (0x98 ∷ 0x90 ∷ (reply ++ (0x98 ∷ wire parts last)))
      (control_receive_msg (received (suc n) m) s).0 (history_poll-Starts n m (env i) s e q a free)
      (λ t h.
        Yields-mono _ _
          (parse_bytes env (suc i) (0x98 ∷ 0x90 ∷ (reply ++ (0x98 ∷ wire parts last))) t)
          (λ u. Delivers-HandsOver history hst_start _ _ _ m s t u h)
          (history_session env (suc i) reply parts last t h.state (rw h.options o) (rw h.options a)
            f (subst (λ x. is_open x ≡ true) (sym h.readings) r) p ps c l))
