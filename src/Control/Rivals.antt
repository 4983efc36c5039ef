-- ===== src/Control/Rivals.antt =====
-- Two runs of PE-Control at once: who is told of a Report that both of them wait behind.
use mathlib.Core.Path.{subst}
use industrial_control.Prelude.{
  ℕ, suc, ◌≡◌, ◌≢◌, refl, sym, true, none, List, [], ◌∷◌, ◌++◌, Bytes, codes, All, arith,
}
use industrial_control.Prelude.Bits.{has, raise, has-raise}
use industrial_control.Flags.{
  active_mode, target, message_src, history_req, server_action_success, server_request_success,
}
use industrial_control.Outcome.{◌>>=◌}
use industrial_control.Parser.State.{Engine, Env, ss_pause, rpt_start}
use industrial_control.Parser.Buffer.{msg_send_to_client}
use industrial_control.Parser.Header.{step, parse_bytes}
use industrial_control.Parser.Notices.{notices}
use industrial_control.Parser.Triple.{Yields, Yields-mono, Yields-bind}
use industrial_control.Parser.Transfer.{report, label, Delivers, job_of, closings, is_open, is_last}
use industrial_control.Parser.Transfer.Steps.{Part, IsRecord}
use industrial_control.Parser.Transfer.Records.{IsPart, wire, records}
use industrial_control.Parser.Transfer.Whole.{report_path, report_session}
use industrial_control.Server.{received, control_receive_msg}
use industrial_control.Server.Delivery.{Starts, poll-Starts, Delivers-told}
use industrial_control.Client.{queues, report_message, history_message}
use industrial_control.Control.{World, main}
use industrial_control.Control.Laws.{verdict, main_waits}
use industrial_control.Control.Service.{
  mailbox, answered, SucceedsWith, Asks, Fulfils, Fulfils-SucceedsWith,
}

-- The Report of the client `a` is on its way, and the client `b` has asked for History meanwhile.
record Overtaken (a b : ℕ) (s t : Engine) : Type 0 where
  state : t.header_state ≡ rpt_start
  options : t.options ≡ s.options
  readings : t.f_rdg ≡ s.f_rdg
  done : closings t.events ≡ closings s.events
  told :
      notices t.events
      ≡ (b, server_request_success, codes "history")
        ∷ (a, server_request_success, codes "report")
        ∷ notices s.events
  queue : t.client_mq_server ≡ b
  asked : has t.control message_src ≡ true

Starts-Overtaken :
    (n a b server : ℕ) (s t : Engine)
    → Starts rpt_start (codes "report") (report_message (queues server a)) s t
    → Overtaken a b s
        (control_receive_msg (received (suc n) (history_message (queues server b))) t).0
unfolding control_receive_msg msg_send_to_client
Starts-Overtaken n a b server s t h =
    let flag = has-raise 7 7 (raise t.control history_req) in
    record {
      state = ground (arith, h.state);
      options = ground (arith, h.options);
      readings = ground (arith, h.readings);
      done = ground (arith, h.done);
      told = ground (arith, h.told);
      queue = ground arith;
      asked = ground (arith, flag);
    }

-- All that the clients have been told by the end of that Report.
record Misled (a b : ℕ) (s t : Engine) : Type 0 where
  told :
      notices t.events
      ≡ (b, server_action_success, label report ++ report_path)
        ∷ (b, server_request_success, codes "history")
        ∷ (a, server_request_success, codes "report")
        ∷ notices s.events

Delivers-Misled :
    (a b : ℕ) (text : Bytes) (s t u : Engine)
    → Overtaken a b s t
    → Delivers report report_path text (job_of t) u
    → Misled a b s u
Delivers-Misled a b text s t u h d = record {
  told = rw (h.queue, h.told) at (Delivers-told report report_path text t u h.asked d);
}

-- The client that asked for the Report gets no message that ends its wait.
verdict-mailbox_rival :
    (a b : ℕ) (s t : Engine)
    → a ≢ b
    → mailbox a (notices s.events) ≡ []
    → Misled a b s t
    → verdict (mailbox a (notices t.events)) ≡ none
verdict-mailbox_rival a b s t differ empty h = rw h.told (ground (arith, empty))

-- The other one gets the messages that end it with success.
Misled-Fulfils :
    (a b : ℕ) (s t : Engine)
    → a ≢ b
    → mailbox b (notices s.events) ≡ []
    → Misled a b s t
    → Fulfils b
        (codes "history")
        (label report ++ report_path)
        ((a, server_request_success, codes "report") ∷ notices s.events)
        (notices t.events)
Misled-Fulfils a b s t differ empty h = record { before = ground (arith, empty); after = h.told }

-- Two clients and the engine. PE-Control on queue `a` asks for a Report and another PE-Control, on
-- another queue `b`, asks for History; both have their queues, send, can remove their own, and
-- nothing waits on either before. The engine takes the first request between two records, on the
-- target in active mode, with readings.txt open and the Report file to be opened, and the second
-- one behind the next poll, when the Report has been asked for and has not begun; then comes the
-- Report that the 1022 sends, with records that fit in the buffer, texts and answers between them
-- that fit and hold no 0x98, and the last record alone ending with ";end" and a carriage return.
-- Then the engine makes no fault and the one data file that it closes is the Report, with the
-- records as they were sent; but the client that asked for the Report, given all that the engine
-- has told it, waits for ever, and the client that asked for History ends with success, though no
-- History file has been closed.
pub control_rivals :
    (world_a world_b : World) (c d server a b : ℕ) (n k : ℕ) (env : Env) (later : ℕ → Env) (i : ℕ)
    (parts : List Part) (last : Bytes) (s : Engine)
    → a ≢ b
    → Asks world_a c server a (report_message (queues server a))
    → Asks world_b d server b (history_message (queues server b))
    → mailbox a (notices s.events) ≡ []
    → mailbox b (notices s.events) ≡ []
    → s.header_state ≡ ss_pause
    → has s.options active_mode ≡ true
    → has s.options target ≡ true
    → (later i).fopen_succeeds ≡ true
    → is_open s.f_rdg ≡ true
    → All (IsPart report) parts
    → IsRecord report last
    → is_last (0x98 ∷ last) ≡ true
    → Yields
        (λ t.
          (closings t.events
            ≡ record { path = report_path; written = records parts last } ∷ closings s.events)
          × (main (answered world_a a (notices t.events)) ≡ none)
          × SucceedsWith
              (answered world_b b (notices t.events))
              (history_message (queues server b)))
        (step env 0x90
            (control_receive_msg (received (suc n) (report_message (queues server a))) s).0
          >>= λ t.
              parse_bytes later i
                (0x98 ∷ wire parts last)
                (control_receive_msg (received (suc k) (history_message (queues server b))) t).0)
control_rivals world_a world_b c d server a b n k env later i parts last s differ asks_a asks_b
      empty_a empty_b q ac tg f rd ps cr l =
    let m = report_message (queues server a) in
    Yields-bind (Starts rpt_start (codes "report") m s) _ _ _ (poll-Starts n m env s refl q ac)
      (λ t h.
        let u = (control_receive_msg (received (suc k) (history_message (queues server b))) t).0 in
        let o = Starts-Overtaken k a b server s t h in
        Yields-mono (Delivers report report_path (records parts last) (job_of u)) _ _
          (λ v e.
            let misled = Delivers-Misled a b _ s u v o e in
            (
              rw o.done at e.closed_last,
              main_waits (answered world_a a (notices v.events)) c server a m asks_a.argument
                  asks_a.has_server asks_a.has_client asks_a.request asks_a.sends
                  (verdict-mailbox_rival a b s v differ empty_a misled),
              Fulfils-SucceedsWith world_b d server b (history_message (queues server b)) asks_b
                  (codes "history") (label report ++ report_path) _ (notices v.events)
                  (Misled-Fulfils a b s v differ empty_b misled),
            ))
          (report_session later i parts last u o.state (rw o.options tg) f
            (subst (λ x. is_open x ≡ true) (sym o.readings) rd) ps cr l))
