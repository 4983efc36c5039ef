-- ===== src/Control/Logs.antt =====
-- PE-Control and the engine together: a whole log, started and ended from the command line.
use mathlib.Core.Path.{subst}
use industrial_control.Prelude.{
  ℕ, suc, ◌≡◌, ◌≢◌, refl, sym, true, List, [], ◌∷◌, ◌++◌, Bytes, codes, All, arith, if◌then◌else◌,
}
use industrial_control.Prelude.Bits.{has, raise, has-raise}
use industrial_control.Flags.{
  target, logmode_off_req, message_src, server_action_success, server_request_success,
  target_disk_dir, data_filename_size,
}
use industrial_control.Filename.{unique_filename}
use industrial_control.Outcome.{◌>>=◌}
use industrial_control.Parser.State.{Engine, Env, ss_pause}
use industrial_control.Parser.Header.{step, parse_bytes}
use industrial_control.Parser.Notices.{notices}
use industrial_control.Parser.Status.{HasStatus, step-HasStatus}
use industrial_control.Parser.Triple.{Yields, Yields-mono, Yields-bind, Yields-Ensures}
use industrial_control.Parser.Transfer.{log, label, job_of, Expects, Delivers, closings, is_open}
use industrial_control.Parser.Transfer.Lines.{logged}
use industrial_control.Parser.Transfer.Logging.{
  Line, IsLine, IsIdle, line_wire, line_text, open_wire,
}
use industrial_control.Server.{received, control_receive_msg}
use industrial_control.Client.{queues, log_message}
use industrial_control.Control.{World}
use industrial_control.Control.Service.{
  mailbox, answered, SucceedsWith, Asks, Fulfils, Fulfils-SucceedsWith,
}
use industrial_control.Server.Logging.{
  IsStarting, log-IsStarting, received-HasStatus, status_off, toggled, log_runs, log_stops,
  switched_on_flags,
}

-- What both clients have been told by then.
record HasToldBoth (a b : ℕ) (path : Bytes) (s t : Engine) : Type 0 where
  told :
      notices t.events
      ≡ (b, server_action_success, label log ++ path)
        ∷ (b, server_request_success, [])
        ∷ (a, server_action_success, codes "logmode 1")
        ∷ (a, server_request_success, [])
        ∷ notices s.events

Delivers-HasToldBoth :
    (a b : ℕ) (path text : Bytes) (s t v : Engine)
    → IsStarting a s t
    → Delivers log path text (toggled b (job_of t)) v
    → HasToldBoth a b path s v
Delivers-HasToldBoth a b path text s t v h d = record { told = told (label log ++ path) d.told }
  where
    told :
        (result : Bytes)
        → notices v.events ≡ (
            if has (toggled b (job_of t)).control message_src
            then (b, server_action_success, result)
              ∷ (b, server_request_success, [])
              ∷ notices t.events
            else (b, server_request_success, []) ∷ notices t.events)
        → notices v.events
          ≡ (b, server_action_success, result)
            ∷ (b, server_request_success, [])
            ∷ (a, server_action_success, codes "logmode 1")
            ∷ (a, server_request_success, [])
            ∷ notices s.events
    told result e = ground (arith, e, h.told, has-raise 7 7 (raise t.control logmode_off_req))

-- Each client has got its own two messages.
module _ (a b : ℕ) (path : Bytes) (s t : Engine) (differ : a ≢ b)
    (h : HasToldBoth a b path s t) where
  first-Fulfils :
      mailbox a (notices s.events) ≡ []
      → Fulfils a [] (codes "logmode 1") (notices s.events) (
          (a, server_action_success, codes "logmode 1")
          ∷ (a, server_request_success, [])
          ∷ notices s.events)
  first-Fulfils empty = record { before = empty; after = refl }

  mailbox_first :
      mailbox a (notices t.events)
      ≡ mailbox a (
          (a, server_action_success, codes "logmode 1")
          ∷ (a, server_request_success, [])
          ∷ notices s.events)
  mailbox_first = rw h.told (ground (arith, differ))

  second-Fulfils :
      mailbox b (notices s.events) ≡ []
      → Fulfils b []
          (label log ++ path)
          ((a, server_action_success, codes "logmode 1")
            ∷ (a, server_request_success, [])
            ∷ notices s.events)
          (notices t.events)
  second-Fulfils empty = record { before = ground (arith, differ, empty); after = h.told }

-- Until the second request the log is alone.
starting-IsIdle : (a : ℕ) (s t : Engine) → IsIdle (job_of s) → IsStarting a s t → IsIdle (job_of t)
starting-IsIdle a s t idle h =
    let (no_report, no_history, no_end) =
      switched_on_flags s.control idle.no_report idle.no_history idle.no_end in
    record {
      active = rw h.options idle.active;
      no_report = rw h.control no_report;
      no_history = rw h.control no_history;
      no_end = rw h.control no_end;
    }

both_succeed :
    (world_a world_b : World) (c d server a b : ℕ) (path : Bytes) (s t : Engine)
    → a ≢ b
    → Asks world_a c server a (log_message (queues server a))
    → Asks world_b d server b (log_message (queues server b))
    → mailbox a (notices s.events) ≡ []
    → mailbox b (notices s.events) ≡ []
    → HasToldBoth a b path s t
    → SucceedsWith (answered world_a a (notices t.events)) (log_message (queues server a))
      × SucceedsWith (answered world_b b (notices t.events)) (log_message (queues server b))
both_succeed world_a world_b c d server a b path s t differ asks_a asks_b empty_a empty_b h = (
  subst (λ rs. SucceedsWith (record world_a { responses = rs }) (log_message (queues server a)))
      (sym (mailbox_first a b path s t differ h))
      (Fulfils-SucceedsWith world_a c server a (log_message (queues server a)) asks_a []
        (codes "logmode 1") (notices s.events) _ (first-Fulfils a b path s t differ h empty_a)),
  Fulfils-SucceedsWith world_b d server b (log_message (queues server b)) asks_b []
      (label log ++ path) _ (notices t.events) (second-Fulfils a b path s t differ h empty_b),
)

-- Since the state `s` one data file has been closed, `path` with `text`; and two runs of PE-Control,
-- each given the messages that are on its queue by then, end with success, having sent one request to
-- toggle the Log mode each.
pub record Logs (world_a world_b : World) (server a b : ℕ) (path text : Bytes) (s t : Engine)
    : Type 0 where
  pub closed_last : closings t.events ≡ record { path = path; written = text } ∷ closings s.events
  pub first_ends :
      SucceedsWith (answered world_a a (notices t.events)) (log_message (queues server a))
  pub second_ends :
      SucceedsWith (answered world_b b (notices t.events)) (log_message (queues server b))

-- With a log delivered that was started for one client and ended for the other, both succeed.
Delivers-Logs :
    (world_a world_b : World) (c d server a b : ℕ) (path text : Bytes) (s t v : Engine)
    → a ≢ b
    → Asks world_a c server a (log_message (queues server a))
    → Asks world_b d server b (log_message (queues server b))
    → mailbox a (notices s.events) ≡ []
    → mailbox b (notices s.events) ≡ []
    → IsStarting a s t
    → Delivers log path text (toggled b (job_of t)) v
    → Logs world_a world_b server a b path text s v
Delivers-Logs world_a world_b c d server a b path text s t v differ asks_a asks_b empty_a empty_b h
      e =
    let both =
      both_succeed world_a world_b c d server a b path s v differ asks_a asks_b empty_a empty_b
        (Delivers-HasToldBoth a b path text s t v h e) in
    record { closed_last = rw h.done at e.closed_last; first_ends = both.0; second_ends = both.1 }

-- A whole log. PE-Control on queue `a` asks to toggle the Log mode, and later another PE-Control, on
-- another queue `b`; both have their queues, send, can remove their own, and nothing waits on either
-- before. The engine takes the first request between two records, on the target in active mode, with
-- no other request pending, the log file to be opened and readings.txt open; then come the next poll,
-- the log records that the 1022 sends, which fit in the buffer and are no directives, with texts and
-- answers between them that fit and hold no 0x98, and the 0x98 of a poll; then it takes the second
-- request, and the poll comes. Then the engine makes no fault, the file /var/log/lsc/logmode-<time>
-- is closed with the records as they were sent, without their headers and without the records that
-- start with ';', and no other data file is closed; and both clients, each given what the engine has
-- put on its queue, end with success, having sent just their request.
pub control_log :
    (world_a world_b : World) (c d server a b : ℕ) (n k : ℕ) (first last_env : Env) (env : ℕ → Env)
    (i : ℕ) (lines : List Line) (last : Line) (path : Bytes) (s : Engine)
    → a ≢ b
    → Asks world_a c server a (log_message (queues server a))
    → Asks world_b d server b (log_message (queues server b))
    → mailbox a (notices s.events) ≡ []
    → mailbox b (notices s.events) ≡ []
    → s.header_state ≡ ss_pause
    → HasStatus s
    → has s.options target ≡ true
    → IsIdle (job_of s)
    → unique_filename
        (target_disk_dir ++ codes "/logmode-")
        []
        data_filename_size
        (env i).local_time
      ≡ (path, true)
    → (env i).fopen_succeeds ≡ true
    → is_open s.f_rdg ≡ true
    → All IsLine lines
    → IsLine last
    → Yields
        (Logs world_a world_b server a b path
          (line_text lines (logged (last.letter ∷ last.rest)))
          s)
        (step first 0x90
            (control_receive_msg (received (suc n) (log_message (queues server a))) s).0
          >>= λ t. parse_bytes env i (0x98 ∷ line_wire lines (open_wire last)) t >>= λ u.
              step last_env 0x90
                (control_receive_msg (received (suc k) (log_message (queues server b))) u).0)
control_log world_a world_b c d server a b n k first last_env env i lines last path s differ asks_a
      asks_b empty_a empty_b q st tg idle name f r ls l =
    let asked = (control_receive_msg (received (suc n) (log_message (queues server a))) s).0 in
    let text = line_text lines (logged (last.letter ∷ last.rest)) in
    Yields-bind (λ t. IsStarting a s t × HasStatus t) _ _ _
      (Yields-Ensures (IsStarting a s) HasStatus (step first 0x90 asked)
        (log-IsStarting n server a first s q idle.active idle.no_report idle.no_history
          (status_off s st q))
        (step-HasStatus first 0x90 asked (received-HasStatus n server a s st)))
      (λ t h.
        Yields-bind (λ u. Expects log path text (job_of t) u × HasStatus u) _ _ _
          (log_runs env i lines last path t h.0.state h.1 (rw h.0.options tg) name f
            (subst (λ x. is_open x ≡ true) (sym h.0.readings) r) (starting-IsIdle a s t idle h.0) ls
            l)
          (λ u g.
            Yields-mono _ _ _
              (λ v.
                Delivers-Logs world_a world_b c d server a b path text s t v differ asks_a asks_b
                  empty_a empty_b h.0)
              (log_stops k server b path text (job_of t) last_env u g.1 (rw h.0.options idle.active)
                g.0)))
