-- ===== src/Server/Logging.antt =====
-- A whole log from the request of a client to the end that another client asks for.
use mathlib.Core.Path.{subst}
use industrial_control.Prelude.{
  ℕ, suc, ◌≡◌, refl, ◌∙◌, true, false, List, [], ◌∷◌, ◌++◌, Bytes, codes, All, arith,
}
use industrial_control.Prelude.Bits.{has, raise, lower, has-raise, has-lower}
use industrial_control.Flags.{
  active_mode, target, report_req, history_req, logmode_on_req, logmode_off_req, message_src,
  st_logmode, server_action_success, server_request_success, target_disk_dir, data_filename_size,
}
use industrial_control.Filename.{unique_filename}
use industrial_control.Parser.State.{Engine, Env, ss_pause, log_start, log_display}
use industrial_control.Parser.Buffer.{msg_send_to_client, notify_success}
use industrial_control.Parser.SteadyState.{start_logmode}
use industrial_control.Parser.Header.{step, dispatch, parse_bytes}
use industrial_control.Parser.Notices.{notices}
use industrial_control.Parser.Status.{HasStatus, StatusOf, step-HasStatus}
use industrial_control.Parser.Runs.{parse_bytes_keeps}
use industrial_control.Parser.Triple.{Yields, Yields-Ensures, at_state, then_bytes}
use industrial_control.Parser.Transfer.{
  log, Job, job_of, Receives, Expects, Delivers, closings, is_open,
}
use industrial_control.Parser.Transfer.Lines.{logged, ends}
use industrial_control.Parser.Transfer.Logging.{
  Line, IsLine, IsIdle, line_wire, line_text, lines_come, open_wire, line_displays,
}
use industrial_control.Parser.Transfer.Log.{begins_log}
use industrial_control.Server.{received, control_receive_msg}
use industrial_control.Server.Laws.{control_receive_msg-Serves}
use industrial_control.Client.{queues, log_message}

-- The flags behind a request to switch the Log mode on, with nothing else pending.
pub raised_on_flags :
    (w : ℕ)
    → has w report_req ≡ false
    → has w history_req ≡ false
    → (has (raise (raise w logmode_on_req) message_src) report_req ≡ false)
      × (has (raise (raise w logmode_on_req) message_src) history_req ≡ false)
      × (has (raise (raise w logmode_on_req) message_src) logmode_on_req ≡ true)
      × (has (lower (raise (raise w logmode_on_req) message_src) logmode_on_req) message_src ≡ true)
raised_on_flags w e f =
    let u = raise w logmode_on_req in
    let v = raise u message_src in
    (
      ground (arith, has-raise 0 7 u, has-raise 0 2 w, e),
      ground (arith, has-raise 1 7 u, has-raise 1 2 w, f),
      ground (arith, has-raise 2 7 u, has-raise 2 2 w),
      ground (arith, has-lower 7 v logmode_on_req, has-raise 7 7 u),
    )

-- The flags behind a request to switch it off.
pub raised_off_flags :
    (w : ℕ)
    → (has (raise (raise w logmode_off_req) message_src) logmode_off_req ≡ true)
      × (has (lower (raise (raise w logmode_off_req) message_src) logmode_off_req) message_src
          ≡ true)
raised_off_flags w =
    let u = raise w logmode_off_req in
    let v = raise u message_src in
    (
      ground (arith, has-raise 3 7 u, has-raise 3 3 w),
      ground (arith, has-lower 7 v logmode_off_req, has-raise 7 7 u),
    )

-- The control word behind a request to switch the Log mode on and the poll that answers it.
abbrev switched_on : ℕ → ℕ
switched_on w =
    lower (lower (raise (raise w logmode_on_req) message_src) logmode_on_req) message_src

-- No other request comes or goes with it.
pub switched_on_flags :
    (w : ℕ)
    → has w report_req ≡ false
    → has w history_req ≡ false
    → has w logmode_off_req ≡ false
    → (has (switched_on w) report_req ≡ false)
      × (has (switched_on w) history_req ≡ false)
      × (has (switched_on w) logmode_off_req ≡ false)
switched_on_flags w e f g =
    let u = raise w logmode_on_req in
    let v = raise u message_src in
    let x = lower v logmode_on_req in
    (
      ground (
        arith,
        has-lower 0 x message_src,
        has-lower 0 v logmode_on_req,
        has-raise 0 7 u,
        has-raise 0 2 w,
        e,
      ),
      ground (
        arith,
        has-lower 1 x message_src,
        has-lower 1 v logmode_on_req,
        has-raise 1 7 u,
        has-raise 1 2 w,
        f,
      ),
      ground (
        arith,
        has-lower 3 x message_src,
        has-lower 3 v logmode_on_req,
        has-raise 3 7 u,
        has-raise 3 2 w,
        g,
      ),
    )

-- The log of the client `a` is about to start.
pub record IsStarting (a : ℕ) (s t : Engine) : Type 0 where
  pub state : t.header_state ≡ log_start
  pub control : t.control ≡ switched_on s.control
  pub options : t.options ≡ s.options
  pub readings : t.f_rdg ≡ s.f_rdg
  pub done : closings t.events ≡ closings s.events
  pub told :
      notices t.events
      ≡ (a, server_action_success, codes "logmode 1")
        ∷ (a, server_request_success, [])
        ∷ notices s.events

pub log-IsStarting :
    (n : ℕ) (server a : ℕ) (env : Env) (s : Engine)
    → s.header_state ≡ ss_pause
    → has s.options active_mode ≡ true
    → has s.control report_req ≡ false
    → has s.control history_req ≡ false
    → has s.status st_logmode ≡ false
    → Yields
        (IsStarting a s)
        (step env 0x90 (control_receive_msg (received (suc n) (log_message (queues server a))) s).0)
unfolding control_receive_msg msg_send_to_client dispatch start_logmode notify_success
log-IsStarting n server a env s q act no_report no_history off =
    let m = log_message (queues server a) in
    let u = (control_receive_msg (received (suc n) m) s).0 in
    let flags = raised_on_flags s.control no_report no_history in
    at_state _ ss_pause env 0x90 u ((control_receive_msg-Serves n m s).0.quiet.1 ∙ q)
      (ground (arith, flags, off))

-- A message of a client leaves the status as it is.
pub received-HasStatus :
    (n server a : ℕ) (s : Engine)
    → HasStatus s
    → HasStatus (control_receive_msg (received (suc n) (log_message (queues server a))) s).0
unfolding control_receive_msg msg_send_to_client
received-HasStatus n server a s h = ground (arith, h)

-- The Log mode is off between two records, and on in the log display.
pub status_off :
    (s : Engine) → HasStatus s → s.header_state ≡ ss_pause → has s.status st_logmode ≡ false
unfolding has
status_off s h q = rw (subst (λ p. StatusOf p s.status) q h) refl

status_on :
    (s : Engine) → HasStatus s → s.header_state ≡ log_display → has s.status st_logmode ≡ true
unfolding has
status_on s h q = rw (subst (λ p. StatusOf p s.status) q h) refl

-- What is known of the log when a client asks for its end.
abbrev pub toggled : ℕ → Job → Job
toggled b job = record job {
  told = (b, server_request_success, []) ∷ job.told;
  queue = b;
  control = raise (raise job.control logmode_off_req) message_src;
}

Expects-toggled :
    (n : ℕ) (server b : ℕ) (path text : Bytes) (job : Job) (s : Engine)
    → has s.status st_logmode ≡ true
    → Expects log path text job s
    → Expects log path text
        (toggled b job)
        (control_receive_msg (received (suc n) (log_message (queues server b))) s).0
unfolding control_receive_msg msg_send_to_client
Expects-toggled n server b path text job s on h = ground (arith, h.writes)

-- The log from its start to the 0x98 of a poll, in the file with the name that the time gives.
pub log_runs :
    (env : ℕ → Env) (i : ℕ) (lines : List Line) (last : Line) (path : Bytes) (t : Engine)
    → t.header_state ≡ log_start
    → HasStatus t
    → has t.options target ≡ true
    → unique_filename
        (target_disk_dir ++ codes "/logmode-")
        []
        data_filename_size
        (env i).local_time
      ≡ (path, true)
    → (env i).fopen_succeeds ≡ true
    → is_open t.f_rdg ≡ true
    → IsIdle (job_of t)
    → All IsLine lines
    → IsLine last
    → Yields
        (λ u.
          Expects log path (line_text lines (logged (last.letter ∷ last.rest))) (job_of t) u
          × HasStatus u)
        (parse_bytes env i (0x98 ∷ line_wire lines (open_wire last)) t)
log_runs env i lines last path t q st tg name f r idle ls l =
    let kept = logged (last.letter ∷ last.rest) in
    let bytes = line_wire lines (open_wire last) in
    Yields-Ensures _ HasStatus (parse_bytes env i (0x98 ∷ bytes) t)
      (then_bytes (Receives log path [] (job_of t) (0x98 ∷ [])) _ env i 0x98 bytes t
        (begins_log path (env i) t q tg name f r)
        (λ u.
          lines_come path (job_of t) (open_wire last) kept
            (λ text. Expects log path text (job_of t)) idle
            (λ text. line_displays path text (job_of t) last l) lines [] ls env (suc i) u))
      (parse_bytes_keeps HasStatus step-HasStatus (0x98 ∷ bytes) env i t st)

-- A client asks for the end of the log, and the next poll ends it.
pub log_stops :
    (n : ℕ) (server b : ℕ) (path text : Bytes) (job : Job) (env : Env) (u : Engine)
    → HasStatus u
    → has job.options active_mode ≡ true
    → Expects log path text job u
    → Yields
        (Delivers log path text (toggled b job))
        (step env 0x90 (control_receive_msg (received (suc n) (log_message (queues server b))) u).0)
log_stops n server b path text job env u st act h =
    ends path text (toggled b job) env
      (control_receive_msg (received (suc n) (log_message (queues server b))) u).0 act
      (raised_off_flags job.control).0
      (Expects-toggled n server b path text job u (status_on u st h.state) h)
