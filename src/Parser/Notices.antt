-- ===== src/Parser/Notices.antt =====
-- What the engine tells its clients, and when.
use industrial_control.Prelude.{
  ℕ, ◌-◌, ◌≡◌, Bool, false, not, ◌&&◌, leb, List, [], ◌∷◌, ◌++◌, ◌==◌, if◌then◌else◌, Bytes, codes,
  refl, arith,
}
use industrial_control.Prelude.Bits.{has, lower, test_bit, has-raise, has-lower}
use industrial_control.Flags.{
  report_req, history_req, logmode_on_req, logmode_off_req, message_src, server_action_success,
}
use industrial_control.Outcome.{Ensures}
use industrial_control.Parser.State.{
  HeaderState, ss_unknown, ss_pause, rpt_data, hst_data, log_display, Event, transmit, notify,
  opened, closed, snapshot, Env, Engine,
}
use industrial_control.Parser.Buffer.{
  put, back, take_snapshot, notify_success, matches_back, is_active,
}
use industrial_control.Parser.SteadyState.{request_of_letter}
use industrial_control.Parser.LogMode.{log_request_of_letter}
use industrial_control.Parser.Header.{dispatch, step}
use industrial_control.Parser.Polls.{is_poll}
use industrial_control.Parser.Requests.{chosen}

-- The messages to clients with the queue and the type of each, latest first.
abbrev pub notices : List Event → List (ℕ × ℕ × Bytes)
notices [] = []
notices (notify queue mtype text ∷ es) = (queue, mtype, text) ∷ notices es
notices (transmit _ ∷ es) = notices es
notices (opened _ ∷ es) = notices es
notices (closed _ ∷ es) = notices es
notices (snapshot _ ∷ es) = notices es

-- The record in the buffer ends with ";end" and a carriage return.
abbrev pub has_end_mark : Engine → Bool
has_end_mark s =
    s.buffer (s.buffer_len - 5) == 0x3B
    && s.buffer (s.buffer_len - 4) == 0x65
    && s.buffer (s.buffer_len - 3) == 0x6E
    && s.buffer (s.buffer_len - 2) == 0x64
    && s.buffer (s.buffer_len - 1) == 0x0D

-- Byte `c` completes a request in state `q`: the start or the end of a log at a poll, and the last
-- record of a Report or of a History sequence.
abbrev pub completes : HeaderState → ℕ → Engine → Bool
completes ss_pause c s = is_active s && is_poll ss_pause c s && chosen ss_pause s == logmode_on_req
completes log_display c s =
    is_active s && is_poll log_display c s && chosen log_display s == logmode_off_req
completes rpt_data c s = c == 0x91 && leb 5 s.buffer_len && has_end_mark s
completes hst_data c s = c == 0x91 && has_end_mark s
completes _ c s = false

-- The text for the request that is completed in state `q`.
abbrev pub completion : HeaderState → Engine → Bytes
completion log_display s = codes "logmode 0 " ++ s.curr_log_file
completion rpt_data s = codes "report " ++ s.curr_report_file
completion hst_data s = codes "history " ++ s.curr_history_file
completion _ s = codes "logmode 1"

-- The messages and the mark of a client's request behind byte `c` in state `q`.
abbrev pub Notifies : HeaderState → ℕ → Engine → Engine → Type 0
Notifies q c s t =
    (notices t.events ≡ (
      if completes q c s && has s.control message_src
      then (s.client_mq_server, server_action_success, completion q s) ∷ notices s.events
      else notices s.events))
    × (has t.control message_src ≡ (has s.control message_src && not (completes q c s)))

request_of_letter-src :
    (letter w : ℕ) → has (request_of_letter letter w) message_src ≡ has w message_src
unfolding request_of_letter
request_of_letter-src letter w = ground (arith, has-raise 7 0 w, has-raise 7 1 w, has-raise 7 2 w)

log_request_of_letter-src :
    (letter w : ℕ) → has (log_request_of_letter letter w) message_src ≡ has w message_src
unfolding log_request_of_letter
log_request_of_letter-src letter w =
    ground (arith, has-raise 7 0 w, has-raise 7 1 w, has-raise 7 3 w)

-- Only the mark itself is taken back with the mark.
abbrev Spared : ℕ → ℕ → Type 0
Spared w m = has (lower w m) message_src ≡ (has w message_src && test_bit (0xffff_ffff - m) 7)

-- What becomes of the mark wherever a handler changes the flags.
src_laws :
    (s : Engine)
    → Spared s.control report_req
      × Spared s.control history_req
      × Spared s.control logmode_on_req
      × Spared s.control logmode_off_req
      × Spared s.control message_src
      × Spared (lower s.control logmode_on_req) message_src
      × Spared (lower s.control logmode_off_req) message_src
      × (has (request_of_letter (s.buffer (s.buffer_len - 1)) s.control) message_src
          ≡ has s.control message_src)
      × (has (log_request_of_letter (s.buffer 2) s.control) message_src ≡ has s.control message_src)
src_laws s = (
  has-lower 7 s.control report_req,
  has-lower 7 s.control history_req,
  has-lower 7 s.control logmode_on_req,
  has-lower 7 s.control logmode_off_req,
  has-lower 7 s.control message_src,
  has-lower 7 (lower s.control logmode_on_req) message_src,
  has-lower 7 (lower s.control logmode_off_req) message_src,
  request_of_letter-src (s.buffer (s.buffer_len - 1)) s.control,
  log_request_of_letter-src (s.buffer 2) s.control,
)

dispatch-Notifies :
    (q : HeaderState) (env : Env) (c : ℕ) (s : Engine)
    → s.header_state ≡ q
    → Ensures (Notifies q c s) (dispatch q env c s)
unfolding dispatch put back take_snapshot notify_success matches_back
dispatch-Notifies ss_unknown env c s e = ground arith
dispatch-Notifies _ env c s e = ground (arith, src_laws s)

-- A byte that completes a request sends one message to the client whose queue was remembered last,
-- with the text for that request, if the mark of a client's request is set, and clears the mark. No
-- other byte sends a message to a client or changes the mark. This is of bytes handled without a
-- fault.
pub step-Notifies :
    (env : Env) (c : ℕ) (s : Engine) → Ensures (Notifies s.header_state c s) (step env c s)
step-Notifies env c s = dispatch-Notifies s.header_state env c s refl
