-- ===== src/Parser/Transfer.antt =====
-- Records on their way from the wire to a data file: what the Report, the History and the Log mode
-- sequences have in common.
pub mod Steps
pub mod Records
pub mod Whole
pub mod History
pub mod Lines
pub mod Logging
pub mod Log
use mathlib.Core.Path.{subst}
use native.Mathlib.Nat.{add-zero, add-suc, suc-add}
use industrial_control.Prelude.{
  ℕ, zero, suc, ◌+◌, ◌-◌, ◌≤◌, ◌<◌, ◌≡◌, ◌≢◌, refl, sym, ◌∙◌, Bool, true, false, ◌&&◌, Option, none,
  some, List, [], ◌∷◌, ◌++◌, leb, ◌==◌, arith, Bytes, length, All, get_or, if◌then◌else◌, codes,
  length-append,
}
use industrial_control.Prelude.Bits.{has}
use industrial_control.Flags.{buffer_size, message_src, server_action_success}
use industrial_control.Outcome.{Outcome, ok, fault, ◌>>=◌}
use industrial_control.Parser.State.{
  HeaderState, rpt_data, hst_data, log_data, rpt_display, hst_display, log_display, rpt_printer,
  hst_printer_active, log_printer_active, Stream, Event, transmit, notify, opened, closed, snapshot,
  Env, Engine,
}
use industrial_control.Parser.Buffer.{
  put, back, matches_back, end_mark, goto, refill, segment, contents,
}
use industrial_control.Parser.Report.{ends_report}
use industrial_control.Parser.Header.{dispatch, step}
use industrial_control.Parser.Notices.{notices}
use industrial_control.Parser.Overflow.{Terminates, dispatch_stores, contents-store}
use industrial_control.Parser.Triple.{Yields, at_state}

-- The data files that were closed, latest first.
abbrev pub closings : List Event → List Stream
closings [] = []
closings (closed f ∷ es) = f ∷ closings es
closings (notify _ _ _ ∷ es) = closings es
closings (transmit _ ∷ es) = closings es
closings (opened _ ∷ es) = closings es
closings (snapshot _ ∷ es) = closings es

abbrev pub is_open : Option Bytes → Bool
is_open none = false
is_open (some x) = true

-- The sequences that write a file.
pub data Kind : Type 0 where
  report history log : Kind

-- The file of a sequence, its name, and the text before the name in the message to the client.
abbrev pub slot : Kind → Engine → Option Stream
slot report s = s.f_rpt
slot history s = s.f_hst
slot log s = s.f_log

abbrev pub name_of : Kind → Engine → Bytes
name_of report s = s.curr_report_file
name_of history s = s.curr_history_file
name_of log s = s.curr_log_file

abbrev pub label : Kind → Bytes
label report = codes "report "
label history = codes "history "
label log = codes "logmode 0 "

-- What is to be known of the session at the start of the sequence: the data files closed and the
-- messages to clients so far, the queue of the latest client, the control word and the options.
pub record Job : Type 0 where
  pub done : List Stream
  pub told : List (ℕ × ℕ × Bytes)
  pub queue : ℕ
  pub control : ℕ
  pub options : ℕ

abbrev pub job_of : Engine → Job
job_of s = record {
  done = closings s.events;
  told = notices s.events;
  queue = s.client_mq_server;
  control = s.control;
  options = s.options;
}

-- The file `path` of the sequence is open and holds `text`, the rest is as at the start, and
-- snapshots can be written.
pub record Writes (kind : Kind) (path text : Bytes) (job : Job) (s : Engine) : Type 0 where
  pub file : slot kind s ≡ some (record { path = path; written = text })
  pub name : name_of kind s ≡ path
  pub before : closings s.events ≡ job.done
  pub told : notices s.events ≡ job.told
  pub queue : s.client_mq_server ≡ job.queue
  pub control : s.control ≡ job.control
  pub options : s.options ≡ job.options
  pub readings : is_open s.f_rdg ≡ true

-- The file `path` is closed with `text`, and a client that asked for it has been told so.
pub record Delivers (kind : Kind) (path text : Bytes) (job : Job) (s : Engine) : Type 0 where
  pub file : slot kind s ≡ none
  pub closed_last : closings s.events ≡ record { path = path; written = text } ∷ job.done
  pub told : notices s.events ≡ (
      if has job.control message_src
      then (job.queue, server_action_success, label kind ++ path) ∷ job.told
      else job.told)

-- Where the sequence reads a record.
abbrev pub reading : Kind → HeaderState
reading report = rpt_data
reading history = hst_data
reading log = log_data

-- Where the text behind a record is read, and where the answer to the poll behind that is.
abbrev pub displaying : Kind → HeaderState
displaying report = rpt_display
displaying history = hst_display
displaying log = log_display

abbrev pub replying : Kind → HeaderState
replying report = rpt_printer
replying history = hst_printer_active
replying log = log_printer_active

-- The record has come in up to `got`.
pub record Receives (kind : Kind) (path text : Bytes) (job : Job) (got : Bytes) (s : Engine)
    : Type 0 where
  pub state : s.header_state ≡ reading kind
  pub buffered : contents s ≡ got
  pub size : s.buffer_len ≡ length got
  pub writes : Writes kind path text job s

-- A text comes in behind a record; at most `len` bytes are in the buffer, and the last
-- one is no 0x98.
pub record Displays (kind : Kind) (path text : Bytes) (job : Job) (len : ℕ) (s : Engine)
    : Type 0 where
  pub state : s.header_state ≡ displaying kind
  pub some_bytes : 1 ≤ s.buffer_len
  pub size : s.buffer_len ≤ len
  pub latest : s.buffer (s.buffer_len - 1) ≢ 0x98
  pub writes : Writes kind path text job s

-- The 0x98 before a poll has come in.
pub record Expects (kind : Kind) (path text : Bytes) (job : Job) (s : Engine) : Type 0 where
  pub state : s.header_state ≡ displaying kind
  pub some_bytes : 1 ≤ s.buffer_len
  pub size : s.buffer_len ≤ buffer_size
  pub latest : s.buffer (s.buffer_len - 1) ≡ 0x98
  pub writes : Writes kind path text job s

-- The printer module's answer comes in, with at most `len` bytes in the buffer.
pub record Replies (kind : Kind) (path text : Bytes) (job : Job) (len : ℕ) (s : Engine)
    : Type 0 where
  pub state : s.header_state ≡ replying kind
  pub size : s.buffer_len ≤ len
  pub writes : Writes kind path text job s

-- The record ends with ";end" and a carriage return.
abbrev pub is_last : Bytes → Bool
is_last r =
    leb 5 (length r)
    && get_or r (length r - 5) 0 == 0x3B
    && get_or r (length r - 4) 0 == 0x65
    && get_or r (length r - 3) 0 == 0x6E
    && get_or r (length r - 2) 0 == 0x64
    && get_or r (length r - 1) 0 == 0x0D

get_or-segment : (n j : ℕ) (m : ℕ → ℕ) (i : ℕ) → j < n → get_or (segment m i n) j 0 ≡ m (i + j)
unfolding segment
get_or-segment zero j m i h = absurd (omega arith)
get_or-segment (suc n) zero m i h = rw add-zero
get_or-segment (suc n) (suc j) m i h =
    get_or-segment n j m (suc i) (omega arith) ∙ rw (add-suc, suc-add)

get_or-contents : (s : Engine) (k : ℕ) → k < s.buffer_len → s.buffer k ≡ get_or (contents s) k 0
unfolding contents
get_or-contents s k h =
    subst (λ j. s.buffer j ≡ get_or (segment s.buffer 0 s.buffer_len) k 0) (omega arith)
      (sym (get_or-segment s.buffer_len k s.buffer 0 h))

-- Counted from its end, the record is what is in the buffer.
from_end :
    (s : Engine) (got : Bytes) (k : ℕ)
    → contents s ≡ got
    → s.buffer_len ≡ length got
    → suc k ≤ s.buffer_len
    → s.buffer (s.buffer_len - suc k) ≡ get_or got (length got - suc k) 0
from_end s got k e n h = get_or-contents s (s.buffer_len - suc k) (omega arith) ∙ rw (e, n) refl

-- The tests that look for the end mark, with no test of the length.
pub matches_back-is_last :
    (s : Engine) (got : Bytes)
    → contents s ≡ got
    → s.buffer_len ≡ length got
    → 5 ≤ length got
    → length got ≤ buffer_size
    → matches_back end_mark s ≡ ok (is_last got)
unfolding matches_back back
matches_back-is_last s got e n long room = ground (
  arith,
  n,
  from_end s got 0 e n,
  from_end s got 1 e n,
  from_end s got 2 e n,
  from_end s got 3 e n,
  from_end s got 4 e n,
)

pub ends_report-is_last :
    (s : Engine) (got : Bytes)
    → contents s ≡ got
    → s.buffer_len ≡ length got
    → length got ≤ buffer_size
    → ends_report s ≡ ok (is_last got)
unfolding ends_report
ends_report-is_last s got e n room = ground (arith, n, matches_back-is_last s got e n)

pub contents_header :
    (q : HeaderState) (s : Engine) → contents (goto q (refill (0x98 ∷ []) s)) ≡ 0x98 ∷ []
unfolding contents
contents_header q s = refl

module _ (path text : Bytes) (job : Job) where
  -- A byte in the buffer does not touch the files.
  put_stores :
      (kind : Kind) (got : Bytes) (c : ℕ) (s : Engine)
      → length got < buffer_size
      → Receives kind path text job got s
      → Yields (Receives kind path text job (got ++ c ∷ [])) (put c s)
  unfolding put
  put_stores report got c s room h =
      ground (
        arith,
        h.state,
        h.buffered,
        h.size,
        h.writes,
        contents-store c s,
        length-append got (c ∷ []),
      )
  put_stores _ got c s room h =
      ground (
        arith,
        h.state,
        h.buffered,
        h.size,
        h.writes,
        contents-store c s,
        length-append got (c ∷ []),
      )

  reading-Terminates : (kind : Kind) → Terminates (reading kind) 0x91
  reading-Terminates report = refl
  reading-Terminates history = refl
  reading-Terminates log = refl

  pub stores :
      (kind : Kind) (got : Bytes) (c : ℕ)
      → c ≢ 0x91
      → length got < buffer_size
      → (env : Env) (s : Engine) → Receives kind path text job got s
      → Yields (Receives kind path text job (got ++ c ∷ [])) (step env c s)
  stores kind got c n room env s h = at_state _ (reading kind) env c s h.state (
      rw (dispatch_stores (reading kind) 0x91 env c s (reading-Terminates kind) n)
        (put_stores kind got c s room h))
