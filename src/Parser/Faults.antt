-- ===== src/Parser/Faults.antt =====
-- When a handler does what C leaves undefined, and that it does not otherwise.
use industrial_control.Prelude.{ℕ, ◌<◌, ◌≤◌, ◌≡◌, ◌≢◌, ◌⊎◌, refl, true, false, none, arith}
use industrial_control.Prelude.Bits.{has}
use industrial_control.Flags.{target, buffer_size}
use industrial_control.Outcome.{
  Outcome, ok, Fault, write_outside, read_outside, null_stream, number_outside, fault,
}
use industrial_control.Parser.State.{
  HeaderState, ss_unknown, ss_display, rpt_start, rpt_display, hst_start, hst_display, hst_data,
  log_data, log_display, Env, Engine,
}
use industrial_control.Parser.Buffer.{put, back, take_snapshot, matches_back}
use industrial_control.Parser.LogMode.{log_record}
use industrial_control.Parser.Header.{dispatch, step}
use industrial_control.Parser.Bounds.{IsBounded}

-- The handlers that write a snapshot.
abbrev pub IsDisplay : HeaderState → Type 0
IsDisplay q = (q ≡ ss_display) ⊎ (q ≡ rpt_display) ⊎ (q ≡ hst_display) ⊎ (q ≡ log_display)

-- The handlers that open a file on the target without a test for NULL.
abbrev pub IsOpening : HeaderState → Type 0
IsOpening q = (q ≡ rpt_start) ⊎ (q ≡ hst_start)

-- What must hold for the handler of state `q` to fault in this way.
abbrev pub Cause : HeaderState → Env → ℕ → Engine → Fault → Type 0
Cause q env c s write_outside = s.buffer_len ≡ buffer_size
Cause q env c s read_outside =
    ((q ≡ hst_data) × (c ≡ 0x91) × (s.buffer_len < 5))
    ⊎ ((q ≡ log_data) × (c ≡ 0x91) × (s.buffer_len ≡ 0) × (s.buffer 0 ≡ 0x98))
Cause q env c s null_stream =
    (IsDisplay q × (s.is_snapshot ≡ true) × (s.f_rdg ≡ none))
    ⊎ (IsOpening q × (c ≡ 0x98) × (has s.options target ≡ true) × (env.fopen_succeeds ≡ false))
    ⊎ ((q ≡ hst_data) × (c ≡ 0x91) × (s.f_hst ≡ none))
Cause q env c s number_outside = ⊥

dispatch-Cause :
    (f : Fault) (q : HeaderState) (env : Env) (c : ℕ) (s : Engine)
    → s.header_state ≡ q
    → IsBounded s
    → dispatch q env c s ≡ fault f
    → Cause q env c s f
unfolding dispatch put back take_snapshot matches_back log_record
dispatch-Cause write_outside ss_unknown env c s e b h = ground arith
dispatch-Cause write_outside _ env c s e b h = ground arith
dispatch-Cause read_outside ss_unknown env c s e b h = ground arith
dispatch-Cause read_outside _ env c s e b h = ground arith
dispatch-Cause null_stream ss_unknown env c s e b h = ground arith
dispatch-Cause null_stream _ env c s e b h = ground arith
dispatch-Cause number_outside ss_unknown env c s e b h = ground arith
dispatch-Cause number_outside _ env c s e b h = ground arith

-- Under the bounds of the buffer, a byte makes a handler do what C leaves undefined only for one
-- of these reasons: a write outside the buffer when it is full; a read outside it at the 0x91
-- that ends a History record of fewer than five bytes, or an empty Log record behind a stale 0x98;
-- and a NULL stream when a snapshot is due and readings.txt could not be opened, when `fopen`
-- fails on the target at the start of a Report or History, or when the last History record comes
-- while no History file is open.
pub step-Cause :
    (f : Fault) (env : Env) (c : ℕ) (s : Engine)
    → IsBounded s
    → step env c s ≡ fault f
    → Cause s.header_state env c s f
step-Cause f env c s b h = dispatch-Cause f s.header_state env c s refl b h

-- What the engine relies on to be defined at its next byte.
pub record IsReady (s : Engine) : Type 0 where
  pub bounded : IsBounded s
  pub room : s.buffer_len < buffer_size
  pub readings : s.f_rdg ≢ none
  pub history_open : s.header_state ≡ hst_data → s.f_hst ≢ none
  pub history_long : s.header_state ≡ hst_data → 5 ≤ s.buffer_len
  pub log_not_empty : s.header_state ≡ log_data → 0 < s.buffer_len

-- The engine handles any byte without a fault if `fopen` succeeds, the buffer has a free cell and
-- as many bytes as the state reads back, readings.txt is open, and the History file is open and
-- its record has five bytes in the state for History data, and the record is not empty in the
-- state for Log data.
pub step_total :
    (env : Env) (c : ℕ) (s : Engine)
    → env.fopen_succeeds ≡ true
    → IsReady s
    → (t : Engine) × (step env c s ≡ ok t)
step_total env c s opens r = go (step env c s) refl
  where
    go : (m : Outcome Engine) → step env c s ≡ m → (t : Engine) × (m ≡ ok t)
    go (ok t) e = (t, refl)
    go (fault write_outside) e =
        absurd (omega (arith, r.room, step-Cause write_outside env c s r.bounded e))
    go (fault read_outside) e = absurd (ground (arith, step-Cause read_outside env c s r.bounded e))
    go (fault number_outside) e = absurd (step-Cause number_outside env c s r.bounded e)
    go (fault null_stream) e = absurd (ground (arith, step-Cause null_stream env c s r.bounded e))

-- A display byte right behind the header of a History record: the test for the end mark reads
-- before the buffer, whatever the files, flags and options are.
pub hst_data_short :
    (env : Env) (s : Engine)
    → s.header_state ≡ hst_data
    → s.buffer_len < 5
    → step env 0x91 s ≡ fault read_outside
unfolding dispatch back matches_back
hst_data_short env s e h = rw e (ground arith)
