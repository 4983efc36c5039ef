-- ===== src/Main.antt =====
-- `main` of Printer-Emulator/main.c behind its options: the choice of a run mode, and the loop that
-- serves the clients and the 1022. Main/Run has the whole run.
pub mod Session
pub mod Readings
pub mod Run
pub mod Ends
pub mod Starts
pub mod Replays
pub mod Passive
pub mod Stream
use industrial_control.Prelude.{
  ℕ, Bool, true, false, not, ◌&&◌, ◌||◌, Option, none, some, List, [], ◌∷◌, ltb, leb, ◌==◌,
  if◌then◌else◌, Bytes,
}
use industrial_control.Prelude.Bits.{has, raise, lower}
use industrial_control.Flags.{
  debug_dump, unit_test, capture, low_latency, active_mode, logmode_on_req, logmode_off_req,
}
use industrial_control.Outcome.{Outcome, ok, ◌>>=◌}
use industrial_control.Parser.State.{Engine, Env}
use industrial_control.Parser.Header.{parse_header}
use industrial_control.Server.{MsgRcv, control_receive_msg}

-- The four combinations that the sanity check lets through.
unfoldable pub runs_interactively : ℕ → Bool
runs_interactively o = not (has o unit_test) && not (has o capture) && has o active_mode

unfoldable pub dumps_passively : ℕ → Bool
dumps_passively o =
    not (has o unit_test) && not (has o capture) && has o debug_dump && not (has o active_mode)

unfoldable pub runs_unit_test : ℕ → Bool
runs_unit_test o =
    has o unit_test && not (has o capture) && has o debug_dump && not (has o active_mode)

unfoldable pub captures : ℕ → Bool
captures o = not (has o unit_test) && has o capture && not (has o low_latency)

unfoldable pub is_supported : ℕ → Bool
unfolding runs_interactively dumps_passively runs_unit_test captures
is_supported o = runs_interactively o || dumps_passively o || runs_unit_test o || captures o

-- The signals with a handler that returns. That of SIGINT ends the process.
pub data Signal : Type 0 where
  sigusr1 sigusr2 : Signal

-- `trigger1` and `trigger2`.
pub record Triggers : Type 0 where
  pub trigger1 : Bool
  pub trigger2 : Bool

-- USR1handler and USR2handler.
abbrev pub handle_signal : Signal → Triggers → Triggers
handle_signal sigusr1 t = record t { trigger1 = true }
handle_signal sigusr2 t = record t { trigger2 = true }

-- The triggers when the loop tests them, from the signals since the last test, latest first.
unfoldable pub triggers_of : List Signal → Triggers
triggers_of [] = record { trigger1 = false; trigger2 = false }
triggers_of (sig ∷ sigs) = handle_signal sig (triggers_of sigs)

-- One round of the loop: the signals that came in, what the message queue and the port gave, and
-- what the system answers meanwhile.
pub record Round : Type 0 where
  pub signals : List Signal
  pub message : MsgRcv
  pub received : Bytes
  pub now : ℕ
  pub env : ℕ → Env

-- The triggers of the signals, for tests.
unfoldable pub take_triggers : Round → Engine → Engine
take_triggers r s =
    let t = triggers_of r.signals in
    let c = if t.trigger1 then raise s.control logmode_on_req else s.control in
    record s { control = if t.trigger2 then raise c logmode_off_req else c }

-- The loop while clients may send messages, and whether it still runs behind the given rounds. A
-- request to exit ends it behind its own round.
unfoldable pub serve : List Round → Engine → Outcome (Engine × Bool)
unfolding take_triggers
serve [] s = ok (s, true)
serve (r ∷ rs) s =
    let (t, is_running) = control_receive_msg r.message (take_triggers r s) in
    let rest = λ (u : Engine). serve rs u in
    parse_header r.now r.env r.received t >>= λ u. (if is_running then rest u else ok (u, false))
