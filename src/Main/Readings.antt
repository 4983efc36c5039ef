-- ===== src/Main/Readings.antt =====
-- How often a session writes readings.txt.
use industrial_control.Prelude.{ℕ, ◌+◌, ◌*◌, ◌≤◌, Bool, List, [], ◌∷◌, arith}
use industrial_control.Outcome.{Ensures, Ensures-bind, Ensures-mono}
use industrial_control.Parser.State.{Engine}
use industrial_control.Parser.Header.{parse_open, parse_header}
use industrial_control.Parser.Snapshots.{IsPaced, shots, parse_header-IsPaced}
use industrial_control.Parser.Buffer.{msg_send_to_client}
use industrial_control.Server.{control_receive_msg}
use industrial_control.Main.{Round, take_triggers, serve}
use industrial_control.Main.Session.{goes_on}

-- The clock is never set back from `before` on and the last round is no later than `finish`.
abbrev pub InOrder : ℕ → List Round → ℕ → Type 0
InOrder before [] finish = before ≤ finish
InOrder before (r ∷ rs) finish = (before ≤ r.now) × InOrder r.now rs finish

InOrder-le : (rs : List Round) (before finish : ℕ) → InOrder before rs finish → before ≤ finish
InOrder-le [] before finish h = h
InOrder-le (r ∷ rs) before finish h = omega (arith, h.0, InOrder-le rs r.now finish h.1)

-- Clients and signals do not touch the timer.
begin-IsPaced :
    (start before : ℕ) (r : Round) (s : Engine)
    → IsPaced start before s
    → IsPaced start before (control_receive_msg r.message (take_triggers r s)).0
unfolding control_receive_msg msg_send_to_client take_triggers
begin-IsPaced start before r s h = ground arith

later :
    (start now finish : ℕ) (s : Engine)
    → now ≤ finish
    → IsPaced start now s
    → IsPaced start finish s
later start now finish s le h = record { paced = h.paced; past = omega (arith, h.past) }

serve-IsPaced :
    (rs : List Round) (start before finish : ℕ) (s : Engine)
    → InOrder before rs finish
    → IsPaced start before s
    → Ensures (λ r. IsPaced start finish r.0) (serve rs s)
unfolding serve
serve-IsPaced [] start before finish s o h = later start before finish s o h
serve-IsPaced (r ∷ rs) start before finish s o h =
    let m = control_receive_msg r.message (take_triggers r s) in
    Ensures-bind (IsPaced start r.now) (λ p. IsPaced start finish p.0)
      (parse_header r.now r.env r.received m.0) _
      (parse_header-IsPaced start before r.now r.env r.received m.0 o.0
        (begin-IsPaced start before r s h))
      (λ u q.
        goes_on (IsPaced start finish) m.1 u (serve rs u)
          (later start r.now finish u (InOrder-le rs r.now finish o.1) q)
          (serve-IsPaced rs start r.now finish u o.1 q))

-- In a session without a fault whose clock is not set back, readings.txt is written at most once for every five
-- seconds that the session lasts, whatever the clients, the signals and the port do.
pub session_pace :
    (rs : List Round) (options control start finish : ℕ) (readings : Bool)
    → InOrder start rs finish
    → Ensures
        (λ r. start + 5 * shots r.0.events ≤ finish)
        (serve rs (parse_open options control start readings))
unfolding parse_open
session_pace rs options control start finish readings o =
    Ensures-mono (λ r. IsPaced start finish r.0) _
      (serve rs (parse_open options control start readings)) (λ r h. omega (arith, h.paced, h.past))
      (serve-IsPaced rs start start finish (parse_open options control start readings) o
        (record { paced = omega arith; past = omega arith }))
