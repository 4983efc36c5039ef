-- ===== src/Parser/Snapshots.antt =====
-- How often a record is written to readings.txt.
use industrial_control.Prelude.{
  ℕ, suc, ◌+◌, ◌*◌, ◌≡◌, ◌≤◌, Bool, true, false, List, [], ◌∷◌, Bytes, refl, arith,
}
use industrial_control.Outcome.{Ensures, Ensures-mono}
use industrial_control.Parser.State.{
  HeaderState, ss_unknown, Event, transmit, notify, opened, closed, snapshot, Env, Engine,
}
use industrial_control.Parser.Buffer.{put, back, take_snapshot, notify_success}
use industrial_control.Parser.Header.{dispatch, step, parse_header, parse_bytes, snapshot_timer}
use industrial_control.Parser.Runs.{parse_bytes_keeps}

-- The records written to readings.txt.
abbrev pub shots : List Event → ℕ
shots [] = 0
shots (snapshot _ ∷ es) = suc (shots es)
shots (transmit _ ∷ es) = shots es
shots (notify _ _ _ ∷ es) = shots es
shots (opened _ ∷ es) = shots es
shots (closed _ ∷ es) = shots es

abbrev pub one_if : Bool → ℕ
one_if true = 1
one_if false = 0

-- The records written and the one that is due come to `total`, and the timer was last set at `at`.
abbrev Timed : ℕ → ℕ → Engine → Type 0
Timed total at s = (shots s.events + one_if s.is_snapshot ≡ total) × (s.snapshot_interval ≡ at)

dispatch-Timed :
    (q : HeaderState) (env : Env) (c : ℕ) (total at : ℕ) (s : Engine)
    → s.header_state ≡ q
    → Timed total at s
    → Ensures (Timed total at) (dispatch q env c s)
unfolding dispatch put back take_snapshot notify_success
dispatch-Timed ss_unknown env c total at s e h = ground arith
dispatch-Timed _ env c total at s e h = ground arith

step-Timed :
    (total at : ℕ) (env : Env) (c : ℕ) (s : Engine)
    → Timed total at s
    → Ensures (Timed total at) (step env c s)
step-Timed total at env c s h = dispatch-Timed s.header_state env c total at s refl h

-- Since `start`, at least five seconds have gone by for each record written or due, and the timer
-- was set no later than `now`.
pub record IsPaced (start now : ℕ) (s : Engine) : Type 0 where
  pub paced : start + 5 * (shots s.events + one_if s.is_snapshot) ≤ s.snapshot_interval
  pub past : s.snapshot_interval ≤ now

snapshot_timer-IsPaced :
    (start before now : ℕ) (s : Engine)
    → before ≤ now
    → IsPaced start before s
    → IsPaced start now (snapshot_timer now s)
unfolding snapshot_timer
snapshot_timer-IsPaced start before now s later h = ground arith

abbrev total : Engine → ℕ
total s = shots s.events + one_if s.is_snapshot

-- With a clock that has not been set back, a call of `parse_header` keeps the pace.
pub parse_header-IsPaced :
    (start before now : ℕ) (env : ℕ → Env) (received : Bytes) (s : Engine)
    → before ≤ now
    → IsPaced start before s
    → Ensures (IsPaced start now) (parse_header now env received s)
unfolding parse_header
parse_header-IsPaced start before now env received s later h =
    after (snapshot_timer now s) (snapshot_timer-IsPaced start before now s later h)
  where
    after :
        (t : Engine)
        → IsPaced start now t
        → Ensures (IsPaced start now) (parse_bytes env 0 received t)
    after t p =
        Ensures-mono (Timed (total t) t.snapshot_interval) (IsPaced start now)
          (parse_bytes env 0 received t)
          (λ u q. record {
            paced = ground (arith, q.0, q.1, p.paced);
            past = ground (arith, q.1, p.past);
          })
          (parse_bytes_keeps (Timed (total t) t.snapshot_interval)
            (step-Timed (total t) t.snapshot_interval) received env 0 t (refl, refl))
