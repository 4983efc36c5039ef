-- ===== src/Parser/Runs.antt =====
-- From one byte to all bytes: what every handler keeps holds behind `parse_header`.
use industrial_control.Prelude.{ℕ, suc, ◌≡◌, false, [], ◌∷◌, Bytes, List, refl, arith, Bool}
use industrial_control.Prelude.Bits.{raise}
use industrial_control.Outcome.{Outcome, ok, fault, Ensures, Ensures-bind, Ensures-mono}
use industrial_control.Parser.State.{HeaderState, ss_unknown, Env, Engine}
use industrial_control.Parser.Buffer.{put, take_snapshot, notify_success, is_active}
use industrial_control.Parser.Header.{
  dispatch, step, parse_bytes, snapshot_timer, parse_header, parse_open,
}
use industrial_control.Parser.Bounds.{IsBounded, step-IsBounded}
use industrial_control.Parser.Status.{HasStatus, step-HasStatus}
use industrial_control.Parser.Files.{HasFiles, step-HasFiles}
use industrial_control.Parser.Leaks.{IsBalanced, step-IsBalanced}
use industrial_control.Parser.Polls.{sent, Answers, step-Answers}

-- What every byte keeps, all bytes keep.
pub parse_bytes_keeps {ℓ} :
    (P : Engine → Type ℓ)
    → ((env : Env) (c : ℕ) (s : Engine) → P s → Ensures P (step env c s))
    → (cs : Bytes) (env : ℕ → Env) (i : ℕ) (s : Engine) → P s
    → Ensures P (parse_bytes env i cs s)
unfolding parse_bytes
parse_bytes_keeps P keep [] env i s p = p
parse_bytes_keeps P keep (c ∷ cs) env i s p =
    Ensures-bind P P (step (env i) c s) (parse_bytes env (suc i) cs) (keep (env i) c s p)
      (λ t q. parse_bytes_keeps P keep cs env (suc i) t q)

-- What holds of the engine between two bytes.
pub record IsSound (s : Engine) : Type 0 where
  pub bounded : IsBounded s
  pub status : HasStatus s
  pub files : HasFiles s
  pub balanced : IsBalanced s

collect :
    (m : Outcome Engine)
    → Ensures IsBounded m
    → Ensures HasStatus m
    → Ensures HasFiles m
    → Ensures IsBalanced m
    → Ensures IsSound m
collect (ok t) b w f l = record { bounded = b; status = w; files = f; balanced = l }
collect (fault e) b w f l = tt

pub step-IsSound : (env : Env) (c : ℕ) (s : Engine) → IsSound s → Ensures IsSound (step env c s)
step-IsSound env c s h =
    collect (step env c s) (step-IsBounded env c s h.bounded) (step-HasStatus env c s h.status)
      (step-HasFiles env c s h.status h.files) (step-IsBalanced env c s h.status h.files h.balanced)

pub snapshot_timer-IsSound : (now : ℕ) (s : Engine) → IsSound s → IsSound (snapshot_timer now s)
unfolding snapshot_timer
snapshot_timer-IsSound now s h = ground arith

pub parse_header-IsSound :
    (now : ℕ) (env : ℕ → Env) (received : Bytes) (s : Engine)
    → IsSound s
    → Ensures IsSound (parse_header now env received s)
unfolding parse_header
parse_header-IsSound now env received s h =
    parse_bytes_keeps IsSound step-IsSound received env 0 (snapshot_timer now s)
      (snapshot_timer-IsSound now s h)

pub parse_open-IsSound :
    (options control now : ℕ) (readings : Bool) → IsSound (parse_open options control now readings)
unfolding parse_open raise
parse_open-IsSound options control now readings = record {
  bounded = omega arith;
  status = refl;
  files = record { report = refl; history = refl; log = tt; log_closed = λ _. refl };
  balanced = refl;
}

-- No handler changes the options.
dispatch-options :
    (q : HeaderState) (env : Env) (c : ℕ) (s : Engine)
    → Ensures (λ t. t.options ≡ s.options) (dispatch q env c s)
unfolding dispatch put take_snapshot notify_success
dispatch-options ss_unknown env c s = ground arith
dispatch-options _ env c s = ground arith

-- Out of active mode nothing has been sent.
abbrev IsSilent : List Bytes → Engine → Type 0
IsSilent log s = (is_active s ≡ false) × (sent s.events ≡ log)

collect-IsSilent :
    (s : Engine) (c : ℕ) (log : List Bytes) (m : Outcome Engine)
    → IsSilent log s
    → Ensures (λ t. t.options ≡ s.options) m
    → Ensures (Answers s.header_state c s) m
    → Ensures (IsSilent log) m
collect-IsSilent s c log (ok t) h o a = (rw o h.0, ground arith)
collect-IsSilent s c log (fault e) h o a = tt

step-IsSilent :
    (log : List Bytes) (env : Env) (c : ℕ) (s : Engine)
    → IsSilent log s
    → Ensures (IsSilent log) (step env c s)
step-IsSilent log env c s h =
    collect-IsSilent s c log (step env c s) h (dispatch-options s.header_state env c s)
      (step-Answers env c s)

-- Out of active mode the engine only listens: whatever bytes it is given, if it handles them without
-- a fault it sends nothing.
pub parse_header_silent :
    (now : ℕ) (env : ℕ → Env) (received : Bytes) (s : Engine)
    → is_active s ≡ false
    → Ensures (λ t. sent t.events ≡ sent s.events) (parse_header now env received s)
unfolding parse_header snapshot_timer
parse_header_silent now env received s h =
    Ensures-mono (IsSilent (sent s.events)) _ (parse_header now env received s) (λ t q. q.1)
      (parse_bytes_keeps (IsSilent (sent s.events)) (step-IsSilent (sent s.events)) received env 0
        (snapshot_timer now s) (ground arith))
