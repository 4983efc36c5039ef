-- ===== src/Parser/Chunks.antt =====
-- The bytes from the line in one read or in many.
use industrial_control.Prelude.{
  ℕ, suc, ◌+◌, ◌≡◌, ◌<◌, refl, sym, ◌∙◌, ap, inl, inr, Bool-cases, true, false, some, List, [], ◌∷◌,
  ◌++◌, arith, Bytes, length,
}
use industrial_control.Prelude.Bits.{has}
use industrial_control.Flags.{logmode_off_req}
use industrial_control.Outcome.{Fault, Outcome, ok, fault, ◌>>=◌, Ensures, bind_cong, bind_assoc}
use industrial_control.Parser.State.{
  HeaderState, ss_unknown, log_display, Event, transmit, notify, opened, closed, snapshot, Env,
  Engine,
}
use industrial_control.Parser.Buffer.{
  put, back, take_snapshot, notify_success, msg_send_to_client, matches_back, contents, is_active,
}
use industrial_control.Parser.Header.{dispatch, step, parse_bytes, snapshot_timer}
use industrial_control.Parser.LogMode.{write_log, log_record}
use industrial_control.Parser.Runs.{parse_bytes_keeps}
use industrial_control.Parser.Transfer.{is_open}

-- What the engine has done but for the snapshots.
abbrev pub but_snapshots : List Event → List Event
but_snapshots [] = []
but_snapshots (snapshot cs ∷ es) = but_snapshots es
but_snapshots (transmit cs ∷ es) = transmit cs ∷ but_snapshots es
but_snapshots (notify q m t ∷ es) = notify q m t ∷ but_snapshots es
but_snapshots (opened f ∷ es) = opened f ∷ but_snapshots es
but_snapshots (closed f ∷ es) = closed f ∷ but_snapshots es

-- The state with an empty readings.txt and its timer not due.
abbrev pub but_readings : Engine → Engine
but_readings s = record s {
  snapshot_interval = 0;
  is_snapshot = false;
  f_rdg = some [];
  events = but_snapshots s.events;
}

-- The same of an outcome.
abbrev pub outcome_but_readings : Outcome Engine → Outcome Engine
outcome_but_readings (ok s) = ok (but_readings s)
outcome_but_readings (fault e) = fault e

log_display-but_readings :
    (env : Env) (c : ℕ) (s : Engine)
    → is_open s.f_rdg ≡ true
    → outcome_but_readings (dispatch log_display env c s)
      ≡ dispatch log_display env c (but_readings s)
unfolding dispatch put back take_snapshot notify_success msg_send_to_client
log_display-but_readings env c s r = elim (Bool-cases s.is_snapshot) [
  | inl due ↦ elim (Bool-cases (is_active s)) [
    | inl on ↦ elim (Bool-cases (has s.control logmode_off_req)) [
      | inl a ↦ ground arith
      | inr b ↦ ground arith
    ]
    | inr passive ↦ ground arith
  ]
  | inr early ↦ elim (Bool-cases (is_active s)) [
    | inl on ↦ elim (Bool-cases (has s.control logmode_off_req)) [
      | inl a ↦ ground arith
      | inr b ↦ ground arith
    ]
    | inr passive ↦ ground arith
  ]
]

dispatch-but_readings :
    (q : HeaderState) (env : Env) (c : ℕ) (s : Engine)
    → is_open s.f_rdg ≡ true
    → outcome_but_readings (dispatch q env c s) ≡ dispatch q env c (but_readings s)
unfolding dispatch put back take_snapshot notify_success msg_send_to_client matches_back contents
    write_log log_record
dispatch-but_readings log_display env c s r = log_display-but_readings env c s r
dispatch-but_readings ss_unknown env c s r = ground arith
dispatch-but_readings _ env c s r = ground arith

step-but_readings :
    (env : Env) (c : ℕ) (s : Engine)
    → is_open s.f_rdg ≡ true
    → outcome_but_readings (step env c s) ≡ step env c (but_readings s)
step-but_readings env c s r = dispatch-but_readings s.header_state env c s r

-- An open readings.txt stays open.
dispatch-readings :
    (q : HeaderState) (env : Env) (c : ℕ) (s : Engine)
    → is_open s.f_rdg ≡ true
    → Ensures (λ t. is_open t.f_rdg ≡ true) (dispatch q env c s)
unfolding dispatch put take_snapshot notify_success
dispatch-readings ss_unknown env c s r = ground arith
dispatch-readings _ env c s r = ground arith

-- One step and then the others, seen without readings.txt.
pub bind-but_readings {ℓ} :
    {T : Type ℓ} (see : Outcome T → Outcome T) (m n : Outcome Engine) (f g : Engine → Outcome T)
    → ((e : Fault) → see (fault e) ≡ fault e)
    → outcome_but_readings m ≡ n
    → Ensures (λ t. is_open t.f_rdg ≡ true) m
    → ((t : Engine) → is_open t.f_rdg ≡ true → see (f t) ≡ g (but_readings t))
    → see (m >>= f) ≡ (n >>= g)
bind-but_readings see (ok t) n f g faults e r next = next t r ∙ ap (λ x. x >>= g) e
bind-but_readings see (fault reason) n f g faults e r next = faults reason ∙ ap (λ x. x >>= g) e

pub parse_bytes-but_readings :
    (cs : Bytes) (env : ℕ → Env) (i : ℕ) (s : Engine)
    → is_open s.f_rdg ≡ true
    → outcome_but_readings (parse_bytes env i cs s) ≡ parse_bytes env i cs (but_readings s)
unfolding parse_bytes
parse_bytes-but_readings [] env i s r = refl
parse_bytes-but_readings (c ∷ cs) env i s r =
    bind-but_readings outcome_but_readings (step (env i) c s) (step (env i) c (but_readings s))
      (parse_bytes env (suc i) cs) (parse_bytes env (suc i) cs) (λ e. refl)
      (step-but_readings (env i) c s r) (dispatch-readings s.header_state (env i) c s r)
      (λ t. parse_bytes-but_readings cs env (suc i) t)

pub parse_bytes-readings :
    (cs : Bytes) (env : ℕ → Env) (i : ℕ) (s : Engine)
    → is_open s.f_rdg ≡ true
    → Ensures (λ t. is_open t.f_rdg ≡ true) (parse_bytes env i cs s)
parse_bytes-readings cs =
    parse_bytes_keeps (λ t. is_open t.f_rdg ≡ true)
      (λ env c s. dispatch-readings s.header_state env c s) cs

-- The timer does not matter then.
pub snapshot_timer-but_readings :
    (now : ℕ) (s : Engine)
    → is_open s.f_rdg ≡ true
    → (but_readings (snapshot_timer now s) ≡ but_readings s)
      × (is_open (snapshot_timer now s).f_rdg ≡ true)
unfolding snapshot_timer
snapshot_timer-but_readings now s r = (ground arith, ground arith)

-- Two stretches of bytes one after the other.
pub parse_bytes-append :
    (xs ys : Bytes) (env : ℕ → Env) (i : ℕ) (s : Engine)
    → parse_bytes env i (xs ++ ys) s
      ≡ (parse_bytes env i xs s >>= parse_bytes env (i + length xs) ys)
unfolding parse_bytes
parse_bytes-append [] ys env i s = ap (λ j. parse_bytes env j ys s) (omega arith)
parse_bytes-append (c ∷ xs) ys env i s =
    let here : suc i + length xs ≡ i + suc (length xs) = omega arith in
    bind_cong (step (env i) c s) (step (env i) c s) _ _ refl (λ t.
      parse_bytes-append xs ys env (suc i) t
      ∙ ap (λ j. parse_bytes env (suc i) xs t >>= parse_bytes env j ys) here)
    ∙ sym (bind_assoc (step (env i) c s) (parse_bytes env (suc i) xs) _)

-- What the system answers elsewhere does not matter.
pub parse_bytes-local :
    (cs : Bytes) (env other : ℕ → Env) (i j : ℕ) (s : Engine)
    → ((k : ℕ) → k < length cs → env (i + k) ≡ other (j + k))
    → parse_bytes env i cs s ≡ parse_bytes other j cs s
unfolding parse_bytes
parse_bytes-local [] env other i j s same = refl
parse_bytes-local (c ∷ cs) env other i j s same =
    let i_here : i ≡ i + 0 = omega arith in
    let j_here : j + 0 ≡ j = omega arith in
    let now : env i ≡ other j = ap env i_here ∙ same 0 (omega arith) ∙ ap other j_here in
    bind_cong (step (env i) c s) (step (other j) c s) _ _ (ap (λ e. step e c s) now) (λ t.
      parse_bytes-local cs env other (suc i) (suc j) t (λ k below.
        let i_next : suc i + k ≡ i + suc k = omega arith in
        let j_next : j + suc k ≡ suc j + k = omega arith in
        ap env i_next ∙ same (suc k) (omega arith) ∙ ap other j_next))
