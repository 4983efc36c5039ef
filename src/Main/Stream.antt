-- ===== src/Main/Stream.antt =====
-- The live loop without clients: the bytes of the line, however the reads of the port split them.
use mathlib.Core.Path.{subst}
use industrial_control.Prelude.{
  ℕ, ◌+◌, ◌-◌, ◌<◌, ◌≡◌, ◌≢◌, refl, sym, ◌∙◌, ap, Bool, true, false, none, List, [], ◌∷◌, ◌++◌, ltb,
  if◌then◌else◌, arith, Bytes, length, map,
}
use industrial_control.Outcome.{Outcome, ok, fault, ◌>>=◌, bind_cong, bind_assoc}
use industrial_control.Parser.State.{Env, Engine}
use industrial_control.Parser.Header.{parse_bytes, parse_header, snapshot_timer}
use industrial_control.Parser.Chunks.{
  but_readings, bind-but_readings, parse_bytes-but_readings, parse_bytes-readings,
  snapshot_timer-but_readings, parse_bytes-append, parse_bytes-local,
}
use industrial_control.Parser.Transfer.{is_open}
use industrial_control.Flags.{client_req_exit}
use industrial_control.Parser.Triple.{Yields}
use industrial_control.Server.{ClientReq, received, failed, enomsg, control_receive_msg}
use industrial_control.Server.Laws.{control_receive_msg-Serves}
use industrial_control.Main.{Round, take_triggers, triggers_of, serve}

-- One read of the port: what came in, when, and what the system answers meanwhile.
pub record Reading : Type 0 where
  pub received : Bytes
  pub now : ℕ
  pub env : ℕ → Env

-- A round with no signal and no message.
abbrev pub quiet : Reading → Round
quiet x = record {
  signals = [];
  message = failed enomsg;
  received = x.received;
  now = x.now;
  env = x.env;
}

-- All bytes, and what the system answers at each.
abbrev pub stream : List Reading → Bytes
stream [] = []
stream (x ∷ xs) = x.received ++ stream xs

abbrev pub answers : List Reading → ℕ → Env
answers [] k = record { fopen_succeeds = false; local_time = none }
answers (x ∷ xs) k =
    let rest = answers xs (k - length x.received) in
    if ltb k (length x.received) then x.env k else rest

-- What is seen of the loop without readings.txt.
abbrev pub loop_but_readings : Outcome (Engine × Bool) → Outcome (Engine × Bool)
loop_but_readings (ok (s, running)) = ok (but_readings s, running)
loop_but_readings (fault e) = fault e

serve-quiet :
    (x : Reading) (rs : List Round) (s : Engine)
    → serve (quiet x ∷ rs) s
      ≡ (parse_bytes x.env 0 x.received (snapshot_timer x.now s) >>= serve rs)
unfolding serve control_receive_msg take_triggers triggers_of parse_header
serve-quiet x rs s = refl

answers_here :
    (x : Reading) (xs : List Reading) (k : ℕ)
    → k < length x.received
    → answers (x ∷ xs) (0 + k) ≡ x.env (0 + k)
answers_here x xs k below = ground arith

answers_later :
    (x : Reading) (xs : List Reading) (k : ℕ)
    → answers (x ∷ xs) (0 + length x.received + k) ≡ answers xs (0 + k)
answers_later x xs k =
    let behind : ltb (0 + length x.received + k) (length x.received) ≡ false = ground arith in
    let index : 0 + length x.received + k - length x.received ≡ 0 + k = omega arith in
    rw behind (ap (answers xs) index)

-- The stream of a list of reads: the first read, and then the others.
stream-parse_bytes :
    (x : Reading) (xs : List Reading) (s : Engine)
    → parse_bytes (answers (x ∷ xs)) 0 (stream (x ∷ xs)) s
      ≡ (parse_bytes x.env 0 x.received s >>= parse_bytes (answers xs) 0 (stream xs))
stream-parse_bytes x xs s =
    parse_bytes-append x.received (stream xs) (answers (x ∷ xs)) 0 s
    ∙ bind_cong (parse_bytes (answers (x ∷ xs)) 0 x.received s) (parse_bytes x.env 0 x.received s) _
        (parse_bytes (answers xs) 0 (stream xs))
        (parse_bytes-local x.received (answers (x ∷ xs)) x.env 0 0 s (answers_here x xs))
        (λ t.
          parse_bytes-local (stream xs) (answers (x ∷ xs)) (answers xs) (0 + length x.received) 0 t
            (λ k below. answers_later x xs k))

-- While no client sends a message and no signal comes in, it makes no difference how the reads of the
-- port split the bytes of the line, or when they return, but for readings.txt: with readings.txt
-- open, the loop over the reads does what the engine does with all their bytes at once, in the files,
-- to the line and the clients and in its state, or makes the same fault, and goes on.
pub serve-stream :
    (xs : List Reading) (s : Engine)
    → is_open s.f_rdg ≡ true
    → loop_but_readings (serve (map quiet xs) s)
      ≡ (parse_bytes (answers xs) 0 (stream xs) (but_readings s) >>= λ t. ok (t, true))
unfolding serve parse_bytes
serve-stream [] s r = refl
serve-stream (x ∷ xs) s r =
    let u = snapshot_timer x.now s in
    let (same, still) = snapshot_timer-but_readings x.now s r in
    ap loop_but_readings (serve-quiet x (map quiet xs) s)
    ∙ bind-but_readings loop_but_readings (parse_bytes x.env 0 x.received u)
        (parse_bytes x.env 0 x.received (but_readings u)) (serve (map quiet xs))
        (λ t. parse_bytes (answers xs) 0 (stream xs) t >>= λ v. ok (v, true)) (λ e. refl)
        (parse_bytes-but_readings x.received x.env 0 u still)
        (parse_bytes-readings x.received x.env 0 u still) (λ t readings. serve-stream xs t readings)
    ∙ ap
        (λ v. parse_bytes x.env 0 x.received v >>= λ t.
          parse_bytes (answers xs) 0 (stream xs) t >>= λ w. ok (w, true))
        same
    ∙ sym (
        ap (λ o. o >>= λ w. ok (w, true)) (stream-parse_bytes x xs (but_readings s))
        ∙ bind_assoc (parse_bytes x.env 0 x.received (but_readings s)) _ _)

-- A round with a message of a client.
abbrev pub asks_in : ClientReq → Reading → Round
asks_in m x = record (quiet x) { message = received 256 m }

-- A request that is not to exit is taken, and then the round is as any other.
pub serve-asks_in :
    (m : ClientReq) (x : Reading) (rs : List Round) (s : Engine)
    → m.mtype ≢ client_req_exit
    → serve (asks_in m x ∷ rs) s ≡ serve (quiet x ∷ rs) (control_receive_msg (received 256 m) s).0
unfolding serve take_triggers triggers_of parse_header
serve-asks_in m x rs s no_exit =
    let (served, goes) = control_receive_msg-Serves 255 m s in
    let on : (control_receive_msg (received 256 m) s).1 ≡ true = goes ∙ ground (arith, no_exit) in
    bind_cong (parse_header x.now x.env x.received (control_receive_msg (received 256 m) s).0) _ _
      (serve rs) refl (λ u. rw on refl)
    ∙ sym (serve-quiet x rs (control_receive_msg (received 256 m) s).0)

-- What holds of the stream without readings.txt, holds of the loop.
pub loop-Yields :
    (P Q : Engine → Type 0) (o : Outcome (Engine × Bool)) (m : Outcome Engine)
    → ((t : Engine) → P (but_readings t) → Q t)
    → loop_but_readings o ≡ (m >>= λ t. ok (t, true))
    → Yields P m
    → (t : Engine) × (o ≡ ok (t, true)) × Q t
loop-Yields P Q (ok (t, b)) (ok v) seen e p =
    let state : v ≡ but_readings t = cc in
    let on : b ≡ true = cc in (t, ap (λ x. ok (t, x)) on, seen t (subst P state p))
loop-Yields P Q (fault reason) (ok v) seen e p = absurd (cc)
loop-Yields P Q o (fault reason) seen e p = absurd p
