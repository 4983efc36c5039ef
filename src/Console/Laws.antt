-- ===== src/Console/Laws.antt =====
-- How the console ends, and what it learns.
use industrial_control.Prelude.{
  ℕ, ◌≡◌, inl, inr, refl, ap, ◌∙◌, Bool-cases, Bool, true, false, ◌||◌, Option, none, some, List,
  [], ◌∷◌, ◌==◌, if◌then◌else◌, codes, All, map, arith,
}
use industrial_control.Text.{str_equal}
use industrial_control.Flags.{server_request_success}
use industrial_control.Server.{ClientReq, enomsg}
use industrial_control.Client.{Queues, RspRcv, received, failed}
use industrial_control.Control.Laws.{log_mode_of_zero}
use industrial_control.Console.{
  Console, Turn, idle, key, interrupt, World, exit_success, take_turn, turn_of, run_loop, main_loop,
  run_client, main, started,
}

-- The keys that quit: q, Q and ESC.
abbrev pub is_quit : ℕ → Bool
is_quit c = c == b'q' || c == b'Q' || c == 27

-- The acknowledgement of a request to exit.
abbrev pub is_exit : RspRcv → Bool
is_exit (received n m) =
    if n == 0
    then false
    else if m.mtype == server_request_success
    then str_equal m.rsp (codes "exit")
    else false
is_exit (failed e) = false

-- Whether the turns end the run; the flag says that a SIGINT has come. Behind it any key does.
abbrev pub leaves : Bool → List Turn → Bool
leaves b [] = false
leaves b (idle r ∷ ts) = is_exit r || leaves b ts
leaves b (key sends c ∷ ts) = b || is_quit c || leaves b ts
leaves b (interrupt ∷ ts) = leaves true ts

abbrev pub is_some {ℓ} : {A : Type ℓ} → Option A → Bool
is_some none = false
is_some (some a) = true

-- What a turn does to `isBreak`, and when it leaves the loops.
pub take_turn_idle :
    (r : RspRcv) (k : Console)
    → ((take_turn (idle r) k).1 ≡ is_exit r)
      × (is_exit r ≡ false → (take_turn (idle r) k).0.is_break ≡ k.is_break)
unfolding take_turn
take_turn_idle (received n m) k = ground arith
take_turn_idle (failed enomsg) k = ground arith
take_turn_idle (failed _) k = ground arith

take_turn_key :
    (sends : Bool) (c : ℕ) (k : Console)
    → ((take_turn (key sends c) k).1 ≡ (k.is_break || is_quit c))
      × ((take_turn (key sends c) k).0.is_break ≡ (k.is_break || is_quit c))
unfolding take_turn
take_turn_key true c k = ground arith
take_turn_key false c k = ground arith

run_loop-leaves : (ts : List Turn) (k : Console) → is_some (run_loop ts k) ≡ leaves k.is_break ts
unfolding run_loop
run_loop-leaves [] k = refl
run_loop-leaves (idle r ∷ ts) k =
    ground (arith, take_turn_idle r k, run_loop-leaves ts (take_turn (idle r) k).0)
run_loop-leaves (key sends c ∷ ts) k =
    ground (arith, take_turn_key sends c k, run_loop-leaves ts (take_turn (key sends c) k).0)
run_loop-leaves (interrupt ∷ ts) k = run_loop-leaves ts (record k { is_break = true })

-- From any state of the console, its loops end exactly if `isBreak` was set before them, or at the
-- first key that quits (q, Q or ESC), at the acknowledgement of a request to exit, or at the first
-- key behind a SIGINT that another process sent; any other turns leave it waiting. Ctrl-C at the
-- raw terminal sends no signal: it is the key 3, which does not quit.
pub main_loop-leaves :
    (ts : List Turn) (k : Console) → is_some (main_loop ts k) ≡ (k.is_break || leaves false ts)
unfolding main_loop
main_loop-leaves ts k = by_test k.is_break refl
  where
    by_test :
        (b : Bool)
        → k.is_break ≡ b
        → is_some (if b then some k else run_loop ts k) ≡ (b || leaves false ts)
    by_test true e = refl
    by_test false e = run_loop-leaves ts k ∙ ap (λ b. leaves b ts) e

-- The console on queues `q`: each of its requests names its own queue, and it has learnt of no
-- log mode.
pub record IsOwn (q : Queues) (k : Console) : Type 0 where
  pub queues : k.queues ≡ q
  pub is_log_mode : k.is_log_mode ≡ 0
  pub requests : All (λ (m : ClientReq). m.client_id ≡ q.client_mq) k.requests

take_turn-IsOwn : (q : Queues) (t : Turn) (k : Console) → IsOwn q k → IsOwn q (take_turn t k).0
unfolding take_turn
take_turn-IsOwn q (idle (received n m)) k h = ground (arith, log_mode_of_zero m.rsp)
take_turn-IsOwn q (idle (failed enomsg)) k h = ground arith
take_turn-IsOwn q (idle (failed _)) k h = ground arith
take_turn-IsOwn q (key true c) k h = ground arith
take_turn-IsOwn q (key false c) k h = ground arith
take_turn-IsOwn q interrupt k h = ground arith

-- The console that a run ends with, if it ends.
abbrev OwnEnd : Queues → Option Console → Type 0
OwnEnd q none = Unit
OwnEnd q (some k) = IsOwn q k

run_loop-OwnEnd : (q : Queues) (ts : List Turn) (k : Console) → IsOwn q k → OwnEnd q (run_loop ts k)
unfolding run_loop
run_loop-OwnEnd q [] k h = tt
run_loop-OwnEnd q (t ∷ ts) k h = elim (Bool-cases (take_turn t k).1) [
  | inl left ↦ rw left (take_turn-IsOwn q t k h)
  | inr stays ↦ rw stays (run_loop-OwnEnd q ts (take_turn t k).0 (take_turn-IsOwn q t k h))
]

IsOwn-started : (q : Queues) → IsOwn q (started q)
IsOwn-started q = record { queues = refl; is_log_mode = refl; requests = (refl, tt) }

main-run_loop :
    (w : World) (server client : ℕ) (k : Console)
    → w.server_mq ≡ some server
    → w.client_mq ≡ some client
    → (main w).ending ≡ exit_success k
    → run_loop
        (map turn_of w.inputs)
        (started (record { client_mq = client; server_mq_client = server }))
      ≡ some k
unfolding run_client main main_loop
main-run_loop w server client k s c e = ground arith

-- Whatever keys are hit and whatever the server answers, a run of the console that ends has the
-- log mode that it started with, and each request that it has sent names its own queue.
pub main-IsOwn :
    (w : World) (server client : ℕ) (k : Console)
    → w.server_mq ≡ some server
    → w.client_mq ≡ some client
    → (main w).ending ≡ exit_success k
    → (k.is_log_mode ≡ 0) × All (λ (m : ClientReq). m.client_id ≡ client) k.requests
main-IsOwn w server client k s c e =
    let q : Queues = record { client_mq = client; server_mq_client = server } in
    let own : IsOwn q k =
      rw (main-run_loop w server client k s c e) at
        (run_loop-OwnEnd q (map turn_of w.inputs) (started q) (IsOwn-started q)) in
    (own.is_log_mode, own.requests)
