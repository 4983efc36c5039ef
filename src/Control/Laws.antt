-- ===== src/Control/Laws.antt =====
-- What the exit value of PE-Control says, what it learns, and what it leaves behind.
use industrial_control.Prelude.{
  ℕ, ◌≡◌, ◌⊎◌, inl, inr, refl, Bool-cases, Bool, true, false, Option, none, some, List, [], ◌∷◌,
  ◌==◌, if◌then◌else◌, Bytes, codes, length, arith,
}
use industrial_control.Text.{str_equal, str_equal_sound}
use industrial_control.Flags.{server_request_failure, server_action_success, server_action_failure}
use industrial_control.Server.{ClientReq, enomsg, eidrm, einval, eacces, other}
use industrial_control.Client.{Queues, RspRcv, received, failed}
use industrial_control.Control.{
  Exit, exit_success, exit_failure, request_of_char, Wait, log_mode_of, await, World, Run, waiting,
  finish, run_with, main,
}

-- What one response decides: success, failure, or nothing yet.
abbrev pub decides : RspRcv → Option Bool
decides (failed enomsg) = none
decides (failed _) = some false
decides (received n m) =
    if n == 0
    then none
    else if m.mtype == server_request_failure
    then some false
    else if m.mtype == server_action_success
    then some true
    else if m.mtype == server_action_failure
    then some false
    else none

-- The first response that decides.
abbrev pub verdict : List RspRcv → Option Bool
verdict [] = none
verdict (r ∷ rs) = let rest = verdict rs in elim (decides r) [ none ↦ rest | some b ↦ some b ]

abbrev exit_of : Bool → Exit
exit_of true = exit_success
exit_of false = exit_failure

-- The loop ends with the verdict as its exit value, and knows no log mode.
abbrev Decided : Option Bool → Option Wait → Type 0
Decided none o = o ≡ none
Decided (some b) none = ⊥
Decided (some b) (some w) = (w.exit_value ≡ exit_of b) × (w.is_log_mode ≡ 0)

pub log_mode_of_zero : (rsp : Bytes) → log_mode_of rsp 0 ≡ 0
unfolding log_mode_of
log_mode_of_zero rsp = elim (Bool-cases (str_equal rsp (codes "logmode"))) [
  | inl same ↦ rw same (rw (str_equal_sound rsp (codes "logmode") same))
  | inr differs ↦ rw differs
]

await_complete : (rs : List RspRcv) (w : Wait) → w.response_complete ≡ true → await rs w ≡ some w
unfolding await
await_complete [] w h = rw h
await_complete (r ∷ rs) w h = rw h

abbrev failing : Wait
failing = record { exit_value = exit_failure; response_complete = true; is_log_mode = 0 }

abbrev succeeding : ℕ → Wait
succeeding n = record { exit_value = exit_success; response_complete = true; is_log_mode = n }

await-verdict : (rs : List RspRcv) → Decided (verdict rs) (await rs waiting)
unfolding await
await-verdict [] = refl
await-verdict (failed enomsg ∷ rs) = await-verdict rs
await-verdict (failed eidrm ∷ rs) = rw (await_complete rs failing refl) (refl, refl)
await-verdict (failed einval ∷ rs) = rw (await_complete rs failing refl) (refl, refl)
await-verdict (failed eacces ∷ rs) = rw (await_complete rs failing refl) (refl, refl)
await-verdict (failed other ∷ rs) = rw (await_complete rs failing refl) (refl, refl)
await-verdict (received n m ∷ rs) = ground (
  arith,
  await-verdict rs,
  await_complete rs failing refl,
  await_complete rs (succeeding (log_mode_of m.rsp 0)) refl,
  log_mode_of_zero m.rsp,
)

await_success :
    (rs : List RspRcv)
    → verdict rs ≡ some true
    → (w : Wait) × (await rs waiting ≡ some w) × (w.exit_value ≡ exit_success)
await_success rs v = found (await rs waiting) (rw v at (await-verdict rs))
  where
    found :
        (o : Option Wait)
        → Decided (some true) o
        → (w : Wait) × (o ≡ some w) × (w.exit_value ≡ exit_success)
    found none d = absurd d
    found (some w) d = (w, refl, d.0)

client_id_of :
    (c : ℕ) (q : Queues) {m : ClientReq} → request_of_char c q ≡ some m → m.client_id ≡ q.client_mq
unfolding request_of_char
client_id_of c q h = ground arith

-- What holds of a run, or of a wait for ever.
abbrev Explained : Option Run → World → Type 0
Explained none world = verdict world.responses ≡ none
Explained (some r) world =
    (r.is_log_mode ≡ 0)
    × (r.exit_value ≡ exit_success
        → (length r.requests ≡ 1)
          × (verdict world.responses ≡ some true)
          × (r.queue_removed ≡ true))

main-Explained : (world : World) → Explained (main world) world
unfolding main
main-Explained world = by_arguments world.arguments
  where
    by_arguments : (given : List Bytes) → Explained (run_with world given) world
    by_arguments ((c ∷ []) ∷ []) = ground (arith, await-verdict world.responses)
    by_arguments _ = ground arith

-- A run that exits with success has sent exactly one request, the first response that decides
-- anything was a success of the action, and the queue has been removed.
pub main_success :
    (world : World) (r : Run)
    → main world ≡ some r
    → r.exit_value ≡ exit_success
    → (length r.requests ≡ 1) × (verdict world.responses ≡ some true) × (r.queue_removed ≡ true)
main_success world r e h = (rw e at (main-Explained world)).1 h

-- Whatever the server answers, a run ends with the log mode that it started with: no response
-- has exactly the text that the update of the log mode asks for and a number behind it.
pub main-is_log_mode : (world : World) (r : Run) → main world ≡ some r → r.is_log_mode ≡ 0
main-is_log_mode world r e = (rw e at (main-Explained world)).0

-- A command letter, both queues, a request that is sent, a success as the first response that
-- decides and a queue that can be removed: then the run ends, with success, and the request that
-- it has sent names its own queue.
pub main_succeeds :
    (world : World) (c server client : ℕ) (m : ClientReq)
    → world.arguments ≡ (c ∷ []) ∷ []
    → world.server_mq ≡ some server
    → world.client_mq ≡ some client
    → request_of_char c (record { client_mq = client; server_mq_client = server }) ≡ some m
    → world.sends ≡ true
    → verdict world.responses ≡ some true
    → world.removes ≡ true
    → (r : Run) × (main world ≡ some r)
      × (r.exit_value ≡ exit_success)
      × (r.requests ≡ m ∷ [])
      × (m.client_id ≡ client)
unfolding main
main_succeeds world c server client m a sq cq q sd v rm =
    let (w, waited, good) = await_success world.responses v in
    (
      finish world (m ∷ []) w,
      ground arith,
      ground arith,
      refl,
      client_id_of c (record { client_mq = client; server_mq_client = server }) q,
    )

-- The same, and no response that decides: then the run waits for ever.
pub main_waits :
    (world : World) (c server client : ℕ) (m : ClientReq)
    → world.arguments ≡ (c ∷ []) ∷ []
    → world.server_mq ≡ some server
    → world.client_mq ≡ some client
    → request_of_char c (record { client_mq = client; server_mq_client = server }) ≡ some m
    → world.sends ≡ true
    → verdict world.responses ≡ none
    → main world ≡ none
unfolding main
main_waits world c server client m a sq cq q sd v =
    let waits : await world.responses waiting ≡ none = rw v at (await-verdict world.responses) in
    ground arith

-- A letter that is no command, or a request that cannot be sent, makes the run fail and leave its
-- queue behind.
pub main_leaves_queue :
    (world : World) (c server client : ℕ)
    → world.arguments ≡ (c ∷ []) ∷ []
    → world.server_mq ≡ some server
    → world.client_mq ≡ some client
    → (request_of_char c (record { client_mq = client; server_mq_client = server }) ≡ none)
      ⊎ (world.sends ≡ false)
    → (r : Run) × (main world ≡ some r)
      × (r.exit_value ≡ exit_failure)
      × (r.queue_created ≡ true)
      × (r.queue_removed ≡ false)
unfolding main
main_leaves_queue world c server client a sq cq why = (
  record {
    exit_value = exit_failure;
    requests = [];
    queue_created = true;
    queue_removed = false;
    is_log_mode = 0;
  },
  ground arith,
  refl,
  refl,
  refl,
)
