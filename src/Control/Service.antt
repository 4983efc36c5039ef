-- ===== src/Control/Service.antt =====
-- What PE-Control relies on in a server, and what it then does: the two sides of the message queue.
use industrial_control.Prelude.{
  ℕ, ◌≡◌, true, some, List, [], ◌∷◌, ◌++◌, ◌==◌, if◌then◌else◌, Bytes, arith,
}
use industrial_control.Flags.{server_action_success, server_request_success, msg_max_payload}
use industrial_control.Server.{ClientReq}
use industrial_control.Client.{queues, RspRcv, received}
use industrial_control.Control.{World, Run, exit_success, request_of_char, main}
use industrial_control.Control.Laws.{verdict, main_succeeds}

-- What a client receives, in order, of the messages of the engine, which stand latest first.
abbrev pub mailbox : ℕ → List (ℕ × ℕ × Bytes) → List RspRcv
mailbox id [] = []
mailbox id ((queue, mtype, text) ∷ ns) =
    let before = mailbox id ns in
    if queue == id
    then before ++ (received msg_max_payload (record { mtype = mtype; rsp = text }) ∷ [])
    else before

-- A run of PE-Control that gets the messages.
abbrev pub answered : World → ℕ → List (ℕ × ℕ × Bytes) → World
answered world id ns = record world { responses = mailbox id ns }

-- The run ends with success and has sent just one message.
abbrev pub SucceedsWith : World → ClientReq → Type 0
SucceedsWith world m =
    (r : Run) × (main world ≡ some r) × (r.exit_value ≡ exit_success) × (r.requests ≡ m ∷ [])

-- What the server promises to the client with queue `id`: of its messages `ms` the two latest are
-- for it, that the request has been taken and that the action has been a success, and there were
-- none for it before.
pub record Fulfils (id : ℕ) (taken done : Bytes) (ns ms : List (ℕ × ℕ × Bytes)) : Type 0 where
  pub before : mailbox id ns ≡ []
  pub after : ms ≡ (id, server_action_success, done) ∷ (id, server_request_success, taken) ∷ ns

-- What PE-Control is given: one letter, both queues, a request that is sent, and the removal of its
-- queue.
pub record Asks (world : World) (letter server client : ℕ) (m : ClientReq) : Type 0 where
  pub argument : world.arguments ≡ (letter ∷ []) ∷ []
  pub has_server : world.server_mq ≡ some server
  pub has_client : world.client_mq ≡ some client
  pub request : request_of_char letter (queues server client) ≡ some m
  pub sends : world.sends ≡ true
  pub removes : world.removes ≡ true

verdict-mailbox :
    (id : ℕ) (taken done : Bytes) (ns ms : List (ℕ × ℕ × Bytes))
    → Fulfils id taken done ns ms
    → verdict (mailbox id ms) ≡ some true
verdict-mailbox id taken done ns ms f = rw f.after (rw f.before (ground arith))

-- With a server that keeps its promise, PE-Control ends with success.
module _ (world : World) (letter server client : ℕ) (m : ClientReq)
    (asks : Asks world letter server client m) where
  pub Fulfils-SucceedsWith :
      (taken done : Bytes) (ns ms : List (ℕ × ℕ × Bytes))
      → Fulfils client taken done ns ms
      → SucceedsWith (answered world client ms) m
  Fulfils-SucceedsWith taken done ns ms f =
      let run =
        main_succeeds (answered world client ms) letter server client m asks.argument
          asks.has_server asks.has_client asks.request asks.sends
          (verdict-mailbox client taken done ns ms f) asks.removes in
      (run.0, run.1, run.2, run.3)
