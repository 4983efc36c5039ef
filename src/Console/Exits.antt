-- ===== src/Console/Exits.antt =====
-- The console and the engine together: the request to exit.
use mathlib.Core.Path.{subst}
use industrial_control.Prelude.{
  sym, ℕ, suc, ◌≡◌, refl, ◌∙◌, inl, inr, Bool-cases, Bool, true, false, not, some, List, [], ◌∷◌,
  ◌++◌, codes, map, arith,
}
use industrial_control.Text.{str_equal}
use industrial_control.Flags.{msg_max_payload}
use industrial_control.Outcome.{ok}
use industrial_control.Parser.State.{Engine}
use industrial_control.Parser.Header.{parse_open, parse_header}
use industrial_control.Parser.Notices.{notices}
use industrial_control.Server.{enomsg, received, control_receive_msg}
use industrial_control.Server.Laws.{control_receive_msg-Serves}
use industrial_control.Client as Client
use industrial_control.Client.{queues, Queues, RspRcv, init_message, exit_message}
use industrial_control.Control.Service.{mailbox}
use industrial_control.Terminal.{ready, byte}
use industrial_control.Console.{
  Console, Input, poll, turn_of, run_loop, main_loop, started, World, exit_success, run_client,
  main, response,
}
use industrial_control.Console.Acknowledged.{
  is_acknowledged, is_acknowledged-append, Acknowledges, parse_header-Acknowledges,
}
use industrial_control.Console.Laws.{is_exit, take_turn_idle}
use industrial_control.Main.{Round, take_triggers, serve}
use industrial_control.Main.Session.{serve-append}
use industrial_control.Main.Run as Run
use industrial_control.Main.Starts.{Gives, missing, directories, flags_on, main-serves}
use industrial_control.Console.Cleanup.{main-terminal}

-- The engine takes the request: it acknowledges it and ends its loop.
take_exit :
    (n server client : ℕ) (s : Engine)
    → Acknowledges client
        (control_receive_msg (received (suc n) (exit_message (queues server client))) s).0
      × ((control_receive_msg (received (suc n) (exit_message (queues server client))) s).1 ≡ false)
unfolding str_equal
take_exit n server client s =
    let m = exit_message (queues server client) in
    let (h, goes) = control_receive_msg-Serves n m s in
    (
      rw h.answered (
          ground (
            arith,
            is_acknowledged-append (mailbox client (notices s.events))
                (Client.received msg_max_payload (record { mtype = 1; rsp = codes "exit" })),
          )),
      goes,
    )

-- A poll of the queue.
abbrev pub hears : RspRcv → Input
hears r = poll (record { select = ready 0; message = r; read = byte 0; unset = 0; sends = true })

-- An answer asks for no request.
response-requests : (r : RspRcv) (k : Console) → (response r k).0.requests ≡ k.requests
unfolding response
response-requests (Client.received n m) k = ground arith
response-requests (Client.failed enomsg) k = refl
response-requests (Client.failed _) k = ground arith

-- With the acknowledgement among the messages, the console leaves, having sent nothing more.
run_loop_idle :
    (rs : List RspRcv) (k : Console)
    → is_acknowledged rs ≡ true
    → (l : Console) × (run_loop (map turn_of (map hears rs)) k ≡ some l) × (l.requests ≡ k.requests)
unfolding run_loop turn_of
run_loop_idle [] k h = absurd (ground (arith, h))
run_loop_idle (r ∷ rs) k h =
    let l = (response r k).0 in
    let turn : (response r k).1 ≡ is_exit r = (take_turn_idle r k).0 in
    elim (Bool-cases (is_exit r)) [
      | inl leaving ↦ (l, rw (turn, leaving) refl, response-requests r k)
      | inr staying ↦
          let (last, runs, same) = run_loop_idle rs l (ground (arith, h, staying)) in
          (last, rw (turn, staying) runs, same ∙ response-requests r k)
    ]

-- The user hits 'x', and the request can be sent.
abbrev pub hits_exit : Input
hits_exit = poll (record {
  select = ready 1;
  message = Client.failed enomsg;
  read = byte b'x';
  unset = 0;
  sends = true;
})

console_leaves :
    (w : World) (server client : ℕ) (rs : List RspRcv)
    → w.server_mq ≡ some server
    → w.client_mq ≡ some client
    → w.init_sends ≡ true
    → w.inputs ≡ hits_exit ∷ map hears rs
    → is_acknowledged rs ≡ true
    → (k : Console) × ((main w).ending ≡ exit_success k)
      × (k.requests
          ≡ exit_message (queues server client) ∷ init_message (queues server client) ∷ [])
unfolding main run_client main_loop run_loop turn_of
console_leaves w server client rs sq cq is given h =
    let q = queues server client in
    let l = record (started q) { requests = exit_message q ∷ init_message q ∷ [] } in
    let (k, runs, same) = run_loop_idle rs l h in
    (k, rw (sq, cq, is, given) (ground (arith, runs)), same)

serve_exit :
    (n server client : ℕ) (r : Round) (after : List Round) (s t : Engine)
    → r.message ≡ received (suc n) (exit_message (queues server client))
    → parse_header r.now r.env r.received (control_receive_msg r.message (take_triggers r s)).0
      ≡ ok t
    → (serve (r ∷ after) s ≡ ok (t, false)) × Acknowledges client t
unfolding serve
serve_exit n server client r after s t m h =
    let u = take_triggers r s in
    let (told, stops) =
      subst
        (λ x.
          Acknowledges client (control_receive_msg x u).0 × ((control_receive_msg x u).1 ≡ false))
        (sym m) (take_exit n server client u) in
    (
      rw (h, stops) refl,
      rw h at (
          parse_header-Acknowledges client r.now r.env r.received
            (control_receive_msg r.message u).0 told),
    )

-- The whole runs of both programs, when a user of the console hits 'x'. The engine, without options,
-- where the system gives what it asks for and a queue for its clients, goes on behind the rounds
-- `before`, and then a round brings the request, whose bytes from the 1022 it handles without a
-- fault. Then it ends with success behind that round: it closes the engine and the port, and removes
-- its queue or leaves it if that fails. And the console, which has both queues and sends, and which
-- gets what the engine has put on its queue, ends with success, having sent that one request behind
-- its first message, and with the terminal as it was.
pub exit_ends_both :
    (engine : Run.World) (on_target : Bool) (console : World) (n server client : ℕ)
    (before after : List Round) (r : Round) (s t : Engine)
    → engine.arguments ≡ []
    → Gives engine on_target
    → engine.creates_queue ≡ true
    → engine.rounds ≡ before ++ (r ∷ after)
    → serve before (parse_open (flags_on on_target 3) 0 engine.now engine.readings) ≡ ok (s, true)
    → r.message ≡ received (suc n) (exit_message (queues server client))
    → parse_header r.now r.env r.received (control_receive_msg r.message (take_triggers r s)).0
      ≡ ok t
    → console.server_mq ≡ some server
    → console.client_mq ≡ some client
    → console.init_sends ≡ true
    → console.inputs ≡ hits_exit ∷ map hears (mailbox client (notices t.events))
    → (Run.main engine
        ≡ ok (record (Run.finished (missing engine (directories on_target)) t) {
          queue_left = not engine.removes_queue;
        }))
      × ((k : Console) × ((main console).ending ≡ exit_success k)
          × (k.requests
              ≡ exit_message (queues server client) ∷ init_message (queues server client) ∷ []))
      × ((main console).terminal.tty ≡ console.terminal.tty)
exit_ends_both engine on_target console n server client before after r s t none_given gives
      has_queue rounds goes_on m h sq cq is inputs =
    let (ends, told) = serve_exit n server client r after s t m h in
    let (k, left, sent) =
      console_leaves console server client (mailbox client (notices t.events)) sq cq is inputs
        told in
    (
      main-serves engine on_target none_given gives has_queue
          ∙ rw (rounds, serve-append before (r ∷ after) _ s goes_on, ends) refl,
      (k, left, sent),
      rw left at (main-terminal console),
    )
