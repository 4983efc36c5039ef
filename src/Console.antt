-- ===== src/Console.antt =====
-- PE-Console/main.c: the interactive client.
pub mod Laws
pub mod Cleanup
pub mod Acknowledged
pub mod Exits
use industrial_control.Prelude.{
  ℕ, Bool, true, false, ◌||◌, Option, none, some, List, [], ◌∷◌, ◌==◌, if◌then◌else◌, codes, map,
}
use industrial_control.Text.{str_equal}
use industrial_control.Flags.{server_request_success, server_action_success}
use industrial_control.Server.{ClientReq, Count, bytes, error}
use industrial_control.Client.{
  Queues, ServerRsp, RspRcv, msg_create_client_mq, msg_get_server_mq, msg_rcv_from_server,
  init_message, history_message, log_message, report_message, exit_message,
}
use industrial_control.Control.{log_mode_of}
use industrial_control.Terminal.{
  Terminal, Select, Read, kbhit, getch, set_conio_terminal_mode, exit,
}

-- The file scope variables, and the requests sent, latest first.
pub record Console : Type 0 where
  pub is_break : Bool
  pub is_log_mode : ℕ
  pub queues : Queues
  pub requests : List ClientReq

-- `msg_send_to_server`; a failure is printed and has no other effect here.
abbrev pub send_request : Bool → ClientReq → Console → Console
send_request true m k = record k { requests = m ∷ k.requests }
send_request false m k = k

-- `action`, on a key; `sends` says whether `msgsnd` succeeds.
unfoldable pub action : Bool → ℕ → Console → Console
action sends key k =
    if key == b'h' || key == b'H'
    then send_request sends (history_message k.queues) k
    else if key == b'l' || key == b'L'
    then send_request sends (log_message k.queues) k
    else if key == b'r' || key == b'R'
    then send_request sends (report_message k.queues) k
    else if key == b'q' || key == b'Q'
    then record k { is_break = true }
    else if key == b'x' || key == b'X'
    then send_request sends (exit_message k.queues) k
    else if key == 27
    then record k { is_break = true }
    else k

-- The `switch` of `response`; the flag is true where -1 is returned.
unfoldable pub take_response : ServerRsp → Console → Console × Bool
unfolding str_equal
take_response m k =
    if m.mtype == server_request_success
    then (if str_equal m.rsp (codes "exit")
        then (record k { is_break = true }, true)
        else (k, false))
    else if m.mtype == server_action_success
    then (record k { is_log_mode = log_mode_of m.rsp k.is_log_mode }, false)
    else (k, false)

-- What is done with a count and a message.
abbrev pub take_count : Count → ServerRsp → Console → Console × Bool
take_count error m k = (k, false)
take_count (bytes n) m k = if n == 0 then (k, false) else take_response m k

-- `response`.
unfoldable pub response : RspRcv → Console → Console × Bool
unfolding take_response msg_rcv_from_server
response r k = let (count, m) = msg_rcv_from_server r in take_count count m k

-- What happens at one turn of the inner loop.
pub data Turn : Type 0 where
  -- no key is hit, and the queue is read
  idle : RspRcv → Turn
  -- a key is hit and acted on; `msgsnd` succeeds if it says so
  key : Bool → ℕ → Turn
  -- SIGINT, whose handler sets `isBreak`: Ctrl-C at the raw terminal is the key 3 instead
  interrupt : Turn

-- What a turn makes of the loops: go on, or leave them.
unfoldable pub take_turn : Turn → Console → Console × Bool
unfolding response action
take_turn (idle r) k = response r k
take_turn (key sends c) k = let k' = action sends c k in (k', k'.is_break)
take_turn interrupt k = (record k { is_break = true }, false)

-- The loops from the first turn of the inner one on, over the turns given; `none` means that it waits
-- for another. The inner loop does not look at `isBreak`, the outer one does behind a key.
unfoldable pub run_loop : List Turn → Console → Option Console
unfolding take_turn
run_loop [] k = none
run_loop (t ∷ ts) k =
    let (k', leaves) = take_turn t k in
    let rest = run_loop ts k' in if leaves then some k' else rest

-- The outer loop, which tests `isBreak` before its first turn; behind a key that does not set it, it
-- goes round again.
unfoldable pub main_loop : List Turn → Console → Option Console
unfolding run_loop
main_loop ts k = if k.is_break then some k else run_loop ts k

-- What the system gives the inner loop each time: whether a key is hit, the message on the queue, the
-- key, and whether a request can be sent; or the signal SIGINT.
pub record Poll : Type 0 where
  pub select : Select
  pub message : RspRcv
  pub read : Read
  pub unset : ℕ
  pub sends : Bool

pub data Input : Type 0 where
  poll : Poll → Input
  sigint : Input

-- The test of the inner loop, and the key.
unfoldable pub turn_of : Input → Turn
unfolding kbhit getch
turn_of (poll p) = if kbhit p.select then key p.sends (getch p.read p.unset) else idle p.message
turn_of sigint = interrupt

-- What the system gives a run of the program.
pub record World : Type 0 where
  pub terminal : Terminal
  pub server_mq : Option ℕ
  pub client_mq : Option ℕ
  pub init_sends : Bool
  pub inputs : List Input

-- How a run ends. Without its queues, or if its first message is not sent, it exits at once.
pub data End : Type 0 where
  exit_failure : End
  waits : End
  exit_success : Console → End

-- How a run ends, and the terminal behind it.
pub record Run : Type 0 where
  pub ending : End
  pub terminal : Terminal

abbrev end_of : Option Console → End
end_of none = waits
end_of (some k) = exit_success k

abbrev pub started : Queues → Console
started q = record { is_break = false; is_log_mode = 0; queues = q; requests = init_message q ∷ [] }

-- `main` behind its terminal. Its exit value does not depend on the removal of its queue at the end.
unfoldable pub run_client : World → End
unfolding main_loop turn_of msg_get_server_mq msg_create_client_mq
run_client w =
    let (q, has_server) =
      msg_get_server_mq w.server_mq (record { client_mq = 0; server_mq_client = 0 }) in
    let (q', has_client) = msg_create_client_mq w.client_mq q in
    let ending = end_of (main_loop (map turn_of w.inputs) (started q')) in
    if has_server
    then (if has_client then (if w.init_sends then ending else exit_failure) else exit_failure)
    else exit_failure

-- The terminal behind the run.
abbrev pub leave : End → Terminal → Terminal
leave waits t = t
leave _ t = exit t

unfoldable pub main : World → Run
unfolding run_client set_conio_terminal_mode exit
main w =
    let ending = run_client w in
    record { ending = ending; terminal = leave ending (set_conio_terminal_mode w.terminal) }
