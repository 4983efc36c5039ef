-- ===== src/Control.antt =====
-- PE-Control/main.c: one request, and the wait for its responses.
pub mod Laws
pub mod Service
pub mod Report
pub mod Reads
pub mod Logs
pub mod Rivals
use industrial_control.Prelude.{
  ℕ, zero, Bool, true, false, ◌||◌, Option, none, some, List, [], ◌∷◌, ◌==◌, if◌then◌else◌, Bytes,
  codes, drop,
}
use industrial_control.Text.{atoi, str_equal}
use industrial_control.Flags.{
  server_request_success, server_request_failure, server_action_success, server_action_failure,
  server_reset,
}
use industrial_control.Server.{ClientReq, Count, bytes, error}
use industrial_control.Client.{
  Queues, ServerRsp, RspRcv, msg_create_client_mq, msg_get_server_mq, msg_rcv_from_server,
  msg_send_to_server, history_message, log_message, report_message,
}

pub data Exit : Type 0 where
  exit_success exit_failure : Exit

-- The request that `action` sends for a command code.
unfoldable pub request_of_char : ℕ → Queues → Option ClientReq
request_of_char c q =
    if c == b'h' || c == b'H'
    then some (history_message q)
    else if c == b'l' || c == b'L'
    then some (log_message q)
    else if c == b'r' || c == b'R'
    then some (report_message q)
    else none

-- `action`: what was sent, and whether it returns 0. The flag `sends` says whether `msgsnd`
-- succeeds.
unfoldable pub action : ℕ → Bool → Queues → List ClientReq × Bool
unfolding request_of_char
action c sends q = elim (request_of_char c q) [
  | none ↦ ([], false)
  | some m ↦ msg_send_to_server sends m
]

-- The variables of the loop that waits for responses.
pub record Wait : Type 0 where
  pub exit_value : Exit
  pub response_complete : Bool
  pub is_log_mode : ℕ

-- The update of `isLogMode`. Behind the null byte of the text stand the zeros of the server's
-- `memset`.
unfoldable pub log_mode_of : Bytes → ℕ → ℕ
unfolding str_equal atoi
log_mode_of rsp old = if str_equal rsp (codes "logmode") then atoi (drop 8 rsp) else old

-- The `switch` on the type of a response.
unfoldable pub take_response : ServerRsp → Wait → Wait
take_response m w =
    if m.mtype == server_request_success
    then w
    else if m.mtype == server_request_failure
    then record w { exit_value = exit_failure; response_complete = true }
    else if m.mtype == server_action_success
    then record w { is_log_mode = log_mode_of m.rsp w.is_log_mode; response_complete = true }
    else if m.mtype == server_action_failure
    then record w { exit_value = exit_failure; response_complete = true }
    else w

-- One round of the loop behind `msg_rcv_from_server`.
unfoldable pub take_count : Count → ServerRsp → Wait → Wait
unfolding take_response
take_count error m w = record w { exit_value = exit_failure; response_complete = true }
take_count (bytes n) m w = if n == 0 then w else take_response m w

-- The loop over what the blocking calls return; `none` means that the next call does not return.
unfoldable pub await : List RspRcv → Wait → Option Wait
unfolding take_count msg_rcv_from_server
await [] w = if w.response_complete then some w else none
await (r ∷ rs) w =
    let (count, m) = msg_rcv_from_server r in
    let rest = await rs (take_count count m w) in if w.response_complete then some w else rest

-- What the system gives a run of the program.
pub record World : Type 0 where
  -- the arguments behind the name of the program
  pub arguments : List Bytes
  pub server_mq : Option ℕ
  pub client_mq : Option ℕ
  pub sends : Bool
  pub responses : List RspRcv
  pub removes : Bool

-- How a run ended: its exit value, what it sent, and whether its queue is there and was removed.
pub record Run : Type 0 where
  pub exit_value : Exit
  pub requests : List ClientReq
  pub queue_created : Bool
  pub queue_removed : Bool
  pub is_log_mode : ℕ

abbrev stopped : Run
stopped = record {
  exit_value = exit_failure;
  requests = [];
  queue_created = false;
  queue_removed = false;
  is_log_mode = 0;
}

abbrev no_queues : Queues
no_queues = record { client_mq = 0; server_mq_client = 0 }

abbrev pub waiting : Wait
waiting = record { exit_value = exit_success; response_complete = false; is_log_mode = 0 }

-- The end of `main`: remove the queue.
abbrev pub finish : World → List ClientReq → Wait → Run
finish world requests w = record {
  exit_value = if world.removes then w.exit_value else exit_failure;
  requests = requests;
  queue_created = true;
  queue_removed = world.removes;
  is_log_mode = w.is_log_mode;
}

-- `main` behind its two queues.
unfoldable pub request_and_wait : World → ℕ → Queues → Option Run
unfolding action await
request_and_wait world c q =
    let (requests, accepted) = action c world.sends q in
    if accepted
    then elim (await world.responses waiting) [
      | none ↦ none
      | some w ↦ some (finish world requests w)
    ]
    else some (record stopped { requests = requests; queue_created = true })

-- `main` behind the check of its arguments.
unfoldable pub open_queues : World → ℕ → Option Run
unfolding request_and_wait msg_get_server_mq msg_create_client_mq
open_queues world c =
    let (q, has_server) = msg_get_server_mq world.server_mq no_queues in
    let (q', has_client) = msg_create_client_mq world.client_mq q in
    if has_server
    then (if has_client then request_and_wait world c q' else some stopped)
    else some stopped

-- The check of the arguments: one argument, of one character.
unfoldable pub run_with : World → List Bytes → Option Run
unfolding open_queues
run_with world ((c ∷ []) ∷ []) = open_queues world c
run_with world _ = some stopped

-- `main`; `none` is a run that waits for ever.
unfoldable pub main : World → Option Run
unfolding run_with
main world = run_with world world.arguments
