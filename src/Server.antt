-- ===== src/Server.antt =====
-- The server side of Common/message_services.c and `control_receive_msg` of
-- Printer-Emulator/utils.c.
pub mod Laws
pub mod Delivery
pub mod Logging
use industrial_control.Prelude.{
  ℕ, Bool, true, false, not, [], ◌++◌, ◌==◌, if◌then◌else◌, Bytes, codes,
}
use industrial_control.Prelude.Bits.{raise, masked}
use industrial_control.Flags.{
  report_req, history_req, logmode_on_req, logmode_off_req, message_src, st_logmode, client_init,
  client_req_report, client_req_history, client_req_log, client_req_exit, server_request_success,
  server_action_success,
}
use industrial_control.Filename.{decimal}
use industrial_control.Parser.State.{Engine}
use industrial_control.Parser.Buffer.{msg_send_to_client}
use industrial_control.Parser.SteadyState.{status_is_logmode}

-- `client_req`; the text ends before its first null byte.
pub record ClientReq : Type 0 where
  pub mtype : ℕ
  pub client_id : ℕ
  pub cmd : Bytes

-- The values of `errno` that the code tells apart.
pub data Errno : Type 0 where
  enomsg eidrm einval eacces other : Errno

-- What `msgrcv` returns: the bytes of text in a message, or -1 and `errno`.
pub data MsgRcv : Type 0 where
  received : ℕ → ClientReq → MsgRcv
  failed : Errno → MsgRcv

-- A byte count, or -1.
pub data Count : Type 0 where
  bytes : ℕ → Count
  error : Count

-- An empty queue is no error.
abbrev pub count_of_errno : Errno → Count
count_of_errno enomsg = bytes 0
count_of_errno _ = error

-- After `memset`.
abbrev pub no_request : ClientReq
no_request = record { mtype = 0; client_id = 0; cmd = [] }

-- Remember the queue of the client that the message comes from.
unfoldable pub remember_client : ClientReq → Engine → Engine
remember_client m s =
    if m.mtype == client_init
    then record s { client_mq_server = m.client_id }
    else if not (s.client_mq_server == m.client_id)
    then record s { client_mq_server = m.client_id }
    else s

unfoldable pub msg_rcv_from_client : MsgRcv → Engine → Count × ClientReq × Engine
unfolding remember_client
msg_rcv_from_client (failed e) s = (count_of_errno e, no_request, s)
msg_rcv_from_client (received n m) s = (bytes n, m, remember_client m s)

-- `*p_control |= m` for a request of a client.
abbrev pub request_from_client : ℕ → Engine → Engine
request_from_client m s = record s { control = raise (raise s.control m) message_src }

-- The flag that a toggle of the log mode raises.
unfoldable pub toggle_req : Engine → ℕ
unfolding status_is_logmode
toggle_req s = if status_is_logmode s then logmode_off_req else logmode_on_req

-- The `switch` on the type of the message. The flag is false where `rv` is -1.
unfoldable pub serve_request : ℕ → Engine → Engine × Bool
unfolding toggle_req
serve_request mtype s =
    if mtype == client_init
    then (
      msg_send_to_client server_action_success
          (codes "logmode " ++ decimal (masked s.status st_logmode)) s,
      true,
    )
    else if mtype == client_req_history
    then (
      msg_send_to_client server_request_success (codes "history")
          (request_from_client history_req s),
      true,
    )
    else if mtype == client_req_log
    then (msg_send_to_client server_request_success [] (request_from_client (toggle_req s) s), true)
    else if mtype == client_req_report
    then (
      msg_send_to_client server_request_success (codes "report") (request_from_client report_req s),
      true,
    )
    else if mtype == client_req_exit
    then (msg_send_to_client server_request_success (codes "exit") s, false)
    else (s, true)

-- What is done with a count and a message.
abbrev pub serve_counted : Count → ClientReq → Engine → Engine × Bool
serve_counted error m s = (s, true)
serve_counted (bytes n) m s = if n == 0 then (s, true) else serve_request m.mtype s

-- The state behind the call, and whether `rv` is 0.
unfoldable pub control_receive_msg : MsgRcv → Engine → Engine × Bool
unfolding serve_request msg_rcv_from_client
control_receive_msg r s = let (count, m, t) = msg_rcv_from_client r s in serve_counted count m t
