-- ===== src/Client.antt =====
-- The client side of Common/message_services.c, which PE-Control and PE-Console share.
use industrial_control.Prelude.{
  ℕ, Bool, true, false, Option, none, some, List, [], ◌∷◌, Bytes, codes,
}
use industrial_control.Flags.{
  client_init, client_req_report, client_req_history, client_req_log, client_req_exit,
}
use industrial_control.Server.{ClientReq, Errno, Count, bytes, count_of_errno}

-- `server_rsp`; the text ends before its first null byte.
pub record ServerRsp : Type 0 where
  pub mtype : ℕ
  pub rsp : Bytes

-- What `msgrcv` returns on the client's queue.
pub data RspRcv : Type 0 where
  received : ℕ → ServerRsp → RspRcv
  failed : Errno → RspRcv

-- `client_mq` and `server_mq_client`.
pub record Queues : Type 0 where
  pub client_mq : ℕ
  pub server_mq_client : ℕ

-- The queues of a client.
abbrev pub queues : ℕ → ℕ → Queues
queues server client = record { client_mq = client; server_mq_client = server }

-- `msgget` returns an identifier, or `none` for -1. The flag is true where 0 is returned; what is
-- stored for -1 is not used by a program that then exits.
unfoldable pub msg_create_client_mq : Option ℕ → Queues → Queues × Bool
msg_create_client_mq (some id) q = (record q { client_mq = id }, true)
msg_create_client_mq none q = (q, false)

-- The same with a key made from a file by `ftok`, or `none`.
unfoldable pub msg_create_client_mq_ftok : Option ℕ → (ℕ → Option ℕ) → Queues → Queues × Bool
unfolding msg_create_client_mq
msg_create_client_mq_ftok none msgget q = (q, false)
msg_create_client_mq_ftok (some key) msgget q = msg_create_client_mq (msgget key) q

abbrev pub msg_get_client_mq : Queues → ℕ
msg_get_client_mq q = q.client_mq

unfoldable pub msg_get_server_mq : Option ℕ → Queues → Queues × Bool
msg_get_server_mq (some id) q = (record q { server_mq_client = id }, true)
msg_get_server_mq none q = (q, false)

-- What is sent, and whether `msgsnd` succeeds.
abbrev pub msg_send_to_server : Bool → ClientReq → List ClientReq × Bool
msg_send_to_server true m = (m ∷ [], true)
msg_send_to_server false m = ([], false)

-- After `memset`.
abbrev pub no_response : ServerRsp
no_response = record { mtype = 0; rsp = [] }

-- An empty queue counts as no bytes. A blocking call does not return for it.
unfoldable pub msg_rcv_from_server : RspRcv → Count × ServerRsp
msg_rcv_from_server (failed e) = (count_of_errno e, no_response)
msg_rcv_from_server (received n m) = (bytes n, m)

-- The request of one type, with the queue that the answers go to.
abbrev pub request_message : ℕ → Bytes → Queues → ClientReq
request_message mtype cmd q = record { mtype = mtype; client_id = msg_get_client_mq q; cmd = cmd }

abbrev pub init_message : Queues → ClientReq
init_message q = request_message client_init (codes "init") q

abbrev pub history_message : Queues → ClientReq
history_message q = request_message client_req_history (codes "history") q

abbrev pub log_message : Queues → ClientReq
log_message q = request_message client_req_log (codes "log") q

abbrev pub report_message : Queues → ClientReq
report_message q = request_message client_req_report (codes "report") q

abbrev pub exit_message : Queues → ClientReq
exit_message q = request_message client_req_exit (codes "exit") q
