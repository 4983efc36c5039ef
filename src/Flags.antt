-- ===== src/Flags.antt =====
-- Printer-Emulator/utils.h, parser.h and Common/message_services.h: the flag bits, message types,
-- sizes and directories that the programs share.
use industrial_control.Prelude.{ℕ, Bytes, codes}

-- OPTION_BIT
abbrev pub debug_dump : ℕ
debug_dump = 0x80

abbrev pub unit_test : ℕ
unit_test = 0x40

abbrev pub capture : ℕ
capture = 0x20

abbrev pub target : ℕ
target = 0x10

abbrev pub low_latency : ℕ
low_latency = 0x02

abbrev pub active_mode : ℕ
active_mode = 0x01

-- CONTROL_BIT
abbrev pub message_src : ℕ
message_src = 0x80

abbrev pub logmode_off_req : ℕ
logmode_off_req = 0x08

abbrev pub logmode_on_req : ℕ
logmode_on_req = 0x04

abbrev pub history_req : ℕ
history_req = 0x02

abbrev pub report_req : ℕ
report_req = 0x01

-- STATUS_BIT
abbrev pub st_prwon : ℕ
st_prwon = 0x40

abbrev pub st_logmode : ℕ
st_logmode = 0x10

abbrev pub st_ready : ℕ
st_ready = 0x04

-- Sizes of `buffer`, of the file names and of a message's text.
abbrev pub buffer_size : ℕ
buffer_size = 256

abbrev pub data_filename_size : ℕ
data_filename_size = 128

abbrev pub msg_max_payload : ℕ
msg_max_payload = 256

abbrev pub desktop_disk_dir : Bytes
desktop_disk_dir = codes "./Data"

abbrev pub target_disk_dir : Bytes
target_disk_dir = codes "/var/log/lsc"

abbrev pub target_ram_dir : Bytes
target_ram_dir = codes "/mnt/ramdisk/lsc"

-- Message types from a client.
abbrev pub client_init : ℕ
client_init = 1

abbrev pub client_req_report : ℕ
client_req_report = 2

abbrev pub client_req_history : ℕ
client_req_history = 3

abbrev pub client_req_log : ℕ
client_req_log = 4

abbrev pub client_req_exit : ℕ
client_req_exit = 5

-- Message types from the server.
abbrev pub server_request_success : ℕ
server_request_success = 1

abbrev pub server_request_failure : ℕ
server_request_failure = 2

abbrev pub server_action_success : ℕ
server_action_success = 3

abbrev pub server_action_failure : ℕ
server_action_failure = 4

abbrev pub server_reset : ℕ
server_reset = 5
