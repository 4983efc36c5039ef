-- ===== src/Parser/Buffer.antt =====
-- The buffer of Printer-Emulator/parser.c, its file writes and the other steps that its handlers
-- share.
use industrial_control.Prelude.{
  ℕ, zero, suc, ◌+◌, ◌-◌, Bool, true, false, ◌&&◌, Option, none, some, List, [], ◌∷◌, ◌++◌, ltb,
  leb, ◌==◌, if◌then◌else◌, Bytes, length, drop,
}
use industrial_control.Prelude.Bits.{has, lower}
use industrial_control.Flags.{buffer_size, active_mode, message_src, server_action_success}
use industrial_control.Outcome.{Outcome, ok, fault, write_outside, read_outside, null_stream, ◌>>=◌}
use industrial_control.Parser.State.{HeaderState, Stream, transmit, notify, snapshot, Engine}

abbrev pub update : (ℕ → ℕ) → ℕ → ℕ → ℕ → ℕ
update m i v j = if j == i then v else m j

-- `buffer[buffer_len++] = c`.
unfoldable pub put : ℕ → Engine → Outcome Engine
put c s =
    if ltb s.buffer_len buffer_size
    then ok (record s { buffer = update s.buffer s.buffer_len c; buffer_len = s.buffer_len + 1 })
    else fault write_outside

-- `buffer[buffer_len - k]`.
unfoldable pub back : ℕ → Engine → Outcome ℕ
back k s =
    if leb k s.buffer_len && ltb (s.buffer_len - k) buffer_size
    then ok (s.buffer (s.buffer_len - k))
    else fault read_outside

-- `buffer_len = 0` and then `buffer[buffer_len++] = c` for each byte, from index `i`.
abbrev pub write_all : (ℕ → ℕ) → ℕ → Bytes → ℕ → ℕ
write_all m i [] = m
write_all m i (c ∷ cs) = write_all (update m i c) (suc i) cs

-- At most five bytes are written in this way, so no index is outside the buffer.
abbrev pub refill : Bytes → Engine → Engine
refill cs s = record s { buffer = write_all s.buffer 0 cs; buffer_len = length cs }

abbrev pub goto : HeaderState → Engine → Engine
goto q s = record s { header_state = q }

-- The `n` bytes of the buffer from index `i` on.
unfoldable pub segment : (ℕ → ℕ) → ℕ → ℕ → Bytes
segment m i zero = []
segment m i (suc n) = m i ∷ segment m (suc i) n

-- The record in the buffer.
unfoldable pub contents : Engine → Bytes
unfolding segment
contents s = segment s.buffer 0 s.buffer_len

-- `*p_options & ACTIVE_MODE`
abbrev pub is_active : Engine → Bool
is_active s = has s.options active_mode

-- `write( *p_port, tx_buf, n )`
abbrev pub send : Bytes → Engine → Engine
send cs s = record s { events = transmit cs ∷ s.events }

-- `msg_send_to_client`. A failure of `msgsnd` is printed and has no other effect.
unfoldable pub msg_send_to_client : ℕ → Bytes → Engine → Engine
msg_send_to_client mtype text s = record s {
  events = notify s.client_mq_server mtype text ∷ s.events;
}

-- Tell the client of a success if the request came from a client, and forget that it did.
unfoldable pub notify_success : Bytes → Engine → Engine
unfolding msg_send_to_client
notify_success text s =
    if has s.control message_src
    then msg_send_to_client server_action_success text
        (record s { control = lower s.control message_src })
    else s

-- A record written at the start of a file of which it may be a shorter version.
abbrev pub overwrite : Bytes → Bytes → Bytes
overwrite new old = new ++ drop (length new) old

-- `rewind(f_rdg)` and `fwrite` of the record, once for each time that the flag is set.
unfoldable pub take_snapshot : Engine → Outcome Engine
take_snapshot s =
    if s.is_snapshot
    then elim s.f_rdg [
      | none ↦ fault null_stream
      | some old ↦ ok (record s {
        is_snapshot = false;
        f_rdg = some (overwrite (contents s) old);
        events = snapshot (contents s) ∷ s.events;
      })
    ]
    else ok s

-- A file opened for writing is empty.
abbrev pub fresh : Bytes → Stream
fresh p = record { path = p; written = [] }

-- `fwrite` of a record to an open file.
abbrev pub append_record : Bytes → Stream → Stream
append_record cs f = record f { written = f.written ++ cs }

-- `if( NULL != f ) fwrite( … )`
abbrev pub append_if_open : Bytes → Option Stream → Option Stream
append_if_open cs none = none
append_if_open cs (some f) = some (append_record cs f)

-- A chain `(buffer[buffer_len - k] == v) && …`, which stops at the first test that fails.
unfoldable pub matches_back : List (ℕ × ℕ) → Engine → Outcome Bool
matches_back [] s = ok true
matches_back ((k, v) ∷ tests) s = do
  c ← back k s
  let rest = matches_back tests s
  if c == v then rest else ok false

-- ";end" and a carriage return at the end of the buffer.
abbrev pub end_mark : List (ℕ × ℕ)
end_mark = (5, 0x3B) ∷ (4, 0x65) ∷ (3, 0x6E) ∷ (2, 0x64) ∷ (1, 0x0D) ∷ []
