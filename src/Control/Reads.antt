-- ===== src/Control/Reads.antt =====
-- PE-Control and the live loop of the engine, however the reads of the port split the bytes.
use industrial_control.Prelude.{
  ℕ, ◌≡◌, ◌≢◌, refl, sym, ◌∙◌, ap, true, false, List, [], ◌∷◌, ◌++◌, Bytes, All, map, arith,
}
use mathlib.Core.Path.{subst}
use industrial_control.Prelude.Bits.{has}
use industrial_control.Flags.{active_mode, target, report_req, client_req_exit}
use industrial_control.Outcome.{ok}
use industrial_control.Parser.State.{
  Engine, Event, transmit, notify, opened, closed, snapshot, ss_pause,
}
use industrial_control.Parser.Buffer.{msg_send_to_client}
use industrial_control.Parser.Header.{parse_bytes}
use industrial_control.Parser.Notices.{notices}
use industrial_control.Parser.Triple.{Yields}
use industrial_control.Parser.Chunks.{but_snapshots, but_readings}
use industrial_control.Parser.Transfer.{report, history, closings, is_open, is_last}
use industrial_control.Parser.Transfer.Steps.{Part, IsRecord, IsPause}
use industrial_control.Parser.Transfer.Records.{IsPart, wire, records}
use industrial_control.Parser.Transfer.Whole.{report_path}
use industrial_control.Parser.Transfer.History.{history_path}
use industrial_control.Server.{ClientReq, received, control_receive_msg}
use industrial_control.Client.{queues, report_message, history_message}
use industrial_control.Main.{serve}
use industrial_control.Main.Stream.{
  Reading, quiet, stream, answers, asks_in, serve-asks_in, serve-stream, loop-Yields,
}
use industrial_control.Control.{World}
use industrial_control.Control.Service.{mailbox, answered, SucceedsWith, Asks}
use industrial_control.Control.Report.{Fetches, control_report, control_history}

closings-but_snapshots : (es : List Event) → closings (but_snapshots es) ≡ closings es
closings-but_snapshots [] = refl
closings-but_snapshots (snapshot cs ∷ es) = closings-but_snapshots es
closings-but_snapshots (transmit cs ∷ es) = closings-but_snapshots es
closings-but_snapshots (notify q m t ∷ es) = closings-but_snapshots es
closings-but_snapshots (opened f ∷ es) = closings-but_snapshots es
closings-but_snapshots (closed f ∷ es) = ap (λ fs. f ∷ fs) (closings-but_snapshots es)

notices-but_snapshots : (es : List Event) → notices (but_snapshots es) ≡ notices es
notices-but_snapshots [] = refl
notices-but_snapshots (snapshot cs ∷ es) = notices-but_snapshots es
notices-but_snapshots (transmit cs ∷ es) = notices-but_snapshots es
notices-but_snapshots (notify q m t ∷ es) = ap (λ ns. (q, m, t) ∷ ns) (notices-but_snapshots es)
notices-but_snapshots (opened f ∷ es) = notices-but_snapshots es
notices-but_snapshots (closed f ∷ es) = notices-but_snapshots es

-- A message is taken the same way with and without readings.txt.
control_receive_msg-but_readings :
    (m : ClientReq) (s : Engine)
    → (but_readings (control_receive_msg (received 256 m) s).0
        ≡ (control_receive_msg (received 256 m) (but_readings s)).0)
      × ((control_receive_msg (received 256 m) s).0.f_rdg ≡ s.f_rdg)
unfolding control_receive_msg msg_send_to_client
control_receive_msg-but_readings m s = (ground arith, ground arith)

-- What is fetched is fetched with readings.txt too.
Fetches-but_readings :
    (world : World) (client : ℕ) (m : ClientReq) (path text : Bytes) (s t : Engine)
    → Fetches world client m path text (but_readings s) (but_readings t)
    → Fetches world client m path text s t
Fetches-but_readings world client m path text s t h = record {
  closed_last =
      rw (closings-but_snapshots t.events, closings-but_snapshots s.events) at h.closed_last;
  ends =
      subst (λ ns. SucceedsWith (answered world client ns) m) (notices-but_snapshots t.events)
        h.ends;
}

-- The round with the request, and the others.
module _ (world : World) (client : ℕ) (m : ClientReq) (x : Reading) (xs : List Reading)
    (s : Engine) where
  reads-Fetches :
      (path text bytes : Bytes)
      → m.mtype ≢ client_req_exit
      → is_open s.f_rdg ≡ true
      → stream (x ∷ xs) ≡ bytes
      → Yields (Fetches world client m path text (but_readings s)) (
          parse_bytes
            (answers (x ∷ xs))
            0
            bytes
            (control_receive_msg (received 256 m) (but_readings s)).0)
      → (t : Engine) × (serve (asks_in m x ∷ map quiet xs) s ≡ ok (t, true))
        × Fetches world client m path text s t
  reads-Fetches path text bytes no_exit rd all y =
      let (same, kept) = control_receive_msg-but_readings m s in
      let u = (control_receive_msg (received 256 m) s).0 in
      let (t, runs, fetched) =
        loop-Yields (Fetches world client m path text (but_readings s)) _
          (serve (quiet x ∷ map quiet xs) u)
          (parse_bytes (answers (x ∷ xs)) 0 (stream (x ∷ xs)) (but_readings u))
          (λ t. Fetches-but_readings world client m path text s t)
          (serve-stream (x ∷ xs) u (subst (λ f. is_open f ≡ true) (sym kept) rd))
          (rw (all, same) y) in
      (t, serve-asks_in m x (map quiet xs) s no_exit ∙ runs, fetched)

-- PE-Control, asked for a Report, and the live loop of the engine. The client has both queues, sends,
-- can remove its own, and nothing waits on it before. Between two records, on the target in active
-- mode, with the files to be opened and readings.txt open, a round of the loop brings the request,
-- and neither another message nor a signal comes in behind it; the bytes of that round and the
-- others are, in any number of reads and however these split them, the next poll and the Report that
-- the 1022 sends, with records that fit in the buffer, texts and answers between them that fit and
-- hold no 0x98, and the last record alone ending with ";end" and a carriage return. Then the loop
-- makes no fault and goes on, the file /mnt/ramdisk/lsc/report.txt is closed with the records as they
-- were sent, each with its header, and nothing else; and PE-Control, which receives what the engine
-- has put on its queue, ends with success, having sent that one request.
pub control_report_reads :
    (world : World) (c server client : ℕ) (x : Reading) (xs : List Reading) (parts : List Part)
    (last : Bytes) (s : Engine)
    → Asks world c server client (report_message (queues server client))
    → mailbox client (notices s.events) ≡ []
    → s.header_state ≡ ss_pause
    → has s.options active_mode ≡ true
    → has s.options target ≡ true
    → (answers (x ∷ xs) 1).fopen_succeeds ≡ true
    → is_open s.f_rdg ≡ true
    → All (IsPart report) parts
    → IsRecord report last
    → is_last (0x98 ∷ last) ≡ true
    → stream (x ∷ xs) ≡ 0x90 ∷ 0x98 ∷ wire parts last
    → (t : Engine) × (serve (asks_in (report_message (queues server client)) x ∷ map quiet xs) s
        ≡ ok (t, true))
      × Fetches world client
          (report_message (queues server client))
          report_path
          (records parts last)
          s
          t
control_report_reads world c server client x xs parts last s asks before e ac tg f rd ps cr l all =
    reads-Fetches world client (report_message (queues server client)) x xs s report_path
      (records parts last) (0x90 ∷ 0x98 ∷ wire parts last) (omega arith) rd all
      (control_report world c server client 255 (answers (x ∷ xs)) 0 parts last (but_readings s)
        asks (ap (mailbox client) (notices-but_snapshots s.events) ∙ before) e ac tg f refl ps cr l)

-- PE-Control, asked for History, and the live loop of the engine. The client has both queues, sends,
-- can remove its own, and nothing waits on it before. Between two records, on the target in active
-- mode, with no Report pending, the files to be opened and readings.txt open, a round of the loop
-- brings the request, and neither another message nor a signal comes in behind it; the bytes of that
-- round and the others are, in any number of reads and however these split them, the next poll and
-- the sequence that the 1022 sends, with an answer to its first poll and texts and answers between
-- the records that fit and hold no 0x98, records of four bytes or more that fit in the buffer, and
-- the last record alone ending with ";end" and a carriage return. Then the loop makes no fault and
-- goes on, the file /mnt/ramdisk/lsc/history.txt is closed with the records as they were sent, each
-- with its header, and nothing else; and PE-Control, which receives what the engine has put on its
-- queue, ends with success, having sent that one request.
pub control_history_reads :
    (world : World) (c server client : ℕ) (x : Reading) (xs : List Reading) (reply : Bytes)
    (parts : List Part) (last : Bytes) (s : Engine)
    → Asks world c server client (history_message (queues server client))
    → mailbox client (notices s.events) ≡ []
    → s.header_state ≡ ss_pause
    → has s.options active_mode ≡ true
    → has s.options target ≡ true
    → has s.control report_req ≡ false
    → (answers (x ∷ xs) 1).fopen_succeeds ≡ true
    → is_open s.f_rdg ≡ true
    → IsPause [] reply
    → All (IsPart history) parts
    → IsRecord history last
    → is_last (0x98 ∷ last) ≡ true
    → stream (x ∷ xs) ≡ 0x90 ∷ 0x98 ∷ 0x90 ∷ (reply ++ (0x98 ∷ wire parts last))
    → (t : Engine) × (serve (asks_in (history_message (queues server client)) x ∷ map quiet xs) s
        ≡ ok (t, true))
      × Fetches world client
          (history_message (queues server client))
          history_path
          (records parts last)
          s
          t
control_history_reads world c server client x xs reply parts last s asks before e ac tg free f rd p
      ps cr l all =
    reads-Fetches world client (history_message (queues server client)) x xs s history_path
      (records parts last) (0x90 ∷ 0x98 ∷ 0x90 ∷ (reply ++ (0x98 ∷ wire parts last))) (omega arith)
      rd all
      (control_history world c server client 255 (answers (x ∷ xs)) 0 reply parts last
        (but_readings s) asks (ap (mailbox client) (notices-but_snapshots s.events) ∙ before) e ac
        tg free f refl p ps cr l)
