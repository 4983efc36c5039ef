-- ===== src/Control/Report.antt =====
-- PE-Control and the engine together: a Report and a History sequence from the command line to the
-- file and back.
use industrial_control.Prelude.{
  ℕ, suc, ◌≡◌, refl, true, false, List, [], ◌∷◌, ◌++◌, Bytes, codes, All,
}
use industrial_control.Prelude.Bits.{has}
use industrial_control.Flags.{active_mode, target, report_req}
use industrial_control.Parser.State.{Engine, Env, ss_pause}
use industrial_control.Parser.Header.{parse_bytes}
use industrial_control.Parser.Notices.{notices}
use industrial_control.Parser.Triple.{Yields, Yields-mono}
use industrial_control.Parser.Transfer.{Kind, report, history, closings, is_open, is_last, label}
use industrial_control.Parser.Transfer.Steps.{Part, IsRecord, IsPause}
use industrial_control.Parser.Transfer.Records.{IsPart, wire, records}
use industrial_control.Parser.Transfer.Whole.{report_path}
use industrial_control.Parser.Transfer.History.{history_path}
use industrial_control.Server.{ClientReq, received, control_receive_msg}
use industrial_control.Server.Delivery.{HandsOver, report_delivery, history_delivery}
use industrial_control.Client.{queues, report_message, history_message}
use industrial_control.Control.{World}
use industrial_control.Control.Service.{mailbox, answered, SucceedsWith, Asks, Fulfils-SucceedsWith}

-- Since the state `s` one data file has been closed, `path` with `text`; and PE-Control, given the
-- messages that are on its queue by then, ends with success, having sent the one request `m`.
pub record Fetches (world : World) (client : ℕ) (m : ClientReq) (path text : Bytes) (s t : Engine)
    : Type 0 where
  pub closed_last : closings t.events ≡ record { path = path; written = text } ∷ closings s.events
  pub ends : SucceedsWith (answered world client (notices t.events)) m

-- What is handed over to PE-Control, it fetches.
module _ (world : World) (letter server client : ℕ) (m : ClientReq) (s : Engine) where
  HandsOver-Fetches :
      (kind : Kind) (path text taken : Bytes)
      → Asks world letter server client m
      → m.client_id ≡ client
      → mailbox client (notices s.events) ≡ []
      → (t : Engine) → HandsOver kind path text taken m s t
      → Fetches world client m path text s t
  HandsOver-Fetches kind path text taken asks own before t h = record {
    closed_last = h.closed_last;
    ends =
        Fulfils-SucceedsWith world letter server client m asks taken (label kind ++ path)
          (notices s.events) (notices t.events)
          (record { before = before; after = rw own at h.told });
  }

-- PE-Control, asked for a Report, and the engine. The client has both queues, sends, can remove its
-- own, and nothing waits on it before. The engine takes the request between two records, on the
-- target in active mode, with readings.txt open and the Report file to be opened; then come the
-- next poll and the Report that the 1022 sends, with records that fit in the buffer, texts and
-- answers between them that fit and hold no 0x98, and the last record alone ending with ";end" and
-- a carriage return. Then the engine makes no fault, the file /mnt/ramdisk/lsc/report.txt is closed
-- with the records as they were sent, each with its header, and nothing else; and PE-Control, which
-- receives what the engine has put on its queue, ends with success, having sent that one request.
pub control_report :
    (world : World) (c server client : ℕ) (n : ℕ) (env : ℕ → Env) (i : ℕ) (parts : List Part)
    (last : Bytes) (s : Engine)
    → Asks world c server client (report_message (queues server client))
    → mailbox client (notices s.events) ≡ []
    → s.header_state ≡ ss_pause
    → has s.options active_mode ≡ true
    → has s.options target ≡ true
    → (env (suc i)).fopen_succeeds ≡ true
    → is_open s.f_rdg ≡ true
    → All (IsPart report) parts
    → IsRecord report last
    → is_last (0x98 ∷ last) ≡ true
    → Yields
        (Fetches world client
          (report_message (queues server client))
          report_path
          (records parts last)
          s)
        (parse_bytes env i
          (0x90 ∷ 0x98 ∷ wire parts last)
          (control_receive_msg (received (suc n) (report_message (queues server client))) s).0)
control_report world c server client n env i parts last s asks before e ac tg f rd ps cr l =
    let m = report_message (queues server client) in
    Yields-mono _ _ _
      (HandsOver-Fetches world c server client m s report _ _ (codes "report") asks refl before)
      (report_delivery n m env i parts last s refl e ac tg f rd ps cr l)

-- PE-Control, asked for History, and the engine. The client has both queues, sends, can remove its
-- own, and nothing waits on it before. The engine takes the request between two records, on the
-- target in active mode, with no Report pending, readings.txt open and the History file to be
-- opened; then come the next poll and the sequence that the 1022 sends, with an answer to its first
-- poll and texts and answers between the records that fit and hold no 0x98, records of four bytes
-- or more that fit in the buffer, and the last record alone ending with ";end" and a carriage
-- return. Then the engine makes no fault, the file /mnt/ramdisk/lsc/history.txt is closed with the
-- records as they were sent, each with its header, and nothing else; and PE-Control, which receives
-- what the engine has put on its queue, ends with success, having sent that one request.
pub control_history :
    (world : World) (c server client : ℕ) (n : ℕ) (env : ℕ → Env) (i : ℕ) (reply : Bytes)
    (parts : List Part) (last : Bytes) (s : Engine)
    → Asks world c server client (history_message (queues server client))
    → mailbox client (notices s.events) ≡ []
    → s.header_state ≡ ss_pause
    → has s.options active_mode ≡ true
    → has s.options target ≡ true
    → has s.control report_req ≡ false
    → (env (suc i)).fopen_succeeds ≡ true
    → is_open s.f_rdg ≡ true
    → IsPause [] reply
    → All (IsPart history) parts
    → IsRecord history last
    → is_last (0x98 ∷ last) ≡ true
    → Yields
        (Fetches world client
          (history_message (queues server client))
          history_path
          (records parts last)
          s)
        (parse_bytes env i
          (0x90 ∷ 0x98 ∷ 0x90 ∷ (reply ++ (0x98 ∷ wire parts last)))
          (control_receive_msg (received (suc n) (history_message (queues server client))) s).0)
control_history world c server client n env i reply parts last s asks before e ac tg free f rd p ps
      cr l =
    let m = history_message (queues server client) in
    Yields-mono _ _ _
      (HandsOver-Fetches world c server client m s history _ _ (codes "history") asks refl before)
      (history_delivery n m env i reply parts last s refl e ac tg free f rd p ps cr l)
