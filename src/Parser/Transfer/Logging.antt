-- ===== src/Parser/Transfer/Logging.antt =====
-- Many records of a log, with the pauses behind them.
use mathlib.Core.Path.{subst}
use mathlib.Core.List.{append_assoc}
use industrial_control.Prelude.{ℕ, ◌≡◌, ◌≢◌, true, false, List, [], ◌∷◌, ◌++◌, Bytes, All}
use industrial_control.Prelude.Bits.{has}
use industrial_control.Flags.{active_mode, report_req, history_req, logmode_off_req}
use industrial_control.Parser.State.{Engine}
use industrial_control.Parser.Triple.{Runs, Runs_byte, Runs-append}
use industrial_control.Parser.Transfer.{log, Job, Receives, Displays, Expects}
use industrial_control.Parser.Transfer.Steps.{
  pause_bytes, IsRecord, IsPause, record_comes, pause_comes, display_comes, header_byte,
}
use industrial_control.Parser.Transfer.Lines.{logged, next_record, polled}

-- A log record that is no directive, and the pause behind it.
pub record Line : Type 0 where
  pub letter : ℕ
  pub rest : Bytes
  pub display : Bytes
  pub reply : Bytes

pub record IsLine (p : Line) : Type 0 where
  pub is_record : IsRecord log (p.letter ∷ p.rest)
  pub no_directive : p.letter ≢ 0x40
  pub pause : IsPause p.display p.reply

-- In active mode with no request pending.
pub record IsIdle (job : Job) : Type 0 where
  pub active : has job.options active_mode ≡ true
  pub no_report : has job.control report_req ≡ false
  pub no_history : has job.control history_req ≡ false
  pub no_end : has job.control logmode_off_req ≡ false

-- The bytes behind the header of the first record: the log records with their pauses, and then
-- `tail`.
abbrev pub line_wire : List Line → Bytes → Bytes
line_wire [] tail = tail
line_wire (p ∷ ps) tail =
    (p.letter ∷ p.rest) ++ (0x91 ∷ (pause_bytes p.display p.reply ++ line_wire ps tail))

-- What is kept of the records, and then `more`.
abbrev pub line_text : List Line → Bytes → Bytes
line_text [] more = more
line_text (p ∷ ps) more = logged (p.letter ∷ p.rest) ++ line_text ps more

-- Records go to the file, whatever comes behind them.
module _ (path : Bytes) (job : Job) (tail more : Bytes) (Q : Bytes → Engine → Type 0)
    (idle : IsIdle job)
    (ends : (text : Bytes)
      → Runs (Receives log path text job (0x98 ∷ [])) tail (Q (text ++ more))) where
  pub lines_come :
      (ps : List Line) (text : Bytes)
      → All IsLine ps
      → Runs
          (Receives log path text job (0x98 ∷ []))
          (line_wire ps tail)
          (Q (text ++ line_text ps more))
  lines_come [] text a = ends text
  lines_come (p ∷ ps) text a =
      let kept = text ++ logged (p.letter ∷ p.rest) in
      Runs-append _ (Receives log path text job (0x98 ∷ p.letter ∷ p.rest)) _ (p.letter ∷ p.rest) _
        (record_comes log path text job (p.letter ∷ p.rest) a.0.is_record)
        (Runs-append _ (Displays log path kept job 2) _ (0x91 ∷ []) _
          (Runs_byte _ _ 0x91
            (λ env s. next_record path text job env p.letter p.rest s a.0.no_directive))
          (Runs-append _ (Receives log path kept job (0x98 ∷ [])) _ (pause_bytes p.display p.reply)
            _
            (pause_comes log path kept job p.display p.reply a.0.pause (λ env s.
              polled path kept job env s idle.active idle.no_end idle.no_report idle.no_history))
            (subst (λ bs. Runs (Receives log path kept job (0x98 ∷ [])) (line_wire ps tail) (Q bs))
              (append_assoc text (logged (p.letter ∷ p.rest)) (line_text ps more))
              (lines_come ps kept a.1))))

-- A record with the text behind it, up to the 0x98 of a poll.
abbrev pub open_wire : Line → Bytes
open_wire p = (p.letter ∷ p.rest) ++ (0x91 ∷ (p.display ++ (0x98 ∷ [])))

pub line_displays :
    (path text : Bytes) (job : Job) (p : Line)
    → IsLine p
    → Runs
        (Receives log path text job (0x98 ∷ []))
        (open_wire p)
        (Expects log path (text ++ logged (p.letter ∷ p.rest)) job)
line_displays path text job p l =
    let kept = text ++ logged (p.letter ∷ p.rest) in
    Runs-append _ (Receives log path text job (0x98 ∷ p.letter ∷ p.rest)) _ (p.letter ∷ p.rest) _
      (record_comes log path text job (p.letter ∷ p.rest) l.is_record)
      (Runs-append _ (Displays log path kept job 2) _ (0x91 ∷ []) _
        (Runs_byte _ _ 0x91
          (λ env s. next_record path text job env p.letter p.rest s l.no_directive))
        (Runs-append _ (Displays log path kept job 255) _ p.display _
          (display_comes log path kept job p.display l.pause.display_plain l.pause.display_room)
          (Runs_byte _ _ 0x98 (header_byte path kept job log))))
