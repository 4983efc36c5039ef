-- ===== src/Parser/Transfer/Records.antt =====
-- Many records, in a sequence that polls in between and ends with the end mark.
use mathlib.Core.Path.{subst}
use mathlib.Core.List.{append_assoc}
use industrial_control.Prelude.{
  suc, ◌≤◌, ◌≡◌, true, false, List, [], ◌∷◌, ◌++◌, arith, Bytes, length, All,
}
use industrial_control.Flags.{buffer_size}
use industrial_control.Parser.State.{Env, Engine}
use industrial_control.Parser.Header.{step}
use industrial_control.Parser.Triple.{Yields, Runs, Runs_byte, Runs-append}
use industrial_control.Parser.Transfer.{
  Kind, Job, Receives, Displays, Expects, Replies, Delivers, is_last,
}
use industrial_control.Parser.Transfer.Steps.{
  Part, pause_bytes, IsRecord, IsPause, least, record_comes, pause_comes,
}

-- The bytes behind the header of the first record; the last record ends with its display byte.
abbrev pub wire : List Part → Bytes → Bytes
wire [] last = last ++ (0x91 ∷ [])
wire (p ∷ ps) last = p.bytes ++ (0x91 ∷ (pause_bytes p.display p.reply ++ wire ps last))

-- The records, each with its header.
abbrev pub records : List Part → Bytes → Bytes
records [] last = 0x98 ∷ last
records (p ∷ ps) last = (0x98 ∷ p.bytes) ++ records ps last

-- A record that is not the last, and the pause behind it.
pub record IsPart (kind : Kind) (p : Part) : Type 0 where
  pub is_record : IsRecord kind p.bytes
  pub goes_on : is_last (0x98 ∷ p.bytes) ≡ false
  pub pause : IsPause p.display p.reply

-- What a record does at its display byte, and a poll.
pub record Handles (kind : Kind) (path : Bytes) (job : Job) : Type 0 where
  pub next_record :
      (text got : Bytes) (env : Env) (s : Engine)
      → is_last got ≡ false
      → suc (least kind) ≤ length got
      → length got ≤ buffer_size
      → Receives kind path text job got s
      → Yields (Displays kind path (text ++ got) job 2) (step env 0x91 s)
  pub last_record :
      (text got : Bytes) (env : Env) (s : Engine)
      → is_last got ≡ true
      → length got ≤ buffer_size
      → Receives kind path text job got s
      → Yields (Delivers kind path (text ++ got) job) (step env 0x91 s)
  pub polled :
      (text : Bytes) (env : Env) (s : Engine)
      → Expects kind path text job s
      → Yields (Replies kind path text job 5) (step env 0x90 s)

module _ (kind : Kind) (path : Bytes) (job : Job) (handles : Handles kind path job) where
  open handles use {next_record, last_record, polled}

  -- From the header of the first record on, the file is closed with what it held before and all
  -- records.
  pub transfer :
      (parts : List Part) (last text : Bytes)
      → All (IsPart kind) parts
      → IsRecord kind last
      → is_last (0x98 ∷ last) ≡ true
      → Runs
          (Receives kind path text job (0x98 ∷ []))
          (wire parts last)
          (Delivers kind path (text ++ records parts last) job)
  transfer [] last text a r l =
      Runs-append _ (Receives kind path text job (0x98 ∷ last)) _ last _
        (record_comes kind path text job last r)
        (Runs_byte _ _ 0x91
          (λ env s. last_record text (0x98 ∷ last) env s l (omega (arith, r.room))))
  transfer (p ∷ ps) last text a r l =
      let more = text ++ 0x98 ∷ p.bytes in
      Runs-append _ (Receives kind path text job (0x98 ∷ p.bytes)) _ p.bytes _
        (record_comes kind path text job p.bytes a.0.is_record)
        (Runs-append _ (Displays kind path more job 2) _ (0x91 ∷ []) _
          (Runs_byte _ _ 0x91 (λ env s.
            next_record text (0x98 ∷ p.bytes) env s a.0.goes_on
              (omega (arith, a.0.is_record.enough)) (omega (arith, a.0.is_record.room))))
          (Runs-append _ (Receives kind path more job (0x98 ∷ [])) _ (pause_bytes p.display p.reply)
            _ (pause_comes kind path more job p.display p.reply a.0.pause (polled more))
            (subst
              (λ bs.
                Runs (Receives kind path more job (0x98 ∷ [])) (wire ps last)
                  (Delivers kind path bs job))
              (append_assoc text (0x98 ∷ p.bytes) (records ps last))
              (transfer ps last more a.1 r l))))
