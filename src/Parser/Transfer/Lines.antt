-- ===== src/Parser/Transfer/Lines.antt =====
-- What the bytes of a log do that other records have no part in.
use mathlib.Core.Path.{subst}
use mathlib.Core.List.{append-nil}
use industrial_control.Prelude.{
  ℕ, suc, ◌-◌, ◌≡◌, ◌≢◌, true, false, some, [], ◌∷◌, ◌++◌, ◌==◌, if◌then◌else◌, arith, Bytes,
  length,
}
use industrial_control.Prelude.Bits.{has, raise, has-lower}
use industrial_control.Flags.{active_mode, report_req, history_req, logmode_off_req}
use industrial_control.Outcome.{ok}
use industrial_control.Parser.State.{log_data, log_display, Env, Engine}
use industrial_control.Parser.Buffer.{
  put, back, take_snapshot, notify_success, msg_send_to_client, contents, segment,
}
use industrial_control.Parser.LogMode.{write_log, log_record, log_request_of_letter}
use industrial_control.Parser.Header.{dispatch, step}
use industrial_control.Parser.Triple.{Yields, at_state}
use industrial_control.Parser.Transfer.{log, Job, Receives, Displays, Expects, Replies, Delivers}

-- What is written of a record: no header, and nothing of a ";wait" string.
abbrev pub logged : Bytes → Bytes
logged [] = []
logged (c ∷ cs) = if c == 0x3B then [] else c ∷ cs

-- The segments behind the header.
segment_parts :
    (m : ℕ → ℕ) (n k c : ℕ) (cs : Bytes)
    → n ≡ suc (suc k)
    → segment m 0 (suc (suc k)) ≡ 0x98 ∷ c ∷ cs
    → (m 0 ≡ 0x98) × (m 1 ≡ c) × (segment m 1 (n - 1) ≡ c ∷ cs)
unfolding segment
segment_parts m n k c cs size e =
    let count : suc k ≡ n - 1 = omega arith in
    (cc, cc, subst (λ j. segment m 1 j ≡ c ∷ cs) count (cc))

-- The buffer holds the record behind its header.
buffer-record :
    (s : Engine) (c : ℕ) (cs : Bytes)
    → contents s ≡ 0x98 ∷ c ∷ cs
    → s.buffer_len ≡ suc (suc (length cs))
    → (s.buffer 0 ≡ 0x98) × (s.buffer 1 ≡ c) × (segment s.buffer 1 (s.buffer_len - 1) ≡ c ∷ cs)
unfolding contents
buffer-record s c cs e n =
    segment_parts s.buffer s.buffer_len (length cs) c cs n
      (subst (λ j. segment s.buffer 0 j ≡ 0x98 ∷ c ∷ cs) n e)

letter_behind :
    (s : Engine) (c d : ℕ) (cs : Bytes)
    → contents s ≡ 0x98 ∷ c ∷ d ∷ cs
    → s.buffer_len ≡ suc (suc (suc (length cs)))
    → s.buffer 2 ≡ d
unfolding contents segment
letter_behind s c d cs e n =
    let e' = subst (λ j. segment s.buffer 0 j ≡ 0x98 ∷ c ∷ d ∷ cs) n e in cc

-- With the log open, the record goes to the file.
write_log-logged :
    (path text : Bytes) (s : Engine) (c : ℕ) (cs : Bytes)
    → s.f_log ≡ some (record { path = path; written = text })
    → contents s ≡ 0x98 ∷ c ∷ cs
    → s.buffer_len ≡ suc (suc (length cs))
    → write_log s
      ≡ ok (record s { f_log = some (record { path = path; written = text ++ logged (c ∷ cs) }) })
unfolding write_log log_record
write_log-logged path text s c cs f e n = ground (arith, buffer-record s c cs e n, append-nil text)

module _ (path text : Bytes) (job : Job) (env : Env) where
  -- A record that is no directive.
  pub next_record :
      (c : ℕ) (cs : Bytes) (s : Engine)
      → c ≢ 0x40
      → Receives log path text job (0x98 ∷ c ∷ cs) s
      → Yields (Displays log path (text ++ logged (c ∷ cs)) job 2) (step env 0x91 s)
  unfolding dispatch
  next_record c cs s n h = at_state _ log_data env 0x91 s h.state (
      ground (
        arith,
        h.writes,
        write_log-logged path text s c cs h.writes.file h.buffered h.size,
        buffer-record s c cs h.buffered h.size,
      ))

  pub polled :
      (s : Engine)
      → has job.options active_mode ≡ true
      → has job.control logmode_off_req ≡ false
      → has job.control report_req ≡ false
      → has job.control history_req ≡ false
      → Expects log path text job s
      → Yields (Replies log path text job 5) (step env 0x90 s)
  unfolding dispatch put back take_snapshot
  polled s a off rpt hst h = at_state _ log_display env 0x90 s h.state (ground arith)

  -- The directive to end the log.
  pub end_directive :
      (cs : Bytes) (s : Engine)
      → has job.options active_mode ≡ true
      → Receives log path text job (0x98 ∷ 0x40 ∷ 0x4C ∷ cs) s
      → Yields
          (Displays log path
            (text ++ (0x40 ∷ 0x4C ∷ cs))
            (record job { control = raise job.control logmode_off_req })
            2)
          (step env 0x91 s)
  unfolding dispatch log_request_of_letter contents
  end_directive cs s a h =
      let asked = record s { control = log_request_of_letter (s.buffer 2) s.control } in
      at_state _ log_data env 0x91 s h.state (
        ground (
          arith,
          h.writes,
          write_log-logged path text asked 0x40 (0x4C ∷ cs) h.writes.file h.buffered h.size,
          buffer-record s 0x40 (0x4C ∷ cs) h.buffered h.size,
          letter_behind s 0x40 0x4C cs h.buffered h.size,
        ))

  pub ends :
      (s : Engine)
      → has job.options active_mode ≡ true
      → has job.control logmode_off_req ≡ true
      → Expects log path text job s
      → Yields (Delivers log path text job) (step env 0x90 s)
  unfolding dispatch put back take_snapshot notify_success msg_send_to_client
  ends s a off h =
      at_state _ log_display env 0x90 s h.state
        (ground (arith, has-lower 7 job.control logmode_off_req))
