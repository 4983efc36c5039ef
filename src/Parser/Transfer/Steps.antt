-- ===== src/Parser/Transfer/Steps.antt =====
-- What the bytes between two records do, in each of the sequences, and what all of them do together.
use industrial_control.Prelude.{
  ℕ, suc, ◌+◌, ◌≤◌, ◌<◌, ◌≢◌, [], ◌∷◌, ◌++◌, arith, Bytes, length, All, length-append,
}
use industrial_control.Flags.{buffer_size}
use industrial_control.Parser.State.{
  rpt_data, hst_data, log_data, rpt_display, hst_display, log_display, rpt_printer,
  hst_printer_active, log_printer_active, Env, Engine,
}
use industrial_control.Parser.Buffer.{put, back}
use industrial_control.Parser.Header.{dispatch, step}
use industrial_control.Parser.Triple.{
  Yields, Yields-mono, at_state, Runs, Runs_byte, Runs-append, Runs-mono, Runs_collect,
}
use industrial_control.Parser.Transfer.{
  Kind, report, history, log, Job, Receives, Displays, Expects, Replies, contents_header, stores,
}

module _ (path text : Bytes) (job : Job) where
  text_byte :
      (kind : Kind) (len c : ℕ) (env : Env) (s : Engine)
      → c ≢ 0x98
      → len < buffer_size
      → Displays kind path text job len s
      → Yields (Displays kind path text job (suc len)) (step env c s)
  unfolding dispatch put back
  text_byte report len c env s n room h = at_state _ rpt_display env c s h.state (ground arith)
  text_byte history len c env s n room h = at_state _ hst_display env c s h.state (ground arith)
  text_byte log len c env s n room h = at_state _ log_display env c s h.state (ground arith)

  pub header_byte :
      (kind : Kind) (env : Env) (s : Engine)
      → Displays kind path text job 255 s
      → Yields (Expects kind path text job) (step env 0x98 s)
  unfolding dispatch put back
  header_byte report env s h = at_state _ rpt_display env 0x98 s h.state (ground arith)
  header_byte history env s h = at_state _ hst_display env 0x98 s h.state (ground arith)
  header_byte log env s h = at_state _ log_display env 0x98 s h.state (ground arith)

  answer_byte :
      (kind : Kind) (len c : ℕ) (env : Env) (s : Engine)
      → c ≢ 0x98
      → len < buffer_size
      → Replies kind path text job len s
      → Yields (Replies kind path text job (suc len)) (step env c s)
  unfolding dispatch put
  answer_byte report len c env s n room h = at_state _ rpt_printer env c s h.state (ground arith)
  answer_byte history len c env s n room h =
      at_state _ hst_printer_active env c s h.state (ground arith)
  answer_byte log len c env s n room h =
      at_state _ log_printer_active env c s h.state (ground arith)

  pub begins_record :
      (kind : Kind) (env : Env) (s : Engine)
      → Replies kind path text job buffer_size s
      → Yields (Receives kind path text job (0x98 ∷ [])) (step env 0x98 s)
  unfolding dispatch put
  begins_record report env s h =
      at_state _ rpt_printer env 0x98 s h.state (ground (arith, contents_header rpt_data s))
  begins_record history env s h =
      at_state _ hst_printer_active env 0x98 s h.state (ground (arith, contents_header hst_data s))
  begins_record log env s h =
      at_state _ log_printer_active env 0x98 s h.state (ground (arith, contents_header log_data s))

-- A record but for its header, the text that the 1022 sends behind it, and the answer of the
-- printer module to the poll behind that.
pub record Part : Type 0 where
  pub bytes : Bytes
  pub display : Bytes
  pub reply : Bytes

-- What comes behind the display byte of a record, up to the header of the next one.
abbrev pub pause_bytes : Bytes → Bytes → Bytes
pause_bytes display reply = display ++ (0x98 ∷ 0x90 ∷ (reply ++ (0x98 ∷ [])))

-- The end test of a History record reads five bytes, whatever the record holds.
abbrev pub least : Kind → ℕ
least report = 0
least history = 4
least log = 0

-- The bytes of a record fit in the buffer behind the header, are no display bytes and are enough
-- for the end test.
pub record IsRecord (kind : Kind) (cs : Bytes) : Type 0 where
  pub plain : All (λ c. c ≢ 0x91) cs
  pub room : length cs < buffer_size
  pub enough : least kind ≤ length cs

-- The bytes of a pause fit in the buffer and hold no header.
pub record IsPause (display reply : Bytes) : Type 0 where
  pub display_plain : All (λ c. c ≢ 0x98) display
  pub display_room : length display ≤ 253
  pub reply_plain : All (λ c. c ≢ 0x98) reply
  pub reply_room : length reply ≤ 251

module _ (kind : Kind) (path text : Bytes) (job : Job) where
  -- A record comes in.
  pub record_comes :
      (cs : Bytes)
      → IsRecord kind cs
      → Runs (Receives kind path text job (0x98 ∷ [])) cs (Receives kind path text job (0x98 ∷ cs))
  record_comes cs a =
      Runs_collect (Receives kind path text job) 0x91 buffer_size (stores path text job kind) cs
        (0x98 ∷ []) a.plain (omega (arith, a.room))

  Displays-le :
      (k l : ℕ) (s : Engine)
      → k ≤ l
      → Displays kind path text job k s
      → Displays kind path text job l s
  Displays-le k l s le h = record {
    state = h.state;
    some_bytes = h.some_bytes;
    size = omega (arith, h.size);
    latest = h.latest;
    writes = h.writes;
  }

  Replies-le :
      (k l : ℕ) (s : Engine)
      → k ≤ l
      → Replies kind path text job k s
      → Replies kind path text job l s
  Replies-le k l s le h = record {
    state = h.state;
    size = omega (arith, h.size);
    writes = h.writes;
  }

  -- The text that the 1022 sends comes in.
  pub display_comes :
      (cs : Bytes)
      → All (λ c. c ≢ 0x98) cs
      → length cs ≤ 253
      → Runs (Displays kind path text job 2) cs (Displays kind path text job 255)
  display_comes cs a room =
      Runs-mono _ _ (Displays kind path text job 255) cs
        (λ s. Displays-le (length cs + 2) 255 s (omega arith))
        (Runs_collect (λ got. Displays kind path text job (length got + 2)) 0x98 253
          (λ got c n fits env s h.
            Yields-mono _ _ (step env c s)
              (λ t.
                Displays-le (suc (length got + 2)) (length (got ++ c ∷ []) + 2) t
                  (omega (arith, length-append {0} got (c ∷ []))))
              (text_byte path text job kind (length got + 2) c env s n (omega arith) h))
          cs [] a (omega arith))

  -- The answer of the printer module comes in.
  pub reply_comes :
      (cs : Bytes)
      → All (λ c. c ≢ 0x98) cs
      → length cs ≤ 251
      → Runs (Replies kind path text job 5) cs (Replies kind path text job buffer_size)
  reply_comes cs a room =
      Runs-mono _ _ (Replies kind path text job buffer_size) cs
        (λ s. Replies-le (length cs + 5) buffer_size s (omega arith))
        (Runs_collect (λ got. Replies kind path text job (length got + 5)) 0x98 251
          (λ got c n fits env s h.
            Yields-mono _ _ (step env c s)
              (λ t.
                Replies-le (suc (length got + 5)) (length (got ++ c ∷ []) + 5) t
                  (omega (arith, length-append {0} got (c ∷ []))))
              (answer_byte path text job kind (length got + 5) c env s n (omega arith) h))
          cs [] a (omega arith))

  -- Behind a record the text, the poll and the answer come in, and the header of the next record,
  -- if the poll is answered.
  pub pause_comes :
      (display reply : Bytes)
      → IsPause display reply
      → ((env : Env) (s : Engine)
          → Expects kind path text job s
          → Yields (Replies kind path text job 5) (step env 0x90 s))
      → Runs
          (Displays kind path text job 2)
          (pause_bytes display reply)
          (Receives kind path text job (0x98 ∷ []))
  pause_comes display reply a polled =
      Runs-append _ (Displays kind path text job 255) _ display _
        (display_comes display a.display_plain a.display_room)
        (Runs-append _ (Expects kind path text job) _ (0x98 ∷ []) _
          (Runs_byte _ _ 0x98 (header_byte path text job kind))
          (Runs-append _ (Replies kind path text job 5) _ (0x90 ∷ []) _ (Runs_byte _ _ 0x90 polled)
            (Runs-append _ (Replies kind path text job buffer_size) _ reply _
              (reply_comes reply a.reply_plain a.reply_room)
              (Runs_byte _ _ 0x98 (begins_record path text job kind)))))
