-- ===== src/Parser/History.antt =====
-- The History handlers of Printer-Emulator/parser.c.
use industrial_control.Prelude.{
  ℕ, true, false, ◌&&◌, none, some, [], ◌∷◌, ◌++◌, ◌==◌, if◌then◌else◌, codes,
}
use industrial_control.Prelude.Bits.{has}
use industrial_control.Flags.{target, data_filename_size, desktop_disk_dir, target_ram_dir}
use industrial_control.Filename.{unique_filename}
use industrial_control.Outcome.{Outcome, ok, fault, null_stream, ◌>>=◌}
use industrial_control.Parser.State.{
  Env, Engine, opened, closed, hst_display, hst_printer, hst_printer_active, hst_data,
}
use industrial_control.Parser.Buffer.{
  put, back, refill, goto, contents, is_active, notify_success, take_snapshot, append_if_open,
  matches_back, end_mark, fresh,
}
use industrial_control.Parser.SteadyState.{send_request}
use industrial_control.Parser.Report.{resume_display}

-- Open the History file: on the target a fixed name and a `rewind`, else a name with the time.
unfoldable pub open_history : Env → Engine → Outcome Engine
unfolding unique_filename
open_history env s =
    if has s.options target
    then (let p = target_ram_dir ++ codes "/history.txt" in
        if env.fopen_succeeds
        then ok (record s {
          f_hst = some (fresh p);
          curr_history_file = p;
          events = opened p ∷ s.events;
        })
        else fault null_stream)
    else (let (name, made) =
          unique_filename (desktop_disk_dir ++ codes "/history-") [] data_filename_size
            env.local_time in
        if made
        then (if env.fopen_succeeds
            then ok (record s {
              f_hst = some (fresh name);
              curr_history_file = name;
              events = opened name ∷ s.events;
            })
            else ok (record s { f_hst = none; curr_history_file = name }))
        else ok (record s { curr_history_file = name }))

unfoldable pub handle_hst_start : Env → ℕ → Engine → Outcome Engine
unfolding open_history
handle_hst_start env c s =
    if c == 0x98
    then (do
      t ← open_history env s
      ok (goto hst_display (refill (c ∷ []) (record t { hst_is_first = true }))))
    else put c s

-- 'T' asks for the first record and 'H' for each later one.
unfoldable pub request_history : ℕ → Engine → Engine
request_history c s =
    if s.hst_is_first
    then send_request (0x98 ∷ c ∷ []) 0x54 (record s { hst_is_first = false })
    else send_request (0x98 ∷ c ∷ []) 0x48 s

-- The answer to a poll: a request in active mode, nothing in passive mode.
unfoldable pub ask_history : ℕ → Engine → Engine
unfolding request_history
ask_history c s =
    if is_active s
    then goto hst_printer_active (request_history c s)
    else goto hst_printer (refill (0x98 ∷ c ∷ []) s)

unfoldable pub handle_hst_display : ℕ → Engine → Outcome Engine
unfolding ask_history
handle_hst_display c s = do
  last ← back 1 s
  if last == 0x98 && c == 0x90 then (do t ← take_snapshot s; ok (ask_history c t)) else put c s

-- The letters are tested one after the other, each with its carriage return.
unfoldable pub handle_hst_printer : ℕ → Engine → Outcome Engine
handle_hst_printer c s =
    if c == 0x98
    then (do
      next ← matches_back ((2, 0x48) ∷ (1, 0x0D) ∷ []) s
      asked ← if next then ok true else matches_back ((2, 0x54) ∷ (1, 0x0D) ∷ []) s
      ok (
          if asked
          then goto hst_data (refill (0x98 ∷ []) s)
          else goto hst_display (refill (c ∷ []) s)))
    else put c s

unfoldable pub handle_hst_printer_active : ℕ → Engine → Outcome Engine
handle_hst_printer_active c s =
    if c == 0x98 then ok (goto hst_data (refill (c ∷ []) s)) else put c s

-- `fclose( f_hst )`, with no test for NULL.
unfoldable pub close_history : Engine → Outcome Engine
close_history s = elim s.f_hst [
  | none ↦ fault null_stream
  | some f ↦ ok (record s { f_hst = none; events = closed f ∷ s.events })
]

-- The end of the History sequence, after the last record is written.
unfoldable pub finish_history : ℕ → Engine → Outcome Engine
unfolding close_history resume_display
finish_history c s = do
  t ← close_history s
  ok (resume_display c (notify_success (codes "history " ++ t.curr_history_file) t))

-- What a 0x91 does. The end mark is looked for with no test of the length.
unfoldable pub take_history : ℕ → Engine → Outcome Engine
unfolding finish_history
take_history c s = do
  let t = record s { f_hst = append_if_open (contents s) s.f_hst }
  last ← matches_back end_mark t
  if last then finish_history c t else ok (goto hst_display (refill (0x98 ∷ c ∷ []) t))

unfoldable pub handle_hst_data : ℕ → Engine → Outcome Engine
unfolding take_history
handle_hst_data c s = if c == 0x91 then take_history c s else put c s
