-- ===== src/Parser/Transfer/Log.antt =====
-- A whole log in active mode, from its start to the file, ended by the 1022.
use industrial_control.Prelude.{
  ℕ, suc, ◌≤◌, ◌≡◌, ◌≢◌, refl, true, some, List, [], ◌∷◌, ◌++◌, arith, Bytes, length, All, codes,
}
use industrial_control.Prelude.Bits.{has, raise, has-raise}
use industrial_control.Flags.{
  target, target_disk_dir, active_mode, logmode_off_req, data_filename_size,
}
use industrial_control.Filename.{unique_filename}
use industrial_control.Parser.State.{log_data, log_start, opened, Env, Engine}
use industrial_control.Parser.Buffer.{fresh}
use industrial_control.Parser.LogMode.{open_log}
use industrial_control.Parser.SteadyState.{status_set_logmode}
use industrial_control.Parser.Header.{dispatch, step, parse_bytes}
use industrial_control.Parser.Triple.{
  Yields, Yields-mono, at_state, then_bytes, Runs, Runs_byte, Runs-append,
}
use industrial_control.Parser.Transfer.{
  log, Job, job_of, Receives, Displays, Expects, Delivers, is_open, contents_header,
}
use industrial_control.Parser.Transfer.Steps.{
  IsRecord, IsPause, record_comes, display_comes, header_byte,
}
use industrial_control.Parser.Transfer.Lines.{end_directive, ends}
use industrial_control.Parser.Transfer.Logging.{
  Line, IsLine, IsIdle, line_wire, line_text, lines_come,
}

-- The engine with the log file `path` opened.
opened_on_target : Bytes → Engine → Engine
opened_on_target path s = record s {
  f_log = some (fresh path);
  curr_log_file = path;
  events = opened path ∷ s.events;
}

open_log_on_target :
    (path : Bytes) (env : Env) (s : Engine)
    → has s.options target ≡ true
    → unique_filename (target_disk_dir ++ codes "/logmode-") [] data_filename_size env.local_time
      ≡ (path, true)
    → env.fopen_succeeds ≡ true
    → open_log env s ≡ opened_on_target path s
unfolding open_log opened_on_target
open_log_on_target path env s o name f = rw (o, name, f) refl

-- On the target, the 0x98 of the first record opens the log file.
pub begins_log :
    (path : Bytes) (env : Env) (s : Engine)
    → s.header_state ≡ log_start
    → has s.options target ≡ true
    → unique_filename (target_disk_dir ++ codes "/logmode-") [] data_filename_size env.local_time
      ≡ (path, true)
    → env.fopen_succeeds ≡ true
    → is_open s.f_rdg ≡ true
    → Yields (Receives log path [] (job_of s) (0x98 ∷ [])) (step env 0x98 s)
unfolding dispatch opened_on_target status_set_logmode
begins_log path env s q o name f r = at_state _ log_start env 0x98 s q (
    rw (open_log_on_target path env s o name f) (record {
      state = refl;
      buffered = contents_header log_data (status_set_logmode (opened_on_target path s));
      size = refl;
      writes = record {
        file = refl;
        name = refl;
        before = refl;
        told = refl;
        queue = refl;
        control = refl;
        options = refl;
        readings = r;
      };
    }))

-- The bytes behind the header of the first record: the log records with their pauses, and the
-- directive "@L" with the text and the poll behind it.
abbrev directive_wire : Bytes → Bytes → Bytes
directive_wire rest display = (0x40 ∷ 0x4C ∷ rest) ++ (0x91 ∷ (display ++ (0x98 ∷ 0x90 ∷ [])))

abbrev pub log_wire : List Line → Bytes → Bytes → Bytes
log_wire ps rest display = line_wire ps (directive_wire rest display)

-- What is kept of the records.
abbrev pub log_text : List Line → Bytes → Bytes
log_text ps rest = line_text ps (0x40 ∷ 0x4C ∷ rest)

with_end : Job → Job
with_end job = record job { control = raise job.control logmode_off_req }

-- The mark of a client's request is what it was.
ended-Delivers :
    (path text : Bytes) (job : Job) (s : Engine)
    → Delivers log path text (with_end job) s
    → Delivers log path text job s
unfolding with_end
ended-Delivers path text job s h = ground (arith, has-raise 7 3 job.control)

log_ends :
    (rest display path text : Bytes) (job : Job)
    → IsRecord log (0x40 ∷ 0x4C ∷ rest)
    → All (λ c. c ≢ 0x98) display
    → length display ≤ 253
    → has job.options active_mode ≡ true
    → Runs
        (Receives log path text job (0x98 ∷ []))
        (log_wire [] rest display)
        (Delivers log path (text ++ log_text [] rest) job)
unfolding with_end
log_ends rest display path text job l d room a =
    let more = text ++ log_text [] rest in
    let last = 0x40 ∷ 0x4C ∷ rest in
    let ended = record job { control = raise job.control logmode_off_req } in
    Runs-append _ (Receives log path text job (0x98 ∷ last)) _ last _
      (record_comes log path text job last l)
      (Runs-append _ (Displays log path more ended 2) _ (0x91 ∷ []) _
        (Runs_byte _ _ 0x91 (λ env s. end_directive path text job env rest s a))
        (Runs-append _ (Displays log path more ended 255) _ display _
          (display_comes log path more ended display d room)
          (Runs-append _ (Expects log path more ended) _ (0x98 ∷ []) _
            (Runs_byte _ _ 0x98 (header_byte path more ended log))
            (Runs_byte _ _ 0x90 (λ env s h.
              Yields-mono _ _ (step env 0x90 s) (ended-Delivers path more job)
                (ends path more ended env s a (ground (arith, has-raise 3 3 job.control)) h))))))

-- In the state that begins a log, on the target in active mode, with readings.txt open and the log
-- file to be opened, no other request pending, records that fit in the buffer and are no
-- directives, and texts and answers between them that fit and hold no 0x98: if the 1022 ends the
-- log by a record that starts with "@L", the bytes of the whole log from its first header to the
-- poll that ends it are handled without a fault, the file /var/log/lsc/logmode-<time> is closed
-- with the records as they were sent, without their headers and without the records that start with
-- ';', no other data file is closed, and the latest client is told of that file, once, if a
-- client's request is marked, and else no client is told anything.
pub log_session :
    (env : ℕ → Env) (i : ℕ) (lines : List Line) (rest display path : Bytes) (s : Engine)
    → s.header_state ≡ log_start
    → has s.options target ≡ true
    → unique_filename
        (target_disk_dir ++ codes "/logmode-")
        []
        data_filename_size
        (env i).local_time
      ≡ (path, true)
    → (env i).fopen_succeeds ≡ true
    → is_open s.f_rdg ≡ true
    → IsIdle (job_of s)
    → All IsLine lines
    → IsRecord log (0x40 ∷ 0x4C ∷ rest)
    → IsPause display []
    → Yields
        (Delivers log path (log_text lines rest) (job_of s))
        (parse_bytes env i (0x98 ∷ log_wire lines rest display) s)
log_session env i lines rest display path s q o name f r idle a l d =
    then_bytes (Receives log path [] (job_of s) (0x98 ∷ [])) _ env i 0x98
      (log_wire lines rest display) s (begins_log path (env i) s q o name f r)
      (λ t.
        lines_come path (job_of s) (directive_wire rest display) (0x40 ∷ 0x4C ∷ rest)
          (λ bs. Delivers log path bs (job_of s)) idle
          (λ text.
            log_ends rest display path text (job_of s) l d.display_plain d.display_room idle.active)
          lines [] a env (suc i) t)
