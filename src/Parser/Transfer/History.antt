-- ===== src/Parser/Transfer/History.antt =====
-- A whole History sequence in active mode, from its start to the file.
use industrial_control.Prelude.{
  ℕ, suc, ◌≤◌, ◌≡◌, refl, true, false, some, List, [], ◌∷◌, ◌++◌, arith, Bytes, length, All, codes,
}
use industrial_control.Prelude.Bits.{has}
use industrial_control.Flags.{buffer_size, target, target_ram_dir, active_mode}
use industrial_control.Outcome.{ok}
use industrial_control.Parser.State.{hst_data, hst_display, hst_start, opened, Env, Engine}
use industrial_control.Parser.Buffer.{
  put, back, take_snapshot, notify_success, msg_send_to_client, fresh, contents, append_if_open,
}
use industrial_control.Parser.History.{open_history, take_history}
use industrial_control.Parser.Header.{dispatch, step, parse_bytes}
use industrial_control.Parser.Triple.{Yields, at_state, then_bytes, Runs_byte, Runs-append}
use industrial_control.Parser.Transfer.{
  history, Job, job_of, Receives, Displays, Expects, Replies, Delivers, is_open, is_last,
  matches_back-is_last,
}
use industrial_control.Parser.Transfer.Steps.{Part, IsRecord, IsPause, reply_comes, begins_record}
use industrial_control.Parser.Transfer.Records.{IsPart, wire, records, Handles, transfer}

module _ (path text : Bytes) (job : Job) (env : Env) where
  next_record :
      (got : Bytes) (s : Engine)
      → is_last got ≡ false
      → 5 ≤ length got
      → length got ≤ buffer_size
      → Receives history path text job got s
      → Yields (Displays history path (text ++ got) job 2) (step env 0x91 s)
  unfolding dispatch take_history contents
  next_record got s l long room h =
      let t = record s { f_hst = append_if_open (contents s) s.f_hst } in
      at_state _ hst_data env 0x91 s h.state (
        rw (matches_back-is_last t got h.buffered h.size long room, l)
          (ground (arith, h.buffered, h.writes)))

  last_record :
      (got : Bytes) (s : Engine)
      → is_last got ≡ true
      → length got ≤ buffer_size
      → Receives history path text job got s
      → Yields (Delivers history path (text ++ got) job) (step env 0x91 s)
  unfolding dispatch take_history notify_success msg_send_to_client contents
  last_record got s l room h =
      let t = record s { f_hst = append_if_open (contents s) s.f_hst } in
      at_state _ hst_data env 0x91 s h.state (
        rw (matches_back-is_last t got h.buffered h.size (ground (arith, l)) room, l)
          (ground (arith, h.buffered, h.writes)))

  polled :
      (s : Engine)
      → has job.options active_mode ≡ true
      → Expects history path text job s
      → Yields (Replies history path text job 5) (step env 0x90 s)
  unfolding dispatch put back take_snapshot
  polled s a h = at_state _ hst_display env 0x90 s h.state (ground arith)

history-Handles :
    (path : Bytes) (job : Job) → has job.options active_mode ≡ true → Handles history path job
history-Handles path job a = record {
  next_record = λ text got env s l enough. next_record path text job env got s l (omega arith);
  last_record = λ text got env s. last_record path text job env got s;
  polled = λ text env s. polled path text job env s a;
}

-- The History file on the target.
abbrev pub history_path : Bytes
history_path = target_ram_dir ++ codes "/history.txt"

abbrev opened_on_target : Engine → Engine
opened_on_target s = record s {
  f_hst = some (fresh history_path);
  curr_history_file = history_path;
  events = opened history_path ∷ s.events;
}

open_history_on_target :
    (env : Env) (s : Engine)
    → has s.options target ≡ true
    → env.fopen_succeeds ≡ true
    → open_history env s ≡ ok (opened_on_target s)
unfolding open_history
open_history_on_target env s o f = rw (o, f) refl

-- On the target, the 0x98 at the start opens the History file.
begins_history :
    (env : Env) (s : Engine)
    → s.header_state ≡ hst_start
    → has s.options target ≡ true
    → env.fopen_succeeds ≡ true
    → is_open s.f_rdg ≡ true
    → Yields (Expects history history_path [] (job_of s)) (step env 0x98 s)
unfolding dispatch
begins_history env s q o f r = at_state _ hst_start env 0x98 s q (
    rw (open_history_on_target env s o f) (record {
      state = refl;
      some_bytes = omega arith;
      size = omega arith;
      latest = refl;
      writes = record {
        file = refl;
        name = refl;
        before = refl;
        told = refl;
        queue = refl;
        control = refl;
        options = refl;
        readings = r;
      };
    }))

-- In the state that begins a History sequence, on the target in active mode, with readings.txt open
-- and the History file to be opened, records of four bytes or more that fit in the buffer, and
-- texts and answers between them that fit and hold no 0x98: if the last record alone ends with
-- ";end" and a carriage return, the bytes of the whole sequence from its first 0x98 and poll on are
-- handled without a fault, the file /mnt/ramdisk/lsc/history.txt is closed with the records as they
-- were sent, each with its header, and nothing else, no other data file is closed, and the latest
-- client is told of that file, once, if a client's request is marked, and else no client is told
-- anything.
pub history_session :
    (env : ℕ → Env) (i : ℕ) (reply : Bytes) (parts : List Part) (last : Bytes) (s : Engine)
    → s.header_state ≡ hst_start
    → has s.options target ≡ true
    → has s.options active_mode ≡ true
    → (env i).fopen_succeeds ≡ true
    → is_open s.f_rdg ≡ true
    → IsPause [] reply
    → All (IsPart history) parts
    → IsRecord history last
    → is_last (0x98 ∷ last) ≡ true
    → Yields
        (Delivers history history_path (records parts last) (job_of s))
        (parse_bytes env i (0x98 ∷ 0x90 ∷ (reply ++ (0x98 ∷ wire parts last))) s)
history_session env i reply parts last s q o m f r p a c l =
    let job = job_of s in
    let expects = Expects history history_path [] job in
    then_bytes expects _ env i 0x98 (0x90 ∷ (reply ++ (0x98 ∷ wire parts last))) s
      (begins_history (env i) s q o f r)
      (λ t.
        Runs-append expects (Replies history history_path [] job 5) _ (0x90 ∷ []) _
          (Runs_byte _ _ 0x90 (λ e u. polled history_path [] job e u m))
          (Runs-append _ (Replies history history_path [] job buffer_size) _ reply _
            (reply_comes history history_path [] job reply p.reply_plain p.reply_room)
            (Runs-append _ (Receives history history_path [] job (0x98 ∷ [])) _ (0x98 ∷ []) _
              (Runs_byte _ _ 0x98 (begins_record history_path [] job history))
              (transfer history history_path job (history-Handles history_path job m) parts last []
                a c l)))
          env (suc i) t)
