-- ===== src/Main/Ends.antt =====
-- What a run of `main` leaves when it ends.
use industrial_control.Prelude.{
  ℕ, suc, ◌≡◌, Bool, true, false, Option, none, some, if◌then◌else◌, List, [], ◌∷◌, Bytes, arith,
}
use industrial_control.Outcome.{Outcome, ok, fault, ◌>>=◌, Ensures, Ensures-bind}
use industrial_control.Parser.State.{Engine, Env}
use industrial_control.Parser.Header.{parse_header}
use industrial_control.Parser.Leaks.{opens, closes, parse_close-closes}
use industrial_control.Parser.Runs.{IsSound, parse_header-IsSound, parse_open-IsSound}
use industrial_control.Capture.Dump.{capture_reads}
use industrial_control.Capture.Scan.{lines}
use industrial_control.Capture.Reader.{
  Chunk, run_frames, after_frames, replay, read_lines, no_chunk,
}
use industrial_control.Serial.{serial_port_open}
use industrial_control.Options.{
  Settings, Parsed, options, exit_success, exit_failure, take_options, initial_settings,
}
use industrial_control.Main.{runs_interactively, runs_unit_test, captures, is_supported, serve}
use industrial_control.Main.Session.{serve-IsSound}
use industrial_control.Main.Run.{
  World, Run, Ending, finished, going, failed, behind_loop, live, capture_wire, test_file,
  open_port, ram_dir, disk_dir, contains, target_stg, set_up, go, main,
}

-- A run that ends with success has closed the port, and the engine if it was opened; a closed
-- engine has closed every data file that it opened.
pub record IsTidy (r : Run) : Type 0 where
  pub port : r.ending ≡ Ending.success → r.port_open ≡ false
  pub engine : r.ending ≡ Ending.success → r.closed ≡ r.opened
  pub files : r.closed ≡ true → closes r.events ≡ opens r.events

run_frames-IsSound :
    (clock : ℕ → ℕ) (env : ℕ → ℕ → Env) (n : ℕ) (fs : List Bytes) (s : Engine)
    → IsSound s
    → Ensures IsSound (run_frames clock env n fs s)
unfolding run_frames
run_frames-IsSound clock env n [] s h = h
run_frames-IsSound clock env n (f ∷ fs) s h =
    Ensures-bind IsSound IsSound (parse_header (clock n) (env n) f s) _
      (parse_header-IsSound (clock n) (env n) f s h)
      (λ t q. run_frames-IsSound clock env (suc n) fs t q)

after_frames-IsSound :
    (left : Option Chunk) (s : Engine) → IsSound s → Ensures IsSound (after_frames left s)
after_frames-IsSound none s h = tt
after_frames-IsSound (some k) s h = h

replay-IsSound :
    (clock : ℕ → ℕ) (env : ℕ → ℕ → Env) (ls : List Bytes) (s : Engine)
    → IsSound s
    → Ensures IsSound (replay clock env ls s)
unfolding replay
replay-IsSound clock env ls s h =
    Ensures-bind IsSound IsSound (run_frames clock env 0 (read_lines ls no_chunk).0 s) _
      (run_frames-IsSound clock env 0 (read_lines ls no_chunk).0 s h)
      (λ t q. after_frames-IsSound (read_lines ls no_chunk).1 t q)

failed-IsTidy : (made : List Bytes) (port : Bool) → IsTidy (failed made port)
failed-IsTidy made port = ground arith

behind_loop-IsTidy :
    (world : World) (made : List Bytes) (r : Engine × Bool)
    → IsSound r.0
    → IsTidy (behind_loop world made r)
behind_loop-IsTidy world made (s, true) h = ground arith
behind_loop-IsTidy world made (s, false) h = ground (arith, parse_close-closes s h.balanced)

finished-IsTidy : (made : List Bytes) (s : Engine) → IsSound s → IsTidy (finished made s)
finished-IsTidy made s h = ground (arith, parse_close-closes s h.balanced)

going-IsTidy : (made : List Bytes) (s : Engine) → IsTidy (going made s)
going-IsTidy made s = ground arith

-- A test keeps what both branches ensure.
branches :
    (b : Bool) (x y : Outcome Run)
    → Ensures IsTidy x
    → Ensures IsTidy y
    → Ensures IsTidy (if b then x else y)
branches true x y p q = p
branches false x y p q = q

live-IsTidy :
    (world : World) (made : List Bytes) (o : ℕ) (s : Engine)
    → IsSound s
    → Ensures IsTidy (live world made o s)
unfolding live
live-IsTidy world made o s h =
    let tidy = finished-IsTidy made s h in
    branches (runs_interactively o) _ _
      (branches world.creates_queue _ _
        (Ensures-bind (λ r. IsSound r.0) IsTidy (serve world.rounds s) _
          (serve-IsSound world.rounds s h) (behind_loop-IsTidy world made))
        (ground (arith, tidy.files)))
      tidy

capture_wire-IsTidy :
    (world : World) (made : List Bytes) (o : ℕ) (s : Engine)
    → IsSound s
    → Ensures IsTidy (capture_wire world made o s)
unfolding capture_wire
capture_wire-IsTidy world made o s h =
    branches (captures o) _ _ (by_text (capture_reads world.capture_opens world.reads))
      (live-IsTidy world made o s h)
  where
    by_text :
        (m : Outcome Bytes)
        → Ensures IsTidy (m >>= λ text. ok (record (going made s) { captured = text }))
    by_text (ok text) = ground arith
    by_text (fault e) = tt

test_file-IsTidy :
    (world : World) (made : List Bytes) (o : ℕ) (name : Bytes) (s : Engine)
    → IsSound s
    → Ensures IsTidy (test_file world made o name s)
unfolding test_file
test_file-IsTidy world made o name s h =
    branches (runs_unit_test o) _ _ (by_file (world.file name))
      (capture_wire-IsTidy world made o s h)
  where
    by_file :
        (content : Option Bytes)
        → Ensures IsTidy (elim content [
          | none ↦ ok (record (going made s) { ending = Ending.failure })
          | some text ↦ replay world.clock world.env (lines text) s >>= capture_wire world made o
        ])
    by_file none = ground arith
    by_file (some text) =
        Ensures-bind IsSound IsTidy (replay world.clock world.env (lines text) s) _
          (replay-IsSound world.clock world.env (lines text) s h) (capture_wire-IsTidy world made o)

open_port-IsTidy :
    (world : World) (made : List Bytes) (o : ℕ) (name : Bytes)
    → Ensures IsTidy (open_port world made o name)
unfolding open_port
open_port-IsTidy world made o name =
    let port = serial_port_open world.port in
    branches port.succeeds _ (ok (failed made port.is_open))
      (test_file-IsTidy world made o name _ (parse_open-IsSound o 0 world.now world.readings))
      (failed-IsTidy made port.is_open)

made_or_failed :
    (dirs : Option (List Bytes)) (made : List Bytes) (next : List Bytes → Outcome Run)
    → ((ds : List Bytes) → Ensures IsTidy (next ds))
    → Ensures IsTidy (elim dirs [ none ↦ ok (failed made false) | some ds ↦ next ds ])
made_or_failed none made next h = failed-IsTidy made false
made_or_failed (some ds) made next h = h ds

ram_dir-IsTidy :
    (world : World) (made : List Bytes) (o : ℕ) (name : Bytes) (on_target : Bool)
    → Ensures IsTidy (ram_dir world made o name on_target)
unfolding ram_dir
ram_dir-IsTidy world made o name on_target =
    branches on_target _ _ (made_or_failed _ made _ (λ ds. open_port-IsTidy world ds o name))
      (open_port-IsTidy world made o name)

disk_dir-IsTidy :
    (world : World) (o : ℕ) (name : Bytes) (on_target : Bool)
    → Ensures IsTidy (disk_dir world o name on_target)
unfolding disk_dir
disk_dir-IsTidy world o name on_target =
    made_or_failed _ [] _ (λ ds. ram_dir-IsTidy world ds _ name on_target)

set_up-IsTidy : (world : World) (t : Settings) → Ensures IsTidy (set_up world t)
unfolding set_up
set_up-IsTidy world t =
    branches (is_supported t.flags) _ _ (by_uname world.uname) (failed-IsTidy [] false)
  where
    by_uname :
        (text : Option Bytes)
        → Ensures IsTidy (elim text [
          | none ↦ ok (failed [] false)
          | some text' ↦ disk_dir world t.flags t.testfile (contains text' target_stg)
        ])
    by_uname none = failed-IsTidy [] false
    by_uname (some text) = disk_dir-IsTidy world t.flags t.testfile (contains text target_stg)

go-IsTidy : (world : World) (p : Parsed) → Ensures IsTidy (go world p)
go-IsTidy world (options t) = set_up-IsTidy world t
go-IsTidy world exit_success = ground arith
go-IsTidy world exit_failure = failed-IsTidy [] false

-- Whatever the options are and the system answers, a run without a fault that ends with success has
-- closed the port, and the engine if it was opened; and a run that has closed the engine, with
-- success or not, has closed each data file that the engine opened.
pub main-IsTidy : (world : World) → Ensures IsTidy (main world)
unfolding main
main-IsTidy world = parsed (take_options world.arguments initial_settings)
  where
    parsed : (m : Outcome Parsed) → Ensures IsTidy (m >>= go world)
    parsed (ok p) = go-IsTidy world p
    parsed (fault e) = tt
