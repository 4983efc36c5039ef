-- ===== src/Capture/Replay.antt =====
-- The unit test as a replay of captured datagrams.
use mathlib.Core.List.{append-nil, append_assoc}
use industrial_control.Prelude.{
  ℕ, suc, ◌≤◌, ◌≡◌, refl, sym, ◌∙◌, ap, false, Option, none, some, List, [], ◌∷◌, ◌++◌, Bytes,
  length, All, arith,
}
use industrial_control.Outcome.{Outcome, ok, fault, write_outside, ◌>>=◌}
use industrial_control.Parser.State.{Env, Engine}
use industrial_control.Capture.Dump.{capture_file}
use industrial_control.Capture.Scan.{lines}
use industrial_control.Capture.Reader.{
  Chunk, read_lines, no_chunk, chunk_size, run_frames, after_frames, replay,
}
use industrial_control.Capture.Joining.{IsData, got-chunk_of}
use industrial_control.Capture.Datagrams.{ends_full}
use industrial_control.Capture.RoundTrip.{joined, as_read, read_lines-capture_file}

-- A datagram that fits the buffer and whose dump does not end in a row of 15 or 16 bytes.
pub record IsSingle (d : Bytes) : Type 0 where
  pub bytes : All IsData d
  pub not_empty : 1 ≤ length d
  pub fits : length d ≤ chunk_size
  pub ends : ends_full d ≡ false

All-IsData : (ds : List Bytes) → All IsSingle ds → All (All IsData) ds
All-IsData [] a = tt
All-IsData (d ∷ ds) a = (a.0.bytes, All-IsData ds a.1)

-- Each such datagram is a frame.
joined_step :
    (d : Bytes) (es : List Bytes)
    → IsSingle d
    → joined [] (d ∷ es) ≡ (d ∷ (joined [] es).0, (joined [] es).1)
joined_step [] es h = absurd (omega arith)
joined_step (c ∷ cs) es h = ground arith

joined-append :
    (ds es : List Bytes)
    → All IsSingle ds
    → joined [] (ds ++ es) ≡ (ds ++ (joined [] es).0, (joined [] es).1)
joined-append [] es a = refl
joined-append (d ∷ ds) es a =
    joined_step d (ds ++ es) a.0
    ∙ ap (λ (r : List Bytes × Option Bytes). (d ∷ r.0, r.1)) (joined-append ds es a.1)

>>=-ok : (m : Outcome Engine) → (m >>= λ t. ok t) ≡ m
>>=-ok (ok t) = refl
>>=-ok (fault f) = refl

replay-joined :
    (clock : ℕ → ℕ) (env : ℕ → ℕ → Env) (ds : List Bytes) (s : Engine)
    → All (All IsData) ds
    → replay clock env (lines (capture_file ds)) s ≡ (
        run_frames clock env 0 (as_read (joined [] ds)).0 s
        >>= after_frames (as_read (joined [] ds)).1)
unfolding replay
replay-joined clock env ds s a = rw (read_lines-capture_file ds a) refl

-- The unit test on the capture of datagrams of 1 to 96 bytes, all of them from 1 to 255, none with
-- a last row of 15 or 16 bytes, is the engine on these datagrams, call by call.
pub replay-run_frames :
    (clock : ℕ → ℕ) (env : ℕ → ℕ → Env) (ds : List Bytes) (s : Engine)
    → All IsSingle ds
    → replay clock env (lines (capture_file ds)) s ≡ run_frames clock env 0 ds s
replay-run_frames clock env ds s a =
    let frames : joined [] (ds ++ []) ≡ (ds ++ [], some []) = joined-append ds [] a in
    replay-joined clock env ds s (All-IsData ds a)
    ∙ rw ((rw append-nil at frames)) (>>=-ok (run_frames clock env 0 ds s))

pub concat : List Bytes → Bytes
concat [] = []
concat (d ∷ ds) = d ++ concat ds

-- The reader's frames and the bytes left hold the captured bytes.
concat-joined :
    (ds : List Bytes) (g h : Bytes)
    → (joined g ds).1 ≡ some h
    → concat (joined g ds).0 ++ h ≡ g ++ concat ds
unfolding concat
concat-joined [] g h e = rw append-nil (ground arith)
concat-joined ([] ∷ ds) g h e = concat-joined ds g h e
concat-joined ((c ∷ cs) ∷ ds) g h e = ground (
  arith,
  concat-joined ds (g ++ (c ∷ cs)) h,
  concat-joined ds [] h,
  append_assoc (g ++ (c ∷ cs)) (concat (joined [] ds).0) h,
  append_assoc g (c ∷ cs) (concat ds),
)

as_read-concat :
    (r : List Bytes × Option Bytes) (fs : List Bytes) (k : Chunk) (bs : Bytes)
    → as_read r ≡ (fs, some k)
    → ((h : Bytes) → r.1 ≡ some h → concat r.0 ++ h ≡ bs)
    → concat fs ++ k.got ≡ bs
as_read-concat (gs, none) fs k bs e all = cc
as_read-concat (gs, some h) fs k bs e all = ground (arith, all h refl, got-chunk_of h)

-- A capture of bytes from 1 to 255 is read with no byte lost, made up or moved: if the reader comes
-- to the end of the file, its frames, one behind the other, and the bytes that wait in the buffer
-- are the captured datagrams, one behind the other.
pub concat-read_lines :
    (ds fs : List Bytes) (k : Chunk)
    → All (All IsData) ds
    → read_lines (lines (capture_file ds)) no_chunk ≡ (fs, some k)
    → concat fs ++ k.got ≡ concat ds
concat-read_lines ds fs k a e =
    as_read-concat (joined [] ds) fs k (concat ds) (sym (read_lines-capture_file ds a) ∙ e)
      (concat-joined ds [])

-- A datagram that does not fit the buffer.
joined_over :
    (d : Bytes) (es : List Bytes) → suc chunk_size ≤ length d → joined [] (d ∷ es) ≡ ([], none)
joined_over [] es h = absurd (omega arith)
joined_over (c ∷ cs) es h = ground arith

All-append :
    (ds es : List Bytes) → All (All IsData) ds → All (All IsData) es → All (All IsData) (ds ++ es)
All-append [] es a b = b
All-append (d ∷ ds) es a b = (a.0, All-append ds es a.1 b)

-- A captured datagram of more than 96 bytes from 1 to 255, behind datagrams that are frames of
-- their own, makes the unit test write past the end of `in_chunked_data` once it has parsed those
-- frames, if none of them faults before that, whatever datagrams of such bytes were captured after
-- it.
pub replay_over :
    (clock : ℕ → ℕ) (env : ℕ → ℕ → Env) (ds es : List Bytes) (d : Bytes) (s t : Engine)
    → All IsSingle ds
    → All IsData d
    → All (All IsData) es
    → suc chunk_size ≤ length d
    → run_frames clock env 0 ds s ≡ ok t
    → replay clock env (lines (capture_file (ds ++ (d ∷ es)))) s ≡ fault write_outside
replay_over clock env ds es d s t a b c over ran =
    let frames : joined [] (ds ++ (d ∷ es)) ≡ (ds ++ [], none) =
      joined-append ds (d ∷ es) a ∙ rw (joined_over d es over) refl in
    replay-joined clock env (ds ++ (d ∷ es)) s (All-append ds (d ∷ es) (All-IsData ds a) (b, c))
    ∙ rw ((rw append-nil at frames), ran) refl
