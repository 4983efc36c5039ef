-- ===== src/Capture/Reader.antt =====
-- The loop of the unit test in Printer-Emulator/main.c over the lines of a capture file.
use industrial_control.Prelude.{
  ℕ, suc, ◌+◌, Bool, true, false, not, Option, none, some, List, [], ◌∷◌, ◌++◌, ltb, leb, ◌==◌,
  if◌then◌else◌, Bytes, length, take,
}
use industrial_control.Outcome.{Outcome, ok, fault, write_outside, ◌>>=◌}
use industrial_control.Parser.State.{Env, Engine}
use industrial_control.Parser.Header.{parse_header}
use industrial_control.Capture.Scan.{scan}

-- What stands in `in_chunked_data` up to `in_chunked_p`, and `in_is_chunked`.
pub record Chunk : Type 0 where
  pub got : Bytes
  pub is_chunked : Bool

-- `sizeof( in_chunked_data )`
abbrev pub chunk_size : ℕ
chunk_size = 96

-- The bytes handed to `parse_header`, call by call, and the chunk that is left; `none` is a write
-- past the end of `in_chunked_data`.
abbrev pub Frames : Type 0
Frames = List Bytes × Option Chunk

-- `*in_chunked_p = in_data[i]; ++in_chunked_p;`
unfoldable pub push_byte : ℕ → Chunk → Option Chunk
push_byte c k =
    if ltb (length k.got) chunk_size then some (record k { got = k.got ++ (c ∷ []) }) else none

-- What to do at the end of the data of a line.
unfoldable pub end_of_data : ℕ → Chunk → Frames
end_of_data i k =
    if not k.is_chunked
    then (if leb 15 i
        then ([], some (record k { is_chunked = true }))
        else (take i k.got ∷ [], some (record k { got = [] })))
    else if not (leb 15 i)
    then (k.got ∷ [], some (record { got = []; is_chunked = false }))
    else ([], some k)

-- The loop over `in_data` from index `i` on.
unfoldable pub take_data : ℕ → Bytes → Chunk → Frames
unfolding push_byte end_of_data
take_data i [] k = ([], some k)
take_data i (d ∷ ds) k = if d == 0 then end_of_data i k else elim (push_byte d k) [
  | none ↦ ([], none)
  | some k' ↦ elim (i == 15) [ true ↦ end_of_data i k' | false ↦ take_data (i + 1) ds k' ]
]

-- `in_line[0] == '-'`
abbrev pub is_mark : Bytes → Bool
is_mark [] = false
is_mark (c ∷ cs) = c == b'-'

-- The frames of one line and what follows, unless a write went past the end.
abbrev pub in_front : List Bytes → Frames → Frames
in_front fs (gs, k) = (fs ++ gs, k)

abbrev pub and_then : Frames → (Chunk → Frames) → Frames
and_then (fs, none) next = (fs, none)
and_then (fs, some k) next = in_front fs (next k)

-- The loop over the lines.
unfoldable pub read_lines : List Bytes → Chunk → Frames
unfolding take_data
read_lines [] k = ([], some k)
read_lines (l ∷ ls) k = elim (is_mark l) [
  | true ↦ read_lines ls k
  | false ↦ and_then (take_data 0 (scan 16 l) k) (read_lines ls)
]

abbrev pub no_chunk : Chunk
no_chunk = record { got = []; is_chunked = false }

-- The calls of `parse_header`, the call number `n` at time `clock n`.
unfoldable pub run_frames : (ℕ → ℕ) → (ℕ → ℕ → Env) → ℕ → List Bytes → Engine → Outcome Engine
run_frames clock env n [] s = ok s
run_frames clock env n (f ∷ fs) s = do
  t ← parse_header (clock n) (env n) f s
  run_frames clock env (suc n) fs t

-- The end of the block, unless a write went past the end of the buffer.
abbrev pub after_frames : Option Chunk → Engine → Outcome Engine
after_frames none t = fault write_outside
after_frames (some k) t = ok t

-- The block of the unit test on a file.
unfoldable pub replay : (ℕ → ℕ) → (ℕ → ℕ → Env) → List Bytes → Engine → Outcome Engine
unfolding read_lines run_frames
replay clock env ls s = do
  let (fs, left) = read_lines ls no_chunk
  t ← run_frames clock env 0 fs s
  after_frames left t
