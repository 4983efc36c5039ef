-- ===== src/Capture/RoundTrip.antt =====
-- The reader on the file that the capture of some datagrams leaves.
use industrial_control.Prelude.{
  ℕ, suc, ◌+◌, ◌≤◌, ◌≡◌, refl, ◌∙◌, ap, map, true, false, Option, none, some, List, [], ◌∷◌, ◌++◌,
  ◌==◌, leb, Bytes, length, All, arith, length-append,
}
use industrial_control.Capture.Dump.{dump_hex, datagram_mark, capture_file}
use industrial_control.Capture.Scan.{lines}
use industrial_control.Capture.Reader.{Chunk, Frames, read_lines, no_chunk, chunk_size}
use industrial_control.Capture.Layout.{row, rows, dump_hex-layout}
use industrial_control.Capture.Rows.{lines-layout}
use industrial_control.Capture.Joining.{IsData, chunk_of}
use industrial_control.Capture.Datagrams.{ends_full, after, after_lem}

-- The frames that the reader makes of the captured datagrams, with the bytes `g` before them: a
-- datagram is joined to the next one if its dump ends in a full row. `none` is the overflow.
abbrev pub joined : Bytes → List Bytes → List Bytes × Option Bytes
joined g [] = ([], some g)
joined g ([] ∷ ds) = joined g ds
joined g ((c ∷ cs) ∷ ds) = elim (leb (length g + suc (length cs)) chunk_size) [
  | false ↦ ([], none)
  | true ↦ elim (ends_full (c ∷ cs)) [
    | true ↦ joined (g ++ (c ∷ cs)) ds
    | false ↦ (let later = joined [] ds in ((g ++ (c ∷ cs)) ∷ later.0, later.1))
  ]
]

lines-mark : (rest : Bytes) → lines (datagram_mark ++ rest) ≡ datagram_mark ∷ lines rest
unfolding lines
lines-mark rest = refl

read_lines-mark :
    (ls : List Bytes) (k : Chunk) → read_lines (datagram_mark ∷ ls) k ≡ read_lines ls k
unfolding read_lines
read_lines-mark ls k = refl

capture_file_nil : (ds : List Bytes) → capture_file ([] ∷ ds) ≡ capture_file ds
unfolding capture_file
capture_file_nil ds = refl

capture_file_cons :
    (c : ℕ) (cs : Bytes) (ds : List Bytes)
    → capture_file ((c ∷ cs) ∷ ds) ≡ datagram_mark ++ (dump_hex (c ∷ cs) ++ capture_file ds)
unfolding capture_file
capture_file_cons c cs ds =
    let some_left : (suc (length cs) == 0) ≡ false = ground arith in rw some_left refl

lines-capture_file :
    (c : ℕ) (cs : Bytes) (ds : List Bytes)
    → lines (capture_file ((c ∷ cs) ∷ ds))
      ≡ datagram_mark
        ∷ (map (λ r. row r []) (rows (suc (length cs)) (c ∷ cs)) ++ lines (capture_file ds))
lines-capture_file c cs ds =
    ap lines (capture_file_cons c cs ds)
    ∙ lines-mark (dump_hex (c ∷ cs) ++ capture_file ds)
    ∙ ap (λ ls. datagram_mark ∷ ls)
        (rw (dump_hex-layout (c ∷ cs))
          (lines-layout (rows (suc (length cs)) (c ∷ cs)) (capture_file ds)))

-- The lines of one datagram.
read_lines-datagram :
    (c : ℕ) (cs : Bytes) (ds : List Bytes) (g : Bytes)
    → All IsData (c ∷ cs)
    → length g ≤ chunk_size
    → read_lines (lines (capture_file ((c ∷ cs) ∷ ds))) (chunk_of g)
      ≡ after g (c ∷ cs) (lines (capture_file ds))
read_lines-datagram c cs ds g a kept =
    ap (λ ls. read_lines ls (chunk_of g)) (lines-capture_file c cs ds)
    ∙ read_lines-mark _ (chunk_of g)
    ∙ after_lem (suc (length cs)) (c ∷ cs) g (lines (capture_file ds)) a (omega arith) (omega arith)
        kept

-- What the reader makes of the frames and the bytes left.
abbrev pub as_read : List Bytes × Option Bytes → Frames
as_read (fs, none) = (fs, none)
as_read (fs, some g) = (fs, some (chunk_of g))

read_lines-joined :
    (ds : List Bytes) (g : Bytes)
    → All (All IsData) ds
    → length g ≤ chunk_size
    → read_lines (lines (capture_file ds)) (chunk_of g) ≡ as_read (joined g ds)
read_lines-joined [] g a kept = unfold read_lines lines capture_file in refl
read_lines-joined ([] ∷ ds) g a kept = rw (capture_file_nil ds) (read_lines-joined ds g a.1 kept)
read_lines-joined ((c ∷ cs) ∷ ds) g a kept =
    let total = length-append g (c ∷ cs) in
    read_lines-datagram c cs ds g a.0 kept
    ∙ ground (arith, read_lines-joined ds (g ++ (c ∷ cs)) a.1, read_lines-joined ds [] a.1, total)

-- A captured file of bytes below 256 none of which is 0, read back by the unit test, gives the
-- captured datagrams in order, each joined to the next if its dump ends in a row of 15 or 16 bytes.
-- The read stops with an overflow, the frames before it read, at the first datagram that makes more
-- than 96 bytes with those it is joined to.
pub read_lines-capture_file :
    (ds : List Bytes)
    → All (All IsData) ds
    → read_lines (lines (capture_file ds)) no_chunk ≡ as_read (joined [] ds)
read_lines-capture_file ds a = read_lines-joined ds [] a (omega arith)
