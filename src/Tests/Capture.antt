-- ===== src/Tests/Capture.antt =====
-- The capture's theorems at concrete inputs.
use industrial_control.Prelude.{
  ℕ, zero, suc, ◌≡◌, refl, some, [], ◌∷◌, ◌++◌, Bytes, codes, All, arith,
}
use industrial_control.Outcome.{fault, write_outside}
use industrial_control.Parser.State.{Engine, HeaderState}
use industrial_control.Capture.Dump.{dump_hex, datagram_mark, capture_file}
use industrial_control.Capture.Scan.{lines, scan}
use industrial_control.Capture.Reader.{read_lines, no_chunk, run_frames, replay}
use industrial_control.Capture.Layout.{layout, dump_hex-layout}
use industrial_control.Capture.Joining.{IsData}
use industrial_control.Capture.RoundTrip.{read_lines-capture_file}
use industrial_control.Capture.Replay.{IsSingle, concat, concat-read_lines, replay_over}
use industrial_control.Tests.Data.{always, engine}

-- Eight bytes, eleven, and a full row with the rest of its record.
abbrev pub request : Bytes
request = 0x91 ∷ 0x0D ∷ 0x41 ∷ 0x3A ∷ 0x20 ∷ 0x36 ∷ 0x36 ∷ 0x2E ∷ []

abbrev pub reading : Bytes
reading = codes "37%    B: 6"

abbrev full_row : Bytes
full_row = codes "0123456789ABCDEF"

dump_hex-layout_example : dump_hex (full_row ++ request) ≡ layout (full_row ∷ request ∷ [])
dump_hex-layout_example = dump_hex-layout (full_row ++ request)

read_lines-capture_file_example :
    read_lines (lines (capture_file (full_row ∷ request ∷ reading ∷ []))) no_chunk
    ≡ ((full_row ++ request) ∷ reading ∷ [], some no_chunk)
read_lines-capture_file_example =
    read_lines-capture_file (full_row ∷ request ∷ reading ∷ []) (ground arith)

concat-read_lines_example :
    concat ((full_row ++ request) ∷ reading ∷ []) ++ [] ≡ concat (full_row ∷ request ∷ reading ∷ [])
concat-read_lines_example =
    concat-read_lines (full_row ∷ request ∷ reading ∷ []) ((full_row ++ request) ∷ reading ∷ [])
      no_chunk (ground arith) read_lines-capture_file_example

abbrev replaying : Engine
replaying = engine 0 0 HeaderState.ss_unknown 0 []

abbrev clock : ℕ → ℕ
clock n = n

pub singles : All IsSingle (request ∷ reading ∷ [])
singles =
    let first : IsSingle request = record {
      bytes = ground arith;
      not_empty = omega arith;
      fits = omega arith;
      ends = refl;
    } in
    let second : IsSingle reading = record {
      bytes = ground arith;
      not_empty = omega arith;
      fits = omega arith;
      ends = refl;
    } in
    (first, (second, tt))

abbrev filled : ℕ → Bytes
filled zero = []
filled (suc n) = 0x20 ∷ filled n

filled-IsData : (n : ℕ) → All IsData (filled n)
filled-IsData zero = tt
filled-IsData (suc n) = ((ground arith, ground arith), filled-IsData n)

replay_over_example :
    replay clock (λ n. always) (lines (capture_file ([] ++ (filled 97 ∷ [])))) replaying
    ≡ fault write_outside
replay_over_example =
    replay_over clock (λ n. always) [] [] (filled 97) replaying replaying tt (filled-IsData 97) tt
      (omega arith) (unfold run_frames in refl)

-- The capture of eight bytes and of eleven.
dumps :
    capture_file
      ((0x91 ∷ 0x0D ∷ 0x41 ∷ 0x3A ∷ 0x20 ∷ 0x36 ∷ 0x36 ∷ 0x2E ∷ []) ∷ (codes "7%    B: 66") ∷ [])
    ≡ datagram_mark
      ++ (codes "91 0D 41 3A 20 36 36 2E                           |  ..A: 66. "
          ++ (0x0A
              ∷ (datagram_mark
                  ++ (codes "37 25 20 20 20 20 42 3A  20 36 36                 |  7%    B: 66 "
                      ++ (0x0A ∷ [])))))
unfolding capture_file
dumps = refl

-- An x behind a 0 ends the scan.
scans : scan 5 (codes "91 0D 4x +f  |  ") ≡ 0x91 ∷ 0x0D ∷ 4 ∷ 0 ∷ 0 ∷ []
unfolding scan
scans = refl
