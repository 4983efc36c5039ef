-- ===== src/Capture/Datagrams.antt =====
-- What the reader does with the rows of a datagram and with the datagrams of a capture file.
use mathlib.Core.Path.{subst}
use mathlib.Core.List.{append_assoc}
use industrial_control.Prelude.{
  ℕ, zero, suc, ◌+◌, ◌%◌, ◌≤◌, ◌≡◌, inl, inr, refl, ◌∙◌, ap, map, Bool, true, false, ◌||◌, none,
  List, [], ◌∷◌, ◌++◌, ◌==◌, leb, if◌then◌else◌, Bytes, length, take, drop, All, arith,
  length-append, Bool-cases,
}
use industrial_control.Capture.Dump.{hex_digit}
use industrial_control.Capture.Scan.{scan}
use industrial_control.Capture.Reader.{
  Chunk, Frames, take_data, read_lines, is_mark, and_then, in_front, no_chunk, chunk_size,
}
use industrial_control.Capture.Layout.{row, rows, length-take-drop, take-append-drop}
use industrial_control.Capture.Joining.{IsData, chunk_of, take_data-row}

-- The last row of the dump of some bytes has at least 15 of them.
abbrev pub ends_full : Bytes → Bool
ends_full cs = length cs % 16 == 0 || length cs % 16 == 15

is_mark-row : (c : ℕ) (cs : Bytes) → is_mark (row (c ∷ cs) []) ≡ false
unfolding hex_digit
is_mark-row c cs = ground arith

read_lines_step :
    (l : Bytes) (ls : List Bytes) (k : Chunk)
    → is_mark l ≡ false
    → read_lines (l ∷ ls) k ≡ and_then (take_data 0 (scan 16 l) k) (read_lines ls)
unfolding read_lines
read_lines_step [] ls k h = refl
read_lines_step (c ∷ l) ls k h = rw (h, read_lines) refl

-- The reader on a row and more lines.
read_lines-row :
    (c : ℕ) (cs g : Bytes) (ls : List Bytes)
    → All IsData (c ∷ cs)
    → length cs ≤ 15
    → length g ≤ chunk_size
    → read_lines (row (c ∷ cs) [] ∷ ls) (chunk_of g) ≡ (
        if leb (length g + suc (length cs)) chunk_size
        then (if leb 15 (suc (length cs))
            then in_front [] (read_lines ls (chunk_of (g ++ (c ∷ cs))))
            else in_front ((g ++ (c ∷ cs)) ∷ []) (read_lines ls no_chunk))
        else ([], none))
read_lines-row c cs g ls a room kept =
    read_lines_step (row (c ∷ cs) []) ls (chunk_of g) (is_mark-row c cs)
    ∙ rw (take_data-row g (c ∷ cs) a (omega arith) (omega arith) kept) (ground arith)

-- What the reader makes of the rows of a datagram `cs` and of more lines, with `g` in the chunk.
abbrev pub after : Bytes → Bytes → List Bytes → Frames
after g cs ls =
    if leb (length g + length cs) chunk_size
    then (if ends_full cs
        then read_lines ls (chunk_of (g ++ cs))
        else in_front ((g ++ cs) ∷ []) (read_lines ls no_chunk))
    else ([], none)

All-take : (n : ℕ) (cs : Bytes) → All IsData cs → All IsData (take n cs)
All-take zero cs a = tt
All-take (suc n) [] a = tt
All-take (suc n) (c ∷ cs) a = (a.0, All-take n cs a.1)

All-drop : (n : ℕ) (cs : Bytes) → All IsData cs → All IsData (drop n cs)
All-drop zero cs a = a
All-drop (suc n) [] a = tt
All-drop (suc n) (c ∷ cs) a = All-drop n cs a.1

-- The last row.
after-row :
    (c : ℕ) (cs g : Bytes) (ls : List Bytes)
    → All IsData (c ∷ cs)
    → length cs ≤ 15
    → length g ≤ chunk_size
    → read_lines (row (c ∷ cs) [] ∷ ls) (chunk_of g) ≡ after g (c ∷ cs) ls
after-row c cs g ls a room kept = read_lines-row c cs g ls a room kept ∙ ground arith

-- A full row with more of the datagram behind it.
after-rows :
    (c : ℕ) (cs rest g : Bytes) (ls ms : List Bytes)
    → All IsData (c ∷ cs)
    → length cs ≡ 15
    → 1 ≤ length rest
    → length g ≤ chunk_size
    → (length g + 16 ≤ chunk_size
        → read_lines ls (chunk_of (g ++ (c ∷ cs))) ≡ after (g ++ (c ∷ cs)) rest ms)
    → read_lines (row (c ∷ cs) [] ∷ ls) (chunk_of g) ≡ after g (c ∷ (cs ++ rest)) ms
after-rows c cs rest g ls ms a full more kept later =
    let joined_twice : (g ++ (c ∷ cs)) ++ rest ≡ g ++ (c ∷ (cs ++ rest)) =
      append_assoc g (c ∷ cs) rest in
    let counted = length-append cs rest in
    let total = length-append g (c ∷ cs) in
    let sum : length (g ++ (c ∷ cs)) + length rest ≡ length g + suc (length (cs ++ rest)) =
      omega (arith, counted, total) in
    let same_end : ends_full (c ∷ (cs ++ rest)) ≡ ends_full rest = ground (arith, counted) in
    let moved : after (g ++ (c ∷ cs)) rest ms ≡ after g (c ∷ (cs ++ rest)) ms =
      rw (sum, joined_twice, same_end) refl in
    read_lines-row c cs g ls a (omega arith) kept
    ∙ elim (Bool-cases (leb (length g + suc (length cs)) chunk_size)) [
      | inl fits ↦
          let one : leb 15 (suc (length cs)) ≡ true = ground arith in
          rw (fits, one) (later (ground arith) ∙ moved)
      | inr over ↦
          let over' : leb (length g + suc (length (cs ++ rest))) chunk_size ≡ false =
            ground (arith, counted) in
          rw (over, over') refl
    ]

rows_done : (n : ℕ) → rows n [] ≡ []
rows_done zero = refl
rows_done (suc n) = refl

take-le : (n : ℕ) (cs : Bytes) → length cs ≤ n → take n cs ≡ cs
take-le zero [] h = refl
take-le zero (c ∷ cs) h = absurd (omega arith)
take-le (suc n) [] h = refl
take-le (suc n) (c ∷ cs) h = ap (λ ds. c ∷ ds) (take-le n cs (omega arith))

drop-le : (n : ℕ) (cs : Bytes) → length cs ≤ n → drop n cs ≡ []
drop-le zero [] h = refl
drop-le zero (c ∷ cs) h = absurd (omega arith)
drop-le (suc n) [] h = refl
drop-le (suc n) (c ∷ cs) h = drop-le n cs (omega arith)

length-take : (n : ℕ) (cs : Bytes) → n ≤ length cs → length (take n cs) ≡ n
length-take zero cs h = refl
length-take (suc n) [] h = absurd (omega arith)
length-take (suc n) (c ∷ cs) h = ap suc (length-take n cs (omega arith))

-- The rows of a datagram.
pub after_lem :
    (n : ℕ) (cs g : Bytes) (ls : List Bytes)
    → All IsData cs
    → 1 ≤ length cs
    → length cs ≤ n
    → length g ≤ chunk_size
    → read_lines (map (λ r. row r []) (rows n cs) ++ ls) (chunk_of g) ≡ after g cs ls
after_lem n [] g ls a some_left fuel kept = absurd (omega arith)
after_lem zero (c ∷ cs) g ls a some_left fuel kept = absurd (omega arith)
after_lem (suc n) (c ∷ cs) g ls a some_left fuel kept = elim (Bool-cases (leb (length cs) 15)) [
  | inl short ↦
      let short' : length cs ≤ 15 = ground arith in
      rw (take-le 15 cs short', drop-le 15 cs short', rows_done n)
        (after-row c cs g ls a short' kept)
  | inr long ↦
      let first = take 15 cs in
      let rest = drop 15 cs in
      let counted = length-take-drop 15 cs in
      let full : length first ≡ 15 = length-take 15 cs (ground arith) in
      let more : 16 ≤ length cs = ground arith in
      let total = length-append g (c ∷ first) in
      subst
        (λ ds.
          read_lines (row (c ∷ first) [] ∷ (map (λ r. row r []) (rows n rest) ++ ls)) (chunk_of g)
          ≡ after g (c ∷ ds) ls)
        (take-append-drop 15 cs)
        (after-rows c first rest g (map (λ r. row r []) (rows n rest) ++ ls) ls
          (a.0, All-take 15 cs a.1) full (omega (arith, counted)) kept
          (λ fits.
            after_lem n rest (g ++ (c ∷ first)) ls (All-drop 15 cs a.1) (omega (arith, counted))
              (omega (arith, counted)) (omega (arith, total))))
]
