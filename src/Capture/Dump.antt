-- ===== src/Capture/Dump.antt =====
-- `DumpHex` of Printer-Emulator/utils.c, and the capture loop of main.c with the file that it writes.
use industrial_control.Prelude.{
  ◌≡◌, refl, Bool, true, Option, none, some, map, arith, ℕ, zero, suc, ◌+◌, ◌-◌, ◌/◌, ◌%◌, ◌&&◌,
  ◌||◌, List, [], ◌∷◌, ◌++◌, ltb, leb, ◌==◌, if◌then◌else◌, Bytes, codes, length, take,
}
use industrial_control.Outcome.{Outcome, ok, fault, read_outside, null_stream, ◌>>=◌}

-- A digit of `%02X`.
unfoldable pub hex_digit : ℕ → ℕ
hex_digit d = if ltb d 10 then b'0' + d else b'A' + (d - 10)

-- The character for a byte: itself if it is printable, else a dot.
unfoldable pub shown : ℕ → ℕ
shown c = if leb b' ' c && leb c b'~' then c else b'.'

-- `n` times three blanks.
unfoldable pub blanks : ℕ → Bytes
blanks zero = []
blanks (suc n) = b' ' ∷ b' ' ∷ b' ' ∷ blanks n

-- `"|  %s \n"`
unfoldable pub bar : Bytes → Bytes → Bytes
bar ascii rest = b'|' ∷ b' ' ∷ b' ' ∷ (ascii ++ (b' ' ∷ 0x0A ∷ rest))

-- What is printed behind the blank at the end of a half row or of the data: `i` is the index of the
-- byte, and `ascii` holds the characters of the row.
unfoldable pub row_end : ℕ → ℕ → Bytes → Bytes → Bytes
unfolding blanks bar
row_end size i ascii rest =
    if (i + 1) % 16 == 0
    then bar ascii rest
    else if i + 1 == size
    then (if leb ((i + 1) % 16) 8
        then b' ' ∷ (blanks (16 - (i + 1) % 16) ++ bar ascii rest)
        else blanks (16 - (i + 1) % 16) ++ bar ascii rest)
    else rest

-- The loop from index `i` on. The array `ascii` is kept up to the character stored last: what lies
-- behind that is not printed.
unfoldable pub dump_loop : ℕ → ℕ → Bytes → Bytes → Bytes
unfolding hex_digit shown row_end
dump_loop size i ascii [] = []
dump_loop size i ascii (c ∷ cs) =
    let ascii' = take (i % 16) ascii ++ (shown c ∷ []) in
    let rest = dump_loop size (i + 1) ascii' cs in
    hex_digit (c / 16 % 16)
    ∷ hex_digit (c % 16)
    ∷ b' '
    ∷ (if (i + 1) % 8 == 0 || i + 1 == size then b' ' ∷ row_end size i ascii' rest else rest)

unfoldable pub dump_hex : Bytes → Bytes
unfolding dump_loop
dump_hex cs = dump_loop (length cs) 0 [] cs

-- `"--- Datagram ---\n"`
abbrev pub datagram_mark : Bytes
datagram_mark = codes "--- Datagram ---" ++ (0x0A ∷ [])

-- The capture file after some calls of `read`, each with the bytes that came in.
unfoldable pub capture_file : List Bytes → Bytes
unfolding dump_hex
capture_file [] = []
capture_file (cs ∷ reads) =
    let rest = capture_file reads in
    if length cs == 0 then rest else datagram_mark ++ (dump_hex cs ++ rest)

-- The capture loop on what the calls of `read` return, -1 for `none`: what it has written, if it goes
-- on. The flag says whether the capture file is open, which nothing tests. A length of -1 counts as
-- true, and `DumpHex` takes it for the largest `size_t`, far behind the end of `read_buf`.
unfoldable pub capture_reads : Bool → List (Option Bytes) → Outcome Bytes
unfolding dump_hex
capture_reads opens [] = ok []
capture_reads opens (none ∷ reads) = fault (if opens then read_outside else null_stream)
capture_reads opens (some cs ∷ reads) =
    let rest = capture_reads opens reads in
    if length cs == 0
    then rest
    else if opens
    then (rest >>= λ text. ok (datagram_mark ++ (dump_hex cs ++ text)))
    else fault null_stream

-- With the file open, what is read is written.
pub capture_reads-capture_file :
    (reads : List Bytes) → capture_reads true (map some reads) ≡ ok (capture_file reads)
unfolding capture_reads capture_file
capture_reads-capture_file [] = refl
capture_reads-capture_file (cs ∷ reads) = ground (arith, capture_reads-capture_file reads)
