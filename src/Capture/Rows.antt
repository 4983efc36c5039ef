-- ===== src/Capture/Rows.antt =====
-- What the reader makes of one row of a dump: a line of its own, and the bytes that were dumped.
use mathlib.Core.List.{append_assoc}
use industrial_control.Prelude.{
  ℕ, zero, suc, ◌+◌, ◌-◌, ◌*◌, ◌/◌, ◌%◌, ◌<◌, ◌≡◌, ◌≢◌, refl, ◌∙◌, ap, map, some, List, [], ◌∷◌,
  ◌++◌, Bytes, length, All, arith,
}
use industrial_control.Capture.Dump.{hex_digit, shown, blanks, bar}
use industrial_control.Capture.Scan.{lines, scan, digit_value, zeros}
use industrial_control.Capture.Layout.{gap, hexes, padding, row, layout}

-- The first line of a text is `l`, and the others are `ls`.
abbrev Begins : Bytes → Bytes → List Bytes → Type 0
Begins cs l ls = lines cs ≡ l ∷ ls

lines-Begins :
    (c : ℕ) (cs l : Bytes) (ls : List Bytes)
    → c ≢ 0x0A
    → Begins cs l ls
    → Begins (c ∷ cs) (c ∷ l) ls
unfolding lines
lines-Begins c cs l ls n h = ground arith

hex_digit-ne : (d : ℕ) → hex_digit d ≢ 0x0A
unfolding hex_digit
hex_digit-ne d = ground arith

shown-ne : (c : ℕ) → shown c ≢ 0x0A
unfolding shown
shown-ne c = ground arith

gap-Begins :
    (k : ℕ) (cs bs l : Bytes) (ls : List Bytes)
    → Begins bs l ls
    → Begins (gap k cs bs) (gap k cs l) ls
gap-Begins k [] bs l ls h = lines-Begins b' ' bs l ls (omega arith) h
gap-Begins k (c ∷ cs) bs l ls h = ground (arith, lines-Begins b' ' bs l ls)

hexes-Begins :
    (cs : Bytes) (k : ℕ) (bs l : Bytes) (ls : List Bytes)
    → Begins bs l ls
    → Begins (hexes k cs bs) (hexes k cs l) ls
hexes-Begins [] k bs l ls h = h
hexes-Begins (c ∷ cs) k bs l ls h = lines-Begins _ _ _ ls (hex_digit-ne (c / 16 % 16)) (
    lines-Begins _ _ _ ls (hex_digit-ne (c % 16)) (
      lines-Begins b' ' _ _ ls (omega arith)
        (gap-Begins k cs _ _ ls (hexes-Begins cs (k + 1) bs l ls h))))

blanks-Begins :
    (n : ℕ) (bs l : Bytes) (ls : List Bytes)
    → Begins bs l ls
    → Begins (blanks n ++ bs) (blanks n ++ l) ls
unfolding blanks
blanks-Begins zero bs l ls h = h
blanks-Begins (suc n) bs l ls h = lines-Begins b' ' _ _ ls (omega arith) (
    lines-Begins b' ' _ _ ls (omega arith)
      (lines-Begins b' ' _ _ ls (omega arith) (blanks-Begins n bs l ls h)))

padding-Begins :
    (n : ℕ) (bs l : Bytes) (ls : List Bytes)
    → Begins bs l ls
    → Begins (padding n bs) (padding n l) ls
padding-Begins n bs l ls h = ground (
  arith,
  blanks-Begins (16 - n) bs l ls h,
  lines-Begins b' ' (blanks (16 - n) ++ bs) (blanks (16 - n) ++ l) ls,
)

shown-Begins :
    (cs bs l : Bytes) (ls : List Bytes)
    → Begins bs l ls
    → Begins (map shown cs ++ bs) (map shown cs ++ l) ls
shown-Begins [] bs l ls h = h
shown-Begins (c ∷ cs) bs l ls h = lines-Begins _ _ _ ls (shown-ne c) (shown-Begins cs bs l ls h)

lines_newline : (rest : Bytes) → lines (0x0A ∷ rest) ≡ (0x0A ∷ []) ∷ lines rest
unfolding lines
lines_newline rest = refl

bar-Begins :
    (cs rest : Bytes) → Begins (bar (map shown cs) rest) (bar (map shown cs) []) (lines rest)
unfolding bar
bar-Begins cs rest = lines-Begins b'|' _ _ _ (omega arith) (
    lines-Begins b' ' _ _ _ (omega arith) (
      lines-Begins b' ' _ _ _ (omega arith)
        (shown-Begins cs _ _ _ (lines-Begins b' ' _ _ _ (omega arith) (lines_newline rest)))))

-- A row is one line.
pub lines-row : (r rest : Bytes) → lines (row r rest) ≡ row r [] ∷ lines rest
lines-row r rest = hexes-Begins r 0 _ _ _ (padding-Begins (length r) _ _ _ (bar-Begins r rest))

scan_blank : (n : ℕ) (cs : Bytes) → scan n (b' ' ∷ cs) ≡ scan n cs
unfolding scan
scan_blank zero cs = refl
scan_blank (suc n) cs = refl

digit_value-hex_digit : (d : ℕ) → d < 16 → digit_value (hex_digit d) ≡ some d
unfolding digit_value hex_digit
digit_value-hex_digit d h = ground arith

scan_hex :
    (n a b : ℕ) (cs : Bytes)
    → a < 16
    → b < 16
    → scan (suc n) (hex_digit a ∷ hex_digit b ∷ cs) ≡ (a * 16 + b) ∷ scan n cs
unfolding scan hex_digit
scan_hex n a b cs h k = ground arith

scan-gap : (n k : ℕ) (cs bs : Bytes) → scan n (gap k cs bs) ≡ scan n bs
scan-gap n k [] bs = scan_blank n bs
scan-gap n k (c ∷ cs) bs = ground (arith, scan_blank n bs)

-- The bytes of a row are read back.
scan-hexes :
    (cs : Bytes) (m k : ℕ) (bs : Bytes)
    → All (λ c. c < 256) cs
    → scan (length cs + m) (hexes k cs bs) ≡ cs ++ scan m bs
scan-hexes [] m k bs a = ap (λ n. scan n bs) (omega arith)
scan-hexes (c ∷ cs) m k bs a =
    let rest = hexes (k + 1) cs bs in
    let count : suc (length cs) + m ≡ suc (length cs + m) = omega arith in
    let value : c / 16 % 16 * 16 + c % 16 ≡ c = omega (arith, a.0) in
    rw count (
      scan_hex (length cs + m) (c / 16 % 16) (c % 16) (b' ' ∷ gap k cs rest) (omega arith)
        (omega arith)
      ∙ rw (value, scan_blank (length cs + m) (gap k cs rest), scan-gap (length cs + m) k cs rest)
          (ap (λ ds. c ∷ ds) (scan-hexes cs m (k + 1) bs a.1)))

scan-blanks : (n m : ℕ) (cs : Bytes) → scan m (blanks n ++ cs) ≡ scan m cs
unfolding blanks
scan-blanks zero m cs = refl
scan-blanks (suc n) m cs = scan_blank m _ ∙ scan_blank m _ ∙ scan_blank m _ ∙ scan-blanks n m cs

scan-padding : (n m : ℕ) (cs : Bytes) → scan m (padding n cs) ≡ scan m cs
scan-padding n m cs =
    ground (arith, scan-blanks (16 - n) m cs, scan_blank m (blanks (16 - n) ++ cs))

scan-bar : (m : ℕ) (ascii rest : Bytes) → scan m (bar ascii rest) ≡ zeros m
unfolding bar scan
scan-bar zero ascii rest = refl
scan-bar (suc m) ascii rest = refl

-- The fields of a row and the zeros behind them.
pub scan-row :
    (r : Bytes) (m : ℕ) → All (λ c. c < 256) r → scan (length r + m) (row r []) ≡ r ++ zeros m
scan-row r m a =
    scan-hexes r m 0 _ a
    ∙ rw (scan-padding (length r) m (bar (map shown r) []), scan-bar m (map shown r) []) refl

gap-append : (k : ℕ) (cs xs ys : Bytes) → gap k cs xs ++ ys ≡ gap k cs (xs ++ ys)
gap-append k [] xs ys = refl
gap-append k (c ∷ cs) xs ys = ground arith

hexes-append : (cs : Bytes) (k : ℕ) (xs ys : Bytes) → hexes k cs xs ++ ys ≡ hexes k cs (xs ++ ys)
hexes-append [] k xs ys = refl
hexes-append (c ∷ cs) k xs ys =
    ap (λ zs. hex_digit (c / 16 % 16) ∷ hex_digit (c % 16) ∷ b' ' ∷ zs)
      (gap-append k cs _ ys ∙ ap (gap k cs) (hexes-append cs (k + 1) xs ys))

padding-append : (n : ℕ) (xs ys : Bytes) → padding n xs ++ ys ≡ padding n (xs ++ ys)
padding-append n xs ys = ground (arith, append_assoc (blanks (16 - n)) xs ys)

bar-append : (cs xs ys : Bytes) → bar cs xs ++ ys ≡ bar cs (xs ++ ys)
unfolding bar
bar-append cs xs ys = ap (λ zs. b'|' ∷ b' ' ∷ b' ' ∷ zs) (append_assoc cs (b' ' ∷ 0x0A ∷ xs) ys)

row-append : (r xs ys : Bytes) → row r xs ++ ys ≡ row r (xs ++ ys)
row-append r xs ys =
    hexes-append r 0 _ ys
    ∙ ap (hexes 0 r)
        (padding-append (length r) _ ys ∙ ap (padding (length r)) (bar-append (map shown r) xs ys))

-- The lines of a dump are its rows.
pub lines-layout :
    (rs : List Bytes) (rest : Bytes)
    → lines (layout rs ++ rest) ≡ map (λ r. row r []) rs ++ lines rest
lines-layout [] rest = refl
lines-layout (r ∷ rs) rest =
    rw (row-append r (layout rs) rest)
      (lines-row r (layout rs ++ rest) ∙ ap (λ ls. row r [] ∷ ls) (lines-layout rs rest))
