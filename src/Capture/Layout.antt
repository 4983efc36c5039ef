-- ===== src/Capture/Layout.antt =====
-- The hex dump row by row: an independent description of its layout.
use mathlib.Core.Path.{subst}
use mathlib.Core.List.{append_assoc}
use industrial_control.Prelude.{
  ℕ, zero, suc, ◌+◌, ◌-◌, ◌/◌, ◌%◌, ◌≤◌, ◌≡◌, ◌⊎◌, inl, inr, refl, sym, ◌∙◌, ap, map, ◌||◌, List,
  [], ◌∷◌, ◌++◌, leb, ◌==◌, if◌then◌else◌, Bytes, length, take, drop, arith, length-append,
}
use industrial_control.Capture.Dump.{hex_digit, shown, blanks, bar, row_end, dump_loop, dump_hex}

-- What stands behind the blank of a byte in column `k` with `cs` behind it in its row.
abbrev pub gap : ℕ → Bytes → Bytes → Bytes
gap k [] rest = b' ' ∷ rest
gap k (c ∷ cs) rest = if (k + 1) % 8 == 0 then b' ' ∷ rest else rest

-- The bytes of a row from column `k` on.
abbrev pub hexes : ℕ → Bytes → Bytes → Bytes
hexes k [] rest = rest
hexes k (c ∷ cs) rest =
    hex_digit (c / 16 % 16) ∷ hex_digit (c % 16) ∷ b' ' ∷ gap k cs (hexes (k + 1) cs rest)

-- The room of the bytes that a row of `n` lacks.
abbrev pub padding : ℕ → Bytes → Bytes
padding n rest =
    if n == 16
    then rest
    else if leb n 8
    then b' ' ∷ (blanks (16 - n) ++ rest)
    else blanks (16 - n) ++ rest

abbrev pub row : Bytes → Bytes → Bytes
row cs rest = hexes 0 cs (padding (length cs) (bar (map shown cs) rest))

abbrev pub layout : List Bytes → Bytes
layout [] = []
layout (r ∷ rs) = row r (layout rs)

-- The rows of 16 bytes, with enough rounds.
abbrev pub rows : ℕ → Bytes → List Bytes
rows zero cs = []
rows (suc n) [] = []
rows (suc n) (c ∷ cs) = (c ∷ take 15 cs) ∷ rows n (drop 15 cs)

take-length_append : (xs ys : Bytes) → take (length xs) (xs ++ ys) ≡ xs
take-length_append [] ys = refl
take-length_append (x ∷ xs) ys = ap (λ zs. x ∷ zs) (take-length_append xs ys)

pub take-length : (xs : Bytes) → take (length xs) xs ≡ xs
take-length [] = refl
take-length (x ∷ xs) = ap (λ zs. x ∷ zs) (take-length xs)

-- At the start of a row nothing is left of the row before.
dump_loop_fresh :
    (size i : ℕ) (line cs : Bytes) → i % 16 ≡ 0 → dump_loop size i line cs ≡ dump_loop size i [] cs
unfolding dump_loop
dump_loop_fresh size i line [] h = refl
dump_loop_fresh size i line (c ∷ cs) h = rw h refl

-- One byte.
dump_step :
    (size i : ℕ) (line : Bytes) (c : ℕ) (cs : Bytes)
    → i % 16 ≡ length line
    → dump_loop size i line (c ∷ cs) ≡ (
        let line' = line ++ (shown c ∷ []) in
        let rest = dump_loop size (i + 1) line' cs in
        hex_digit (c / 16 % 16)
        ∷ hex_digit (c % 16)
        ∷ b' '
        ∷ (if (i + 1) % 8 == 0 || i + 1 == size then b' ' ∷ row_end size i line' rest else rest))
unfolding dump_loop
dump_step size i line c cs col =
    let kept : take (i % 16) line ≡ line = rw col (take-length line) in rw kept refl

-- The rest of a row.
dump_row :
    (cs : Bytes) (c size i : ℕ) (line rest : Bytes)
    → i % 16 ≡ length line
    → (length line + suc (length cs) ≡ 16) ⊎ ((rest ≡ []) × (length line + suc (length cs) ≤ 16))
    → i + suc (length cs) + length rest ≡ size
    → dump_loop size i line (c ∷ (cs ++ rest))
      ≡ hexes (length line) (c ∷ cs) (
          padding
            (length line + suc (length cs))
            (bar (line ++ map shown (c ∷ cs)) (dump_loop size (i + suc (length cs)) [] rest)))
unfolding row_end
dump_row [] c size i line rest col fits all =
    let line' = line ++ (shown c ∷ []) in
    let nothing : dump_loop size (i + 1) line' [] ≡ dump_loop size (i + 1) [] [] =
      unfold dump_loop in refl in
    dump_step size i line c rest col
    ∙ ground (arith, dump_loop_fresh size (i + 1) line' rest, nothing)
dump_row (d ∷ cs) c size i line rest col fits all =
    let line' = line ++ (shown c ∷ []) in
    let one = length-append line (shown c ∷ []) in
    let more =
      dump_row cs d size (i + 1) line' rest (omega (arith, one)) (ground (arith, one))
        (omega arith) in
    let columns : length line' ≡ length line + 1 = omega (arith, one) in
    let filled : length line + 1 + suc (length cs) ≡ length line + suc (suc (length cs)) =
      omega arith in
    let index : i + 1 + suc (length cs) ≡ i + suc (suc (length cs)) = omega arith in
    let more' = rw index at (
      rw filled at
        (rw columns at (rw (append_assoc line (shown c ∷ []) (map shown (d ∷ cs))) at more))) in
    dump_step size i line c (d ∷ (cs ++ rest)) col ∙ ground (arith, more')

pub take-append-drop : (n : ℕ) (xs : Bytes) → take n xs ++ drop n xs ≡ xs
take-append-drop zero xs = refl
take-append-drop (suc n) [] = refl
take-append-drop (suc n) (x ∷ xs) = ap (λ zs. x ∷ zs) (take-append-drop n xs)

-- Either the list fills the first part, or nothing is left of it.
pub take_cases :
    (n : ℕ) (xs : Bytes) → (length (take n xs) ≡ n) ⊎ ((drop n xs ≡ []) × (length (take n xs) ≤ n))
take_cases zero xs = inl refl
take_cases (suc n) [] = inr (refl, omega arith)
take_cases (suc n) (x ∷ xs) = ground (arith, take_cases n xs)

pub length-take-drop : (n : ℕ) (xs : Bytes) → length (take n xs) + length (drop n xs) ≡ length xs
length-take-drop n xs =
    sym (length-append (take n xs) (drop n xs)) ∙ ap length (take-append-drop n xs)

rows_nil : (n : ℕ) → rows n [] ≡ []
rows_nil zero = refl
rows_nil (suc n) = refl

dump_loop_nil : (size i : ℕ) → dump_loop size i [] [] ≡ []
unfolding dump_loop
dump_loop_nil size i = refl

dump_loop-layout :
    (n size i : ℕ) (cs : Bytes)
    → i % 16 ≡ 0
    → length cs ≤ n
    → i + length cs ≡ size
    → dump_loop size i [] cs ≡ layout (rows n cs)
dump_loop-layout zero size i [] start fits all = unfold dump_loop in refl
dump_loop-layout zero size i (c ∷ cs) start fits all = absurd (omega arith)
dump_loop-layout (suc n) size i [] start fits all = unfold dump_loop in refl
dump_loop-layout (suc n) size i (c ∷ cs) start fits all =
    let first = take 15 cs in
    let rest = drop 15 cs in
    let counted = length-take-drop 15 cs in
    let whole = take-append-drop 15 cs in
    let count : 0 + suc (length first) ≡ suc (length first) = omega arith in
    let later : dump_loop size (i + suc (length first)) [] rest ≡ layout (rows n rest) =
      elim (take_cases 15 cs) [
        | inl full ↦
            dump_loop-layout n size (i + suc (length first)) rest (omega (arith, full))
              (omega (arith, counted)) (omega (arith, counted))
        | inr (over, fit) ↦
            rw over (dump_loop_nil size (i + suc (length first)) ∙ rw (rows_nil n) refl)
      ] in
    subst (λ bs. dump_loop size i [] (c ∷ bs) ≡ layout (rows (suc n) (c ∷ cs))) whole
      (dump_row first c size i [] rest start (ground (arith, take_cases 15 cs))
          (omega (arith, counted))
        ∙ rw (count, later) refl)

-- The dump of any data is the rows of 16 bytes, each with its bytes in two halves, the room of the
-- bytes that it lacks, and its characters.
pub dump_hex-layout : (cs : Bytes) → dump_hex cs ≡ layout (rows (length cs) cs)
unfolding dump_hex
dump_hex-layout cs = dump_loop-layout (length cs) (length cs) 0 cs refl (omega arith) (omega arith)
