-- ===== src/Capture/Joining.antt =====
-- What the reader does with the rows of one datagram.
use mathlib.Core.Path.{subst}
use mathlib.Core.List.{append-nil, append_assoc}
use industrial_control.Prelude.{
  ℕ, zero, suc, ◌+◌, ◌-◌, ◌≤◌, ◌<◌, ◌≡◌, ◌≢◌, refl, ◌∙◌, true, false, none, some, [], ◌∷◌, ◌++◌,
  ◌==◌, leb, if◌then◌else◌, Bytes, length, All, arith, length-append, Bool-cases, inl, inr,
}
use industrial_control.Capture.Scan.{scan, zeros}
use industrial_control.Capture.Reader.{
  Chunk, push_byte, end_of_data, take_data, no_chunk, chunk_size,
}
use industrial_control.Capture.Layout.{row, take-length}
use industrial_control.Capture.Rows.{scan-row}

-- A byte of data that the reader can tell from the end of the data.
abbrev pub IsData : ℕ → Type 0
IsData c = (c ≢ 0) × (c < 256)

-- The chunk with more bytes.
abbrev pushed : Chunk → Bytes → Chunk
pushed k cs = record k { got = k.got ++ cs }

-- The index at which the loop over a line ends behind `n` bytes.
abbrev last_index : ℕ → ℕ
last_index n = if leb 15 n then 15 else n

All-lt : (cs : Bytes) → All IsData cs → All (λ c. c < 256) cs
All-lt [] a = tt
All-lt (c ∷ cs) a = (a.0.1, All-lt cs a.1)

-- One byte of data.
take_data-push :
    (ds : Bytes) (i c : ℕ) (k : Chunk)
    → IsData c
    → suc (length k.got) ≤ chunk_size
    → take_data i (c ∷ ds) k ≡ elim (i == 15) [
      | true ↦ end_of_data i (pushed k (c ∷ []))
      | false ↦ take_data (i + 1) ds (pushed k (c ∷ []))
    ]
unfolding take_data push_byte
take_data-push ds i c k d fits = ground arith

take_data-zero : (m i : ℕ) (k : Chunk) → take_data i (zeros (suc m)) k ≡ end_of_data i k
unfolding take_data
take_data-zero m i k = refl

take_data-fits :
    (cs : Bytes) (m i : ℕ) (k : Chunk)
    → All IsData cs
    → i + length cs + m ≡ 16
    → 1 ≤ length cs + m
    → length k.got + length cs ≤ chunk_size
    → take_data i (cs ++ zeros m) k ≡ end_of_data (last_index (i + length cs)) (pushed k cs)
take_data-fits [] zero i k a n some_left fits = absurd (omega arith)
take_data-fits [] (suc m) i k a n some_left fits =
    let index : last_index (i + 0) ≡ i = ground arith in
    take_data-zero m i k ∙ rw (index, append-nil) refl
take_data-fits (c ∷ []) zero i k a n some_left fits =
    let last : i ≡ 15 = omega arith in rw last (take_data-push [] 15 c k a.0 (omega arith))
take_data-fits (c ∷ []) (suc m) i k a n some_left fits =
    let before : (i == 15) ≡ false = ground arith in
    let index : last_index (i + 1) ≡ i + 1 = ground arith in
    take_data-push (zeros (suc m)) i c k a.0 (omega arith)
    ∙ rw (before, index) (take_data-zero m (i + 1) (pushed k (c ∷ [])))
take_data-fits (c ∷ d ∷ cs) m i k a n some_left fits =
    let before : (i == 15) ≡ false = ground arith in
    let one = length-append k.got (c ∷ []) in
    let joined : (k.got ++ (c ∷ [])) ++ (d ∷ cs) ≡ k.got ++ (c ∷ d ∷ cs) =
      append_assoc k.got (c ∷ []) (d ∷ cs) in
    let index : i + 1 + suc (length cs) ≡ i + suc (suc (length cs)) = omega arith in
    take_data-push (d ∷ (cs ++ zeros m)) i c k a.0 (omega arith)
    ∙ rw before (
        take_data-fits (d ∷ cs) m (i + 1) (pushed k (c ∷ [])) a.1 (omega arith) (omega arith)
          (omega (arith, one))
        ∙ rw (index, joined) refl)

take_data-full :
    (cs : Bytes) (m i : ℕ) (k : Chunk)
    → All IsData cs
    → i + length cs + m ≡ 16
    → length k.got ≤ chunk_size
    → suc chunk_size ≤ length k.got + length cs
    → take_data i (cs ++ zeros m) k ≡ ([], none)
unfolding take_data push_byte
take_data-full [] m i k a n room over = absurd (omega arith)
take_data-full (c ∷ cs) m i k a n room over = ground (
  arith,
  take_data-full cs m (i + 1) (pushed k (c ∷ [])) a.1,
  length-append k.got (c ∷ []),
  n,
  over,
)

-- The chunk with some bytes: it is marked as one unless it is empty.
abbrev pub chunk_of : Bytes → Chunk
chunk_of [] = no_chunk
chunk_of (c ∷ cs) = record { got = c ∷ cs; is_chunked = true }

pub got-chunk_of : (g : Bytes) → Chunk.got (chunk_of g) ≡ g
got-chunk_of [] = refl
got-chunk_of (c ∷ cs) = refl

end_of_data_lem :
    (g r : Bytes)
    → 1 ≤ length r
    → length r ≤ 16
    → end_of_data (last_index (length r)) (pushed (chunk_of g) r) ≡ (
        if leb 15 (length r)
        then ([], some (chunk_of (g ++ r)))
        else ((g ++ r) ∷ [], some no_chunk))
unfolding end_of_data
end_of_data_lem [] [] some_left room = absurd (omega arith)
end_of_data_lem [] (d ∷ ds) some_left room = ground (arith, take-length (d ∷ ds))
end_of_data_lem (c ∷ cs) r some_left room = ground arith

-- What one line does: its bytes join the chunk, and the frame is complete unless the line is full.
pub take_data-row :
    (g r : Bytes)
    → All IsData r
    → 1 ≤ length r
    → length r ≤ 16
    → length g ≤ chunk_size
    → take_data 0 (scan 16 (row r [])) (chunk_of g) ≡ (
        if leb (length g + length r) chunk_size
        then (if leb 15 (length r)
            then ([], some (chunk_of (g ++ r)))
            else ((g ++ r) ∷ [], some no_chunk))
        else ([], none))
take_data-row g r a some_left room kept =
    let m = 16 - length r in
    let count : length r + m ≡ 16 = omega arith in
    let from_zero : 0 + length r ≡ length r = omega arith in
    let same = got-chunk_of g in
    let scanned : scan 16 (row r []) ≡ r ++ zeros m =
      subst (λ n. scan n (row r []) ≡ r ++ zeros m) count (scan-row r m (All-lt r a)) in
    rw scanned (elim (Bool-cases (leb (length g + length r) chunk_size)) [
      | inl fits ↦
          let fits' : length g + length r ≤ chunk_size = ground arith in
          rw fits (
            take_data-fits r m 0 (chunk_of g) a (omega arith) (omega arith) (rw same fits')
            ∙ rw from_zero (end_of_data_lem g r some_left room))
      | inr over ↦
          let over' : suc chunk_size ≤ length g + length r = ground arith in
          rw over (take_data-full r m 0 (chunk_of g) a (omega arith) (rw same kept) (rw same over'))
    ])
