-- ===== src/Parser/Overflow.antt =====
-- A run of bytes with no terminator is stored byte by byte, up to the end of the buffer.
use mathlib.Core.List.{append-nil, append_assoc}
use native.Mathlib.Nat.{add-zero, add-suc, suc-add}
use native.Mathlib.Numerals.{add-one}
use industrial_control.Prelude.{
  ℕ, zero, suc, ◌+◌, ◌≤◌, ◌<◌, ◌≡◌, ◌≢◌, refl, sym, ◌∙◌, inl, inr, Bool-cases, [], ◌∷◌, ◌++◌, ltb,
  arith, Bytes, length, All,
}
use industrial_control.Flags.{buffer_size}
use industrial_control.Outcome.{ok, fault, write_outside}
use industrial_control.Parser.State.{
  HeaderState, ss_unknown, ss_display, rpt_start, rpt_data, rpt_printer, hst_start, hst_printer,
  hst_printer_active, hst_data, log_start, log_data, log_printer_active, Env, Engine,
}
use industrial_control.Parser.Buffer.{put, update, segment, contents}
use industrial_control.Parser.Header.{dispatch, parse_bytes}

-- The only byte that the handler of such a state does not store.
abbrev pub Terminates : HeaderState → ℕ → Type 0
Terminates ss_unknown t = t ≡ 0x91
Terminates ss_display t = t ≡ 0x98
Terminates rpt_start t = t ≡ 0x98
Terminates rpt_data t = t ≡ 0x91
Terminates rpt_printer t = t ≡ 0x98
Terminates hst_start t = t ≡ 0x98
Terminates hst_printer t = t ≡ 0x98
Terminates hst_printer_active t = t ≡ 0x98
Terminates hst_data t = t ≡ 0x91
Terminates log_start t = t ≡ 0x98
Terminates log_data t = t ≡ 0x91
Terminates log_printer_active t = t ≡ 0x98
Terminates _ t = ⊥

pub dispatch_stores :
    (q : HeaderState) (t : ℕ) (env : Env) (c : ℕ) (s : Engine)
    → Terminates q t
    → c ≢ t
    → dispatch q env c s ≡ put c s
unfolding dispatch
dispatch_stores ss_unknown t env c s h n = ground arith
dispatch_stores _ t env c s h n = ground arith

-- The engine after `buffer[buffer_len++] = c`.
abbrev pub store : ℕ → Engine → Engine
store c s = record s { buffer = update s.buffer s.buffer_len c; buffer_len = s.buffer_len + 1 }

-- The engine after the bytes have been stored one after the other.
abbrev pub stored : Bytes → Engine → Engine
stored [] s = s
stored (c ∷ cs) s = stored cs (store c s)

module _ (t : ℕ) (env : ℕ → Env) (i c : ℕ) (cs : Bytes) (s : Engine)
    (h : Terminates s.header_state t) (n : c ≢ t) where
  fits_one :
      s.buffer_len < buffer_size
      → parse_bytes env i (c ∷ cs) s ≡ parse_bytes env (suc i) cs (store c s)
  unfolding parse_bytes put
  fits_one room = rw (dispatch_stores s.header_state t (env i) c s h n) (ground arith)

  overflows_one : s.buffer_len ≡ buffer_size → parse_bytes env i (c ∷ cs) s ≡ fault write_outside
  unfolding parse_bytes put
  overflows_one full = rw (dispatch_stores s.header_state t (env i) c s h n) (ground arith)

parse_bytes-stored :
    (cs : Bytes) (t : ℕ) (env : ℕ → Env) (i : ℕ) (s : Engine)
    → Terminates s.header_state t
    → All (λ c. c ≢ t) cs
    → s.buffer_len + length cs ≤ buffer_size
    → parse_bytes env i cs s ≡ ok (stored cs s)
unfolding parse_bytes
parse_bytes-stored [] t env i s h a fits = refl
parse_bytes-stored (c ∷ cs) t env i s h a fits =
    fits_one t env i c cs s h a.0 (omega arith)
    ∙ parse_bytes-stored cs t env (suc i) (store c s) h a.1 (omega arith)

-- In a state whose handler stores all bytes but its terminator, from a buffer within its cells,
-- bytes that hold no terminator and do not fit behind the record are written past the end of the
-- buffer.
pub parse_bytes_overflow :
    (cs : Bytes) (t : ℕ) (env : ℕ → Env) (i : ℕ) (s : Engine)
    → Terminates s.header_state t
    → All (λ c. c ≢ t) cs
    → s.buffer_len ≤ buffer_size
    → buffer_size < s.buffer_len + length cs
    → parse_bytes env i cs s ≡ fault write_outside
parse_bytes_overflow [] t env i s h a fits over = absurd (omega arith)
parse_bytes_overflow (c ∷ cs) t env i s h a fits over =
    elim (Bool-cases (ltb s.buffer_len buffer_size)) [
      | inl room ↦
          fits_one t env i c cs s h a.0 (ground arith)
          ∙ parse_bytes_overflow cs t env (suc i) (store c s) h a.1 (ground arith) (omega arith)
      | inr full ↦ overflows_one t env i c cs s h a.0 (ground arith)
    ]

-- A cell past the segment does not change it.
segment-update : (m : ℕ → ℕ) (k v i n : ℕ) → i + n ≤ k → segment (update m k v) i n ≡ segment m i n
unfolding segment
segment-update m k v i zero h = refl
segment-update m k v i (suc n) h = ground (arith, segment-update m k v (suc i) n)

segment_snoc : (n : ℕ) (m : ℕ → ℕ) (i : ℕ) → segment m i (suc n) ≡ segment m i n ++ (m (i + n) ∷ [])
unfolding segment
segment_snoc zero m i = rw add-zero
segment_snoc (suc n) m i = rw (segment_snoc n m (suc i)) (rw (add-suc, suc-add))

pub contents-store : (c : ℕ) (s : Engine) → contents (store c s) ≡ contents s ++ (c ∷ [])
unfolding contents
contents-store c s = rw add-one (
    rw (segment_snoc s.buffer_len (update s.buffer s.buffer_len c) 0)
      (rw (segment-update s.buffer s.buffer_len c 0 s.buffer_len (omega arith)) (ground arith)))

contents-stored : (cs : Bytes) (s : Engine) → contents (stored cs s) ≡ contents s ++ cs
contents-stored [] s = sym (append-nil _)
contents-stored (c ∷ cs) s =
    contents-stored cs (store c s) ∙ rw contents-store (append_assoc (contents s) (c ∷ []) cs)

-- In a state whose handler stores all bytes but its terminator, bytes that fit in the buffer and
-- hold no terminator are appended to the record, and nothing else changes.
pub parse_bytes-contents :
    (cs : Bytes) (t : ℕ) (env : ℕ → Env) (i : ℕ) (s : Engine)
    → Terminates s.header_state t
    → All (λ c. c ≢ t) cs
    → s.buffer_len + length cs ≤ buffer_size
    → (parse_bytes env i cs s ≡ ok (stored cs s)) × (contents (stored cs s) ≡ contents s ++ cs)
parse_bytes-contents cs t env i s h a fits =
    (parse_bytes-stored cs t env i s h a fits, contents-stored cs s)
