-- ===== src/Options/Laws.antt =====
-- What the options mean together.
use industrial_control.Prelude.{
  ℕ, zero, suc, ◌^◌, ◌-◌, ◌≡◌, sym, Bool-cases, inl, inr, refl, ◌∙◌, Bool, true, false, not, ◌&&◌,
  ◌||◌, List, [], ◌∷◌, ltb, if◌then◌else◌, Bytes, length, get_or, All, arith,
}
use industrial_control.Prelude.Bits.{has, raise, lower, has-raise, has-lower, test_bit}
use industrial_control.Flags.{debug_dump, unit_test, capture, target, low_latency, active_mode}
use industrial_control.Text.{atoi}
use industrial_control.Outcome.{ok}
use industrial_control.Options.{
  Opt, opt_c, opt_d, opt_h, opt_p, opt_s, opt_u, unknown, Settings, options, test_file_arr,
  file_size, starts_with_digit, atoi_int, take_option, take_options, copy_name, capturing, testing,
}

-- The option lets `main` go on: its file name fits, or it is the index of a unit test.
abbrev pub goes_on : Opt → Bool
goes_on (opt_c file) = ltb (length file) file_size
goes_on opt_d = true
goes_on opt_h = false
goes_on opt_p = true
goes_on opt_s = true
goes_on (opt_u arg) =
    if starts_with_digit arg
    then ltb (atoi arg) (length test_file_arr)
    else ltb (length arg) file_size
goes_on unknown = false

abbrev pub any : (Opt → Bool) → List Opt → Bool
any p [] = false
any p (x ∷ xs) = p x || any p xs

abbrev pub is_c : Opt → Bool
is_c (opt_c file) = true
is_c _ = false

abbrev pub is_d : Opt → Bool
is_d opt_d = true
is_d _ = false

abbrev pub is_p : Opt → Bool
is_p opt_p = true
is_p _ = false

abbrev pub is_s : Opt → Bool
is_s opt_s = true
is_s _ = false

abbrev pub is_u : Opt → Bool
is_u (opt_u arg) = true
is_u _ = false

-- The file of the last -c, and the unit test of the last -u.
abbrev pub capture_of : List Opt → Bytes → Bytes
capture_of [] old = old
capture_of (opt_c file ∷ xs) old = capture_of xs file
capture_of (x ∷ xs) old = capture_of xs old

abbrev pub test_of : List Opt → Bytes → Bytes
test_of [] old = old
test_of (opt_u arg ∷ xs) old =
    test_of xs (if starts_with_digit arg then get_or test_file_arr (atoi arg) [] else arg)
test_of (x ∷ xs) old = test_of xs old

-- What options make of the settings, whatever their order.
pub record Describes (xs : List Opt) (o t : Settings) : Type 0 where
  pub captures : has t.flags capture ≡ (has o.flags capture || any is_c xs)
  pub tests : has t.flags unit_test ≡ (has o.flags unit_test || any is_u xs)
  pub dumps : has t.flags debug_dump ≡ (has o.flags debug_dump || any is_d xs)
  pub acts : has t.flags active_mode ≡ (has o.flags active_mode && not (any is_c xs || any is_p xs))
  pub is_fast : has t.flags low_latency ≡ (has o.flags low_latency && not (any is_s xs))
  pub on_target : has t.flags target ≡ has o.flags target
  pub capfile : t.capfile ≡ capture_of xs o.capfile
  pub testfile : t.testfile ≡ test_of xs o.testfile

none-Describes : (o : Settings) → Describes [] o o
none-Describes o = ground arith

abbrev fits : Bytes → Bool
fits name = ltb (length name) file_size

abbrev all_fit : List Bytes → Bool
all_fit [] = true
all_fit (name ∷ names) = fits name && all_fit names

fits-get_or : (names : List Bytes) (i : ℕ) → all_fit names ≡ true → fits (get_or names i []) ≡ true
fits-get_or [] i h = refl
fits-get_or (name ∷ names) zero h = ground arith
fits-get_or (name ∷ names) (suc i) h = fits-get_or names i (ground arith)

-- The six flags behind a flag that is set or cleared.
raised :
    (j w : ℕ)
    → (has (raise w (2 ^ j)) debug_dump ≡ (has w debug_dump || test_bit (2 ^ j) 7))
      × (has (raise w (2 ^ j)) unit_test ≡ (has w unit_test || test_bit (2 ^ j) 6))
      × (has (raise w (2 ^ j)) capture ≡ (has w capture || test_bit (2 ^ j) 5))
      × (has (raise w (2 ^ j)) target ≡ (has w target || test_bit (2 ^ j) 4))
      × (has (raise w (2 ^ j)) low_latency ≡ (has w low_latency || test_bit (2 ^ j) 1))
      × (has (raise w (2 ^ j)) active_mode ≡ (has w active_mode || test_bit (2 ^ j) 0))
raised j w = (
  has-raise 7 j w,
  has-raise 6 j w,
  has-raise 5 j w,
  has-raise 4 j w,
  has-raise 1 j w,
  has-raise 0 j w,
)

lowered :
    (m w : ℕ)
    → (has (lower w m) debug_dump ≡ (has w debug_dump && test_bit (0xffff_ffff - m) 7))
      × (has (lower w m) unit_test ≡ (has w unit_test && test_bit (0xffff_ffff - m) 6))
      × (has (lower w m) capture ≡ (has w capture && test_bit (0xffff_ffff - m) 5))
      × (has (lower w m) target ≡ (has w target && test_bit (0xffff_ffff - m) 4))
      × (has (lower w m) low_latency ≡ (has w low_latency && test_bit (0xffff_ffff - m) 1))
      × (has (lower w m) active_mode ≡ (has w active_mode && test_bit (0xffff_ffff - m) 0))
lowered m w = (
  has-lower 7 w m,
  has-lower 6 w m,
  has-lower 5 w m,
  has-lower 4 w m,
  has-lower 1 w m,
  has-lower 0 w m,
)

copied :
    (name : Bytes) (t : Bytes → Settings)
    → fits name ≡ true
    → copy_name name t ≡ ok (options (t name))
unfolding copy_name
copied name t h = rw h refl

-- The number of a unit test is an `int`.
atoi_int-listed :
    (arg : Bytes) → ltb (atoi arg) (length test_file_arr) ≡ true → atoi_int arg ≡ ok (atoi arg)
atoi_int-listed arg h = ground (arith, h)

pub take_option-Describes :
    (x : Opt) (o : Settings)
    → goes_on x ≡ true
    → (t : Settings) × (take_option x o ≡ ok (options t)) × Describes (x ∷ []) o t
unfolding take_option
take_option-Describes (opt_c file) o h = (
  capturing o file,
  copied file (capturing o) h,
  ground (arith, raised 5 o.flags, lowered 1 (raise o.flags capture)),
)
take_option-Describes opt_d o h =
    (record o { flags = raise o.flags debug_dump }, refl, ground (arith, raised 7 o.flags))
take_option-Describes opt_p o h =
    (record o { flags = lower o.flags active_mode }, refl, ground (arith, lowered 1 o.flags))
take_option-Describes opt_s o h =
    (record o { flags = lower o.flags low_latency }, refl, ground (arith, lowered 2 o.flags))
take_option-Describes opt_h o h = cc
take_option-Describes unknown o h = cc
take_option-Describes (opt_u arg) o h = elim (Bool-cases (starts_with_digit arg)) [
  | inl digit ↦
      let name = get_or test_file_arr (atoi arg) [] in
      let listed : ltb (atoi arg) (length test_file_arr) ≡ true = rw digit at h in
      (
        testing o name,
        rw (digit, atoi_int-listed arg listed, listed)
            (copied name (testing o) (fits-get_or test_file_arr (atoi arg) refl)),
        ground (arith, raised 6 o.flags),
      )
  | inr letter ↦ (
    testing o arg,
    rw letter (copied arg (testing o) (rw letter at h)),
    ground (arith, raised 6 o.flags),
  )
]

capture_of_cons :
    (x : Opt) (xs : List Opt) (old : Bytes)
    → capture_of (x ∷ xs) old ≡ capture_of xs (capture_of (x ∷ []) old)
capture_of_cons (opt_c file) xs old = refl
capture_of_cons _ xs old = refl

test_of_cons :
    (x : Opt) (xs : List Opt) (old : Bytes)
    → test_of (x ∷ xs) old ≡ test_of xs (test_of (x ∷ []) old)
test_of_cons (opt_u arg) xs old = refl
test_of_cons _ xs old = refl

cons-Describes :
    (x : Opt) (xs : List Opt) (o t u : Settings)
    → Describes (x ∷ []) o t
    → Describes xs t u
    → Describes (x ∷ xs) o u
cons-Describes x xs o t u d e = record {
  captures = ground (arith, d.captures, e.captures);
  tests = ground (arith, d.tests, e.tests);
  dumps = ground (arith, d.dumps, e.dumps);
  acts = ground (arith, d.acts, e.acts);
  is_fast = ground (arith, d.is_fast, e.is_fast);
  on_target = e.on_target ∙ d.on_target;
  capfile = e.capfile ∙ rw d.capfile (sym (capture_of_cons x xs o.capfile));
  testfile = e.testfile ∙ rw d.testfile (sym (test_of_cons x xs o.testfile));
}

-- Options that are all known, -h not among them, with file names of -c and -u below 128 characters
-- and the numbers of -u below 13, leave `main` with settings that do not depend on their order but
-- for the file names: capture, unit test and debug dump are on with a -c, -u and -d, the active mode
-- is off with a -c or -p and low latency with an -s; each is as before without, and so is TARGET.
-- The files are those of the last -c and the last -u, a number standing for its entry in the table.
pub take_options-Describes :
    (xs : List Opt) (o : Settings)
    → All (λ x. goes_on x ≡ true) xs
    → (t : Settings) × (take_options xs o ≡ ok (options t)) × Describes xs o t
unfolding take_options
take_options-Describes [] o a = (o, refl, none-Describes o)
take_options-Describes (x ∷ xs) o a =
    let first = take_option-Describes x o a.0 in
    let rest = take_options-Describes xs first.0 a.1 in
    (rest.0, rw first.1 rest.1, cons-Describes x xs o first.0 rest.0 first.2 rest.2)
