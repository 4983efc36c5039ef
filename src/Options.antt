-- ===== src/Options.antt =====
-- The options of `main` of Printer-Emulator/main.c.
pub mod Laws
pub mod Ending
use industrial_control.Prelude.{
  ℕ, Bool, true, false, List, [], ◌∷◌, ◌^◌, ltb, if◌then◌else◌, Bytes, codes, length, get_or,
}
use industrial_control.Prelude.Bits.{raise, lower}
use industrial_control.Flags.{debug_dump, unit_test, capture, low_latency, active_mode}
use industrial_control.Text.{is_digit, atoi}
use industrial_control.Outcome.{Outcome, ok, fault, write_outside, number_outside, ◌>>=◌}

-- What `getopt` returns for "c:dhpsu:": an option letter with its argument, if it takes one. Any
-- other letter is returned as '?'.
pub data Opt : Type 0 where
  opt_c : Bytes → Opt
  opt_d opt_h opt_p opt_s : Opt
  opt_u : Bytes → Opt
  unknown : Opt

-- The flags and the two file names.
pub record Settings : Type 0 where
  pub flags : ℕ
  pub capfile : Bytes
  pub testfile : Bytes

-- The ways in which the options let `main` go on or return.
pub data Parsed : Type 0 where
  options : Settings → Parsed
  exit_success exit_failure : Parsed

abbrev pub test_file_arr : List Bytes
test_file_arr =
    codes "./Captures/A7-ll-1022-init-R-then-H.txt"
    ∷ codes "./Captures/A7-1022-init-then-steady-state.txt"
    ∷ codes "./Captures/A7-1022-report-sequence.txt"
    ∷ codes "./Captures/parse-header-report-req-from-1022-5-23-24.txt"
    ∷ codes "./Captures/A7-1022-history-sequence.txt"
    ∷ codes "./Captures/parse-header-hist-req-5-23-24.txt"
    ∷ codes "./Captures/A7-1022-init-R-then-H.txt"
    ∷ codes "./Captures/1022-startup-then-pm-start.txt"
    ∷ codes "./Captures/history-active-try-3-10-15-24.txt"
    ∷ codes "./Captures/log-mode-on-evts-off.txt"
    ∷ codes "./Captures/log-mode-prt-on-evts-prt-off.txt"
    ∷ codes "./Captures/A7-1022-logmode-on-req-report-logmode-off.txt"
    ∷ codes "./Captures/A7-1022-logmode-on-req-history-logmode-off.txt"
    ∷ []

-- `sizeof(capfile)` and `sizeof(testfile)`
abbrev pub file_size : ℕ
file_size = 128

-- `isdigit( optarg[0] )`; an empty text holds the null byte there.
abbrev pub starts_with_digit : Bytes → Bool
starts_with_digit [] = false
starts_with_digit (c ∷ cs) = is_digit c

-- `strcpy` into one of the file names, the null byte included.
unfoldable pub copy_name : Bytes → (Bytes → Settings) → Outcome Parsed
copy_name name t =
    if ltb (length name) file_size then ok (options (t name)) else fault write_outside

-- `atoi`, whose value is an `int`; for a larger number C leaves the call undefined.
abbrev pub atoi_int : Bytes → Outcome ℕ
atoi_int arg = if ltb (atoi arg) (2 ^ 31) then ok (atoi arg) else fault number_outside

-- The settings behind -c and -u.
abbrev pub capturing : Settings → Bytes → Settings
capturing o name = record o { flags = lower (raise o.flags capture) active_mode; capfile = name }

abbrev pub testing : Settings → Bytes → Settings
testing o name = record o { flags = raise o.flags unit_test; testfile = name }

-- The `switch` on an option.
unfoldable pub take_option : Opt → Settings → Outcome Parsed
unfolding atoi copy_name
take_option (opt_c file) o = copy_name file (capturing o)
take_option opt_d o = ok (options (record o { flags = raise o.flags debug_dump }))
take_option opt_h o = ok exit_success
take_option opt_p o = ok (options (record o { flags = lower o.flags active_mode }))
take_option opt_s o = ok (options (record o { flags = lower o.flags low_latency }))
take_option (opt_u arg) o =
    if starts_with_digit arg
    then atoi_int arg >>= (λ ut_idx.
      if ltb ut_idx (length test_file_arr)
      then copy_name (get_or test_file_arr ut_idx []) (testing o)
      else ok exit_failure)
    else copy_name arg (testing o)
take_option unknown o = ok exit_failure

-- The loop over the options.
abbrev pub go_on : Parsed → (Settings → Outcome Parsed) → Outcome Parsed
go_on (options o) k = k o
go_on exit_success k = ok exit_success
go_on exit_failure k = ok exit_failure

unfoldable pub take_options : List Opt → Settings → Outcome Parsed
unfolding take_option
take_options [] o = ok (options o)
take_options (x ∷ xs) o = take_option x o >>= λ p. go_on p (take_options xs)

-- The settings at the start.
abbrev pub initial_settings : Settings
initial_settings = record { flags = 3; capfile = []; testfile = [] }
