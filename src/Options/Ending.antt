-- ===== src/Options/Ending.antt =====
-- The options that end `main`.
use industrial_control.Prelude.{
  ◌≡◌, refl, true, false, List, [], ◌∷◌, ◌++◌, if◌then◌else◌, All, arith,
}
use industrial_control.Outcome.{Outcome, ok, fault, write_outside, ◌>>=◌}
use industrial_control.Options.{
  Opt, opt_c, opt_d, opt_h, opt_p, opt_s, opt_u, unknown, Settings, Parsed, exit_success,
  exit_failure, starts_with_digit, take_option, take_options, go_on, copy_name, atoi_int,
}
use industrial_control.Options.Laws.{goes_on, take_option-Describes}

-- How an option that does not let `main` go on ends it.
abbrev pub ending : Opt → Outcome Parsed
ending opt_h = ok exit_success
ending (opt_c file) = fault write_outside
ending (opt_u arg) =
    if starts_with_digit arg
    then (atoi_int arg >>= λ ut_idx. ok exit_failure)
    else fault write_outside
ending _ = ok exit_failure

take_option-ending : (x : Opt) (o : Settings) → goes_on x ≡ false → take_option x o ≡ ending x
unfolding take_option copy_name
take_option-ending (opt_c file) o h = ground arith
take_option-ending opt_d o h = cc
take_option-ending opt_h o h = refl
take_option-ending opt_p o h = cc
take_option-ending opt_s o h = cc
take_option-ending (opt_u arg) o h = ground arith
take_option-ending unknown o h = refl

ending_lem :
    (x : Opt) (k : Settings → Outcome Parsed)
    → goes_on x ≡ false
    → (ending x >>= λ p. go_on p k) ≡ ending x
ending_lem (opt_c file) k h = refl
ending_lem opt_h k h = refl
ending_lem unknown k h = refl
ending_lem (opt_u arg) k h = ground arith
ending_lem opt_d k h = cc
ending_lem opt_p k h = cc
ending_lem opt_s k h = cc

-- The first option that does not let `main` go on decides, whatever stands behind it: -h ends with
-- success, an unknown option or a number of -u from 13 to 2^31 - 1 with failure; a larger number is
-- no `int`, so that `atoi` is undefined, and a file name of 128 characters or more is written past
-- the end of its array.
pub take_options-ending :
    (xs ys : List Opt) (x : Opt) (o : Settings)
    → All (λ y. goes_on y ≡ true) xs
    → goes_on x ≡ false
    → take_options (xs ++ (x ∷ ys)) o ≡ ending x
unfolding take_options
take_options-ending [] ys x o a h = rw (take_option-ending x o h) (ending_lem x (take_options ys) h)
take_options-ending (y ∷ xs) ys x o a h =
    let first = take_option-Describes y o a.0 in
    rw first.1 (take_options-ending xs ys x first.0 a.1 h)
