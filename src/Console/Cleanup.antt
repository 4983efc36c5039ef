-- ===== src/Console/Cleanup.antt =====
-- The terminal in which the console runs, and what it is left as.
use industrial_control.Prelude.{◌≡◌, refl, Bool, true, false, Option, none, some, if◌then◌else◌}
use industrial_control.Serial.{Termios}
use industrial_control.Terminal.{Terminal, cfmakeraw, set_conio_terminal_mode, exit}
use industrial_control.Console.{
  World, End, waits, exit_failure, exit_success, run_client, leave, main,
}

abbrev pub is_waiting : End → Bool
is_waiting waits = true
is_waiting _ = false

abbrev pub made_raw : Option Termios → Option Termios
made_raw none = none
made_raw (some t) = some (cfmakeraw t)

set_conio_terminal_mode_raw :
    (t : Terminal)
    → ((set_conio_terminal_mode t).tty ≡ made_raw t.tty)
      × ((exit (set_conio_terminal_mode t)).tty ≡ t.tty)
unfolding set_conio_terminal_mode exit
set_conio_terminal_mode_raw t = by_tty t.tty
  where
    by_tty :
        (tty : Option Termios)
        → ((set_conio_terminal_mode (record t { tty = tty })).tty ≡ made_raw tty)
          × ((exit (set_conio_terminal_mode (record t { tty = tty }))).tty ≡ tty)
    by_tty none = (refl, refl)
    by_tty (some x) = (refl, refl)

-- However a run of the console ends, on a failure to get its queues or to send its first message, or
-- on a key or an answer that leaves its loop, the terminal has the settings that it had before; and
-- while the console waits it has the raw settings. Where the standard input is no terminal, nothing
-- is set.
pub main-terminal :
    (w : World)
    → (main w).terminal.tty
      ≡ (if is_waiting (main w).ending then made_raw w.terminal.tty else w.terminal.tty)
unfolding main
main-terminal w = by_end (run_client w)
  where
    by_end :
        (ending : End)
        → (leave ending (set_conio_terminal_mode w.terminal)).tty
          ≡ (if is_waiting ending then made_raw w.terminal.tty else w.terminal.tty)
    by_end waits = (set_conio_terminal_mode_raw w.terminal).0
    by_end exit_failure = (set_conio_terminal_mode_raw w.terminal).1
    by_end (exit_success k) = (set_conio_terminal_mode_raw w.terminal).1
