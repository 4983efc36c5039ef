-- ===== src/Terminal.antt =====
-- PE-Console/client_utils.c: the mode of the terminal, and the keys.
use industrial_control.Prelude.{ℕ, Bool, true, false, Option, none, some, ltb, if◌then◌else◌}
use industrial_control.Prelude.Bits.{raise, lower}
use industrial_control.Serial.{Termios, set_cc, vmin, vtime, cs8, opost}

-- The terminal on the standard input, or `none` where that is no terminal; `orig_termios`; and
-- whether the handler for the end of the program is registered.
pub record Terminal : Type 0 where
  pub tty : Option Termios
  pub orig_termios : Termios
  pub registered : Bool

-- `IGNBRK|BRKINT|PARMRK|ISTRIP|INLCR|IGNCR|ICRNL|IXON`
abbrev pub cooked_input : ℕ
cooked_input = 0x5eb

-- `ECHO|ECHONL|ICANON|ISIG|IEXTEN`
abbrev pub cooked_local : ℕ
cooked_local = 0x804b

-- `CSIZE|PARENB`
abbrev pub size_and_parity : ℕ
size_and_parity = 0x130

-- `cfmakeraw` of the C library.
abbrev pub cfmakeraw : Termios → Termios
cfmakeraw t = record t {
  c_iflag = lower t.c_iflag cooked_input;
  c_oflag = lower t.c_oflag opost;
  c_lflag = lower t.c_lflag cooked_local;
  c_cflag = raise (lower t.c_cflag size_and_parity) cs8;
  c_cc = set_cc vtime 0 (set_cc vmin 1 t.c_cc);
}

-- `tcgetattr`, which leaves the variable as it was where there is no terminal.
abbrev pub tcgetattr : Option Termios → Termios → Termios
tcgetattr none old = old
tcgetattr (some t) old = t

-- `tcsetattr`, which does nothing where there is no terminal.
abbrev pub tcsetattr : Termios → Option Termios → Option Termios
tcsetattr new none = none
tcsetattr new (some t) = some new

unfoldable pub reset_terminal_mode : Terminal → Terminal
reset_terminal_mode t = record t { tty = tcsetattr t.orig_termios t.tty }

unfoldable pub set_conio_terminal_mode : Terminal → Terminal
set_conio_terminal_mode t =
    let orig = tcgetattr t.tty t.orig_termios in
    record { tty = tcsetattr (cfmakeraw orig) t.tty; orig_termios = orig; registered = true }

-- `exit`, and the return from `main`: the handler registered with `atexit` is called.
unfoldable pub exit : Terminal → Terminal
unfolding reset_terminal_mode
exit t = if t.registered then reset_terminal_mode t else t

-- What `select` returns: the number of descriptors that are ready, or -1.
pub data Select : Type 0 where
  ready : ℕ → Select
  failed : Select

unfoldable pub kbhit : Select → Bool
kbhit (ready n) = ltb 0 n
kbhit failed = false

-- What `read` of one byte returns: the byte, no byte at the end of the input, or -1.
pub data Read : Type 0 where
  byte : ℕ → Read
  end_of_input : Read
  failed : Read

-- -1 as an `int`.
abbrev pub minus_one : ℕ
minus_one = 0xffff_ffff

-- The key. At the end of the input it is what the variable `c` holds, which nothing has set.
unfoldable pub getch : Read → ℕ → ℕ
getch (byte c) unset = c
getch end_of_input unset = unset
getch failed unset = minus_one
