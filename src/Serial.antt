-- ===== src/Serial.antt =====
-- `serial_port_open` of Printer-Emulator/utils.c, with the flags of Linux's termios.
pub mod Laws
use industrial_control.Prelude.{ℕ, Bool, true, false, Option, none, some, ◌==◌, if◌then◌else◌}
use industrial_control.Prelude.Bits.{raise, lower}

-- `struct termios`: the elements of `c_cc` by index, and the two speeds.
pub record Termios : Type 0 where
  pub c_iflag : ℕ
  pub c_oflag : ℕ
  pub c_cflag : ℕ
  pub c_lflag : ℕ
  pub c_cc : ℕ → ℕ
  pub ispeed : ℕ
  pub ospeed : ℕ

abbrev pub parenb : ℕ
parenb = 0x100

abbrev pub cstopb : ℕ
cstopb = 0x40

abbrev pub csize : ℕ
csize = 0x30

abbrev pub cs8 : ℕ
cs8 = 0x30

abbrev pub crtscts : ℕ
crtscts = 0x8000_0000

-- `CREAD | CLOCAL`
abbrev pub cread_clocal : ℕ
cread_clocal = 0x880

abbrev pub icanon : ℕ
icanon = 0x2

abbrev pub echo : ℕ
echo = 0x8

abbrev pub echoe : ℕ
echoe = 0x10

abbrev pub echonl : ℕ
echonl = 0x40

abbrev pub isig : ℕ
isig = 0x1

-- `IXON | IXOFF | IXANY`
abbrev pub software_flow : ℕ
software_flow = 0x1c00

-- `IGNBRK|BRKINT|PARMRK|ISTRIP|INLCR|IGNCR|ICRNL`
abbrev pub special_input : ℕ
special_input = 0x1eb

abbrev pub opost : ℕ
opost = 0x1

abbrev pub onlcr : ℕ
onlcr = 0x4

abbrev pub vtime : ℕ
vtime = 5

abbrev pub vmin : ℕ
vmin = 6

abbrev pub b9600 : ℕ
b9600 = 13

-- The speed bits of `c_cflag`, `CBAUDEX` included, and the mark of an input speed of 0 in `c_iflag`.
abbrev pub cbaud : ℕ
cbaud = 0x100f

abbrev pub ibaud0 : ℕ
ibaud0 = 0x8000_0000

-- `tty.c_cc[i] = v`
abbrev pub set_cc : ℕ → ℕ → (ℕ → ℕ) → ℕ → ℕ
set_cc i v cc j = if j == i then v else cc j

-- `cfsetispeed` and `cfsetospeed` of glibc up to 2.41, at a speed other than 0: Linux keeps one speed
-- for both directions in `c_cflag`.
abbrev pub cfsetispeed : ℕ → Termios → Termios
cfsetispeed speed tty = record tty {
  c_cflag = raise (lower tty.c_cflag cbaud) speed;
  c_iflag = lower tty.c_iflag ibaud0;
  ispeed = speed;
}

abbrev pub cfsetospeed : ℕ → Termios → Termios
cfsetospeed speed tty = record tty {
  c_cflag = raise (lower tty.c_cflag cbaud) speed;
  ospeed = speed;
}

-- The changes to the settings that the port had.
unfoldable pub configure : Termios → Termios
configure tty = cfsetospeed b9600 (
    cfsetispeed b9600 (record tty {
      c_cflag =
          raise (lower (raise (lower (lower (lower tty.c_cflag parenb) cstopb) csize) cs8) crtscts)
            cread_clocal;
      c_lflag = lower (lower (lower (lower (lower tty.c_lflag icanon) echo) echoe) echonl) isig;
      c_iflag = lower (lower tty.c_iflag software_flow) special_input;
      c_oflag = lower (lower tty.c_oflag opost) onlcr;
      c_cc = set_cc vmin 1 (set_cc vtime 0 tty.c_cc);
    }))

-- What the system answers: whether the port is opened, its settings, and whether new ones are taken.
pub record Port : Type 0 where
  pub opens : Bool
  pub settings : Option Termios
  pub accepts : Bool

-- What `serial_port_open` leaves: whether it succeeds, whether the port is open, and the settings
-- that it has been given.
pub record Opened : Type 0 where
  pub succeeds : Bool
  pub is_open : Bool
  pub applied : Option Termios

unfoldable pub serial_port_open : Port → Opened
unfolding configure
serial_port_open port =
    if port.opens
    then elim port.settings [
      | none ↦ record { succeeds = false; is_open = true; applied = none }
      | some tty ↦
          if port.accepts
          then record { succeeds = true; is_open = true; applied = some (configure tty) }
          else record { succeeds = false; is_open = true; applied = none }
    ]
    else record { succeeds = false; is_open = false; applied = none }
