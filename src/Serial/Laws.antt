-- ===== src/Serial/Laws.antt =====
-- The settings of the port once it is open.
use Prim.Native.Nat.{bit_and, bit_or}
use native.Mathlib.Nat.{pow-suc}
use industrial_control.Prelude.{
  none, Option, ◌⊎◌, inl, inr, ◌≢◌, ℕ, zero, suc, ◌-◌, ◌/◌, ◌^◌, ◌<◌, ◌≤◌, ◌≡◌, refl, ◌∙◌, Bool,
  true, false, not, ◌&&◌, some, arith, if◌then◌else◌,
}
use industrial_control.Prelude.Bits.{
  has, raise, lower, test_bit, has-raise_mask, has-lower, test_bit-bit_and, test_bit-bit_or,
}
use industrial_control.Serial.{
  Opened, Termios, configure, Port, serial_port_open, parenb, cstopb, csize, cs8, crtscts,
  cread_clocal, icanon, echo, echoe, echonl, isig, software_flow, special_input, opost, onlcr,
  b9600, vmin, vtime, cbaud, ibaud0,
}

test_bit-complement :
    (k n m : ℕ) → k < n → suc m ≤ 2 ^ n → test_bit (2 ^ n - 1 - m) k ≡ not (test_bit m k)
test_bit-complement k zero m below room = absurd (omega arith)
test_bit-complement zero (suc n) m below room = ground (arith, pow-suc 2 n)
test_bit-complement (suc k) (suc n) m below room =
    let half : (2 ^ suc n - 1 - m) / 2 ≡ 2 ^ n - 1 - m / 2 = omega (arith, pow-suc 2 n) in
    rw half (test_bit-complement k n (m / 2) (omega arith) (omega (arith, pow-suc 2 n)))

-- `w &= ~m` clears the bits of the mask and leaves the others.
has-lower_mask :
    (k w m : ℕ)
    → k < 32
    → suc m ≤ 2 ^ 32
    → has (lower w m) (2 ^ k) ≡ (has w (2 ^ k) && not (test_bit m k))
has-lower_mask k w m below room = has-lower k w m ∙ rw (test_bit-complement k 32 m below room) refl

-- Of the bits of a word some have been cleared and some set, and the others are as they were.
abbrev Changes : ℕ → ℕ → ℕ → ℕ → Type 0
Changes off on old new =
    (k : ℕ)
    → k < 32
    → has new (2 ^ k)
      ≡ (if test_bit on k then true else if test_bit off k then false else has old (2 ^ k))

test_bit_zero : (k : ℕ) → test_bit 0 k ≡ false
test_bit_zero zero = refl
test_bit_zero (suc k) = test_bit_zero k

start-Changes : (w : ℕ) → Changes 0 0 w w
start-Changes w k below = rw (test_bit_zero k) refl

raise-Changes : (m off on w t : ℕ) → Changes off on w t → Changes off (bit_or on m) w (raise t m)
raise-Changes m off on w t h k below =
    ground (arith, has-raise_mask k t m, test_bit-bit_or k on m, h k below)

lower-Changes :
    (m off on w t : ℕ)
    → suc m ≤ 2 ^ 32
    → Changes off on w t
    → Changes (bit_or off m) (bit_and on (0xffff_ffff - m)) w (lower t m)
lower-Changes m off on w t room h k below = ground (
  arith,
  has-lower_mask k t m below room,
  test_bit-bit_or k off m,
  test_bit-bit_and k on (0xffff_ffff - m),
  test_bit-complement k 32 m below room,
  h k below,
)

lflag-Changes :
    (w : ℕ)
    → Changes 0x5b 0 w (lower (lower (lower (lower (lower w icanon) echo) echoe) echonl) isig)
lflag-Changes w = lower-Changes isig 0x5a 0 w _ (omega arith) (
    lower-Changes echonl 0x1a 0 w _ (omega arith) (
      lower-Changes echoe 0xa 0 w _ (omega arith) (
        lower-Changes echo 0x2 0 w _ (omega arith)
          (lower-Changes icanon 0 0 w _ (omega arith) (start-Changes w)))))

-- The settings `new` against the settings `old` that the port had: 9600 baud both ways, reads that
-- wait for one byte and no longer, and of the flags exactly these changed. Control: PARENB, CSTOPB
-- and CRTSCTS cleared, the size CS8, CREAD and CLOCAL set, the speed bits those of B9600. Local:
-- ICANON, ECHO, ECHOE, ECHONL and ISIG cleared. Input: IXON, IXOFF, IXANY, IGNBRK, BRKINT, PARMRK,
-- ISTRIP, INLCR, IGNCR, ICRNL and IBAUD0 cleared. Output: OPOST and ONLCR cleared.
pub record IsRaw (old new : Termios) : Type 0 where
  pub control : Changes 0x8000_117f 0x8bd old.c_cflag new.c_cflag
  pub local : Changes 0x5b 0 old.c_lflag new.c_lflag
  pub input : Changes 0x8000_1deb 0 old.c_iflag new.c_iflag
  pub output : Changes 0x5 0 old.c_oflag new.c_oflag
  pub speeds : (new.ispeed ≡ b9600) × (new.ospeed ≡ b9600)
  pub waits : (new.c_cc vmin ≡ 1) × (new.c_cc vtime ≡ 0)
  pub others : (i : ℕ) → i ≢ vmin → i ≢ vtime → new.c_cc i ≡ old.c_cc i

iflag-Changes :
    (w : ℕ) → Changes 0x8000_1deb 0 w (lower (lower (lower w software_flow) special_input) ibaud0)
iflag-Changes w = lower-Changes ibaud0 0x1deb 0 w _ (omega arith) (
    lower-Changes special_input 0x1c00 0 w _ (omega arith)
      (lower-Changes software_flow 0 0 w _ (omega arith) (start-Changes w)))

oflag-Changes : (w : ℕ) → Changes 0x5 0 w (lower (lower w opost) onlcr)
oflag-Changes w =
    lower-Changes onlcr 0x1 0 w _ (omega arith)
      (lower-Changes opost 0 0 w _ (omega arith) (start-Changes w))

cflag-Changes :
    (w : ℕ)
    → Changes 0x8000_0170 0x8b0 w (
        raise
          (lower (raise (lower (lower (lower w parenb) cstopb) csize) cs8) crtscts)
          cread_clocal)
cflag-Changes w = raise-Changes cread_clocal 0x8000_0170 0x30 w _ (
    lower-Changes crtscts 0x170 0x30 w _ (omega arith) (
      raise-Changes cs8 0x170 0 w _ (
        lower-Changes csize 0x140 0 w _ (omega arith) (
          lower-Changes cstopb 0x100 0 w _ (omega arith)
            (lower-Changes parenb 0 0 w _ (omega arith) (start-Changes w))))))

-- A speed set: the speed bits cleared, then B9600.
speed-Changes :
    (off on w t : ℕ)
    → Changes off on w t
    → Changes
        (bit_or off cbaud)
        (bit_or (bit_and on (0xffff_ffff - cbaud)) b9600)
        w
        (raise (lower t cbaud) b9600)
speed-Changes off on w t h =
    raise-Changes b9600 (bit_or off cbaud) (bit_and on (0xffff_ffff - cbaud)) w _
      (lower-Changes cbaud off on w t (omega arith) h)

configure-IsRaw : (tty : Termios) → IsRaw tty (configure tty)
unfolding configure
configure-IsRaw tty = record {
  control =
      speed-Changes 0x8000_117f 0x8bd tty.c_cflag _
        (speed-Changes 0x8000_0170 0x8b0 tty.c_cflag _ (cflag-Changes tty.c_cflag));
  local = lflag-Changes tty.c_lflag;
  input = iflag-Changes tty.c_iflag;
  output = oflag-Changes tty.c_oflag;
  speeds = (refl, refl);
  waits = (refl, refl);
  others = λ i a b. ground arith;
}

-- The port is open with new settings.
abbrev pub SetsRaw : Port → Type 0
SetsRaw port =
    (tty : Termios) × (new : Termios) × (port.opens ≡ true)
    × (port.settings ≡ some tty)
    × (port.accepts ≡ true)
    × (serial_port_open port ≡ record { succeeds = true; is_open = true; applied = some new })
    × IsRaw tty new

-- The system refused a step, and the port has no new settings.
abbrev pub Fails : Port → Type 0
Fails port =
    ((port.opens ≡ false) ⊎ (port.settings ≡ none) ⊎ (port.accepts ≡ false))
    × (Opened.succeeds (serial_port_open port) ≡ false)
    × (Opened.applied (serial_port_open port) ≡ none)

-- Where the port opens, its settings can be read and new ones are accepted, `serial_port_open`
-- succeeds and gives the port settings that differ from those it had in just this: 9600 baud both
-- ways, the speed bits of the control flags (CBAUD and CBAUDEX) included; reads that wait for one
-- byte and no longer; PARENB, CSTOPB and CRTSCTS cleared, the size CS8, CREAD and CLOCAL set;
-- ICANON, ECHO, ECHOE, ECHONL and ISIG cleared; IXON, IXOFF, IXANY, IGNBRK, BRKINT, PARMRK, ISTRIP,
-- INLCR, IGNCR, ICRNL and IBAUD0 cleared; OPOST and ONLCR cleared. In any other case it fails and
-- gives the port no settings.
pub serial_port_open-IsRaw : (port : Port) → SetsRaw port ⊎ Fails port
unfolding serial_port_open
serial_port_open-IsRaw port = by_answers port.opens port.settings port.accepts refl refl refl
  where
    by_answers :
        (o : Bool) (t : Option Termios) (a : Bool)
        → port.opens ≡ o
        → port.settings ≡ t
        → port.accepts ≡ a
        → SetsRaw port ⊎ Fails port
    by_answers false t a p q r = inr (inl p, rw p refl, rw p refl)
    by_answers true none a p q r = inr (inr (inl q), rw (p, q) refl, rw (p, q) refl)
    by_answers true (some tty) false p q r = inr (inr (inr r), rw (p, q, r) refl, rw (p, q, r) refl)
    by_answers true (some tty) true p q r =
        inl (tty, configure tty, p, q, r, rw (p, q, r) refl, configure-IsRaw tty)
