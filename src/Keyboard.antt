-- ===== src/Keyboard.antt =====
-- The keyboard driver of src/kernel/keyboard.c: the scan codes of set 1, the shift keys, and the
-- handler that passes characters to the console and to the terminal of `Term`. The code's
-- `inb(0x60)` is the handler's argument; `eoi` and the set-up of the controller are port I/O.
pub mod Shift
pub mod Keys
mod Tests
use muse.Base.{
  ℕ, ◌+◌, ◌-◌, ◌%◌, ◌^◌, Bool, true, false, ◌&&◌, ◌||◌, List, [], ◌∷◌, ◌++◌, leb, ◌==◌,
  if◌then◌else◌, u8, u32, sub32,
}
use muse.Term.{Stdin, putc}

-- The rows of a switch that return a character.
pub lookup : List (ℕ × ℕ) → ℕ → ℕ → ℕ
lookup [] k default = default
lookup (row ∷ rows) k default =
    let rest = lookup rows k default in if k == row.0 then row.1 else rest

abbrev pub lower_keys : List (ℕ × ℕ)
lower_keys =
    (0x01, 0)
    ∷ (0x02, b'1')
    ∷ (0x03, b'2')
    ∷ (0x04, b'3')
    ∷ (0x05, b'4')
    ∷ (0x06, b'5')
    ∷ (0x07, b'6')
    ∷ (0x08, b'7')
    ∷ (0x09, b'8')
    ∷ (0x0A, b'9')
    ∷ (0x0B, b'0')
    ∷ (0x0C, b'-')
    ∷ (0x0D, b'=')
    ∷ (0x0E, 255)
    ∷ (0x0F, 9)
    ∷ (0x10, b'q')
    ∷ (0x11, b'w')
    ∷ (0x12, b'e')
    ∷ (0x13, b'r')
    ∷ (0x14, b't')
    ∷ (0x15, b'y')
    ∷ (0x16, b'u')
    ∷ (0x17, b'i')
    ∷ (0x18, b'o')
    ∷ (0x19, b'p')
    ∷ (0x1A, b'[')
    ∷ (0x1B, b']')
    ∷ (0x1C, 10)
    ∷ (0x1D, 0)
    ∷ (0x1E, b'a')
    ∷ (0x1F, b's')
    ∷ (0x20, b'd')
    ∷ (0x21, b'f')
    ∷ (0x22, b'g')
    ∷ (0x23, b'h')
    ∷ (0x24, b'j')
    ∷ (0x25, b'k')
    ∷ (0x26, b'l')
    ∷ (0x27, b';')
    ∷ (0x28, 39)
    ∷ (0x29, b'`')
    ∷ (0x2B, 92)
    ∷ (0x2C, b'z')
    ∷ (0x2D, b'x')
    ∷ (0x2E, b'c')
    ∷ (0x2F, b'v')
    ∷ (0x30, b'b')
    ∷ (0x31, b'n')
    ∷ (0x32, b'm')
    ∷ (0x33, b',')
    ∷ (0x34, b'.')
    ∷ (0x35, b'/')
    ∷ (0x39, b' ')
    ∷ []

-- `keycode_to_char_lower` on `shift_held`, a 32-bit pattern: the new value and the character
pub keycode_to_char_lower : ℕ → ℕ → ℕ × ℕ
keycode_to_char_lower shift_held keycode =
    if keycode == 0x2A || keycode == 0x36
    then (u32 (shift_held + 1), 0)
    else if keycode == 0xAA || keycode == 0xB6
    then (sub32 shift_held 1, 0)
    else (shift_held, lookup lower_keys keycode 0)

abbrev pub shifted : List (ℕ × ℕ)
shifted =
    (b'`', b'~')
    ∷ (b'1', b'!')
    ∷ (b'2', b'@')
    ∷ (b'3', b'#')
    ∷ (b'4', b'$')
    ∷ (b'5', b'%')
    ∷ (b'6', b'^')
    ∷ (b'7', b'&')
    ∷ (b'8', b'*')
    ∷ (b'9', b'(')
    ∷ (b'0', b')')
    ∷ (b'-', b'_')
    ∷ (b'=', b'+')
    ∷ (b'[', b'{')
    ∷ (b']', b'}')
    ∷ (92, b'|')
    ∷ (b';', b':')
    ∷ (39, b'"')
    ∷ (b',', b'<')
    ∷ (b'.', b'>')
    ∷ (b'/', b'?')
    ∷ []

pub keycode_to_char : ℕ → ℕ → ℕ × ℕ
keycode_to_char shift_held keycode =
    let (held, lower) = keycode_to_char_lower shift_held keycode in
    if held == 0
    then (held, lower)
    else if leb b'a' lower && leb lower b'z'
    then (held, u8 (lower + b'A' - b'a'))
    else (held, lookup shifted lower lower)

-- The driver's state: `shift_held`, what `console_put_char` was given, and the root terminal.
pub record Keyboard : Type 0 where
  pub shift_held : ℕ
  pub shown : List ℕ
  pub stdin : Stdin

-- `handle_keypress_inner` on the scan code read from the port
pub handle_keypress : Keyboard → ℕ → Keyboard
handle_keypress k scan_code =
    let (held, character) = keycode_to_char k.shift_held scan_code in
    if character == 0 then record k { shift_held = held } else record {
      shift_held = held;
      shown = k.shown ++ character ∷ [];
      stdin = (putc k.stdin character).0;
    }

-- a sequence of interrupts
pub handle_all : Keyboard → List ℕ → Keyboard
handle_all k [] = k
handle_all k (code ∷ codes) = handle_all (handle_keypress k code) codes
