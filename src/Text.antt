-- ===== src/Text.antt =====
-- Text on the console, src/common/text.c. The framebuffer and the font are what a console draws:
-- the calls of `psf_put_char` and `scroll`, the last one first. The console's lock is left out.
mod Tests
pub mod Cursor
pub mod Digits
use muse.Base.{
  ℕ, zero, suc, ◌+◌, ◌-◌, ◌*◌, ◌/◌, ◌%◌, ◌^◌, Bool, true, false, Option, none, some, List, [], ◌∷◌,
  ltb, ◌==◌, if◌then◌else◌, u8, u32, sub32,
}
use muse.Base.Memory.{Bytes}

pub data Drawn : Type 0 where
  glyph : ℕ → ℕ → ℕ → ℕ → Drawn
  scrolled : Drawn

-- The cursor, the size in characters (CONSOLE_W and CONSOLE_H), and what has been drawn.
pub record Console : Type 0 where
  pub x : ℕ
  pub y : ℕ
  pub width : ℕ
  pub height : ℕ
  pub drawn : List Drawn

-- `reinit_console`
pub reinit_console : Console → Console
reinit_console c = record c { x = 0; y = 0 }

-- the case '\n' of `console_put_char`
pub new_line : Console → Console
new_line c =
    if ltb c.y (sub32 c.height 1)
    then record c { x = 0; y = u32 (c.y + 1) }
    else record c { x = 0; drawn = Drawn.scrolled ∷ c.drawn }

pub console_put_char : ℕ → ℕ → Console → Console
console_put_char ch color c =
    let d = record c { drawn = Drawn.glyph ch c.x c.y color ∷ c.drawn } in
    if ch == b'\n'
    then new_line c
    else if ltb d.x (sub32 d.width 1)
    then record d { x = u32 (d.x + 1) }
    else new_line d

-- `kprint_fancy`, on fuel
pub kprint_fancy : ℕ → Bytes → ℕ → ℕ → Console → Option Console
kprint_fancy zero m str color c = none
kprint_fancy (suc fuel) m str color c =
    let rest = kprint_fancy fuel m (str + 1) color (console_put_char (m str) color c) in
    if m str == 0 then some c else rest

pub nth_digit : ℕ → ℕ → ℕ → ℕ
nth_digit x zero base = x % base
nth_digit x (suc digit) base = nth_digit (x / base) digit base

-- the character of a digit, as a byte
pub digit_char : ℕ → ℕ
digit_char digit = u8 (if ltb digit 10 then b'0' + digit else b'A' + digit - 10)

-- the loop of `kprint_int_fancy`, with `left` digits left
pub int_digits : ℕ → ℕ → ℕ → ℕ → Bool → Console → Console
int_digits zero x base color found c = c
int_digits (suc left) x base color found c =
    let digit = nth_digit x left base in
    let found' = if digit == 0 then found else true in
    int_digits left x base color found'
      (if found' then console_put_char (digit_char digit) color c else c)

-- `kprint_int_fancy`; `x` is the unsigned value of its `int`
pub kprint_int_fancy : ℕ → ℕ → ℕ → Console → Console
kprint_int_fancy x base color c =
    if x == 0 then console_put_char b'0' color c else int_digits base x base color false c

-- `a < b` of ints, by their unsigned values
abbrev pub int_ltb : ℕ → ℕ → Bool
int_ltb a b = ltb (u32 (a + 2 ^ 31)) (u32 (b + 2 ^ 31))

-- the loop of `inrange`, with `left` rounds left
pub inrange_from : ℕ → ℕ → ℕ → Bool
inrange_from zero base res = true
inrange_from (suc left) base res =
    let rest = inrange_from left base (u32 (res * base)) in
    if int_ltb (u32 (res * base)) res then false else rest

pub inrange : ℕ → ℕ → Bool
inrange base exp = inrange_from exp base 1

-- the loop of `kprint_int_full_fancy`, with `left` digits left
pub full_digits : ℕ → ℕ → ℕ → ℕ → Console → Console
full_digits zero x base color c = c
full_digits (suc left) x base color c =
    full_digits left x base color (
      if inrange base left
      then console_put_char (digit_char (nth_digit x left base)) color c
      else c)

pub kprint_int_full_fancy : ℕ → ℕ → ℕ → Console → Console
kprint_int_full_fancy x base color c = full_digits base x base color c

-- `enum fmt_specifier`
pub data FmtSpecifier : Type 0 where
  fmt_spc_none fmt_spc_str fmt_spc_int fmt_spc_hex : FmtSpecifier

pub consume_specifier : ℕ → FmtSpecifier
consume_specifier ch =
    if ch == b's'
    then FmtSpecifier.fmt_spc_str
    else if ch == b'i'
    then FmtSpecifier.fmt_spc_int
    else if ch == b'x'
    then FmtSpecifier.fmt_spc_hex
    else FmtSpecifier.fmt_spc_none

-- what a specifier prints, with the next of the arguments where it takes one; `none` is a missing
-- argument, or too little fuel for a string
pub print_specifier :
    ℕ → Bytes → FmtSpecifier → ℕ → ℕ → List ℕ → Console → Option (List ℕ × Console)
print_specifier fuel m FmtSpecifier.fmt_spc_none ch color args c =
    some (args, console_put_char ch color (console_put_char b'%' color c))
print_specifier fuel m FmtSpecifier.fmt_spc_str ch color [] c = none
print_specifier fuel m FmtSpecifier.fmt_spc_str ch color (a ∷ args) c =
    elim (kprint_fancy fuel m a color c) [ none ↦ none | some d ↦ some (args, d) ]
print_specifier fuel m FmtSpecifier.fmt_spc_int ch color [] c = none
print_specifier fuel m FmtSpecifier.fmt_spc_int ch color (a ∷ args) c =
    some (args, kprint_int_fancy a 10 color c)
print_specifier fuel m FmtSpecifier.fmt_spc_hex ch color [] c = none
print_specifier fuel m FmtSpecifier.fmt_spc_hex ch color (a ∷ args) c = some (
  args,
  kprint_int_fancy a 16 color (console_put_char b'x' color (console_put_char b'0' color c)),
)

-- `kvprintf_fancy`, on fuel, with the arguments' 32-bit values
pub kvprintf_fancy : ℕ → Bytes → ℕ → ℕ → List ℕ → Console → Option Console
kvprintf_fancy zero m fmt color args c = none
kvprintf_fancy (suc fuel) m fmt color args c =
    let plain = kvprintf_fancy fuel m (fmt + 1) color args (console_put_char (m fmt) color c) in
    let special : Option Console =
      elim (print_specifier fuel m (consume_specifier (m (fmt + 1))) (m (fmt + 1)) color args c) [
        | none ↦ none
        | some (rest, d) ↦ kvprintf_fancy fuel m (fmt + 2) color rest d
      ] in
    if m fmt == 0 then some c else if m fmt == b'%' then special else plain
