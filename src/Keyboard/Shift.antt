-- ===== src/Keyboard/Shift.antt =====
-- The counter `shift_held` of src/kernel/keyboard.c over a run of interrupts.
use muse.Base.{ℕ, suc, ◌+◌, ◌^◌, ◌<◌, ◌≡◌, List, [], ◌∷◌, ◌||◌, arith, ◌==◌, if◌then◌else◌, u32}
use muse.Keyboard.{keycode_to_char_lower, keycode_to_char, handle_keypress, handle_all, Keyboard}

-- how many of the scan codes are one of the two
pub count_codes : List ℕ → ℕ → ℕ → ℕ
count_codes [] a b = 0
count_codes (code ∷ codes) a b =
    let rest = count_codes codes a b in if code == a || code == b then suc rest else rest

abbrev pub presses : List ℕ → ℕ
presses codes = count_codes codes 0x2A 0x36

abbrev pub releases : List ℕ → ℕ
releases codes = count_codes codes 0xAA 0xB6

held_after : ℕ → ℕ → ℕ
held_after s code = (keycode_to_char_lower s code).0

keycode_to_char-held : (s code : ℕ) → (keycode_to_char s code).0 ≡ held_after s code
unfolding held_after keycode_to_char
keycode_to_char-held s code = ground arith

handle_keypress-held :
    (k : Keyboard) (code : ℕ) → (handle_keypress k code).shift_held ≡ held_after k.shift_held code
unfolding handle_keypress
handle_keypress-held k code = ground (arith, keycode_to_char-held k.shift_held code)

held_after-lt : (s code : ℕ) → s < 2 ^ 32 → held_after s code < 2 ^ 32
unfolding held_after keycode_to_char_lower
held_after-lt s code h = ground arith

held_after-count :
    (s code p r : ℕ)
    → s < 2 ^ 32
    → u32 (held_after s code + (if code == 0xAA || code == 0xB6 then suc r else r) + p)
      ≡ u32 (s + (if code == 0x2A || code == 0x36 then suc p else p) + r)
unfolding held_after keycode_to_char_lower
held_after-count s code p r h = ground arith

-- After any sequence of scan codes, `shift_held` is its value before, plus the presses of the two
-- shift keys, minus their releases, modulo 2 ^ 32.
pub shift_held_lem :
    (codes : List ℕ) (k : Keyboard)
    → k.shift_held < 2 ^ 32
    → u32 ((handle_all k codes).shift_held + releases codes) ≡ u32 (k.shift_held + presses codes)
unfolding handle_all count_codes
shift_held_lem [] k h = ground arith
shift_held_lem (code ∷ codes) k h =
    let e = handle_keypress-held k code in
    let ih =
      shift_held_lem codes (handle_keypress k code)
        (omega (arith, e, held_after-lt k.shift_held code h)) in
    ground (arith, ih, e, held_after-count k.shift_held code (presses codes) (releases codes) h)
