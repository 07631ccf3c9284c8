-- ===== src/Text/Tests.antt =====
-- A console of 80 by 25 characters.
use muse.Base.{ℕ, ◌≡◌, List, [], map, arith}
use muse.Text.{Console, console_put_char, kprint_int_fancy, digit_char}
use muse.Text.Cursor.{OnScreen, put_all, console_put_char-OnScreen}
use muse.Text.Digits.{value, Below, NoZeroFirst, kprint_int_fancy_lem}

abbrev console : Console
console = record { x = 79; y = 24; width = 80; height = 25; drawn = [] }

console_put_char-OnScreen_example : OnScreen (console_put_char b'a' 7 console)
console_put_char-OnScreen_example = console_put_char-OnScreen b'a' 7 console (omega arith)

abbrev printed : ℕ
printed = 1204

abbrev ten : ℕ
ten = 10

kprint_int_fancy_lem_example :
    (ds : List ℕ) × (kprint_int_fancy printed ten 7 console ≡ put_all (map digit_char ds) 7 console)
    × (value ten 0 ds ≡ printed)
    × Below ten ds
    × NoZeroFirst ds
kprint_int_fancy_lem_example =
    kprint_int_fancy_lem printed ten 7 console (omega arith) (omega arith)
      (λ e. absurd (omega (arith, e)))
