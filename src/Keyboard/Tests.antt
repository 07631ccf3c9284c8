-- ===== src/Keyboard/Tests.antt =====
-- Typing "A" and "1": shift down, A, shift up, 1.
use muse.Base.{ℕ, ◌≡◌, refl, List, [], ◌∷◌, ◌++◌}
use muse.Term.{init_stdin}
use muse.Term.Put.{putc_all}
use muse.Keyboard.{Keyboard, keycode_to_char, handle_all, lookup, keycode_to_char_lower}
use muse.Keyboard.Keys.{text, handle_all_lem}

abbrev start : Keyboard
start = record { shift_held = 0; shown = []; stdin = init_stdin }

abbrev codes : List ℕ
codes = 0x2A ∷ 0x1E ∷ 0xAA ∷ 0x02 ∷ []

key_a : keycode_to_char 1 0x1E ≡ (1, b'A')
unfolding keycode_to_char keycode_to_char_lower lookup
key_a = refl

abbrev a_key : ℕ
a_key = 0x1E

handle_all_lem_example :
    ((handle_all start codes).shown ≡ [] ++ text 0 codes)
    × ((handle_all start codes).stdin ≡ putc_all init_stdin (text 0 codes))
handle_all_lem_example = handle_all_lem codes start
