-- ===== src/Text/Cursor.antt =====
-- The console's cursor, and what printing a string draws.
use muse.Base.{
  Bool-cases, inl, inr, ℕ, zero, suc, ◌+◌, ◌<◌, ◌≡◌, ◌≢◌, refl, sym, ◌∙◌, some, List, [], ◌∷◌,
  arith, ltb, ◌==◌, if◌then◌else◌, u32, sub32, ◌^◌, ==_ne,
}
use muse.Base.Memory.{Bytes, slice, byte_here, byte_next}
use muse.Text.{Drawn, Console, new_line, console_put_char, kprint_fancy, kvprintf_fancy}

-- The cursor is on the console.
pub record OnScreen (c : Console) : Type 0 where
  pub x_lt : c.x < c.width
  pub y_lt : c.y < c.height
  pub width_lt : c.width < 2 ^ 32
  pub height_lt : c.height < 2 ^ 32

new_line-OnScreen : (c : Console) → OnScreen c → OnScreen (new_line c)
unfolding new_line
new_line-OnScreen c v = ground arith

after_glyph :
    (ch color : ℕ) (c : Console)
    → OnScreen c
    → OnScreen (
        if ltb c.x (sub32 c.width 1)
        then record c { x = u32 (c.x + 1); drawn = Drawn.glyph ch c.x c.y color ∷ c.drawn }
        else new_line (record c { drawn = Drawn.glyph ch c.x c.y color ∷ c.drawn }))
unfolding new_line
after_glyph ch color c v = ground arith

-- Whatever is printed, the cursor stays on the console.
pub console_put_char-OnScreen :
    (ch color : ℕ) (c : Console) → OnScreen c → OnScreen (console_put_char ch color c)
unfolding console_put_char
console_put_char-OnScreen ch color c v = elim (Bool-cases (ch == b'\n')) [
  | inl line ↦ rw line (new_line-OnScreen c v)
  | inr char ↦ rw char (after_glyph ch color c v)
]

-- a string printed character by character
abbrev pub put_all : List ℕ → ℕ → Console → Console
put_all [] color c = c
put_all (ch ∷ chs) color c = put_all chs color (console_put_char ch color c)

pub kprint_fancy-put_all :
    (n : ℕ) (m : Bytes) (str color : ℕ) (c : Console)
    → ((k : ℕ) → k < n → m (str + k) ≢ 0)
    → m (str + n) ≡ 0
    → kprint_fancy (suc n) m str color c ≡ some (put_all (slice m str n) color c)
unfolding kprint_fancy
kprint_fancy-put_all zero m str color c text end = rw (sym (byte_here m str) ∙ end) refl
kprint_fancy-put_all (suc n) m str color c text end =
    let first : m str ≢ 0 = λ e. text 0 (omega arith) (byte_here m str ∙ e) in
    rw (==_ne _ _ first) (
      kprint_fancy-put_all n m (str + 1) color (console_put_char (m str) color c)
        (λ k lt e. text (suc k) (omega arith) (sym (byte_next m str k) ∙ e))
        (byte_next m str n ∙ end))

-- A format string without '%' prints its characters, whatever the arguments.
pub kvprintf_fancy-plain :
    (n : ℕ) (m : Bytes) (fmt color : ℕ) (args : List ℕ) (c : Console)
    → ((k : ℕ) → k < n → m (fmt + k) ≢ 0)
    → ((k : ℕ) → k < n → m (fmt + k) ≢ b'%')
    → m (fmt + n) ≡ 0
    → kvprintf_fancy (suc n) m fmt color args c ≡ some (put_all (slice m fmt n) color c)
unfolding kvprintf_fancy
kvprintf_fancy-plain zero m fmt color args c text plain end = rw (sym (byte_here m fmt) ∙ end) refl
kvprintf_fancy-plain (suc n) m fmt color args c text plain end =
    let first : m fmt ≢ 0 = λ e. text 0 (omega arith) (byte_here m fmt ∙ e) in
    let no_percent : m fmt ≢ b'%' = λ e. plain 0 (omega arith) (byte_here m fmt ∙ e) in
    rw (==_ne _ _ first, ==_ne _ _ no_percent)
      (kvprintf_fancy-plain n m (fmt + 1) color args (console_put_char (m fmt) color c)
        (λ k lt e. text (suc k) (omega arith) (sym (byte_next m fmt k) ∙ e))
        (λ k lt e. plain (suc k) (omega arith) (sym (byte_next m fmt k) ∙ e))
        (byte_next m fmt n ∙ end))
