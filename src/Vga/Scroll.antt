-- ===== src/Vga/Scroll.antt =====
-- What `scroll` of src/common/vga.c leaves on the screen.
use muse.Base.{
  ℕ, zero, suc, ◌+◌, ◌-◌, ◌*◌, ◌%◌, ◌^◌, ◌≤◌, ◌<◌, ◌≡◌, refl, ap, sym, subst, ◌∙◌, arith, ltb,
  dec_lt, if◌then◌else◌, u32, update, inl, fun_ext,
}
use native.Mathlib.Nat.{mod-eq-sub-mod, mod-le, mul-le-mul_left, mul-le-mul_right}
use muse.Base.Memory.{Bytes, blit, blit_append}
use muse.Cstring.{copy_bytes}
use muse.Cstring.Copy.{copy_bytes-blit}
use muse.Vga.{Framebuffer, scroll, clear_row, clear_rows, kept_rows}

clear_row-blit :
    (left : ℕ) (m : Bytes) (bfr row x a : ℕ)
    → row + x + left < 2 ^ 32
    → clear_row left m bfr row x a ≡ blit m (bfr + row + x) left (λ _. 0) a
unfolding clear_row
clear_row-blit zero m bfr row x a fits = ground arith
clear_row-blit (suc left) m bfr row x a fits =
    let here : u32 (row + x) ≡ row + x = omega (arith, fits) in
    clear_row-blit left (update m (bfr + u32 (row + x)) 0) bfr row (x + 1) a (omega (arith, fits))
    ∙ rw here (ground arith)

clear_rows-blit :
    (left : ℕ) (m : Bytes) (bfr pitch y : ℕ)
    → (y + left) * pitch < 2 ^ 32
    → clear_rows left m bfr pitch y ≡ blit m (bfr + y * pitch) (left * pitch) (λ _. 0)
unfolding clear_rows
clear_rows-blit zero m bfr pitch y fits = fun_ext λ a. ground arith
clear_rows-blit (suc left) m bfr pitch y fits =
    let all : (y + suc left) * pitch ≡ y * pitch + pitch + left * pitch = grind arith in
    let rest : (y + 1 + left) * pitch ≡ y * pitch + pitch + left * pitch = grind arith in
    let row : u32 (y * pitch) ≡ y * pitch = omega (arith, fits, all) in
    let first : clear_row pitch m bfr (u32 (y * pitch)) 0
        ≡ blit m (bfr + y * pitch) pitch (λ _. 0) =
      fun_ext λ a. rw row (
        clear_row-blit pitch m bfr (y * pitch) 0 a (omega (arith, fits, all))
        ∙ ap (λ t. blit m t pitch (λ _. 0) a) (omega arith)) in
    let next : bfr + (y + 1) * pitch ≡ bfr + y * pitch + pitch = grind arith in
    let total : suc left * pitch ≡ pitch + left * pitch = grind arith in
    ap (λ t. clear_rows left t bfr pitch (y + 1)) first
    ∙ clear_rows-blit left (blit m (bfr + y * pitch) pitch (λ _. 0)) bfr pitch (y + 1)
        (omega (arith, fits, all, rest))
    ∙ ap (λ t. blit (blit m (bfr + y * pitch) pitch (λ _. 0)) t (left * pitch) (λ _. 0)) next
    ∙ blit_append m (bfr + y * pitch) pitch (left * pitch) (λ _. 0) (λ _. 0) (λ _. 0) (λ _ _. refl)
        (λ _. refl)
    ∙ ap (λ t. blit m (bfr + y * pitch) t (λ _. 0)) (sym total)

-- a byte of the row below, by its row, lies before a later row
row_le : (pitch y x n : ℕ) → x < pitch → y < n → y * pitch + x < n * pitch
row_le pitch y x n lt below =
    let (k, e) : (k : ℕ) × (n ≡ y + 1 + k) = (n - (y + 1), omega arith) in
    let product : (y + 1 + k) * pitch ≡ y * pitch + pitch + k * pitch = grind arith in
    rw e (rw product (omega (arith, lt)))

source_place :
    (bfr pitch d y x : ℕ)
    → bfr + pitch * d + 0 + (bfr + (y * pitch + x) - (bfr + 0)) ≡ bfr + ((y + d) * pitch + x)
source_place bfr pitch d y x =
    let sum : (y + d) * pitch ≡ y * pitch + pitch * d = grind arith in rw sum (omega arith)

-- the rows after `k` rows have been moved up by `d` and the others have been cleared
moved_rows :
    (m : Bytes) (bfr pitch height d k y x : ℕ)
    → k + d ≤ height
    → height * pitch < 2 ^ 32
    → y < height
    → x < pitch
    → clear_rows
        (height - k)
        (copy_bytes (u32 (k * pitch)) m bfr (bfr + u32 (pitch * d)) 0)
        bfr
        pitch
        k
        (bfr + (y * pitch + x))
      ≡ (if ltb y k then m (bfr + ((y + d) * pitch + x)) else 0)
moved_rows m bfr pitch height d k y x fits small below inside =
    let sum : (k + d) * pitch ≡ k * pitch + pitch * d = grind arith in
    let bound : (k + d) * pitch ≤ height * pitch = mul-le-mul_right pitch fits in
    let whole : k + (height - k) ≡ height = omega (arith, fits) in
    let rows : (k + (height - k)) * pitch ≡ k * pitch + (height - k) * pitch = grind arith in
    let all : height * pitch ≡ k * pitch + (height - k) * pitch =
      ap (λ t. t * pitch) (sym whole) ∙ rows in
    let size : u32 (k * pitch) ≡ k * pitch = omega (arith, sum, bound, small) in
    let start : u32 (pitch * d) ≡ pitch * d = omega (arith, sum, bound, small) in
    let place = bfr + (y * pitch + x) in
    let moved = copy_bytes (k * pitch) m bfr (bfr + pitch * d) 0 in
    let cleared : clear_rows (height - k) moved bfr pitch k place
        ≡ blit moved (bfr + k * pitch) ((height - k) * pitch) (λ _. 0) place =
      ap (λ t. t place)
        (clear_rows-blit (height - k) moved bfr pitch k (omega (arith, all, rows, small))) in
    let copied : moved place
        ≡ blit m (bfr + 0) (k * pitch) (λ j. m (bfr + pitch * d + 0 + j)) place =
      copy_bytes-blit (k * pitch) m bfr (bfr + pitch * d) 0 (inl (omega arith)) place in
    let last : y * pitch + x < height * pitch = row_le pitch y x height inside below in
    rw (size, start)
      (cleared ∙ elim (dec_lt y k) [
        | yes up ↦
            let before : y * pitch + x < k * pitch = row_le pitch y x k inside up in
            let source : m (bfr + pitch * d + 0 + (place - (bfr + 0)))
                ≡ m (bfr + ((y + d) * pitch + x)) =
              ap m (source_place bfr pitch d y x) in
            ground (arith, copied, before, source)
        | no down ↦
            let after : k * pitch ≤ y * pitch = mul-le-mul_right pitch (omega arith) in
            ground (arith, after, last, all)
      ])

-- `scroll` moves the rows of the screen up by `d_y` and clears the rest: each byte of a row that has
-- a row `d_y` below it, among the whole lines of `d_y` rows, is that row's byte, and each byte of a
-- row behind is 0. `d_y` is neither 0 nor larger than the height, and the buffer has less than
-- 2 ^ 32 bytes.
pub scroll_lem :
    (fb : Framebuffer) (d_y y x : ℕ)
    → 0 < d_y
    → d_y ≤ fb.height
    → fb.height * fb.pitch < 2 ^ 32
    → y < fb.height
    → x < fb.pitch
    → (scroll fb d_y).mem (fb.bfr + (y * fb.pitch + x)) ≡ (
        if ltb (y + d_y) (fb.height - fb.height % d_y)
        then fb.mem (fb.bfr + ((y + d_y) * fb.pitch + x))
        else 0)
unfolding scroll
scroll_lem fb d_y y x positive fits small below inside =
    let rest : fb.height % d_y ≤ fb.height - d_y =
      subst (λ t. t ≤ fb.height - d_y) (sym (mod-eq-sub-mod fits)) (mod-le (fb.height - d_y) d_y) in
    let area : fb.height * 1 ≤ fb.height * fb.pitch =
      mul-le-mul_left fb.height (omega (arith, inside)) in
    let kept : kept_rows fb d_y ≡ fb.height - fb.height % d_y - d_y =
      omega (arith, rest, area, small, fits) in
    rw kept (
      moved_rows fb.mem fb.bfr fb.pitch fb.height d_y (fb.height - fb.height % d_y - d_y) y x
        (omega (arith, rest, fits)) small below inside
      ∙ ground (arith, rest, fits))
