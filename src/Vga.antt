-- ===== src/Vga.antt =====
-- The frame buffer, src/common/vga.c, and glyphs, psf_put_char of src/common/psf.c. The buffer is part
-- of byte memory; what is written to it is what is seen.
pub mod Scroll
mod Tests
use muse.Base.{
  ℕ, zero, suc, ◌+◌, ◌-◌, ◌*◌, ◌/◌, ◌%◌, Bool, List, ◌∷◌, ◌==◌, not, ◌||◌, if◌then◌else◌, bit_and,
  shr, u32, sub32, update,
}
use muse.Base.Memory.{Bytes}
use muse.User.{align_pg_up}
use muse.Directories.{Range}
use muse.Cstring.{copy_bytes}

-- `struct vga_framebuffer`, with the memory that it points into
pub record Framebuffer : Type 0 where
  pub mem : Bytes
  pub bfr : ℕ
  pub width : ℕ
  pub height : ℕ
  pub pitch : ℕ

-- the three bytes of a color at an offset of the buffer
pub write_color : Bytes → ℕ → ℕ → ℕ → Bytes
write_color m bfr offset c =
    let m1 = update m (bfr + offset) (bit_and c 0xFF) in
    let m2 = update m1 (bfr + u32 (offset + 1)) (bit_and (shr c 8) 0xFF) in
    update m2 (bfr + u32 (offset + 2)) (bit_and (shr c 16) 0xFF)

pub put_pixel : Framebuffer → ℕ → ℕ → ℕ → Framebuffer
put_pixel fb x y c = record fb { mem = write_color fb.mem fb.bfr (u32 (x * 3 + y * fb.pitch)) c }

-- the inner loop of `fill_rect`, with `left` columns left from `x` on
pub fill_row : ℕ → Bytes → ℕ → ℕ → ℕ → ℕ → Bytes
fill_row zero m bfr offset x c = m
fill_row (suc left) m bfr offset x c =
    fill_row left (write_color m bfr (u32 (offset + x * 3)) c) bfr offset (x + 1) c

-- its outer loop, with `left` rows left
pub fill_rows : ℕ → Framebuffer → ℕ → ℕ → ℕ → Framebuffer
fill_rows zero fb offset w c = fb
fill_rows (suc left) fb offset w c =
    fill_rows left (record fb { mem = fill_row w fb.mem fb.bfr offset 0 c })
      (u32 (offset + fb.pitch)) w c

pub fill_rect : Framebuffer → ℕ → ℕ → ℕ → ℕ → ℕ → Framebuffer
fill_rect fb x_a y_a w h c = fill_rows h fb (u32 (x_a * 3 + y_a * fb.pitch)) w c

-- `left` zeros at `row + x`, offsets of the buffer
pub clear_row : ℕ → Bytes → ℕ → ℕ → ℕ → Bytes
clear_row zero m bfr row x = m
clear_row (suc left) m bfr row x = clear_row left (update m (bfr + u32 (row + x)) 0) bfr row (x + 1)

-- `reserve_scroll` of src/common/memory.c
pub reserve_scroll : Range → List Range → List Range
reserve_scroll scr rsvd_scrolls = scr ∷ rsvd_scrolls

-- `init_vga`, for the address, width, height and pitch of the tag
pub init_vga : Bytes → List Range → ℕ → ℕ → ℕ → ℕ → Framebuffer × List Range
init_vga m rsvd_scrolls addr width height pitch =
    let size = u32 (pitch * width) in
    (
      record {
        mem = clear_row size m addr 0 0;
        bfr = addr;
        width = width;
        height = height;
        pitch = pitch;
      },
      reserve_scroll (record { vaddr = addr; size = align_pg_up size; page = addr }) rsvd_scrolls,
    )

-- the loops of `scroll` that clear, with `left` rows left from `y` on
pub clear_rows : ℕ → Bytes → ℕ → ℕ → ℕ → Bytes
clear_rows zero m bfr pitch y = m
clear_rows (suc left) m bfr pitch y =
    clear_rows left (clear_row pitch m bfr (u32 (y * pitch)) 0) bfr pitch (y + 1)

-- the first of the rows that `scroll` clears; `d_y` is not 0
abbrev pub kept_rows : Framebuffer → ℕ → ℕ
kept_rows fb d_y = sub32 (fb.height - fb.height % d_y) d_y

pub scroll : Framebuffer → ℕ → Framebuffer
scroll fb d_y =
    let kept = kept_rows fb d_y in
    let moved =
      copy_bytes (u32 (kept * fb.pitch)) fb.mem fb.bfr (fb.bfr + u32 (fb.pitch * d_y)) 0 in
    record fb { mem = clear_rows (fb.height - kept) moved fb.bfr fb.pitch kept }

-- `struct psf_font`, with the bytes of the file that it is the start of
pub record Font : Type 0 where
  pub file : Bytes
  pub magic : ℕ
  pub header_size : ℕ
  pub flags : ℕ
  pub glyph_size : ℕ
  pub height : ℕ
  pub width : ℕ

abbrev pub psf_magic : ℕ
psf_magic = 0x864A_B572

-- the test for a pixel of a row of a glyph, whose bytes start at `row`
pub is_set : Font → ℕ → ℕ → Bool
is_set font row x = not (bit_and (shr (font.file (row + x / 8)) (7 - x % 8)) 1 == 0)

-- the inner loop of `psf_put_char`, with `left` columns left from `x` on
pub glyph_row : ℕ → Font → Framebuffer → ℕ → ℕ → ℕ → ℕ → ℕ → Framebuffer
glyph_row zero font fb row x x_a y color = fb
glyph_row (suc left) font fb row x x_a y color =
    let c = if is_set font row x then color else 0 in
    glyph_row left font (put_pixel fb (u32 (x + x_a)) y c) row (x + 1) x_a y color

-- its outer loop, with `left` rows left from `y` on
pub glyph_rows : ℕ → Font → Framebuffer → ℕ → ℕ → ℕ → ℕ → ℕ → Framebuffer
glyph_rows zero font fb row y x_a y_a color = fb
glyph_rows (suc left) font fb row y x_a y_a color =
    let drawn = glyph_row font.width font fb row 0 x_a (u32 (y + y_a)) color in
    glyph_rows left font drawn (row + (font.width + 7) / 8) (y + 1) x_a y_a color

pub psf_put_char : Font → Framebuffer → ℕ → ℕ → ℕ → ℕ → Framebuffer
psf_put_char font fb c x_c y_c color =
    let start = font.header_size + font.glyph_size * c in
    let drawn =
      glyph_rows font.height font fb start 0 (u32 (x_c * font.width)) (u32 (y_c * font.height))
        color in
    if not (font.flags == 0) || not (font.magic == psf_magic) then fb else drawn
