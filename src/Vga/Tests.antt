-- ===== src/Vga/Tests.antt =====
-- A screen of five rows of one pixel at 100 that scrolls by two rows.
use muse.Base.{◌≡◌, arith}
use muse.Vga.{Framebuffer, scroll}
use muse.Vga.Scroll.{scroll_lem}

abbrev screen : Framebuffer
screen = record { mem = λ a. a; bfr = 100; width = 1; height = 5; pitch = 3 }

-- the last byte of the second row comes from the fourth
scroll_lem_example : (scroll screen 2).mem 105 ≡ 111
scroll_lem_example =
    scroll_lem screen 2 1 2 (omega arith) (omega arith) (omega arith) (omega arith) (omega arith)
