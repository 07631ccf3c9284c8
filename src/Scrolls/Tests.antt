-- ===== src/Scrolls/Tests.antt =====
-- Two scrolls at 8 and 16, and a new one at 24 between them or over the first.
use muse.Base.{
  ℕ, ◌+◌, none, ◌≡◌, refl, true, some, [], ◌∷◌, ◌==◌, if◌then◌else◌, arith, inl, inr, Option,
}
use muse.Scrolls.{Scroll, Scrolls, write, unlink, split, shorten, make_room, insert_scroll}
use muse.Scrolls.Disjoint.{insert_scroll-AllOutside}

abbrev range : ℕ → ℕ → ℕ → Scroll
range vaddr size next = record {
  vaddr = vaddr;
  size = size;
  aligned = true;
  page = vaddr + 0x100000;
  next = next;
}

abbrev store : ℕ → ℕ → Scrolls
store vaddr size = record {
  node = λ p.
      if p == 8
      then range 0x1000 0x1000 16
      else if p == 16
      then range 0x5000 0x1000 0
      else range vaddr size 0;
  used = 0;
}

insert_scroll-AllOutside_example :
    insert_scroll (λ k. 32) (λ m p. m) 3 (store 0x2000 0x3000) 24 8
    ≡ some (
      if 8 == 0
          then store 0x2000 0x3000
          else write (store 0x2000 0x3000) 24 (range 0x2000 0x3000 8),
      24,
    )
insert_scroll-AllOutside_example =
    insert_scroll-AllOutside (λ k. 32) (λ m p. m) 3 (store 0x2000 0x3000) 24 8 (8 ∷ 16 ∷ [])
      (omega arith) (omega arith) (refl, omega arith, (refl, omega arith, refl))
      (omega arith, inr (omega arith), (omega arith, inl (omega arith), tt))

-- a scroll whose front is cut off keeps its page
abbrev page_of : Option (Scrolls × ℕ) → ℕ → ℕ
page_of (some m) p = (m.0.node p).page
page_of none p = 0

page_kept : page_of (insert_scroll (λ k. 32) (λ m p. m) 3 (store 0x800 0xC00) 24 8) 8 ≡ 0x101000
unfolding insert_scroll make_room unlink split shorten
page_kept = refl
