-- ===== src/Scrolls/Disjoint.antt =====
-- `insert_scroll` of a range that no scroll of the list meets.
use muse.Base.{
  if◌then◌else◌, ℕ, zero, suc, ◌≤◌, ◌<◌, ◌≡◌, ◌≢◌, ◌⊎◌, refl, ap, ◌∙◌, some, List, [], ◌∷◌, arith,
  ◌==◌, ==_ne, ==_refl, ℕ_discrete, ltb, ◌&&◌, length, fun_ext, false,
}
use muse.Scrolls.{Scrolls, limit, write, shorten, make_room, insert_scroll}

-- the scrolls from `p` on are those at the addresses `xs`
abbrev pub IsList : Scrolls → ℕ → List ℕ → Type 0
IsList m p [] = p ≡ 0
IsList m p (x ∷ xs) = (p ≡ x) × (x ≢ 0) × IsList m (m.node x).next xs

-- a scroll outside of a range
abbrev pub Outside : Scrolls → ℕ → ℕ → ℕ → Type 0
Outside m start end p = (end ≤ (m.node p).vaddr) ⊎ (limit (m.node p) ≤ start)

abbrev pub AllOutside : Scrolls → ℕ → ℕ → List ℕ → Type 0
AllOutside m start end [] = Unit {0}
AllOutside m start end (x ∷ xs) =
    ((m.node x).vaddr < limit (m.node x)) × Outside m start end x × AllOutside m start end xs

-- a node that is written back
write_self : (m : Scrolls) (p : ℕ) → write m p (m.node p) ≡ m
write_self m p =
    ap (λ f. record m { node = f })
      (fun_ext λ q. elim (ℕ_discrete p q) [
        | yes e ↦ rw (e, ==_refl q) refl
        | no ne ↦ rw (==_ne _ _ ne) refl
      ])

module _ (kmalloc : ℕ → ℕ) (kfree : Scrolls → ℕ → Scrolls) where
  shorten-Outside :
      (m : Scrolls) (p start end : ℕ)
      → start < end
      → (m.node p).vaddr < limit (m.node p)
      → Outside m start end p
      → shorten kmalloc kfree m p (m.node p).vaddr (limit (m.node p)) start end ≡ m
  unfolding shorten
  shorten-Outside m p start end proper whole apart =
      let front : (ltb (m.node p).vaddr start && ltb start (limit (m.node p))) ≡ false =
        ground (arith, apart) in
      let back : (ltb (m.node p).vaddr end && ltb end (limit (m.node p))) ≡ false =
        ground (arith, apart) in
      rw (front, back) (write_self m p)

  -- The loop passes a scroll outside of the range.
  make_room_next :
      (fuel : ℕ) (m : Scrolls) (first prev p start end : ℕ)
      → p ≢ 0
      → start < end
      → (m.node p).vaddr < limit (m.node p)
      → Outside m start end p
      → make_room kmalloc kfree (suc fuel) m first prev p start end
        ≡ make_room kmalloc kfree fuel m first p (m.node p).next start end
  unfolding make_room
  make_room_next fuel m first prev p start end present proper whole apart =
      let exact : ((m.node p).vaddr == start && limit (m.node p) == end) ≡ false =
        ground (arith, apart) in
      let inside : (ltb (m.node p).vaddr start && ltb end (limit (m.node p))) ≡ false =
        ground (arith, apart) in
      rw (exact, inside, ==_ne _ _ present, shorten-Outside m p start end proper whole apart) refl

  make_room-AllOutside :
      (xs : List ℕ) (fuel : ℕ) (m : Scrolls) (first prev p start end : ℕ)
      → length xs < fuel
      → start < end
      → IsList m p xs
      → AllOutside m start end xs
      → make_room kmalloc kfree fuel m first prev p start end ≡ some (m, first)
  unfolding make_room
  make_room-AllOutside xs zero m first prev p start end enough proper list apart =
      absurd (omega (arith, enough))
  make_room-AllOutside [] (suc fuel) m first prev p start end enough proper list apart =
      rw list refl
  make_room-AllOutside (x ∷ xs) (suc fuel) m first prev p start end enough proper
        (here, present, list) (whole, outside, apart) =
      ap (λ t. make_room kmalloc kfree (suc fuel) m first prev t start end) here
      ∙ make_room_next fuel m first prev x start end present proper whole outside
      ∙ make_room-AllOutside xs fuel m first x (m.node x).next start end (omega (arith, enough))
          proper list apart

  -- A scroll whose range no scroll of a list meets becomes the first one. If the list is not empty,
  -- it follows as it was. If it is empty nothing is written, so that the link of the new scroll is
  -- what it was before the call. None of the ranges is empty or wraps around.
  pub insert_scroll-AllOutside :
      (fuel : ℕ) (m : Scrolls) (scr first : ℕ) (xs : List ℕ)
      → length xs < fuel
      → (m.node scr).vaddr < limit (m.node scr)
      → IsList m first xs
      → AllOutside m (m.node scr).vaddr (limit (m.node scr)) xs
      → insert_scroll kmalloc kfree fuel m scr first
        ≡ some (if first == 0 then m else write m scr (record (m.node scr) { next = first }), scr)
  unfolding insert_scroll
  insert_scroll-AllOutside fuel m scr first xs enough proper list apart =
      elim (ℕ_discrete first 0) [
        | yes empty ↦ rw empty refl
        | no some_scroll ↦
            rw
              (
                ==_ne _ _ some_scroll,
                make_room-AllOutside xs fuel m first 0 first (m.node scr).vaddr (limit (m.node scr))
                    enough proper list apart,
              )
              refl
      ]
