-- ===== src/Paging/Fields.antt =====
-- What the bit operations on a paging entry do to its fields, as arithmetic.
use muse.Base.{
  ℕ, ◌+◌, ◌*◌, ◌/◌, ◌%◌, ◌^◌, ◌<◌, ◌≡◌, ap₂, ◌∙◌, bit_and, bit_or, Bool, true, false, not, arith,
  ◌==◌, if◌then◌else◌,
}
use muse.Base.Bits.{
  bit_or_low, bit_and_low, bit_and_low_mask, bit_and_high_mask, bit_and-one, bit_or_nothing,
  bit_or_disjoint_right,
}
use muse.Paging.Entry.{
  addr_mask, set_present, set_writeable, set_user, set_addr, create_paging_entry, is_present,
  is_user,
}

-- the frame that an entry points to
abbrev pub frame : ℕ → ℕ
frame e = e / 2 ^ 12 * 2 ^ 12

pub addr_mask-frame : (e : ℕ) → e < 2 ^ 32 → bit_and e addr_mask ≡ frame e
addr_mask-frame e h = bit_and_high_mask 12 20 e (omega arith)

pub is_present-mod : (e : ℕ) → is_present e ≡ not (e % 2 == 0)
unfolding is_present
is_present-mod e = rw (bit_and-one e)

pub is_user-mod : (e : ℕ) → is_user e ≡ not (e / 4 % 2 == 0)
unfolding is_user
is_user-mod e =
    let four : bit_and e 4 ≡ e / 4 % 2 * 4 =
      omega (arith, bit_and_low e 4, bit_and_low (e / 2) 2, bit_and-one (e / 2 / 2)) in
    rw four (ground arith)

bit_or_one : (x : ℕ) → bit_or x 1 ≡ x / 2 * 2 + 1
bit_or_one x = omega (arith, bit_or_low x 1, bit_or_nothing (x / 2))

bit_or_two : (x : ℕ) → bit_or x 2 ≡ x / 4 * 4 + 2 + x % 2
bit_or_two x = omega (arith, bit_or_low x 2, bit_or_one (x / 2))

bit_or_four : (x : ℕ) → bit_or x 4 ≡ x / 8 * 8 + 4 + x % 4
bit_or_four x = omega (arith, bit_or_low x 4, bit_or_two (x / 2))

-- `~1`, `~2` and `~4` as masks
clear_one : (x : ℕ) → x < 2 ^ 32 → bit_and x 0xFFFF_FFFE ≡ x / 2 * 2
clear_one x h = omega (arith, bit_and_low x 0xFFFF_FFFE, bit_and_low_mask 31 (x / 2))

clear_two : (x : ℕ) → x < 2 ^ 32 → bit_and x 0xFFFF_FFFD ≡ x / 4 * 4 + x % 2
clear_two x h = omega (
  arith,
  bit_and_low x 0xFFFF_FFFD,
  bit_and_low (x / 2) 0x7FFF_FFFE,
  bit_and_low_mask 30 (x / 2 / 2),
)

clear_four : (x : ℕ) → x < 2 ^ 32 → bit_and x 0xFFFF_FFFB ≡ x / 8 * 8 + x % 4
clear_four x h = omega (
  arith,
  bit_and_low x 0xFFFF_FFFB,
  bit_and_low (x / 2) 0x7FFF_FFFD,
  bit_and_low (x / 2 / 2) 0x3FFF_FFFE,
  bit_and_low_mask 29 (x / 2 / 2 / 2),
)

pub set_addr-fields : (e a : ℕ) → a < 2 ^ 32 → set_addr e a ≡ frame a + e % 2 ^ 12
unfolding set_addr
set_addr-fields e a ha =
    ap₂ bit_or (bit_and_low_mask 12 e) (addr_mask-frame a ha)
    ∙ bit_or_disjoint_right 12 (a / 2 ^ 12) (e % 2 ^ 12) (omega arith)

abbrev pub flag : Bool → ℕ → ℕ
flag b w = if b then w else 0

set_present-fields : (x : ℕ) (b : Bool) → x < 2 ^ 32 → set_present x b ≡ x / 2 * 2 + flag b 1
unfolding set_present
set_present-fields x true h = bit_or_one x
set_present-fields x false h = clear_one x h ∙ omega arith

set_writeable-fields :
    (x : ℕ) (b : Bool) → x < 2 ^ 32 → set_writeable x b ≡ x / 4 * 4 + x % 2 + flag b 2
unfolding set_writeable
set_writeable-fields x true h = bit_or_two x ∙ omega arith
set_writeable-fields x false h = clear_two x h ∙ omega arith

set_user-fields : (x : ℕ) (b : Bool) → x < 2 ^ 32 → set_user x b ≡ x / 8 * 8 + x % 4 + flag b 4
unfolding set_user
set_user-fields x true h = bit_or_four x ∙ omega arith
set_user-fields x false h = clear_four x h ∙ omega arith

-- An entry for the 32-bit address `a` holds the frame of `a`, the three flags and nothing else.
pub create_paging_entry-fields :
    (a : ℕ) (present writeable user : Bool)
    → a < 2 ^ 32
    → create_paging_entry a present writeable user
      ≡ frame a + flag present 1 + flag writeable 2 + flag user 4
unfolding create_paging_entry
create_paging_entry-fields a present writeable user h =
    let e₀ = set_addr 0 a in
    let e₁ = set_present e₀ present in
    let e₂ = set_writeable e₁ writeable in
    let v₀ : e₀ ≡ frame a = set_addr-fields 0 a h ∙ omega arith in
    let v₁ : e₁ ≡ frame a + flag present 1 =
      set_present-fields e₀ present (omega arith) ∙ omega arith in
    let v₂ : e₂ ≡ frame a + flag present 1 + flag writeable 2 =
      set_writeable-fields e₁ writeable (ground arith) ∙ ground arith in
    set_user-fields e₂ user (ground arith) ∙ ground arith
