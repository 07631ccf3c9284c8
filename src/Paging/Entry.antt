-- ===== src/Paging/Entry.antt =====
-- The bits of a paging entry.
use muse.Base.{ℕ, bit_and, bit_or, Bool, not, ◌==◌, if◌then◌else◌, not32}

abbrev pub addr_mask : ℕ
addr_mask = 0xFFFF_F000

-- PAGING_BIT_PRESENT, PAGING_BIT_WRITEABLE and PAGING_BIT_USER
abbrev pub bit_present : ℕ
bit_present = 1

abbrev pub bit_writeable : ℕ
bit_writeable = 2

abbrev pub bit_user : ℕ
bit_user = 4

-- `entry | flag` or `entry & ~flag`
abbrev set_flag : ℕ → ℕ → Bool → ℕ
set_flag flag entry on = if on then bit_or entry flag else bit_and entry (not32 flag)

unfoldable pub set_present : ℕ → Bool → ℕ
set_present = set_flag bit_present

unfoldable pub set_writeable : ℕ → Bool → ℕ
set_writeable = set_flag bit_writeable

unfoldable pub set_user : ℕ → Bool → ℕ
set_user = set_flag bit_user

unfoldable pub set_addr : ℕ → ℕ → ℕ
set_addr entry addr = bit_or (bit_and entry (not32 addr_mask)) (bit_and addr addr_mask)

unfoldable pub create_paging_entry : ℕ → Bool → Bool → Bool → ℕ
unfolding set_present set_writeable set_user set_addr
create_paging_entry addr present writeable user =
    set_user (set_writeable (set_present (set_addr 0 addr) present) writeable) user

unfoldable pub is_present : ℕ → Bool
is_present structure = not (bit_and structure bit_present == 0)

-- `entry & PAGING_BIT_USER`, as a condition
unfoldable pub is_user : ℕ → Bool
is_user entry = not (bit_and entry bit_user == 0)
