-- ===== src/Ext2/Directory/Entries.antt =====
-- The loop over a directory's entries, and the search for a child's inode.
use muse.Base.{
  ℕ, zero, suc, ◌+◌, ◌≤◌, ◌<◌, ◌≡◌, ◌≢◌, refl, ◌∙◌, none, some, List, ◌∷◌, arith, sub32, dec_lt,
  ℕ_discrete, ltb-ff, lt→ltb, ==_ne,
}
use muse.Base.Memory.{Bytes}
use muse.Malloc.{load32}
use muse.Elf.{load16}
use muse.Disk.{ok, Disk}
use muse.Ext2.{Superblock}
use muse.Ext2.Directory.{Child, child_at, entries, group_count, alloc_outward, alloc_child_inode}

-- one round of the loop
step :
    (fuel : ℕ) (buf : Bytes) (size a : ℕ) (children : List Child)
    → a < sub32 size 1
    → load32 buf a ≢ 0
    → entries (suc fuel) buf size a children
      ≡ entries fuel buf size (a + load16 buf (a + 4)) (child_at buf a ∷ children)
unfolding entries
step fuel buf size a children lt ne = rw (lt→ltb _ _ lt, ==_ne _ _ ne)

-- the last round
module _ (fuel : ℕ) (buf : Bytes) (size a : ℕ) (children : List Child) where
  ended : sub32 size 1 ≤ a → entries (suc fuel) buf size a children ≡ some children
  unfolding entries
  ended past = rw (ltb-ff _ _ past)

  no_inode :
      a < sub32 size 1 → load32 buf a ≡ 0 → entries (suc fuel) buf size a children ≡ some children
  unfolding entries
  no_inode lt last = rw (lt→ltb _ _ lt, last)

-- an entry at `b` is reached from the one at `a`, each behind the one before it, which has an inode
pub data IsEntry (buf : Bytes) (size b : ℕ) : ℕ → Type 0 where
  first : IsEntry buf size b b
  next :
      (a : ℕ)
      → a < sub32 size 1
      → load32 buf a ≢ 0
      → IsEntry buf size b (a + load16 buf (a + 4))
      → IsEntry buf size b a

-- The loop over the entries of a directory ends, if every entry that it reaches before the end of
-- the buffer and that has an inode has a length other than 0: with fuel for every byte that is left,
-- and at least 1, it returns a list.
pub entries-total :
    (fuel : ℕ) (buf : Bytes) (size a : ℕ) (children : List Child)
    → ((b : ℕ)
        → IsEntry buf size b a
        → b < sub32 size 1
        → load32 buf b ≢ 0
        → 0 < load16 buf (b + 4))
    → 0 < fuel
    → sub32 size 1 < a + fuel
    → (found : List Child) × (entries fuel buf size a children ≡ some found)
entries-total zero buf size a children lengths some_fuel enough = absurd (omega arith)
entries-total (suc fuel) buf size a children lengths some_fuel enough =
    elim (dec_lt a (sub32 size 1)) [
      | no past ↦ (children, ended fuel buf size a children (omega arith))
      | yes lt ↦ elim (ℕ_discrete (load32 buf a) 0) [
        | yes last ↦ (children, no_inode fuel buf size a children lt last)
        | no ne ↦
            let rest =
              entries-total fuel buf size (a + load16 buf (a + 4)) (child_at buf a ∷ children)
                (λ b reached. lengths b (next a lt ne reached)) (omega arith)
                (omega (arith, lengths a first lt ne)) in
            (rest.0, step fuel buf size a children lt ne ∙ rest.1)
      ]
    ]

-- An entry with an inode and of length 0, before the end of the buffer, keeps the loop there: it
-- does not end with any fuel.
pub entries-stuck :
    (fuel : ℕ) (buf : Bytes) (size a : ℕ) (children : List Child)
    → a < sub32 size 1
    → load32 buf a ≢ 0
    → load16 buf (a + 4) ≡ 0
    → entries fuel buf size a children ≡ none
entries-stuck zero buf size a children lt ne empty = unfold entries in refl
entries-stuck (suc fuel) buf size a children lt ne empty =
    let here : a + load16 buf (a + 4) ≡ a = omega (arith, empty) in
    step fuel buf size a children lt ne
    ∙ rw here (entries-stuck fuel buf size a (child_at buf a ∷ children) lt ne empty)

-- In a file system of one block group no inode is ever allocated for a child: the search looks at
-- no group, whatever the device.
pub alloc_child_inode-one_group :
    (sb : Superblock) (d : Disk) → group_count sb ≡ 1 → alloc_child_inode sb 0 d ≡ (ok 0, d)
unfolding alloc_child_inode alloc_outward
alloc_child_inode-one_group sb d one = rw one refl
