-- ===== src/User/Descriptors.antt =====
-- The descriptors that `syscall_open` of src/kernel/syscall.c hands out.
use muse.Base.{
  ℕ, zero, suc, ◌+◌, ◌≤◌, ◌<◌, ◌≡◌, ◌≢◌, ◌⊎◌, inl, inr, refl, sym, bit_and, none, some, List, arith,
  ◌==◌, ==_ne, if◌then◌else◌, u8, u32, get_or, length, update, ℕ_discrete, get_or-set_self,
  get_or-set_ne,
}
use muse.User.{
  Process, File, no_file, file, set_file, free_descriptor, syscall_open, mode_append, mode_truncate,
  minus_one,
}

free_descriptor_lem :
    (left : ℕ) (files : List File) (i : ℕ)
    → ((k : ℕ) × (free_descriptor left files i ≡ some k)
        × (i ≤ k)
        × (k < i + left)
        × ((get_or files k no_file).mode ≡ 0)
        × ((j : ℕ) → i ≤ j → j < k → (get_or files j no_file).mode ≢ 0))
      ⊎ ((free_descriptor left files i ≡ none)
          × ((j : ℕ) → i ≤ j → j < i + left → (get_or files j no_file).mode ≢ 0))
unfolding free_descriptor
free_descriptor_lem zero files i = inr (refl, λ j a b. absurd (omega arith))
free_descriptor_lem (suc left) files i = elim (ℕ_discrete (get_or files i no_file).mode 0) [
  | yes z ↦ inl (i, ground arith, omega arith, omega arith, z, λ j a b. absurd (omega arith))
  | no nz ↦ elim (free_descriptor_lem left files (i + 1)) [
    | inl h ↦ inl (
      h.0,
      ground (arith, h.1),
      omega (arith, h.2),
      omega (arith, h.3),
      h.4,
      λ j a b. ground (arith, h.5 j),
    )
    | inr h ↦ inr (ground (arith, h.0), λ j a b. ground (arith, h.1 j))
  ]
]

-- `q` is `p` with the lowest free descriptor `fd` open on the inode.
pub record Opened (p q : Process) (inode mode fd : ℕ) : Type 0 where
  pub below : fd < 16
  pub was_free : (file p fd).mode ≡ 0
  pub lowest : (j : ℕ) → j < fd → (file p j).mode ≢ 0
  pub opened : file q fd ≡ record {
    inode = inode;
    pos = if bit_and mode mode_append == 0 then 0 else (p.inodes inode).size;
    mode = mode;
  }
  pub others : (j : ℕ) → j ≢ fd → file q j ≡ file p j
  pub counted : (q.inodes inode).refs ≡ u32 ((p.inodes inode).refs + 1)

-- `syscall_open` without truncation, on a path and an inode that are not null: it returns the
-- lowest free descriptor, open on the inode at position 0 or, to append, at its size, with the
-- other descriptors as they were. If none is free it returns -1 and leaves the descriptors as
-- they were. In both cases the inode counts one more reference.
pub syscall_open_lem :
    (truncate : Process → ℕ → Process) (vfs_open : ℕ → ℕ) (p : Process) (path mode : ℕ)
    → length p.files ≡ 16
    → path ≢ 0
    → vfs_open path ≢ 0
    → mode < 256
    → bit_and mode mode_truncate ≡ 0
    → ((fd : ℕ) × (q : Process) × (syscall_open truncate vfs_open p path mode ≡ (q, fd))
        × Opened p q (vfs_open path) mode fd)
      ⊎ ((q : Process) × (syscall_open truncate vfs_open p path mode ≡ (q, minus_one))
          × (q.files ≡ p.files)
          × ((q.inodes (vfs_open path)).refs ≡ u32 ((p.inodes (vfs_open path)).refs + 1))
          × ((j : ℕ) → j < 16 → (file p j).mode ≢ 0))
unfolding syscall_open
syscall_open_lem truncate vfs_open p path mode len pz iz small keep =
    let inode = vfs_open path in
    let node = p.inodes inode in
    let counted : Process = record p {
      inodes = update p.inodes inode (record node { refs = u32 (node.refs + 1) });
    } in
    let one : (counted.inodes inode).refs ≡ u32 (node.refs + 1) = ground arith in
    let byte : u8 mode ≡ mode = omega arith in
    elim (free_descriptor_lem 16 p.files 0) [
      | inl h ↦
          let f : File = record {
            inode = inode;
            pos = if bit_and mode mode_append == 0 then 0 else node.size;
            mode = mode;
          } in
          inl (
            h.0,
            set_file counted h.0 f,
            rw (==_ne path 0 pz, ==_ne inode 0 iz, h.1, byte, keep) (refl),
            record {
              below = omega (arith, h.3);
              was_free = h.4;
              lowest = λ j q. h.5 j (omega arith) q;
              opened = get_or-set_self p.files h.0 f no_file (omega (arith, h.3));
              others = λ j ne. get_or-set_ne p.files h.0 j f no_file (λ e. ne (sym e));
              counted = one;
            },
          )
      | inr h ↦ inr (
        counted,
        rw (==_ne path 0 pz, ==_ne inode 0 iz, h.0) (refl),
        refl,
        one,
        λ j q. h.1 j (omega arith) (omega arith),
      )
    ]
