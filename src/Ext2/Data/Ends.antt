-- ===== src/Ext2/Data/Ends.antt =====
-- That the loop of `ext2_transfer` ends, whatever the device refuses.
use muse.Base.{
  ℕ, zero, suc, ◌+◌, ◌-◌, ◌*◌, ◌^◌, ◌≤◌, ◌<◌, ◌≡◌, ◌≢◌, ◌⊎◌, inl, inr, refl, Bool, true, false,
  Option, some, arith, ◌==◌, if◌then◌else◌, u32, ℕ_discrete, ==_refl, dec_lt, lt→ltb, ltb-ff,
}
use muse.Base.Memory.{Bytes}
use muse.Disk.{DataDir, DataDir.{}, Result, ok, err}
use muse.Ext2.{Superblock, block_size}
use muse.Ext2.Data.{Open, Progress, after_copy, after_read, chunk, round, rounds}

-- what a round of `cnt` bytes does to the number of bytes
abbrev pub Written : ℕ → ℕ → Progress → Bool × Progress → Type 0
Written len cnt p r =
    ((r.0 ≡ false) × (r.1.written ≡ p.written))
    ⊎ ((r.1.written ≡ u32 (p.written + cnt)) × ((r.0 ≡ false) ⊎ (u32 (p.written + cnt) ≢ len)))

stops_or_not : (n len : ℕ) → ((if n == len then false else true) ≡ false) ⊎ (n ≢ len)
stops_or_not n len = elim (ℕ_discrete n len) [
  | yes e ↦ inl (rw (e, ==_refl len) refl)
  | no ne ↦ inr ne
]

after_copy-Written :
    (len cnt : ℕ) (p : Progress) (r : Result Bytes × Open)
    → Written len cnt p (after_copy len cnt p r)
unfolding after_copy
after_copy-Written len cnt p (ok buffer, o) = inr (refl, stops_or_not (u32 (p.written + cnt)) len)
after_copy-Written len cnt p (err e, o) = inl (refl, refl)

module _ (sb : Superblock) (inode_i end len : ℕ) (dir : DataDir) where
  after_read-Written :
      (block block_end skip : ℕ) (p : Progress) (r : Result Bytes × Open)
      → Written len
          (chunk sb end block_end skip)
          p
          (after_read sb inode_i end len dir block block_end skip p r)
  unfolding after_read
  after_read-Written block block_end skip p (err e, o) = inl (refl, refl)
  after_read-Written block block_end skip p (ok bfr, o) =
      after_copy-Written len (chunk sb end block_end skip) p _

  round-Written :
      (block block_end skip : ℕ) (p : Progress)
      → Written len
          (chunk sb end block_end skip)
          p
          (round sb inode_i end len dir block block_end skip p)
  unfolding round
  round-Written block block_end skip p = after_read-Written block block_end skip p _

-- A round copies what is left of the block, or of the transfer if that is less.
chunk-rest :
    (sb : Superblock) (offset len w block_end skip : ℕ)
    → offset + w + block_size sb ≡ block_end + skip
    → skip < block_size sb
    → w ≤ len
    → offset + len + block_size sb < 2 ^ 32
    → ((offset + len < block_end) × (chunk sb (offset + len) block_end skip ≡ len - w))
      ⊎ ((block_end ≤ offset + len)
          × (chunk sb (offset + len) block_end skip ≡ block_size sb - skip))
unfolding chunk
chunk-rest sb offset len w block_end skip at skip_lt le fits =
    elim (dec_lt (offset + len) block_end) [
      | yes lt ↦ inl (lt, rw (lt→ltb _ _ lt) (omega (arith, at, skip_lt, le, fits, lt)))
      | no ge ↦ inr (
        omega (arith, ge),
        rw (ltb-ff (offset + len) block_end (omega (arith, ge))) (omega (arith, skip_lt, fits)),
      )
    ]

-- The loop ends with no more than `len` bytes.
abbrev pub EndsWithin : ℕ → Option Progress → Type 0
EndsWithin len r = (q : Progress) × (r ≡ some q) × (q.written ≤ len)

either_way :
    (len : ℕ) (goes_on : Bool) (rest : Option Progress) (q : Progress)
    → (goes_on ≡ true → EndsWithin len rest)
    → q.written ≤ len
    → EndsWithin len (if goes_on then rest else some q)
either_way len true rest q more le = more refl
either_way len false rest q more le = (q, refl, le)

pub rounds-EndsWithin :
    (fuel : ℕ) (sb : Superblock) (inode_i offset len : ℕ) (dir : DataDir) (block block_end skip : ℕ)
    (p : Progress)
    → offset + p.written + block_size sb ≡ block_end + skip
    → skip < block_size sb
    → p.written ≤ len
    → offset + len + block_size sb < 2 ^ 32
    → offset + len + block_size sb < block_end + fuel * block_size sb
    → EndsWithin len (rounds fuel sb inode_i (offset + len) len dir block block_end skip p)
unfolding rounds
rounds-EndsWithin zero sb inode_i offset len dir block block_end skip p at skip_lt le fits enough =
    absurd (omega (arith, at, skip_lt, le, enough))
rounds-EndsWithin (suc fuel) sb inode_i offset len dir block block_end skip p at skip_lt le fits
      enough =
    let r = round sb inode_i (offset + len) len dir block block_end skip p in
    let cnt = chunk sb (offset + len) block_end skip in
    let product : suc fuel * block_size sb ≡ fuel * block_size sb + block_size sb = grind arith in
    let chunks = chunk-rest sb offset len p.written block_end skip at skip_lt le fits in
    let inside : p.written + cnt ≤ len = elim chunks [
      | inl (lt, e) ↦ omega (arith, e, le)
      | inr (ge, e) ↦ omega (arith, e, ge, at, skip_lt)
    ] in
    elim (round-Written sb inode_i (offset + len) len dir block block_end skip p) [
      | inl (stop, same) ↦
          either_way len r.0 _ r.1 (λ on. absurd (cc (stop, on))) (omega (arith, same, le))
      | inr (counted, inl stop) ↦
          either_way len r.0 _ r.1 (λ on. absurd (cc (stop, on)))
            (omega (arith, counted, inside, fits))
      | inr (counted, inr more) ↦
          let number : r.1.written ≡ p.written + cnt = omega (arith, counted, inside, fits) in
          either_way len r.0 _ r.1
            (λ on. elim chunks [
              | inl (lt, e) ↦ absurd (more (omega (arith, e, le, fits)))
              | inr (ge, e) ↦
                  let next : u32 (block_end + block_size sb) ≡ block_end + block_size sb =
                    omega (arith, ge, fits) in
                  rw next (
                    rounds-EndsWithin fuel sb inode_i offset len dir (u32 (block + 1))
                      (block_end + block_size sb) 0 r.1 (omega (arith, number, e, at, skip_lt))
                      (omega (arith, skip_lt)) (omega (arith, number, inside)) fits
                      (omega (arith, enough, product)))
            ])
            (omega (arith, number, inside))
    ]
