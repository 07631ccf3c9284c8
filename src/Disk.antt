-- ===== src/Disk.antt =====
-- Block devices as the file systems see them: `enum data_dir`, `enum hal_drive_res` and the calls
-- `bdev->transfer(bdev, lba, count, data, dir)` of src/common/ext2.c.
use muse.Base.{ℕ, ◌+◌, ◌*◌, ◌≡◌, ap, Option, none, some}
use muse.Base.Memory.{Bytes, blit}

pub data DataDir : Type 0 where
  dir_read dir_write : DataDir

-- `enum hal_drive_res`, but for DRV_SUCCESS
pub data DriveErr : Type 0 where
  no_drive no_supported_mode io_failed bad_args timeout : DriveErr

-- What a call returns: DRV_SUCCESS, with what it has written to its out parameters, or an error.
pub data Result {ℓ} (A : Type ℓ) : Type ℓ where
  ok : A → Result A
  err : DriveErr → Result A

-- A call that may change a state of type `S`; the state comes back with an error too.
abbrev pub Action {ℓ} : Type 0 → Type ℓ → Type ℓ
Action S A = S → Result A × S

module _ {S : Type 0} {A : Type 0} where
  abbrev pub pure : A → Action S A
  pure a s = (ok a, s)

  abbrev pub gets : (S → A) → Action S A
  gets f s = (ok (f s), s)

  -- `if (err) return 0;`
  abbrev pub returned : A → Result A × S → Result A × S
  returned a (ok b, s) = (ok b, s)
  returned a (err _, s) = (ok a, s)

  abbrev pub or_return : A → Action S A → Action S A
  or_return a m s = returned a (m s)

-- what follows a call goes on with its result, or passes its error on
abbrev pub continue : {S A B : Type 0} → (A → Action S B) → Result A × S → Result B × S
continue f (ok a, s) = f a s
continue f (err e, s) = (err e, s)

infixl 5 ◌>>=◌ ◌>>◌
abbrev pub ◌>>=◌ : {S A B : Type 0} → Action S A → (A → Action S B) → Action S B
◌>>=◌ m f s = continue f (m s)

abbrev pub ◌>>◌ : {S A B : Type 0} → Action S A → Action S B → Action S B
m >> k = m >>= λ _. k

-- A device's bytes, and which transfers it refuses, by direction, LBA and number of sectors.
pub record Disk : Type 0 where
  pub bytes : Bytes
  pub fault : DataDir → ℕ → ℕ → Option DriveErr

-- SECTOR_SIZE
abbrev pub sector_size : ℕ
sector_size = 512

-- memory that the allocator has just returned, which nothing reads before it is written
abbrev pub fresh : Bytes
fresh _ = 0

-- the bytes from `a` on
abbrev pub view : Bytes → ℕ → Bytes
view m a k = m (a + k)

-- The transfer of sectors that a device accepts: the buffer and the device after it.
unfoldable pub accepted : Disk → ℕ → ℕ → Bytes → DataDir → Bytes × Disk
accepted d lba count buf DataDir.dir_read =
    (blit buf 0 (count * sector_size) (view d.bytes (lba * sector_size)), d)
accepted d lba count buf DataDir.dir_write =
    (buf, record d { bytes = blit d.bytes (lba * sector_size) (count * sector_size) buf })

abbrev pub reply : Option DriveErr → Bytes × Disk → Disk → Result Bytes × Disk
reply none done d = (ok done.0, done.1)
reply (some e) done d = (err e, d)

-- a call of `bdev->transfer`: the buffer after it
unfoldable pub transfer : ℕ → ℕ → Bytes → DataDir → Action Disk Bytes
transfer lba count buf dir d = reply (d.fault dir lba count) (accepted d lba count buf dir) d

module _ (d : Disk) (lba count : ℕ) (buf : Bytes) (dir : DataDir) where
  pub transfer-ok :
      d.fault dir lba count ≡ none
      → transfer lba count buf dir d
        ≡ (ok (accepted d lba count buf dir).0, (accepted d lba count buf dir).1)
  unfolding transfer
  transfer-ok h = ap (λ f. reply f (accepted d lba count buf dir) d) h

  pub transfer-err :
      {e : DriveErr} → d.fault dir lba count ≡ some e → transfer lba count buf dir d ≡ (err e, d)
  unfolding transfer
  transfer-err h = ap (λ f. reply f (accepted d lba count buf dir) d) h
