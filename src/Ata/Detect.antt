-- ===== src/Ata/Detect.antt =====
-- The detection of drives in src/common/ata.c. A function's `return` without a drive is `none`.
use muse.Base.{
  ℕ, zero, suc, ◌+◌, ◌*◌, ◌^◌, bit_and, bit_or, true, Option, none, some, List, [], ◌∷◌, ◌++◌, ◌==◌,
  if◌then◌else◌, u32,
}
use muse.Disk.{DriveErr.{timeout}, Action, pure, or_return, ◌>>=◌, ◌>>◌}
use muse.Ata.{
  Ports, AtaDev, Io, max_polls, reg_sect_cnt, reg_drive, reg_stat, flag_bsy, flag_err, flag_drq,
  has, in_byte, out_byte, in_word, fail, detect_float, wait_while,
}

module _ {S : Type 0} (ports : Ports S) where
  -- the loop that clears the registers, with `left` registers left
  pub clear_registers : ℕ → ℕ → Action (Io S) (Unit {0})
  clear_registers zero port = pure tt
  clear_registers (suc left) port = do out_byte ports port 0; clear_registers left (port + 1)

  -- The loop until data or an error is there, with `left` polls left.
  pub wait_ready : ℕ → ℕ → Action (Io S) (Unit {0})
  wait_ready zero bus = fail ports timeout
  wait_ready (suc left) bus = do
    let rest = wait_ready left bus
    status ← in_byte ports (bus + reg_stat)
    if has status flag_drq then pure tt else (do
      again ← in_byte ports (bus + reg_stat)
      if has again flag_err then pure tt else rest)

  -- `lba_28_sector_count` with its upper half
  pub high_count : ℕ → AtaDev → AtaDev
  high_count count dev = record dev {
    lba_28_sector_count = count;
    lba28 = if count == 0 then dev.lba28 else true;
  }

  -- what word `i` of the drive's identification sets
  pub identify_word : ℕ → ℕ → AtaDev → AtaDev
  identify_word i word dev =
      if i == 83
      then record dev { lba48 = if has word 0x400 then true else dev.lba48 }
      else if i == 60
      then record dev { lba_28_sector_count = word }
      else if i == 61
      then high_count (bit_or dev.lba_28_sector_count (u32 (word * 2 ^ 16))) dev
      else dev

  -- the loop over the identification, with `left` words left from word `i` on
  pub identify : ℕ → ℕ → ℕ → AtaDev → Action (Io S) AtaDev
  identify zero bus i dev = pure dev
  identify (suc left) bus i dev = do
    word ← in_word ports bus
    identify left bus (i + 1) (identify_word i word dev)

  -- the rest of `detect_drive` after the waits; `garbage` is the memory of the new `struct ata_dev`
  pub register_drive : ℕ → ℕ → AtaDev → Action (Io S) (Option AtaDev)
  register_drive bus drive garbage = do
    status ← in_byte ports (bus + reg_stat)
    if has status 1 then pure none else (do
      dev ← identify 256 bus 0 (record garbage { bus = bus; drive = drive })
      control ← in_byte ports (bus + 0)
      out_byte ports (bus + 0) (bit_or control 0x02)
      pure (some dev))

  -- `if (inb(..LBA_MID) || inb(..LBA_HI)) return;`, and what follows
  pub check_signature : ℕ → ℕ → AtaDev → Action (Io S) (Option AtaDev)
  check_signature bus drive garbage = do
    mid ← in_byte ports (bus + 4)
    high ← (if mid == 0 then in_byte ports (bus + 5) else pure mid)
    if high == 0
        then or_return none (do wait_ready (max_polls + 1) bus; register_drive bus drive garbage)
        else pure none

  pub detect_drive : ℕ → ℕ → AtaDev → Action (Io S) (Option AtaDev)
  detect_drive bus drive garbage = do
    out_byte ports (bus + reg_drive) drive
    clear_registers 4 (bus + reg_sect_cnt)
    out_byte ports (bus + reg_stat) 0xEC
    status ← in_byte ports (bus + reg_stat)
    if status == 0
        then pure none
        else or_return none
            (do wait_while ports (max_polls + 1) bus flag_bsy; check_signature bus drive garbage)

  abbrev pub found : Option AtaDev → List AtaDev
  found none = []
  found (some dev) = dev ∷ []

  -- `detect_bus`: the drives found, ATA_DRIVE_MASTER first
  pub detect_bus : ℕ → AtaDev → Action (Io S) (List AtaDev)
  detect_bus bus garbage = do
    float ← detect_float ports bus
    if float then pure [] else (do
      master ← detect_drive bus 0xA0 garbage
      slave ← detect_drive bus 0xB0 garbage
      pure (found master ++ found slave))

  -- `init_ata`, for a controller with this `prog_if`
  pub init_ata : ℕ → AtaDev → Action (Io S) (List AtaDev)
  init_ata prog_if garbage = do
    primary ← (if bit_and prog_if 1 == 0 then detect_bus 0x1F0 garbage else pure [])
    secondary ← (if bit_and prog_if 4 == 0 then detect_bus 0x170 garbage else pure [])
    pure (primary ++ secondary)
