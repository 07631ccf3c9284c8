-- ===== src/Ata.antt =====
-- The ATA driver, src/common/ata.c. The controller is a parameter: a state, with the port
-- instructions `inb`, `outb`, `inw` and `outw` on it. A call's state is the controller's and the
-- caller's buffer of 16-bit words. `init_gpt` and the messages are left out.
mod Tests
pub mod Detect
pub mod Words
use muse.Base.{
  ℕ, zero, suc, ◌+◌, ◌-◌, ◌*◌, bit_and, bit_or, Bool, true, false, ◌||◌, Option, none, some, ltb,
  leb, ◌==◌, if◌then◌else◌, not, u8, u16, u32, shr, update,
}
use muse.Disk.{
  DataDir,
  DataDir.{dir_read, dir_write},
  DriveErr,
  DriveErr.{io_failed, bad_args, timeout, no_supported_mode},
  Result,
  ok,
  err,
  Action,
  pure,
  ◌>>=◌,
  ◌>>◌,
}
use muse.Gpt.{Partition}

-- the port instructions, on the controller's state
pub record Ports (S : Type 0) : Type 0 where
  pub inb : ℕ → S → ℕ × S
  pub outb : ℕ → ℕ → S → S
  pub inw : ℕ → S → ℕ × S
  pub outw : ℕ → ℕ → S → S

-- `struct ata_dev`
pub record AtaDev : Type 0 where
  pub bus : ℕ
  pub drive : ℕ
  pub lba_28_sector_count : ℕ
  pub lba28 : Bool
  pub lba48 : Bool

-- MAX_POLLS
abbrev pub max_polls : ℕ
max_polls = 10000000

-- the registers, from `bus` on, and the flags of the status register
abbrev pub reg_sect_cnt : ℕ
reg_sect_cnt = 2

abbrev pub reg_drive : ℕ
reg_drive = 6

abbrev pub reg_stat : ℕ
reg_stat = 7

abbrev pub flag_bsy : ℕ
flag_bsy = 0x80

abbrev pub flag_err : ℕ
flag_err = 0x01

abbrev pub flag_drive_flt : ℕ
flag_drive_flt = 0x20

abbrev pub flag_drq : ℕ
flag_drq = 0x08

-- a flag of a status
abbrev pub has : ℕ → ℕ → Bool
has status flags = not (bit_and status flags == 0)

-- the controller and the caller's buffer
pub record Io (S : Type 0) : Type 0 where
  pub hw : S
  pub words : ℕ → ℕ

module _ {S : Type 0} (ports : Ports S) where
  abbrev pub in_byte : ℕ → Action (Io S) ℕ
  in_byte port io = let (v, hw) = ports.inb port io.hw in (ok v, record io { hw = hw })

  abbrev pub out_byte : ℕ → ℕ → Action (Io S) (Unit {0})
  out_byte port v io = (ok tt, record io { hw = ports.outb port (u8 v) io.hw })

  abbrev pub in_word : ℕ → Action (Io S) ℕ
  in_word port io = let (v, hw) = ports.inw port io.hw in (ok v, record io { hw = hw })

  abbrev pub out_word : ℕ → ℕ → Action (Io S) (Unit {0})
  out_word port v io = (ok tt, record io { hw = ports.outw port v io.hw })

  abbrev pub fail : {A : Type 0} → DriveErr → Action (Io S) A
  fail e io = (err e, io)

  pub detect_float : ℕ → Action (Io S) Bool
  detect_float bus = do status ← in_byte (bus + reg_stat); pure (status == 0xFF)

  -- The loop of `poll_data`, with `left` polls left.
  pub poll : ℕ → ℕ → Action (Io S) (Unit {0})
  poll zero bus = fail timeout
  poll (suc left) bus = do
    let rest = poll left bus
    status ← in_byte (bus + reg_stat)
    if has status flag_bsy
        then rest
        else if has status flag_err || has status flag_drive_flt
        then fail io_failed
        else if has status flag_drq
        then pure tt
        else rest

  pub poll_data : AtaDev → Action (Io S) (Unit {0})
  poll_data dev = poll (max_polls - 1) dev.bus

  -- A loop that reads the status while one of `flags` is set, with `left` polls left.
  pub wait_while : ℕ → ℕ → ℕ → Action (Io S) (Unit {0})
  wait_while zero bus flags = fail timeout
  wait_while (suc left) bus flags = do
    let rest = wait_while left bus flags
    status ← in_byte (bus + reg_stat)
    if has status flags then rest else pure tt

  -- `n` reads of the status
  pub read_status : ℕ → ℕ → Action (Io S) (Unit {0})
  read_status zero bus = pure tt
  read_status (suc n) bus = do in_byte (bus + reg_stat); read_status n bus

  pub delay_400ns : AtaDev → Action (Io S) (Unit {0})
  delay_400ns dev = read_status 15 dev.bus

  pub select_region : AtaDev → ℕ → ℕ → Action (Io S) (Unit {0})
  select_region dev lba sector_count = do
    wait_while max_polls dev.bus (bit_or flag_bsy flag_drq)
    out_byte (dev.bus + reg_drive) (bit_or (bit_or dev.drive (bit_and (shr lba 24) 0xf)) 0xE0)
    delay_400ns dev
    error ← in_byte (dev.bus + 1)
    status ← in_byte (dev.bus + reg_stat)
    if bit_or error (bit_and status (bit_or flag_bsy flag_drq)) == 0
        then (do
          out_byte (dev.bus + reg_sect_cnt) sector_count
          out_byte (dev.bus + 3) lba
          out_byte (dev.bus + 4) (shr lba 8)
          out_byte (dev.bus + 5) (shr lba 16))
        else fail io_failed

  pub flush_cache : AtaDev → Action (Io S) (Unit {0})
  flush_cache dev = do out_byte (dev.bus + reg_stat) 0xE7; wait_while max_polls dev.bus flag_bsy

  -- a word of the data register, to or from word `k` of the buffer
  pub move_word : AtaDev → DataDir → ℕ → Action (Io S) (Unit {0})
  move_word dev dir_read k io =
      let (v, hw) = ports.inw dev.bus io.hw in
      (ok tt, record { hw = hw; words = update io.words k v })
  move_word dev dir_write k io = out_word dev.bus (io.words k) io

  -- the loop over the words, with `left` words left from word `k` on
  pub move_words : ℕ → AtaDev → DataDir → ℕ → Action (Io S) (Unit {0})
  move_words zero dev dir k = pure tt
  move_words (suc left) dev dir k = do move_word dev dir k; move_words left dev dir (k + 1)

  -- the loop over the sectors, with `left` sectors left from sector `i` on
  pub move_sectors : ℕ → AtaDev → DataDir → ℕ → Action (Io S) (Unit {0})
  move_sectors zero dev dir i = pure tt
  move_sectors (suc left) dev dir i = do
    poll_data dev
    move_words 256 dev dir (i * 256)
    delay_400ns dev
    move_sectors left dev dir (i + 1)

  abbrev pub command : DataDir → ℕ
  command dir_read = 0x20
  command dir_write = 0x30

  -- `ata_transfer` once its arguments are accepted
  pub run_transfer : AtaDev → ℕ → ℕ → DataDir → Action (Io S) (Unit {0})
  run_transfer dev lba sector_count dir = do
    select_region dev lba sector_count
    out_byte (dev.bus + reg_stat) (command dir)
    read_status 4 dev.bus
    move_sectors sector_count dev dir 0
    flush_cache dev
    status ← in_byte (dev.bus + reg_stat)
    if has status (bit_or flag_err flag_drive_flt) then fail io_failed else pure tt

  -- `ata_transfer`, for a number of sectors below 256
  pub ata_transfer : AtaDev → Partition → ℕ → ℕ → DataDir → Action (Io S) (Unit {0})
  ata_transfer dev part lba_offset sector_count dir =
      let lba = u32 (lba_offset + part.start) in
      if leb part.limit lba
      then fail bad_args
      else if dev.lba28
      then run_transfer dev lba sector_count dir
      else fail no_supported_mode
