-- ===== src/Ata/Tests.antt =====
-- A controller whose data register counts up.
use muse.Base.{ℕ, ◌≡◌, suc, true}
use muse.Base.Memory.{blit}
use muse.Disk.{DataDir.{dir_read}, ok}
use muse.Ata.{Ports, AtaDev, Io, move_words}
use muse.Ata.Words.{after_reads, nth_word, move_words-read}

abbrev counting : Ports ℕ
counting = record {
  inb = λ _ s. (0x58, s);
  outb = λ _ _ s. s;
  inw = λ _ s. (s, suc s);
  outw = λ _ _ s. s;
}

abbrev disk_drive : AtaDev
disk_drive = record {
  bus = 0x1F0;
  drive = 0xA0;
  lba_28_sector_count = 1000;
  lba28 = true;
  lba48 = true;
}

abbrev idle : Io ℕ
idle = record { hw = 5; words = λ _. 0 }

move_words-read_example : move_words counting 256 disk_drive dir_read 0 idle ≡ (
  ok tt,
  record {
    hw = after_reads counting disk_drive 256 idle.hw;
    words = blit idle.words 0 256 (λ i. nth_word counting disk_drive i idle.hw);
  },
)
move_words-read_example = move_words-read counting disk_drive 256 0 idle
