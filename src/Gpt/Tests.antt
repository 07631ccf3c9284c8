-- ===== src/Gpt/Tests.antt =====
-- A drive with a table of one entry.
use muse.Base.{◌+◌, ◌/◌, ◌*◌, ◌≡◌, refl, true, false, [], none, arith, ◌==◌, if◌then◌else◌, u32}
use muse.Malloc.{load32}
use muse.Disk.{Disk}
use muse.Gpt.{signature, begins, init_gpt}
use muse.Gpt.Table.{used_entries, init_gpt_lem}

abbrev drive : Disk
drive = record {
  bytes = λ a.
      if a == 512
      then b'E'
      else if a == 513
      then b'F'
      else if a == 592
      then 1
      else if a == 1040
      then 7
      else 0;
  fault = λ _ _ _. none;
}

init_gpt_lem_example : init_gpt drive ≡ (
    if begins drive.bytes 512 signature
    then (true, used_entries (u32 (load32 drive.bytes (512 + 80) + 3) / 4 * 4) drive.bytes 1024)
    else (false, []))
init_gpt_lem_example = init_gpt_lem drive (λ a. ground arith) (λ _ _ _. refl)
