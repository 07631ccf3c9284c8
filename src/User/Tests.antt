-- ===== src/User/Tests.antt =====
-- User pointers in an address space with one user page, at 0x5000, and an open call.
use muse.Base.{
  ℕ, ◌+◌, ◌-◌, ◌^◌, ◌<◌, ◌≡◌, ◌≢◌, ◌⊎◌, refl, true, false, none, some, [], replicate, arith, ◌==◌,
  if◌then◌else◌, u32,
}
use muse.Base.Memory.{Bytes}
use muse.Paging.Entry.{is_present, is_user}
use muse.Paging.{Machine, is_mapped, check_user, get_page_entry, load, translate}
use muse.User.{
  Process, no_file, file, align_pg_down, align_pg_up, scan_string, clean_string, clean_data,
  syscall_open, minus_one,
}
use muse.User.Pointers.{AllUser, Foreign, UserString, clean_data_lem, clean_string-UserString}
use muse.User.Descriptors.{Opened, syscall_open_lem}

abbrev memory : ℕ → ℕ
memory a =
    if a == 0x1000
    then 0x2007
    else if a == 0x1FFC
    then 0x1003
    else if a == 0x2014
    then 0x5007
    else 0

abbrev machine : Machine
machine = record { phys = memory; cr3 = 0x1000; enabled = true; regions = []; bitmaps = λ _. 0 }

abbrev bytes : Bytes
bytes a = if a == 0x5010 then b'a' else 0

clean_data_lem_example :
    ((clean_data 4 machine 0x5000 8 ≡ some 0x5000)
      × AllUser machine (align_pg_down 0x5000) (0x5000 + 8))
    ⊎ (((clean_data 4 machine 0x5000 8 ≡ some 0)
          × Foreign machine (align_pg_down 0x5000) (align_pg_up (0x5000 + 8)) (some false))
        ⊎ ((clean_data 4 machine 0x5000 8 ≡ none)
            × Foreign machine (align_pg_down 0x5000) (align_pg_up (0x5000 + 8)) none))
clean_data_lem_example = clean_data_lem 4 machine 0x5000 8 (omega arith) (omega arith)

top_refused : check_user machine (2 ^ 32 - 4096) ≢ some true
unfolding check_user is_mapped get_page_entry load translate is_present is_user
top_refused e = absurd (cc e)

accepted : clean_string 5 machine bytes 0x5010 ≡ some 0x5010
unfolding clean_string scan_string check_user is_mapped get_page_entry load translate is_present
    is_user
accepted = refl

abbrev string_at : ℕ
string_at = 0x5010

clean_string-UserString_example : (string_at ≡ string_at) × UserString machine bytes string_at
clean_string-UserString_example =
    clean_string-UserString 5 machine bytes string_at string_at top_refused (omega arith) accepted
      (λ e. ground arith)

abbrev process : Process
process = record {
  files = replicate 16 no_file;
  limit = 0x6000;
  inodes = λ _. record { present = true; refs = 1; size = 9; backend_data = 0 };
  machine = machine;
}

syscall_open_lem_example :
    ((fd : ℕ) × (q : Process) × (syscall_open (λ p i. p) (λ a. 0x100) process 0x5010 4 ≡ (q, fd))
      × Opened process q 0x100 4 fd)
    ⊎ ((q : Process) × (syscall_open (λ p i. p) (λ a. 0x100) process 0x5010 4 ≡ (q, minus_one))
        × (q.files ≡ process.files)
        × ((q.inodes 0x100).refs ≡ u32 (1 + 1))
        × ((j : ℕ) → j < 16 → (file process j).mode ≢ 0))
syscall_open_lem_example =
    syscall_open_lem (λ p i. p) (λ a. 0x100) process 0x5010 4 refl (λ e. ground arith)
      (λ e. ground arith) (omega arith) refl
