-- ===== src/Paging/Tests.antt =====
-- A directory at 0x1000 with one table, at 0x2000, for its first entry.
use muse.Base.{ℕ, ◌<◌, ◌≡◌, refl, true, [], arith, ◌==◌, if◌then◌else◌, ◌||◌}
use muse.Paging.Entry.{is_present}
use muse.Paging.Fields.{is_present-mod}
use muse.Paging.Walk.{Space, mapping, get_page_mapping_lem, dir}
use muse.Paging.Address.{Remapped, unmap_page_lem}
use muse.Paging.{Machine, unmap_page, get_page_mapping}

abbrev memory : ℕ → ℕ
memory a = if a == 0x1000 then 0x2007 else if a == 0x1FFC then 0x1003 else 0

abbrev machine : Machine
machine = record { phys = memory; cr3 = 0x1000; enabled = true; regions = []; bitmaps = λ _. 0 }

present_only : (i : ℕ) → i < 1024 → is_present (dir machine i) ≡ true → (i == 0 || i == 1023) ≡ true
present_only i h p = ground (arith, is_present-mod (dir machine i))

space : Space machine
unfolding is_present
space = record {
  on = refl;
  aligned = refl;
  words = λ a. ground arith;
  self = refl;
  self_present = refl;
  tables = λ i j hi hj p q e. ground (arith, present_only i hi p, present_only j hj q);
}

get_page_mapping_lem_example : get_page_mapping machine 0x5000 ≡ mapping machine 0x5000
get_page_mapping_lem_example = get_page_mapping_lem space 0x5000 (omega arith)

unmap_page_lem_example : Remapped machine (unmap_page machine 0x5000) 0x5000 0
unmap_page_lem_example = unmap_page_lem 0x5000 space (omega arith)
