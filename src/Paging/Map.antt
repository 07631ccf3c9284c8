-- ===== src/Paging/Map.antt =====
-- Mapping and unmapping a page change the address space at that page and nowhere else, where the
-- table of the page is there.
use muse.Base.{
  ℕ, ◌+◌, ◌/◌, ◌%◌, ◌^◌, ◌<◌, ◌≡◌, ◌≢◌, sym, ap, ◌∙◌, Bool, true, false, some, arith, ◌==◌, ◌&&◌,
  if◌then◌else◌, update, Bool-cases, ℕ_discrete, inl, inr,
}
use muse.Base.Bits.{bit_and_low_mask}
use muse.Paging.Entry.{is_present, is_user, set_addr, create_paging_entry}
use muse.Paging.Fields.{
  frame, is_present-mod, is_user-mod, set_addr-fields, create_paging_entry-fields, flag,
}
use muse.Paging.Walk.{dir, entry_at, Space, frame-ne-cr3, mapping, translate-tbl, load-dir}
use muse.Paging.{
  Machine, pg_tbl_idx, loopback_dir, loopback_tbl, word, translate, load, store,
  check_or_insert_table_structure, modify_or_insert_page_structure, map_page, unmap_page,
}

-- below the window of the recursive mapping
abbrev pub user_limit : ℕ
user_limit = 0xFFC0_0000

abbrev pub write_entry : Machine → ℕ → ℕ → ℕ → Machine
write_entry s i j e = record s { phys = update s.phys (entry_at s i j) e }

module _ {s : Machine} (sp : Space s) (i j e : ℕ) (hi : i < 1023) (hj : j < 1024) (he : e < 2 ^ 32)
    (here : is_present (dir s i) ≡ true) where
  not_directory : frame (dir s i) ≢ s.cr3
  not_directory = frame-ne-cr3 sp i hi here

  pub keeps_dir : (k : ℕ) → k < 1024 → dir (write_entry s i j e) k ≡ dir s k
  keeps_dir k h = ground (arith, not_directory, sp.aligned)

  pub write_entry-Space : Space (write_entry s i j e)
  write_entry-Space = record {
    on = sp.on;
    aligned = sp.aligned;
    words = λ a. ground (arith, sp.words a);
    self = rw (keeps_dir 1023 (omega arith)) sp.self;
    self_present = rw (keeps_dir 1023 (omega arith)) sp.self_present;
    tables = λ a b ha hb pa pb q.
        sp.tables a b ha hb (rw (← keeps_dir a ha) pa) (rw (← keeps_dir b hb) pb)
          (rw (← keeps_dir a ha, ← keeps_dir b hb) q);
  }

  pub write_entry-mapping :
      (w : ℕ)
      → w < user_limit
      → mapping (write_entry s i j e) w ≡ (
          if (w / 2 ^ 22 == i) && (w / 2 ^ 12 % 2 ^ 10 == j)
          then (if is_present e then frame e else 0)
          else mapping s w)
  unfolding mapping
  write_entry-mapping w h =
      let d = w / 2 ^ 22 in
      let x = w / 2 ^ 12 % 2 ^ 10 in
      rw (keeps_dir d (omega arith)) (elim (ℕ_discrete d i) [
        | yes q ↦ rw q (ground (arith, here))
        | no ne ↦ elim (Bool-cases (is_present (dir s d))) [
          | inl p ↦
              let apart : frame (dir s i) ≢ frame (dir s d) =
                λ q. ne (sym (sp.tables i d (omega arith) (omega arith) here p q)) in
              ground arith
          | inr p ↦ ground arith
        ]
      ])

-- The entry that `modify_or_insert_page_structure` writes over `old`.
abbrev pub new_entry : ℕ → ℕ → Bool → ℕ
new_entry old paddr user =
    if is_present old then set_addr old paddr else create_paging_entry paddr true true user

pub new_entry-fields :
    (old paddr : ℕ) (user : Bool)
    → old < 2 ^ 32
    → paddr < 2 ^ 32
    → (new_entry old paddr user < 2 ^ 32)
      × (frame (new_entry old paddr user) ≡ frame paddr)
      × (is_present (new_entry old paddr user) ≡ true)
      × (is_user (new_entry old paddr user) ≡ (if is_present old then is_user old else user))
new_entry-fields old paddr user ho hp = elim (Bool-cases (is_present old)) [
  | inl p ↦
      let e = set_addr old paddr in
      let value : e ≡ frame paddr + old % 2 ^ 12 = set_addr-fields old paddr hp in
      rw p (
        omega arith,
        omega arith,
        is_present-mod e ∙ ground (arith, is_present-mod old),
        is_user-mod e ∙ ground (arith, is_user-mod old),
      )
  | inr p ↦
      let e = create_paging_entry paddr true true user in
      let value : e ≡ frame paddr + flag true 1 + flag true 2 + flag user 4 =
        create_paging_entry-fields paddr true true user hp in
      rw p
        (ground arith, ground arith, is_present-mod e ∙ ground arith, is_user-mod e ∙ ground arith)
]

module _ {s : Machine} (sp : Space s) (v paddr : ℕ) (hv : v < user_limit) where
  abbrev pub top : ℕ
  top = v / 2 ^ 22

  abbrev pub mid : ℕ
  mid = v / 2 ^ 12 % 2 ^ 10

  -- The entry of the page, through the loopback table.
  at_entry : translate s (word (loopback_tbl top) (pg_tbl_idx v)) ≡ entry_at s top mid
  at_entry =
      ap (λ j. translate s (word (loopback_tbl top) j)) (bit_and_low_mask 10 (v / 2 ^ 12))
      ∙ translate-tbl sp top mid (omega arith) (omega arith)

  load_entry : load s (word (loopback_tbl top) (pg_tbl_idx v)) ≡ s.phys (entry_at s top mid)
  unfolding load
  load_entry = ap s.phys at_entry

  store_entry :
      (e : ℕ) → store s (word (loopback_tbl top) (pg_tbl_idx v)) e ≡ write_entry s top mid e
  unfolding store
  store_entry e = ap (λ a. record s { phys = update s.phys a e }) at_entry

  pub modify_lem :
      (user : Bool)
      → (modify_or_insert_page_structure s (loopback_tbl top) v paddr user).0
        ≡ write_entry s top mid (new_entry (s.phys (entry_at s top mid)) paddr user)
  unfolding modify_or_insert_page_structure
  modify_lem user = elim (Bool-cases (is_present (s.phys (entry_at s top mid)))) [
    | inl p ↦ rw (load_entry, p) (store_entry _)
    | inr p ↦ rw (load_entry, p) (store_entry _)
  ]

  check_present :
      (user : Bool)
      → is_present (dir s top) ≡ true
      → check_or_insert_table_structure s loopback_dir v user ≡ some (top, s)
  unfolding check_or_insert_table_structure
  check_present user here = rw (load-dir sp top (omega arith), here)

  pub map_page_present :
      is_present (dir s top) ≡ true
      → map_page s v paddr
        ≡ some (write_entry s top mid (new_entry (s.phys (entry_at s top mid)) paddr true))
  unfolding map_page
  map_page_present here = rw (check_present true here, map_page) (ap some (modify_lem true))

  pub unmap_page_present : is_present (dir s top) ≡ true → unmap_page s v ≡ write_entry s top mid 0
  unfolding unmap_page
  unmap_page_present here = rw (load-dir sp top (omega arith), here) (store_entry 0)

  pub unmap_page_absent : is_present (dir s top) ≡ false → unmap_page s v ≡ s
  unfolding unmap_page
  unmap_page_absent here = rw (load-dir sp top (omega arith), here)
