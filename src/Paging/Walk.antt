-- ===== src/Paging/Walk.antt =====
-- What the recursive mapping gives access to: the directory and every table it points to.
use muse.Base.{
  ℕ, ◌+◌, ◌*◌, ◌/◌, ◌%◌, ◌^◌, ◌<◌, ◌≡◌, ◌≢◌, sym, false, ap, ◌∙◌, bit_and, true, arith,
  if◌then◌else◌,
}
use muse.Base.Bits.{bit_and_low_mask}
use muse.Paging.Entry.{addr_mask, is_present}
use muse.Paging.Fields.{frame, addr_mask-frame}
use muse.Paging.{
  Machine, loopback_dir, loopback_tbl, word, translate, load, get_page_entry, get_page_mapping,
}

-- entry `i` of the directory
abbrev pub dir : Machine → ℕ → ℕ
dir s i = s.phys (word s.cr3 i)

-- where entry `j` of the table of directory entry `i` lies
abbrev pub entry_at : Machine → ℕ → ℕ → ℕ
entry_at s i j = word (frame (dir s i)) j

-- The address space is well formed: the last directory entry maps the directory itself, and
-- no two present entries share a table.
pub record Space (s : Machine) : Type 0 where
  pub on : s.enabled ≡ true
  pub aligned : s.cr3 % 2 ^ 12 ≡ 0
  pub words : (a : ℕ) → s.phys a < 2 ^ 32
  pub self : frame (dir s 1023) ≡ s.cr3
  pub self_present : is_present (dir s 1023) ≡ true
  pub tables :
      (i j : ℕ)
      → i < 1024
      → j < 1024
      → is_present (dir s i) ≡ true
      → is_present (dir s j) ≡ true
      → frame (dir s i) ≡ frame (dir s j)
      → i ≡ j

-- What a directory entry `e` maps for table index `j`: a frame, 0 if there is none.
unfoldable pub view : ℕ → (ℕ → ℕ) → ℕ → ℕ
view e phys j =
    if is_present e
    then (let x = phys (word (frame e) j) in if is_present x then frame x else 0)
    else 0

pub view_absent : (e j : ℕ) (p : ℕ → ℕ) → is_present e ≡ false → view e p j ≡ 0
unfolding view
view_absent e j p h = rw h

pub view_zero : (e j : ℕ) (p : ℕ → ℕ) → p (word (frame e) j) ≡ 0 → view e p j ≡ 0
unfolding view is_present
view_zero e j p h = rw h (ground arith)

pub view_same :
    (e j : ℕ) (p q : ℕ → ℕ) → p (word (frame e) j) ≡ q (word (frame e) j) → view e p j ≡ view e q j
unfolding view
view_same e j p q h = rw h

-- The abstract view: the frame that page `v` is mapped to, 0 if there is none.
unfoldable pub mapping : Machine → ℕ → ℕ
unfolding view
mapping s v = view (dir s (v / 2 ^ 22)) s.phys (v / 2 ^ 12 % 2 ^ 10)

pub mapping_absent :
    (s : Machine) (w : ℕ) → is_present (dir s (w / 2 ^ 22)) ≡ false → mapping s w ≡ 0
unfolding mapping
mapping_absent s w h = rw h

-- A present table below the last entry is not the directory.
pub frame-ne-cr3 :
    {s : Machine} (sp : Space s) (i : ℕ)
    → i < 1023
    → is_present (dir s i) ≡ true
    → frame (dir s i) ≢ s.cr3
frame-ne-cr3 sp i hi here q = absurd (
    omega
      (arith, sp.tables i 1023 (omega arith) (omega arith) here sp.self_present (q ∙ sym sp.self)))

module _ {s : Machine} (sp : Space s) where
  pub translate-walk :
      (v : ℕ)
      → translate s v ≡ frame (s.phys (entry_at s (v / 2 ^ 22) (v / 2 ^ 12 % 2 ^ 10))) + v % 2 ^ 12
  unfolding translate
  translate-walk v =
      let d = dir s (v / 2 ^ 22) in
      let j = v / 2 ^ 12 % 2 ^ 10 in
      let e = s.phys (word (frame d) j) in
      let table : bit_and d addr_mask ≡ frame d = addr_mask-frame d (sp.words _) in
      let page : bit_and e addr_mask ≡ frame e = addr_mask-frame e (sp.words _) in
      rw (sp.on, table, bit_and_low_mask 10 (v / 2 ^ 12), page)

  pub translate-dir : (i : ℕ) → i < 1024 → translate s (word loopback_dir i) ≡ word s.cr3 i
  translate-dir i h =
      let v = word loopback_dir i in
      let top : v / 2 ^ 22 ≡ 1023 = omega arith in
      let mid : v / 2 ^ 12 % 2 ^ 10 ≡ 1023 = omega arith in
      let low : v % 2 ^ 12 ≡ 4 * i = omega arith in
      translate-walk v ∙ rw (top, mid, low, sp.self, sp.self)

  pub translate-tbl :
      (k j : ℕ) → k < 1024 → j < 1024 → translate s (word (loopback_tbl k) j) ≡ entry_at s k j
  translate-tbl k j hk hj =
      let v = word (loopback_tbl k) j in
      let top : v / 2 ^ 22 ≡ 1023 = omega arith in
      let mid : v / 2 ^ 12 % 2 ^ 10 ≡ k = omega arith in
      let low : v % 2 ^ 12 ≡ 4 * j = omega arith in translate-walk v ∙ rw (top, mid, low, sp.self)

  pub get_page_entry_lem :
      (v : ℕ)
      → v < 2 ^ 32
      → get_page_entry s v ≡ s.phys (entry_at s (v / 2 ^ 22) (v / 2 ^ 12 % 2 ^ 10))
  unfolding get_page_entry load
  get_page_entry_lem v h = ap s.phys (
      ap (λ j. translate s (word (loopback_tbl (v / 2 ^ 22)) j)) (bit_and_low_mask 10 (v / 2 ^ 12))
      ∙ translate-tbl (v / 2 ^ 22) (v / 2 ^ 12 % 2 ^ 10) (omega arith) (omega arith))

  pub load-dir : (i : ℕ) → i < 1024 → load s (word loopback_dir i) ≡ dir s i
  unfolding load
  load-dir i h = ap s.phys (translate-dir i h)

  -- `get_page_mapping` computes the abstract view.
  pub get_page_mapping_lem : (v : ℕ) → v < 2 ^ 32 → get_page_mapping s v ≡ mapping s v
  unfolding get_page_mapping mapping
  get_page_mapping_lem v h =
      let e = s.phys (entry_at s (v / 2 ^ 22) (v / 2 ^ 12 % 2 ^ 10)) in
      let page : bit_and e addr_mask ≡ frame e = addr_mask-frame e (sp.words _) in
      rw (load-dir (v / 2 ^ 22) (omega arith), get_page_entry_lem v h, page)
