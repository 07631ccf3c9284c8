-- ===== src/Paging/Fresh.antt =====
-- A new page table: its frame is cleared through its own address and entered in the directory.
use muse.Base.{
  ℕ, zero, suc, ◌+◌, ◌/◌, ◌%◌, ◌^◌, ◌≤◌, ◌<◌, ◌≡◌, ◌≢◌, refl, sym, ap, ◌∙◌, subst, true, false,
  some, arith, ◌==◌, if◌then◌else◌, update, Bool-cases, ℕ_discrete, inl, inr,
}
use muse.Base.Memory.{Bytes}
use muse.Frames.{kpage_alloc}
use muse.Paging.Entry.{is_present, create_paging_entry}
use muse.Paging.Fields.{frame, is_present-mod, create_paging_entry-fields}
use muse.Paging.Walk.{
  dir, entry_at, Space, mapping, view, view_absent, view_zero, view_same, frame-ne-cr3,
  translate-walk, translate-dir, load-dir,
}
use muse.Paging.{
  Machine, loopback_dir, word, translate, store, clear, check_or_insert_table_structure,
}

-- A frame that no table lies in, and whose own address the code may write through.
pub record Fresh (s : Machine) (f : ℕ) : Type 0 where
  pub small : f < 2 ^ 32
  pub on_page : f % 2 ^ 12 ≡ 0
  pub not_cr3 : f ≢ s.cr3
  pub unused : (i : ℕ) → i < 1024 → frame (dir s i) ≢ f
  pub identity : (k : ℕ) → k < 1024 → translate s (word f k) ≡ word f k

abbrev write_fresh : Machine → ℕ → ℕ → ℕ → Machine
write_fresh s f k x = record s { phys = update s.phys (word f k) x }

-- What `clear` does to physical memory.
pub wiped : ℕ → (ℕ → ℕ) → ℕ → ℕ → ℕ → ℕ
wiped zero p f i = p
wiped (suc n) p f i = wiped n (update p (word f i) 0) f (i + 1)

module _ {s : Machine} (sp : Space s) {f : ℕ} (fr : Fresh s f) (k x : ℕ) (hk : k < 1024)
    (hx : x < 2 ^ 32) where
  fresh_dir : (i : ℕ) → i < 1024 → dir (write_fresh s f k x) i ≡ dir s i
  fresh_dir i h = ground (arith, fr.not_cr3, fr.on_page, sp.aligned)

  fresh_entry :
      (i j : ℕ)
      → i < 1024
      → j < 1024
      → update s.phys (word f k) x (entry_at s i j) ≡ s.phys (entry_at s i j)
  fresh_entry i j hi hj = ground (arith, fr.unused i hi, fr.on_page)

  write_fresh-Space : Space (write_fresh s f k x)
  write_fresh-Space = record {
    on = sp.on;
    aligned = sp.aligned;
    words = λ a. ground (arith, sp.words a);
    self = rw (fresh_dir 1023 (omega arith)) sp.self;
    self_present = rw (fresh_dir 1023 (omega arith)) sp.self_present;
    tables = λ a b ha hb pa pb q.
        sp.tables a b ha hb (rw (← fresh_dir a ha) pa) (rw (← fresh_dir b hb) pb)
          (rw (← fresh_dir a ha, ← fresh_dir b hb) q);
  }

  fresh_translate : (v : ℕ) → v < 2 ^ 32 → translate (write_fresh s f k x) v ≡ translate s v
  fresh_translate v h =
      translate-walk write_fresh-Space v
      ∙ rw (fresh_dir (v / 2 ^ 22) (omega arith)) (
          ap (λ e. frame e + v % 2 ^ 12)
            (fresh_entry (v / 2 ^ 22) (v / 2 ^ 12 % 2 ^ 10) (omega arith) (omega arith)))
      ∙ sym (translate-walk sp v)

  write_fresh-Fresh : Fresh (write_fresh s f k x) f
  write_fresh-Fresh = record {
    small = fr.small;
    on_page = fr.on_page;
    not_cr3 = fr.not_cr3;
    unused = λ i h. rw (fresh_dir i h) (fr.unused i h);
    identity =
        λ j h. fresh_translate (word f j) (omega (arith, fr.small, fr.on_page)) ∙ fr.identity j h;
  }

clear-wiped :
    (n : ℕ) (s : Machine) (f i : ℕ)
    → Space s
    → Fresh s f
    → i + n ≤ 1024
    → clear n s f i ≡ record s { phys = wiped n s.phys f i }
unfolding clear store wiped
clear-wiped zero s f i sp fr h = refl
clear-wiped (suc n) s f i sp fr h = rw (fr.identity i (omega arith)) (
    clear-wiped n (write_fresh s f i 0) f (i + 1)
      (write_fresh-Space sp fr i 0 (omega arith) (omega arith))
      (write_fresh-Fresh sp fr i 0 (omega arith) (omega arith)) (omega arith))

wiped_outside :
    (n : ℕ) (p : ℕ → ℕ) (f i a : ℕ) → ((k : ℕ) → k < i + n → word f k ≢ a) → wiped n p f i a ≡ p a
unfolding wiped
wiped_outside zero p f i a h = refl
wiped_outside (suc n) p f i a h =
    wiped_outside n (update p (word f i) 0) f (i + 1) a (λ k l. h k (omega arith))
    ∙ ground (arith, h i (omega arith))

wiped_below : (n : ℕ) (p : ℕ → ℕ) (f i k : ℕ) → k < i → wiped n p f i (word f k) ≡ p (word f k)
unfolding wiped
wiped_below zero p f i k h = refl
wiped_below (suc n) p f i k h =
    wiped_below n (update p (word f i) 0) f (i + 1) k (omega arith) ∙ ground arith

wiped_inside : (n : ℕ) (p : ℕ → ℕ) (f i k : ℕ) → i ≤ k → k < i + n → wiped n p f i (word f k) ≡ 0
unfolding wiped
wiped_inside zero p f i k lo hi = absurd (omega arith)
wiped_inside (suc n) p f i k lo hi = elim (ℕ_discrete k i) [
  | yes e ↦
      subst (λ t. wiped n (update p (word f i) 0) f (i + 1) (word f t) ≡ 0) (sym e)
        (wiped_below n (update p (word f i) 0) f (i + 1) i (omega arith) ∙ ground arith)
  | no ne ↦ wiped_inside n (update p (word f i) 0) f (i + 1) k (omega arith) (omega arith)
]

wiped-lt :
    (n : ℕ) (p : ℕ → ℕ) (f i : ℕ) → ((a : ℕ) → p a < 2 ^ 32) → (a : ℕ) → wiped n p f i a < 2 ^ 32
unfolding wiped
wiped-lt zero p f i h a = h a
wiped-lt (suc n) p f i h a =
    wiped-lt n (update p (word f i) 0) f (i + 1) (λ b. ground (arith, h b)) a

-- `s` with the frame `f` wiped and entered in the directory at `i`.
abbrev pub with_table : Machine → Bytes → ℕ → ℕ → Machine
with_table s bitmaps f i = record s {
  phys = update (wiped 1024 s.phys f 0) (word s.cr3 i) (create_paging_entry f true true true);
  bitmaps = bitmaps;
}

module _ {s : Machine} (sp : Space s) {f : ℕ} (fr : Fresh s f) (bitmaps : Bytes) where
  wiped-dir : (i : ℕ) → i < 1024 → wiped 1024 s.phys f 0 (word s.cr3 i) ≡ dir s i
  wiped-dir i h =
      wiped_outside 1024 s.phys f 0 (word s.cr3 i)
        (λ k l e. fr.not_cr3 (omega (arith, fr.on_page, sp.aligned)))

  wiped_entry :
      (i j : ℕ)
      → i < 1024
      → j < 1024
      → wiped 1024 s.phys f 0 (entry_at s i j) ≡ s.phys (entry_at s i j)
  wiped_entry i j hi hj =
      wiped_outside 1024 s.phys f 0 (entry_at s i j)
        (λ k l e. fr.unused i hi (omega (arith, fr.on_page)))

  abbrev wiped_machine : Machine
  wiped_machine = record s { phys = wiped 1024 s.phys f 0; bitmaps = bitmaps }

  wiped_machine-Space : Space wiped_machine
  wiped_machine-Space = record {
    on = sp.on;
    aligned = sp.aligned;
    words = λ a. wiped-lt 1024 s.phys f 0 sp.words a;
    self = rw (wiped-dir 1023 (omega arith)) sp.self;
    self_present = rw (wiped-dir 1023 (omega arith)) sp.self_present;
    tables = λ a b ha hb pa pb q.
        sp.tables a b ha hb (rw (← wiped-dir a ha) pa) (rw (← wiped-dir b hb) pb)
          (rw (← wiped-dir a ha, ← wiped-dir b hb) q);
  }

  with_bitmaps-Space : Space (record s { bitmaps = bitmaps })
  with_bitmaps-Space = record {
    on = sp.on;
    aligned = sp.aligned;
    words = sp.words;
    self = sp.self;
    self_present = sp.self_present;
    tables = sp.tables;
  }

  translate_bitmaps : (v : ℕ) → translate (record s { bitmaps = bitmaps }) v ≡ translate s v
  unfolding translate
  translate_bitmaps v = refl

  with_bitmaps-Fresh : Fresh (record s { bitmaps = bitmaps }) f
  with_bitmaps-Fresh = record {
    small = fr.small;
    on_page = fr.on_page;
    not_cr3 = fr.not_cr3;
    unused = fr.unused;
    identity = λ k h. translate_bitmaps (word f k) ∙ fr.identity k h;
  }

  -- `check_or_insert_table_structure` where the directory has no table yet.
  pub check_absent :
      (v : ℕ)
      → v < 2 ^ 32
      → is_present (dir s (v / 2 ^ 22)) ≡ false
      → kpage_alloc s.regions s.bitmaps ≡ some (f, bitmaps)
      → check_or_insert_table_structure s loopback_dir v true
        ≡ some (v / 2 ^ 22, with_table s bitmaps f (v / 2 ^ 22))
  unfolding check_or_insert_table_structure store
  check_absent v hv absent got =
      let i = v / 2 ^ 22 in
      rw (
        load-dir sp i (omega arith),
        absent,
        got,
        clear-wiped 1024 (record s { bitmaps = bitmaps }) f 0 with_bitmaps-Space with_bitmaps-Fresh
            (omega arith),
        translate-dir wiped_machine-Space i (omega arith),
      )

  module _ (i : ℕ) (hi : i < 1023) (absent : is_present (dir s i) ≡ false) where
    abbrev entry : ℕ
    entry = create_paging_entry f true true true

    entry-value : entry ≡ f + 7
    entry-value = create_paging_entry-fields f true true true fr.small ∙ omega (arith, fr.on_page)

    entry-frame : frame entry ≡ f
    entry-frame = omega (arith, entry-value, fr.on_page)

    entry-present : is_present entry ≡ true
    entry-present = is_present-mod entry ∙ ground (arith, entry-value, fr.on_page)

    with_table-dir :
        (k : ℕ) → k < 1024 → dir (with_table s bitmaps f i) k ≡ (if i == k then entry else dir s k)
    with_table-dir k h = ground (arith, wiped-dir k h)

    pub with_table-present : is_present (dir (with_table s bitmaps f i) i) ≡ true
    with_table-present = rw (with_table-dir i (omega arith)) (ground (arith, entry-present))

    with_table-frame :
        (k : ℕ)
        → k < 1024
        → frame (dir (with_table s bitmaps f i) k) ≡ (if i == k then f else frame (dir s k))
    with_table-frame k h = rw (with_table-dir k h) (ground (arith, entry-frame))

    with_table-tables :
        (a b : ℕ)
        → a < 1024
        → b < 1024
        → is_present (dir (with_table s bitmaps f i) a) ≡ true
        → is_present (dir (with_table s bitmaps f i) b) ≡ true
        → frame (dir (with_table s bitmaps f i) a) ≡ frame (dir (with_table s bitmaps f i) b)
        → a ≡ b
    with_table-tables a b ha hb pa pb q = ground (
      arith,
      sp.tables a b ha hb,
      fr.unused a ha,
      fr.unused b hb,
      sym (with_table-frame a ha) ∙ q ∙ with_table-frame b hb,
      ap is_present (sym (with_table-dir a ha)) ∙ pa,
      ap is_present (sym (with_table-dir b hb)) ∙ pb,
    )

    pub with_table-Space : Space (with_table s bitmaps f i)
    with_table-Space = record {
      on = sp.on;
      aligned = sp.aligned;
      words = λ a.
          ground (arith, wiped-lt 1024 s.phys f 0 sp.words a, entry-value, fr.on_page, fr.small);
      self = with_table-frame 1023 (omega arith) ∙ ground (arith, sp.self);
      self_present = rw (with_table-dir 1023 (omega arith)) (ground (arith, sp.self_present));
      tables = with_table-tables;
    }

    new_table_empty : (j : ℕ) → j < 1024 → (with_table s bitmaps f i).phys (word f j) ≡ 0
    new_table_empty j h = ground (
      arith,
      wiped_inside 1024 s.phys f 0 j (omega arith) (omega arith),
      fr.not_cr3,
      fr.on_page,
      sp.aligned,
    )

    -- The new table maps nothing.
    pub with_table-mapping :
        (w : ℕ) → w / 2 ^ 22 < 1023 → mapping (with_table s bitmaps f i) w ≡ mapping s w
    unfolding mapping
    with_table-mapping w h =
        let t = with_table s bitmaps f i in
        let d = w / 2 ^ 22 in
        let j = w / 2 ^ 12 % 2 ^ 10 in
        elim (ℕ_discrete i d) [
          | yes q ↦
              let points : frame (dir t d) ≡ f = with_table-frame d (omega arith) ∙ ground arith in
              view_zero (dir t d) j t.phys
                (ap (λ a. t.phys (word a j)) points ∙ new_table_empty j (omega arith))
              ∙ sym (
                  view_absent (dir s d) j s.phys
                    (subst (λ k. is_present (dir s k) ≡ false) q absent))
          | no ne ↦
              let same : dir t d ≡ dir s d = with_table-dir d (omega arith) ∙ ground arith in
              ap (λ e. view e t.phys j) same ∙ old d j (omega arith) (omega arith)
        ]
      where
        old :
            (d j : ℕ)
            → d < 1023
            → j < 1024
            → view (dir s d) (with_table s bitmaps f i).phys j ≡ view (dir s d) s.phys j
        old d j hd hj = elim (Bool-cases (is_present (dir s d))) [
          | inl p ↦
              view_same (dir s d) j (with_table s bitmaps f i).phys s.phys (
                ground
                  (arith, wiped_entry d j (omega arith) hj, frame-ne-cr3 sp d hd p, sp.aligned))
          | inr p ↦
              view_absent (dir s d) j (with_table s bitmaps f i).phys p
              ∙ sym (view_absent (dir s d) j s.phys p)
        ]
