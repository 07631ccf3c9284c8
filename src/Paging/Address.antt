-- ===== src/Paging/Address.antt =====
-- `map_page`, `unmap_page` and `get_page_mapping` as operations on one abstract map from pages to
-- frames.
use muse.Base.{
  ℕ, ◌/◌, ◌%◌, ◌^◌, ◌<◌, ◌≡◌, ◌⊎◌, refl, sym, ◌∙◌, subst, true, false, some, arith, ◌==◌, ◌&&◌,
  if◌then◌else◌, inl, inr, Bool-cases, ℕ_discrete,
}
use muse.Base.Memory.{Bytes}
use muse.Frames.{kpage_alloc}
use muse.Paging.Entry.{is_present}
use muse.Paging.Fields.{frame}
use muse.Paging.Walk.{dir, Space, mapping, mapping_absent, get_page_mapping_lem}
use muse.Paging.Map.{
  user_limit, write_entry, write_entry-Space, write_entry-mapping, unmap_page_present,
  unmap_page_absent,
}
use muse.Paging.Fresh.{Fresh}
use muse.Paging.{Machine, unmap_page, get_page_mapping}

-- The table of page `v` is there, or the allocator gives a frame fit for one.
abbrev pub Ready : Machine → ℕ → Type 0
Ready s v =
    (is_present (dir s (v / 2 ^ 22)) ≡ true)
    ⊎ ((f : ℕ) × (bitmaps : Bytes) × (is_present (dir s (v / 2 ^ 22)) ≡ false)
        × (kpage_alloc s.regions s.bitmaps ≡ some (f, bitmaps))
        × Fresh s f)

-- The space `t` differs from `s` at the page of `v` alone, which it maps to the frame `p`.
pub record Remapped (s t : Machine) (v p : ℕ) : Type 0 where
  pub space : Space t
  pub pages :
      (w : ℕ)
      → w < user_limit
      → get_page_mapping t w ≡ (if w / 2 ^ 12 == v / 2 ^ 12 then p else get_page_mapping s w)

same_page :
    (v w : ℕ)
    → ((w / 2 ^ 22 == v / 2 ^ 22) && (w / 2 ^ 12 % 2 ^ 10 == v / 2 ^ 12 % 2 ^ 10))
      ≡ (w / 2 ^ 12 == v / 2 ^ 12)
same_page v w = ground arith

-- Writing an entry in a present table of `t`, whose pages are those of `s`.
remap :
    {s t : Machine} (sp : Space s) (st : Space t) (v e p : ℕ)
    → v < user_limit
    → e < 2 ^ 32
    → (if is_present e then frame e else 0) ≡ p
    → is_present (dir t (v / 2 ^ 22)) ≡ true
    → ((w : ℕ) → w < user_limit → mapping t w ≡ mapping s w)
    → Remapped s (write_entry t (v / 2 ^ 22) (v / 2 ^ 12 % 2 ^ 10) e) v p
remap {s} {t} sp st v e p hv he value here same =
    let i = v / 2 ^ 22 in
    let j = v / 2 ^ 12 % 2 ^ 10 in
    let next = write_entry-Space st i j e (omega arith) (omega arith) he here in
    record {
      space = next;
      pages = λ w hw.
          get_page_mapping_lem next w (omega arith)
          ∙ write_entry-mapping st i j e (omega arith) (omega arith) he here w hw
          ∙ rw (same_page v w, value, same w hw, get_page_mapping_lem sp w (omega arith));
    }

-- `unmap_page` leaves the page of `vaddr` unmapped, every other page as it was, and the tables
-- well formed.
pub unmap_page_lem :
    {s : Machine} (vaddr : ℕ)
    → Space s
    → vaddr < user_limit
    → Remapped s (unmap_page s vaddr) vaddr 0
unmap_page_lem {s} vaddr sp hv = elim (Bool-cases (is_present (dir s (vaddr / 2 ^ 22)))) [
  | inl here ↦
      subst (λ t. Remapped s t vaddr 0) (sym (unmap_page_present sp vaddr 0 hv here))
        (remap sp sp vaddr 0 0 hv (omega arith) (ground arith) here (λ w hw. refl))
  | inr absent ↦
      subst (λ t. Remapped s t vaddr 0) (sym (unmap_page_absent sp vaddr 0 hv absent))
        (record {
          space = sp;
          pages = λ w hw. unmapped w hw absent (ℕ_discrete (w / 2 ^ 12) (vaddr / 2 ^ 12));
        })
]
  where
    unmapped :
        (w : ℕ)
        → w < user_limit
        → is_present (dir s (vaddr / 2 ^ 22)) ≡ false
        → Dec (w / 2 ^ 12 ≡ vaddr / 2 ^ 12)
        → get_page_mapping s w ≡ (if w / 2 ^ 12 == vaddr / 2 ^ 12 then 0 else get_page_mapping s w)
    unmapped w hw absent (yes q) =
        let at : w / 2 ^ 22 ≡ vaddr / 2 ^ 22 = omega arith in
        get_page_mapping_lem sp w (omega arith)
        ∙ mapping_absent s w (subst (λ k. is_present (dir s k) ≡ false) (sym at) absent)
        ∙ ground arith
    unmapped w hw absent (no ne) = ground arith
