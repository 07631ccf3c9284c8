-- ===== src/User/Pointers.antt =====
-- The checks of user pointers: what `clean_string` and `clean_data` of src/kernel/userspace.c accept.
use muse.Base.{
  ℕ, zero, suc, ◌+◌, ◌-◌, ◌*◌, ◌/◌, ◌%◌, ◌^◌, ◌≤◌, ◌<◌, ◌≡◌, ◌≢◌, ◌⊎◌, inl, inr, refl, subst, true,
  false, some, arith, ltb-ff, lt→ltb, ltb, none, Bool, Option, u32, ℕ_discrete, dec_lt,
}
use muse.Base.Memory.{Bytes}
use muse.Paging.{Machine, check_user}
use muse.User.{align_pg_down, align_pg_up, scan_string, clean_string, check_pages, clean_data}

-- what `check_user` can say of a page
check_user-cases :
    (s : Machine) (page : ℕ)
    → (check_user s page ≡ some true)
      ⊎ ((check_user s page ≡ some false) ⊎ (check_user s page ≡ none))
check_user-cases s page = check-cases (check_user s page)
  where
    check-cases : (c : Option Bool) → (c ≡ some true) ⊎ ((c ≡ some false) ⊎ (c ≡ none))
    check-cases none = inr (inr refl)
    check-cases (some true) = inl refl
    check-cases (some false) = inr (inl refl)

-- Every page from `pg` on that starts below `end` is a user page.
abbrev pub AllUser : Machine → ℕ → ℕ → Type 0
AllUser s pg end = (k : ℕ) → pg + k * 4096 < end → check_user s (pg + k * 4096) ≡ some true

-- One of them is not, and `said` is what its check comes to; those before it are.
pub record Foreign (s : Machine) (pg end : ℕ) (said : Option Bool) : Type 0 where
  pub page : ℕ
  pub above : pg ≤ page
  pub below : page < end
  pub before : AllUser s pg page
  pub checked : check_user s page ≡ said

AllUser-step :
    (s : Machine) (pg end : ℕ)
    → check_user s pg ≡ some true
    → AllUser s (pg + 4096) end
    → AllUser s pg end
AllUser-step s pg end here rest k h = elim (ℕ_discrete k 0) [
  | yes e ↦ subst (λ a. check_user s a ≡ some true) (omega arith) here
  | no ne ↦ subst (λ a. check_user s a ≡ some true) (omega arith) (rest (k - 1) (omega arith))
]

Foreign-here :
    (s : Machine) (pg end : ℕ) (said : Option Bool)
    → pg < end
    → check_user s pg ≡ said
    → Foreign s pg end said
Foreign-here s pg end said lt checked = record {
  page = pg;
  above = omega arith;
  below = lt;
  before = λ k h. absurd (omega arith);
  checked = checked;
}

Foreign-step :
    (s : Machine) (pg end : ℕ) (said : Option Bool)
    → check_user s pg ≡ some true
    → Foreign s (pg + 4096) end said
    → Foreign s pg end said
Foreign-step s pg end said here f = record {
  page = f.page;
  above = omega (arith, f.above);
  below = f.below;
  before = AllUser-step s pg f.page here f.before;
  checked = f.checked;
}

check_pages_lem :
    (fuel : ℕ) (s : Machine) (pg end : ℕ)
    → end + 4096 ≤ 2 ^ 32
    → end ≤ pg + (fuel - 1) * 4096
    → 0 < fuel
    → ((check_pages fuel s pg end ≡ some true) × AllUser s pg end)
      ⊎ (((check_pages fuel s pg end ≡ some false) × Foreign s pg end (some false))
          ⊎ ((check_pages fuel s pg end ≡ none) × Foreign s pg end none))
unfolding check_pages
check_pages_lem zero s pg end small enough pos = absurd (omega arith)
check_pages_lem (suc fuel) s pg end small enough pos = elim (dec_lt pg end) [
  | no ge ↦ inl (ground arith, λ k h. absurd (omega arith))
  | yes lt ↦ elim (check_user-cases s pg) [
    | inr (inl out) ↦
        inr (inl (rw (lt→ltb _ _ lt, out) refl, Foreign-here s pg end (some false) lt out))
    | inr (inr fault) ↦
        inr (inr (rw (lt→ltb _ _ lt, fault) refl, Foreign-here s pg end none lt fault))
    | inl ok ↦
        let next : u32 (pg + 4096) ≡ pg + 4096 = omega arith in
        elim (check_pages_lem fuel s (pg + 4096) end small (omega arith) (omega arith)) [
          | inl h ↦ inl (rw (lt→ltb _ _ lt, ok, next) h.0, AllUser-step s pg end ok h.1)
          | inr (inl h) ↦
              inr (inl (rw (lt→ltb _ _ lt, ok, next) h.0, Foreign-step s pg end _ ok h.1))
          | inr (inr h) ↦
              inr (inr (rw (lt→ltb _ _ lt, ok, next) h.0, Foreign-step s pg end _ ok h.1))
        ]
  ]
]

-- For a buffer that does not reach the last page of the address space, `clean_data` returns the
-- pointer itself if every page that the buffer touches is a user page. At the first page that is
-- not, it returns the null pointer if the page has a page table, and the kernel halts at a page
-- fault if it has none.
pub clean_data_lem :
    (fuel : ℕ) (s : Machine) (ptr size : ℕ)
    → ptr + size + 2 * 4096 ≤ 2 ^ 32
    → size / 4096 + 3 ≤ fuel
    → ((clean_data fuel s ptr size ≡ some ptr) × AllUser s (align_pg_down ptr) (ptr + size))
      ⊎ (((clean_data fuel s ptr size ≡ some 0)
            × Foreign s (align_pg_down ptr) (align_pg_up (ptr + size)) (some false))
          ⊎ ((clean_data fuel s ptr size ≡ none)
              × Foreign s (align_pg_down ptr) (align_pg_up (ptr + size)) none))
unfolding clean_data
clean_data_lem fuel s ptr size small enough =
    let end = align_pg_up (ptr + size) in
    let whole : u32 (ptr + size) ≡ ptr + size = omega arith in
    let up : end + 4096 ≤ 2 ^ 32 = ground arith in
    let near : end ≤ align_pg_down ptr + (fuel - 1) * 4096 = ground arith in
    let last : ptr + size ≤ end = ground arith in
    elim (check_pages_lem fuel s (align_pg_down ptr) end up near (omega arith)) [
      | inl h ↦ inl (rw (whole, h.0, clean_data) (refl), λ k lt. h.1 k (omega arith))
      | inr (inl h) ↦ inr (inl (rw (whole, h.0, clean_data) (refl), h.1))
      | inr (inr h) ↦ inr (inr (rw (whole, h.0, clean_data) (refl), h.1))
    ]

check_pages-end :
    (fuel : ℕ) (s : Machine) (pg end : ℕ) → end ≤ pg → check_pages (suc fuel) s pg end ≡ some true
unfolding check_pages
check_pages-end fuel s pg end le = rw (ltb-ff pg end le) (refl)

-- When the end of the buffer wraps around to a page at or below its start, `clean_data` returns the
-- pointer without having looked at any page.
pub clean_data_wrap :
    (fuel : ℕ) (s : Machine) (ptr size : ℕ)
    → align_pg_up (u32 (ptr + size)) ≤ align_pg_down ptr
    → clean_data (suc fuel) s ptr size ≡ some ptr
unfolding clean_data
clean_data_wrap fuel s ptr size le =
    rw (check_pages-end fuel s (align_pg_down ptr) (align_pg_up (u32 (ptr + size))) le, clean_data)
      (refl)

-- The bytes from `str` to the first NUL, that one included, lie on user pages.
pub record UserString (s : Machine) (m : Bytes) (str : ℕ) : Type 0 where
  pub len : ℕ
  pub nul : m (str + len) ≡ 0
  pub full : (i : ℕ) → i < len → m (str + i) ≢ 0
  pub pages : (i : ℕ) → i ≤ len → check_user s (align_pg_down (str + i)) ≡ some true

UserString-step :
    (s : Machine) (m : Bytes) (str : ℕ)
    → m str ≢ 0
    → check_user s (align_pg_down str) ≡ some true
    → UserString s m (str + 1)
    → UserString s m str
UserString-step s m str ne ok v = record {
  len = suc v.len;
  nul = ground (arith, v.nul);
  full = λ i h. elim (ℕ_discrete i 0) [
    | yes e ↦ ground arith
    | no nz ↦ ground (arith, v.full (i - 1))
  ];
  pages = λ i h. elim (ℕ_discrete i 0) [
    | yes e ↦ subst (λ a. check_user s (align_pg_down a) ≡ some true) (omega arith) ok
    | no nz ↦
        subst (λ a. check_user s (align_pg_down a) ≡ some true) (omega arith)
          (v.pages (i - 1) (omega arith))
  ];
}

scan_string_lem :
    (fuel : ℕ) (s : Machine) (m : Bytes) (str_a str page r : ℕ)
    → check_user s (2 ^ 32 - 4096) ≢ some true
    → page % 4096 ≡ 0
    → page < 2 ^ 32
    → page ≤ str
    → str ≤ page + 4096
    → check_user s page ≡ some true
    → scan_string fuel s m str_a str page ≡ some r
    → r ≢ 0
    → (r ≡ str_a) × UserString s m str
unfolding scan_string
scan_string_lem zero s m str_a str page r top al lt lo hi ok h nz = absurd (cc)
scan_string_lem (suc fuel) s m str_a str page r top al lt lo hi ok h nz =
    let inner : page ≢ 2 ^ 32 - 4096 = λ e. top (subst (λ p. check_user s p ≡ some true) e ok) in
    let next : u32 (page + 4096) ≡ page + 4096 = omega arith in
    elim (dec_lt str (page + 4096)) [
      | yes less ↦
          let at : align_pg_down str ≡ page = omega arith in
          let ok' : check_user s (align_pg_down str) ≡ some true = rw (at) (ok) in
          elim (ℕ_discrete (m str) 0) [
            | yes z ↦ (
              ground (arith, next),
              record {
                len = 0;
                nul = ground arith;
                full = λ i q. absurd (omega arith);
                pages = λ i q.
                    subst (λ a. check_user s (align_pg_down a) ≡ some true) (omega arith) ok';
              },
            )
            | no ne ↦
                let one : u32 (str + 1) ≡ str + 1 = omega arith in
                let ih =
                  scan_string_lem fuel s m str_a (str + 1) page r top al lt (omega arith)
                    (omega arith) ok (ground (arith, next, one)) nz in
                (ih.0, UserString-step s m str ne ok' ih.1)
          ]
      | no ge ↦
          let same : str ≡ page + 4096 = omega arith in
          let past : ltb str (page + 4096) ≡ false = ltb-ff _ _ (omega arith) in
          elim (check_user-cases s (page + 4096)) [
            | inl good ↦
                scan_string_lem fuel s m str_a str (page + 4096) r top (omega arith) (omega arith)
                  (omega arith) (omega arith) good (rw (next, past, good) at h) nz
            | inr (inl bad) ↦
                let null : some 0 ≡ some r = rw (next, past, bad) at h in absurd (nz (cc null))
            | inr (inr fault) ↦
                let halted : none ≡ some r = rw (next, past, fault) at h in absurd (cc halted)
          ]
    ]

-- Where the last page of the address space is not a user page, whatever non-null pointer
-- `clean_string` returns is its argument, and a string starts there that lies on user pages.
pub clean_string-UserString :
    (fuel : ℕ) (s : Machine) (m : Bytes) (str r : ℕ)
    → check_user s (2 ^ 32 - 4096) ≢ some true
    → str < 2 ^ 32
    → clean_string fuel s m str ≡ some r
    → r ≢ 0
    → (r ≡ str) × UserString s m str
unfolding clean_string
clean_string-UserString fuel s m str r top lt h nz = elim (check_user-cases s (align_pg_down str)) [
  | inl ok ↦
      scan_string_lem fuel s m str str (align_pg_down str) r top (omega arith) (omega arith)
        (omega arith) (omega arith) ok (rw ok at h) nz
  | inr (inl bad) ↦ let null : some 0 ≡ some r = rw bad at h in absurd (nz (cc null))
  | inr (inr fault) ↦ let halted : none ≡ some r = rw fault at h in absurd (cc halted)
]
