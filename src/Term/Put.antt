-- ===== src/Term/Put.antt =====
-- `term_stdin_putc` keeps the buffer well formed and adds its character to the text; a full buffer
-- loses its first line.
use muse.Base.{
  ℕ, zero, suc, ◌+◌, ◌-◌, ◌^◌, ◌≤◌, ◌<◌, ◌≡◌, ◌≢◌, refl, sym, ap, ap₂, ◌∙◌, subst, Bool, true,
  false, ◌&&◌, ◌||◌, inl, inr, List, [], ◌∷◌, ◌++◌, arith, leb, ◌==◌, if◌then◌else◌, u32, length,
  get_or, set, take, drop, append-nil, length-append, length-set, get_or-set_self, get_or-set_ne,
  Bool-cases, ℕ_discrete, replicate,
}
use muse.Term.Lines.{
  chars, text, take_next, length-take_le, drop-append, set-append, get_or-append_left,
  get_or-append_end, BlankFrom, text-set, text-append,
}
use muse.Term.{Line, Stdin, empty_line, line, init_stdin, append, scroll, putc, height, width}

-- The lines below the active one are complete, those above it are empty.
pub record Valid (t : Stdin) : Type 0 where
  pub active : t.active_line < 8
  pub count : length t.lines ≡ 8
  pub offset : t.bfr_offset < 2 ^ 32
  pub cells : (i : ℕ) → i < 8 → length (line t i).s ≡ 64
  pub unfinished : (line t t.active_line).len < 64
  pub full : (i : ℕ) → i < t.active_line → (0 < (line t i).len) × ((line t i).len ≤ 64)
  pub blank : (i : ℕ) → t.active_line < i → i < 8 → (line t i).len ≡ 0

blank_lines :
    (ls : List Line) (i : ℕ)
    → ((j : ℕ) → i ≤ j → j < length ls → (get_or ls j empty_line).len ≡ 0)
    → BlankFrom i ls
blank_lines [] i h = tt
blank_lines (l ∷ ls) zero h = (
  h 0 (omega arith) (omega arith),
  blank_lines ls zero (λ j le lt. h (suc j) (omega arith) (omega arith)),
)
blank_lines (l ∷ ls) (suc i) h = blank_lines ls i (λ j le lt. h (suc j) (omega arith) (omega arith))

abbrev grown : Stdin → ℕ → Line
grown t c = let l = line t t.active_line in record { len = u32 (l.len + 1); s = set l.s l.len c }

module _ {t : Stdin} (v : Valid t) (c : ℕ) where
  append-line :
      (i : ℕ) → i < 8 → line (append t c) i ≡ (if i == t.active_line then grown t c else line t i)
  unfolding append
  append-line i h = elim (ℕ_discrete t.active_line i) [
    | yes e ↦
        subst (λ k. get_or (set t.lines k (grown t c)) i empty_line ≡ grown t c) (sym e)
          (get_or-set_self t.lines i (grown t c) empty_line (omega (arith, v.count)))
        ∙ ground arith
    | no ne ↦ get_or-set_ne t.lines t.active_line i (grown t c) empty_line ne ∙ ground arith
  ]

  append-length : length (append t c).lines ≡ 8
  unfolding append
  append-length = length-set t.lines t.active_line (grown t c) ∙ v.count

  append-text : text (append t c).lines ≡ text t.lines ++ c ∷ []
  unfolding append
  append-text =
      let l = line t t.active_line in
      let next : u32 (l.len + 1) ≡ suc l.len = omega (arith, v.unfinished) in
      text-set t.lines t.active_line (grown t c) c empty_line (omega (arith, v.count, v.active))
        (blank_lines t.lines (suc t.active_line)
          (λ j le lt. v.blank j (omega arith) (omega (arith, v.count))))
        (ap (λ n. take n (set l.s l.len c)) next
          ∙ take_next l.s l.len c (omega (arith, v.unfinished, v.cells t.active_line v.active)))

length-drop_one : (ls : List Line) → length ls ≡ 8 → length (drop 1 ls) ≡ 7
length-drop_one [] h = absurd (omega arith)
length-drop_one (l ∷ ls) h = omega arith

get_or-drop_one :
    (ls : List Line) (i : ℕ) → get_or (drop 1 ls) i empty_line ≡ get_or ls (suc i) empty_line
get_or-drop_one [] i = refl
get_or-drop_one (l ∷ ls) i = refl

abbrev blanked : Line → Line
blanked l = record { len = 0; s = l.s }

-- The buffer after a scroll at the last line.
scrolled : Stdin → Stdin
scrolled t = record {
  active_line = 7;
  bfr_offset = u32 (t.bfr_offset + (line t 0).len);
  lines = drop 1 t.lines ++ blanked (line t 7) ∷ [];
}

scroll-scrolled : (t : Stdin) → length t.lines ≡ 8 → t.active_line ≡ 8 → scroll t ≡ scrolled t
unfolding scroll scrolled
scroll-scrolled t h e =
    let seven : length (drop 1 t.lines) ≡ 7 = length-drop_one t.lines h in
    let moved : List Line = drop 1 t.lines ++ line t 7 ∷ [] in
    let last : get_or moved 7 empty_line ≡ line t 7 =
      subst (λ n. get_or moved n empty_line ≡ line t 7) seven
        (get_or-append_end (drop 1 t.lines) (line t 7) empty_line) in
    let placed : set moved 7 (blanked (get_or moved 7 empty_line))
        ≡ drop 1 t.lines ++ blanked (line t 7) ∷ [] =
      ap (λ l. set moved 7 (blanked l)) last
      ∙ subst (λ n. set moved n (blanked (line t 7)) ≡ drop 1 t.lines ++ blanked (line t 7) ∷ [])
          seven (set-append (drop 1 t.lines) (line t 7) (blanked (line t 7))) in
    let at : t.active_line - 1 ≡ 7 = omega arith in
    ap
      (λ k. record {
        active_line = k;
        bfr_offset = u32 (t.bfr_offset + (line t 0).len);
        lines = set moved k (blanked (get_or moved k empty_line));
      })
      at
    ∙ ap
        (λ ls. record {
          active_line = 7;
          bfr_offset = u32 (t.bfr_offset + (line t 0).len);
          lines = ls;
        })
        placed

scrolled-line :
    (t : Stdin) (i : ℕ)
    → length t.lines ≡ 8
    → i < 8
    → line (scrolled t) i ≡ (if i == 7 then blanked (line t 7) else line t (suc i))
unfolding scrolled
scrolled-line t i h lt = elim (ℕ_discrete i 7) [
  | yes e ↦
      subst
        (λ k. get_or (drop 1 t.lines ++ blanked (line t 7) ∷ []) k empty_line ≡ blanked (line t 7))
        (length-drop_one t.lines h ∙ sym e)
        (get_or-append_end (drop 1 t.lines) (blanked (line t 7)) empty_line)
      ∙ ground arith
  | no ne ↦
      get_or-append_left (drop 1 t.lines) (blanked (line t 7) ∷ []) i empty_line
        (omega (arith, length-drop_one t.lines h))
      ∙ get_or-drop_one t.lines i
      ∙ ground arith
]

scrolled-text :
    (t : Stdin)
    → length t.lines ≡ 8
    → (line t 0).len ≤ length (line t 0).s
    → text (scrolled t).lines ≡ drop (line t 0).len (text t.lines)
unfolding scrolled
scrolled-text t h fits = go t.lines (line t 7) h fits
  where
    go :
        (ls : List Line) (x : Line)
        → length ls ≡ 8
        → (get_or ls 0 empty_line).len ≤ length (get_or ls 0 empty_line).s
        → text (drop 1 ls ++ blanked x ∷ []) ≡ drop (get_or ls 0 empty_line).len (text ls)
    go [] x h f = absurd (omega arith)
    go (l ∷ ls) x h f =
        text-append ls (blanked x ∷ [])
        ∙ append-nil (text ls)
        ∙ sym (
            subst (λ n. drop n (chars l ++ text ls) ≡ text ls) (length-take_le l.len l.s f)
              (drop-append (chars l) (text ls)))

-- The test after which `putc` starts a new line.
abbrev pub completes : Stdin → ℕ → Bool
completes t c = leb width ((line t t.active_line).len + 1) || c == b'\n'

-- How many characters the buffer loses from its start.
abbrev pub dropped : Stdin → ℕ → ℕ
dropped t c = if completes t c && t.active_line == 7 then (line t 0).len else 0

abbrev advanced : Stdin → Stdin
advanced u = record u { active_line = u.active_line + 1 }

module _ {t : Stdin} (v : Valid t) (c : ℕ) where
  active_append : (append t c).active_line ≡ t.active_line
  unfolding append
  active_append = refl

  offset_append : (append t c).bfr_offset ≡ t.bfr_offset
  unfolding append
  offset_append = refl

  grown_len : (line (append t c) (append t c).active_line).len ≡ (line t t.active_line).len + 1
  grown_len =
      ap (λ k. (line (append t c) k).len) active_append
      ∙ ap Line.len (append-line v c t.active_line v.active)
      ∙ ground (arith, v.unfinished)

  test : (leb width (line (append t c) (append t c).active_line).len || c == b'\n') ≡ completes t c
  test = ap (λ n. leb width n || c == b'\n') grown_len

  putc_open : completes t c ≡ false → putc t c ≡ (append t c, false)
  unfolding putc
  putc_open h = rw (test ∙ h)

  putc_next : completes t c ≡ true → t.active_line ≢ 7 → putc t c ≡ (advanced (append t c), true)
  unfolding putc
  putc_next h ne =
      let more : ((append t c).active_line + 1 == height) ≡ false = ground (arith, active_append) in
      rw (test ∙ h, more)

  putc_full :
      completes t c ≡ true → t.active_line ≡ 7 → putc t c ≡ (scrolled (advanced (append t c)), true)
  unfolding putc
  putc_full h e =
      let eight : (append t c).active_line + 1 ≡ 8 = omega (arith, active_append) in
      let last : ((append t c).active_line + 1 == height) ≡ true = ground arith in
      rw (test ∙ h, last)
        (ap (λ s. (s, true)) (scroll-scrolled (advanced (append t c)) (append-length v c) eight))

  line-append :
      (i : ℕ)
      → i < 8
      → (line (append t c) i).len
        ≡ (if i == t.active_line then (line t t.active_line).len + 1 else (line t i).len)
  line-append i h = ap Line.len (append-line v c i h) ∙ ground (arith, v.unfinished)

  cells_append : (i : ℕ) → i < 8 → length (line (append t c) i).s ≡ 64
  cells_append i h =
      ap (λ l. length l.s) (append-line v c i h)
      ∙ ground (
        arith,
        v.cells i h,
        v.cells t.active_line v.active,
        length-set (line t t.active_line).s (line t t.active_line).len c,
      )

  open-Valid : completes t c ≡ false → Valid (append t c)
  open-Valid h = record {
    active = omega (arith, v.active, active_append);
    count = append-length v c;
    offset = omega (arith, v.offset, offset_append);
    cells = cells_append;
    unfinished = ground (arith, grown_len);
    full = λ i lt. ground (arith, active_append, line-append i, v.full i, v.active);
    blank = λ i lt hi. ground (arith, active_append, line-append i, v.blank i);
  }

  next-Valid : t.active_line ≢ 7 → Valid (advanced (append t c))
  next-Valid ne = record {
    active = omega (arith, v.active, active_append);
    count = append-length v c;
    offset = omega (arith, v.offset, offset_append);
    cells = cells_append;
    unfinished =
        let k = (append t c).active_line + 1 in
        ground (arith, active_append, line-append k, v.blank k, v.active);
    full = λ i lt. ground (arith, active_append, line-append i, v.full i, v.active, v.unfinished);
    blank = λ i lt hi. ground (arith, active_append, line-append i, v.blank i);
  }

  line-scrolled :
      (i : ℕ)
      → i < 8
      → line (scrolled (advanced (append t c))) i
        ≡ (if i == 7 then blanked (line (append t c) 7) else line (append t c) (suc i))
  line-scrolled i h = scrolled-line (advanced (append t c)) i (append-length v c) h

  full-Valid : t.active_line ≡ 7 → Valid (scrolled (advanced (append t c)))
  unfolding scrolled
  full-Valid e = record {
    active = omega arith;
    count =
        length-append (drop 1 (append t c).lines) _
        ∙ omega (arith, length-drop_one (append t c).lines (append-length v c));
    offset = omega arith;
    cells = λ i h.
        ap (λ l. length l.s) (line-scrolled i h)
        ∙ ground (arith, cells_append 7, cells_append (suc i));
    unfinished =
        let none_yet : (line (scrolled (advanced (append t c))) 7).len ≡ 0 =
          ap Line.len (line-scrolled 7 (omega arith)) in
        omega arith;
    full = λ i lt.
        let moved : (line (scrolled (advanced (append t c))) i).len
            ≡ (line (append t c) (suc i)).len =
          ap Line.len (line-scrolled i (omega arith)) ∙ ground arith in
        ground (arith, line-append (suc i), v.full (suc i), v.unfinished);
    blank = λ i lt hi. absurd (omega arith);
  }

  text-advanced : text (advanced (append t c)).lines ≡ text t.lines ++ c ∷ []
  text-advanced = append-text v c

  first_len :
      t.active_line ≡ 7
      → ((line (advanced (append t c)) 0).len ≡ (line t 0).len)
        × ((line (advanced (append t c)) 0).len ≤ length (line (advanced (append t c)) 0).s)
  first_len e =
      let same : (line (append t c) 0).len ≡ (line t 0).len = ground (arith, line-append 0) in
      (same, omega (arith, cells_append 0 (omega arith), (v.full 0 (omega arith)).1))

  full-text :
      t.active_line ≡ 7
      → text (scrolled (advanced (append t c))).lines ≡ drop (line t 0).len (text t.lines ++ c ∷ [])
  full-text e =
      scrolled-text (advanced (append t c)) (append-length v c) (first_len e).1
      ∙ ap₂ drop (first_len e).0 text-advanced

  full-offset :
      t.active_line ≡ 7
      → (scrolled (advanced (append t c))).bfr_offset ≡ u32 (t.bfr_offset + (line t 0).len)
  unfolding scrolled
  full-offset e = ap u32 (ap₂ ◌+◌ offset_append (first_len e).0)

-- Typing a character keeps the buffer well formed.
pub putc-Valid : {t : Stdin} (c : ℕ) → Valid t → Valid (putc t c).0
putc-Valid {t} c v = elim (Bool-cases (completes t c)) [
  | inl h ↦ elim (ℕ_discrete t.active_line 7) [
    | yes e ↦ subst (λ r. Valid r.0) (sym (putc_full v c h e)) (full-Valid v c e)
    | no ne ↦ subst (λ r. Valid r.0) (sym (putc_next v c h ne)) (next-Valid v c ne)
  ]
  | inr h ↦ subst (λ r. Valid r.0) (sym (putc_open v c h)) (open-Valid v c h)
]

-- Typing a character adds it to the end of the buffered text. A full buffer then loses its first
-- line, by whose length the file offset of the buffer grows (modulo 2^32); otherwise nothing is
-- lost. Readers are signalled exactly when the character completes its line.
pub putc-text :
    {t : Stdin} (c : ℕ)
    → Valid t
    → let (u, signalled) = putc t c in
      (text u.lines ≡ drop (dropped t c) (text t.lines ++ c ∷ []))
      × (u.bfr_offset ≡ u32 (t.bfr_offset + dropped t c))
      × (signalled ≡ completes t c)
putc-text {t} c v = elim (Bool-cases (completes t c)) [
  | inl h ↦ elim (ℕ_discrete t.active_line 7) [
    | yes e ↦
        let lost : dropped t c ≡ (line t 0).len = ground arith in
        rw (putc_full v c h e, lost, h) (full-text v c e, full-offset v c e, refl)
    | no ne ↦
        let lost : dropped t c ≡ 0 = ground arith in
        rw (putc_next v c h ne, lost, h)
          (text-advanced v c, offset_append v c ∙ omega (arith, v.offset), refl)
  ]
  | inr h ↦
      let lost : dropped t c ≡ 0 = ground arith in
      rw (putc_open v c h, lost, h)
        (append-text v c, offset_append v c ∙ omega (arith, v.offset), refl)
]

get_or-replicate : (n i : ℕ) (l : Line) → get_or (replicate n l) i l ≡ l
get_or-replicate zero i l = refl
get_or-replicate (suc n) zero l = refl
get_or-replicate (suc n) (suc i) l = get_or-replicate n i l

pub init_stdin-Valid : Valid init_stdin
init_stdin-Valid = record {
  active = omega arith;
  count = refl;
  offset = omega arith;
  cells = λ i h. ap (λ l. length l.s) (get_or-replicate 8 i empty_line);
  unfinished = omega arith;
  full = λ i lt. absurd (omega arith);
  blank = λ i lt h. ap Line.len (get_or-replicate 8 i empty_line);
}

unfoldable pub putc_all : Stdin → List ℕ → Stdin
putc_all t [] = t
putc_all t (c ∷ cs) = putc_all (putc t c).0 cs

-- After any typing from the start the buffer is well formed.
pub putc_all-Valid : (cs : List ℕ) → Valid (putc_all init_stdin cs)
unfolding putc_all
putc_all-Valid cs = keep cs init_stdin init_stdin-Valid
  where
    keep : (cs : List ℕ) (t : Stdin) → Valid t → Valid (putc_all t cs)
    keep [] t v = v
    keep (c ∷ cs) t v = keep cs (putc t c).0 (putc-Valid c v)
