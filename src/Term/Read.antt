-- ===== src/Term/Read.antt =====
-- Reading buffered text: where the search starts, and what the copying loop returns.
use muse.Base.{
  ℕ, zero, suc, ◌+◌, ◌-◌, ◌^◌, ◌≤◌, ◌<◌, ◌≡◌, ◌⊎◌, refl, sym, ap, ap₂, ◌∙◌, true, false, ◌&&◌, ◌||◌,
  inl, inr, List, [], ◌++◌, arith, ltb, leb, ◌==◌, u32, sub32, min, length, take, drop, append-nil,
  append_assoc, length-append, ℕ_discrete, dec_lt, dec_le,
}
use muse.Term.Lines.{
  chars, text, length-take_le, drop-get_or, drop_all, take_split, length-drop, drop_more,
  drop_within, take-drop-take,
}
use muse.Term.{Stdin, line, find_line, start_at, copy_lines, read, empty_line}
use muse.Term.Put.{Valid}

-- the length of the buffered text
abbrev pub buffered : Stdin → ℕ
buffered t = length (text t.lines)

module _ {t : Stdin} (v : Valid t) where
  len_le : (i : ℕ) → i < 8 → (line t i).len ≤ 64
  len_le i h = ground (arith, v.full i, v.unfinished, v.blank i)

  length-chars : (i : ℕ) → i < 8 → length (chars (line t i)) ≡ (line t i).len
  length-chars i h =
      length-take_le (line t i).len (line t i).s (omega (arith, len_le i h, v.cells i h))

  -- the text from line `i` on
  abbrev rest : ℕ → List ℕ
  rest i = text (drop i t.lines)

  rest_step : (i : ℕ) → i < 8 → rest i ≡ chars (line t i) ++ rest (suc i)
  rest_step i h = ap text (drop-get_or t.lines i empty_line (omega (arith, v.count)))

  length-rest : (i : ℕ) → i < 8 → length (rest i) ≡ (line t i).len + length (rest (suc i))
  length-rest i h =
      ap length (rest_step i h)
      ∙ length-append (chars (line t i)) (rest (suc i))
      ∙ ap (λ n. n + length (rest (suc i))) (length-chars i h)

  -- Nothing stands above the active line.
  rest_above : (n i : ℕ) → i + n ≡ 8 → t.active_line < i → length (rest i) ≡ 0
  rest_above zero i e h = ap (λ ls. length (text ls)) (drop_all i t.lines (omega (arith, v.count)))
  rest_above (suc n) i e h = omega (
    arith,
    length-rest i (omega arith),
    v.blank i h (omega arith),
    rest_above n (suc i) (omega arith) (omega arith),
  )

  -- The search result `(j, from)`: line `j` begins at file offset `from` and holds `offset`.
  record Located (i start offset : ℕ) (r : ℕ × ℕ) : Type 0 where
    below : r.0 < 8
    lower : r.1 ≤ offset
    upper : offset < r.1 + (line t r.0).len
    same_rest : drop (offset - start) (rest i) ≡ drop (offset - r.1) (rest r.0)

  -- An offset past line `i` is looked for from the next line on.
  skip :
      (i offset start : ℕ)
      → i < 8
      → start + (line t i).len ≤ offset
      → (r : ℕ × ℕ) → Located (suc i) (start + (line t i).len) offset r
      → Located i start offset r
  skip i offset start h past r l = record {
    below = Located.below l;
    lower = Located.lower l;
    upper = Located.upper l;
    same_rest =
        ap (drop (offset - start)) (rest_step i h)
        ∙ drop_more (offset - start) (chars (line t i)) (rest (suc i))
            (omega (arith, length-chars i h))
        ∙ ap (λ k. drop k (rest (suc i))) (omega (arith, length-chars i h))
        ∙ Located.same_rest l;
  }

  find_line_lem :
      (fuel i offset start : ℕ)
      → i + fuel ≡ 8
      → i ≤ t.active_line
      → start ≤ offset
      → offset < start + length (rest i)
      → start + length (rest i) < 2 ^ 32
      → Located i start offset (find_line fuel t offset i start)
  unfolding find_line
  find_line_lem zero i offset start e le lo hi small = absurd (omega (arith, v.active))
  find_line_lem (suc fuel) i offset start e le lo hi small =
      let len = (line t i).len in
      let next : u32 (start + len) ≡ start + len = omega (arith, length-rest i (omega arith)) in
      elim (dec_lt offset (start + len)) [
        | yes inside ↦
            let test : ltb offset (start + len) ≡ true = ground arith in
            rw (next, test)
              (record { below = omega arith; lower = lo; upper = inside; same_rest = refl })
        | no beyond ↦
            let below : i < t.active_line = elim (dec_lt i t.active_line) [
              | yes p ↦ p
              | no q ↦ absurd (
                  omega (
                    arith,
                    length-rest i (omega arith),
                    rest_above fuel (suc i) (omega arith) (omega arith),
                  ))
            ] in
            let test : ltb offset (start + len) ≡ false = ground arith in
            let more : leb t.active_line i ≡ false = ground arith in
            let suc_i : i + 1 ≡ suc i = omega arith in
            rw (next, test, more, suc_i)
              (skip i offset start (omega arith) (omega arith)
                (find_line fuel t offset (suc i) (start + len))
                (find_line_lem fuel (suc i) offset (start + len) (omega arith) below (omega arith)
                  (omega (arith, length-rest i (omega arith)))
                  (omega (arith, length-rest i (omega arith)))))
      ]

  -- The text that one round copies from line `i`, followed by what the later rounds copy.
  line_split :
      (i c size k : ℕ)
      → i < 8
      → c ≤ (line t i).len
      → k ≡ min size (sub32 (line t i).len c)
      → take k (drop c (line t i).s) ++ take (size - k) (rest (suc i)) ≡ take size (drop c (rest i))
  line_split i c size k h hc e =
      let l = line t i in
      let room : sub32 l.len c ≡ l.len - c = omega (arith, len_le i h) in
      let X : List ℕ = drop c (chars l) in
      let long : length X ≡ l.len - c =
        length-drop c (chars l) ∙ ap (λ n. n - c) (length-chars i h) in
      ap (λ u. u ++ take (size - k) (rest (suc i))) (take-drop-take k c l.len l.s (omega arith))
      ∙ take_split X (rest (suc i)) size k (omega arith)
      ∙ ap (take size) (
          sym (drop_within c (chars l) (rest (suc i)) (omega (arith, length-chars i h)))
          ∙ ap (drop c) (sym (rest_step i h)))

  wanted_inside : (i n : ℕ) → i ≤ 8 → length (rest i) ≡ n → 0 < n → i < 8
  wanted_inside i n le e pos = elim (dec_lt i 8) [
    | yes p ↦ p
    | no q ↦
        let top : length (rest i) ≡ 0 =
          ap (λ ls. length (text ls)) (drop_all i t.lines (omega (arith, v.count))) in
        absurd (omega arith)
  ]

  wanted_active : (i : ℕ) → i < 8 → 0 < length (rest i) → i ≤ t.active_line
  wanted_active i h pos = elim (dec_le i t.active_line) [
    | yes p ↦ p
    | no q ↦ absurd (omega (arith, rest_above (8 - i) i (omega arith) (omega arith)))
  ]

  last_line : (i : ℕ) → i < 8 → i ≡ t.active_line → length (rest (suc i)) ≡ 0
  last_line i h e = rest_above (7 - i) (suc i) (omega arith) (omega arith)

  left_over :
      (size k c r len : ℕ)
      → k ≡ min size (len - c)
      → size + c ≤ len + r
      → c ≤ len
      → (size - k + 0 ≤ r) ⊎ (size - k ≡ 0)
  left_over size k c r len e fits hc = elim (dec_le size (len - c)) [
    | yes p ↦ inr (omega arith)
    | no q ↦ inl (omega arith)
  ]

  -- The copying loop returns the wanted text and leaves nothing to wait for.
  copy_lines_lem :
      (fuel i c size : ℕ) (done : List ℕ)
      → 8 < i + fuel
      → i ≤ 8
      → (i < 8 → c ≤ (line t i).len)
      → size + c ≤ length (rest i) ⊎ (size ≡ 0)
      → let r =
          copy_lines fuel t
            (record { copied = done; line_idx = i; char_offset = c; size = size }) in
        (r.copied ≡ done ++ take size (drop c (rest i))) × (r.size ≡ 0)
  unfolding copy_lines
  copy_lines_lem zero i c size done f le hl hs = absurd (omega arith)
  copy_lines_lem (suc fuel) i c zero done f le hl hs = (sym (append-nil done), refl)
  copy_lines_lem (suc fuel) i c (suc n) done f le hl hs =
      let size = suc n in
      let l = line t i in
      let k = min size (sub32 l.len c) in
      let fits : size + c ≤ length (rest i) = ground arith in
      let inside : i < 8 = wanted_inside i (length (rest i)) le refl (omega arith) in
      let upto : i ≤ t.active_line = wanted_active i inside (omega arith) in
      let room : sub32 l.len c ≡ l.len - c = omega (arith, len_le i inside, hl inside) in
      let going : (size == 0 || ltb t.active_line i) ≡ false = ground arith in
      let enough : (i == t.active_line && ltb k size) ≡ false =
        ground (arith, last_line i inside, length-rest i inside) in
      let suc_i : i + 1 ≡ suc i = omega arith in
      let left : (size - k + 0 ≤ length (rest (suc i))) ⊎ (size - k ≡ 0) =
        left_over size k c (length (rest (suc i))) l.len (omega arith)
          (omega (arith, length-rest i inside)) (hl inside) in
      let next =
        copy_lines_lem fuel (suc i) 0 (size - k) (done ++ take k (drop c l.s)) (omega arith)
          (omega arith) (λ _. omega arith) left in
      rw (going, enough, suc_i)
        (
          next.0
              ∙ append_assoc done (take k (drop c l.s)) (take (size - k) (rest (suc i)))
              ∙ ap (λ u. done ++ u) (line_split i c size k inside (hl inside) refl),
          next.1,
        )

  -- Copying from the place `(i, c)` of file position `d` of the buffer.
  copy_from :
      (i c d size : ℕ)
      → i < 8
      → c ≤ (line t i).len
      → c ≤ length (rest i)
      → drop d (text t.lines) ≡ drop c (rest i)
      → d + size ≤ length (text t.lines)
      → let r =
          copy_lines 9 t (record { copied = []; line_idx = i; char_offset = c; size = size }) in
        (r.copied ≡ take size (drop d (text t.lines))) × (r.size ≡ 0)
  copy_from i c d size h hc hr e hs =
      let fits : size + c ≤ length (rest i) =
        omega (arith, ap length e, length-drop d (text t.lines), length-drop c (rest i)) in
      let r = copy_lines_lem 9 i c size [] (omega arith) (omega arith) (λ _. hc) (inl fits) in
      (r.0 ∙ ap (take size) (sym e), r.1)

-- A read of text that is in the buffer returns at once, with exactly the text from its offset on.
pub read-buffered :
    {t : Stdin} (offset size : ℕ)
    → Valid t
    → t.bfr_offset + buffered t < 2 ^ 32
    → t.bfr_offset ≤ offset
    → offset + size ≤ t.bfr_offset + buffered t
    → offset < t.bfr_offset + buffered t
    → let r = read t offset size in
      (r.copied ≡ take size (drop (offset - t.bfr_offset) (text t.lines))) × (r.size ≡ 0)
unfolding read start_at
read-buffered {t} offset size v small lo hi inside = elim (dec_le offset t.bfr_offset) [
  | yes first ↦
      let test : leb offset t.bfr_offset ≡ true = ground arith in
      let zero_off : offset - t.bfr_offset ≡ 0 = omega arith in
      rw (test, zero_off)
        (copy_from v 0 0 0 size (omega arith) (omega arith) (omega arith) refl (omega arith))
  | no later ↦
      let test : leb offset t.bfr_offset ≡ false = ground arith in
      let found = find_line 8 t offset 0 t.bfr_offset in
      let l = find_line_lem v 8 0 offset t.bfr_offset refl (omega arith) lo inside small in
      let c : sub32 offset found.1 ≡ offset - found.1 = omega (arith, Located.lower l) in
      rw (test, c)
        (copy_from v found.0 (offset - found.1) (offset - t.bfr_offset) size (Located.below l)
          (omega (arith, Located.upper l, Located.lower l))
          (omega (arith, Located.upper l, Located.lower l, length-rest v found.0 (Located.below l)))
          (Located.same_rest l) (omega arith))
]

module _ {t : Stdin} (v : Valid t) where
  find_line_end :
      (fuel i offset start : ℕ)
      → i + fuel ≡ 8
      → i ≤ t.active_line
      → offset ≡ start + length (rest v i)
      → offset < 2 ^ 32
      → find_line fuel t offset i start ≡ (t.active_line, offset)
  unfolding find_line
  find_line_end zero i offset start e le end small = absurd (omega (arith, v.active))
  find_line_end (suc fuel) i offset start e le end small =
      let len = (line t i).len in
      let next : u32 (start + len) ≡ start + len = omega (arith, length-rest v i (omega arith)) in
      let test : ltb offset (start + len) ≡ false = ground (arith, length-rest v i (omega arith)) in
      let suc_i : i + 1 ≡ suc i = omega arith in
      elim (ℕ_discrete i t.active_line) [
        | yes last ↦
            let stop : leb t.active_line i ≡ true = ground arith in
            let reached : start + len ≡ offset =
              omega (arith, length-rest v i (omega arith), last_line v i (omega arith) last) in
            rw (next, test, stop) (ap₂ (λ a b. (a, b)) last reached)
        | no earlier ↦
            let more : leb t.active_line i ≡ false = ground arith in
            rw (next, test, more, suc_i)
              (find_line_end fuel (suc i) offset (start + len) (omega arith) (omega arith)
                (omega (arith, length-rest v i (omega arith))) small)
      ]

-- A read at the end of the buffered text starts at the first character of the active line, also
-- where that line holds characters: what has been read of an unfinished line is read again.
pub start_at_end :
    {t : Stdin} (offset : ℕ)
    → Valid t
    → offset ≡ t.bfr_offset + buffered t
    → offset < 2 ^ 32
    → t.bfr_offset < offset
    → start_at t offset ≡ (t.active_line, 0)
unfolding start_at
start_at_end {t} offset v end small more =
    let test : leb offset t.bfr_offset ≡ false = ground arith in
    let found : find_line 8 t offset 0 t.bfr_offset ≡ (t.active_line, offset) =
      find_line_end v 8 0 offset t.bfr_offset refl (omega arith) end small in
    rw (test, found) (ap (λ c. (t.active_line, c)) (omega arith))
