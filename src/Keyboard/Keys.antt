-- ===== src/Keyboard/Keys.antt =====
-- The characters of src/kernel/keyboard.c's keys, and what reaches the terminal.
use muse.Base.{
  ℕ, zero, suc, ◌+◌, ◌-◌, ◌<◌, ◌≡◌, ◌≢◌, refl, sym, ap, ◌∙◌, List, [], ◌∷◌, ◌++◌, map, Bool, ◌||◌,
  ◌&&◌, true, false, arith, ◌==◌, if◌then◌else◌, leb, u8, ℕ_discrete, not, append-nil, append_assoc,
  ==_ne, u32, sub32, Bool-cases, inl, inr,
}
use muse.Keyboard.{
  lookup, lower_keys, shifted, keycode_to_char_lower, keycode_to_char, handle_keypress, handle_all,
  Keyboard,
}
use muse.Term.{putc}
use muse.Term.Put.{putc_all}

-- What a key types, with shift held or not.
typed : Bool → ℕ → ℕ
typed held k =
    let lower = lookup lower_keys k 0 in
    if held
    then (if leb b'a' lower && leb lower b'z'
        then u8 (lower + b'A' - b'a')
        else lookup shifted lower lower)
    else lower

swap : ℕ × ℕ → ℕ × ℕ
swap row = (row.1, row.0)

-- The key that types a character: the two tables read backwards.
code_of : Bool → ℕ → ℕ
code_of held c =
    let lower =
      if leb b'A' c && leb c b'Z' then c + b'a' - b'A' else lookup (map swap shifted) c c in
    lookup (map swap lower_keys) (if held then lower else c) 0

all_below : ℕ → (ℕ → Bool) → Bool
all_below zero p = true
all_below (suc n) p = p n && all_below n p

all_below-true : (n : ℕ) (p : ℕ → Bool) (k : ℕ) → all_below n p ≡ true → k < n → p k ≡ true
unfolding all_below
all_below-true zero p k h lt = absurd (omega arith)
all_below-true (suc n) p k h lt = elim (ℕ_discrete k n) [
  | yes e ↦ ground (arith)
  | no ne ↦ all_below-true n p k (ground arith) (omega arith)
]

round : Bool → ℕ → Bool
round held k = typed held k == 0 || code_of held (typed held k) == k

round_plain : all_below 256 (round false) ≡ true
unfolding all_below round typed code_of lookup swap
round_plain = refl

round_held : all_below 256 (round true) ≡ true
unfolding all_below round typed code_of lookup swap
round_held = refl

code_of-typed : (held : Bool) (k : ℕ) → k < 256 → typed held k ≢ 0 → code_of held (typed held k) ≡ k
unfolding round
code_of-typed true k lt ne = ground (arith, all_below-true 256 (round true) k round_held lt)
code_of-typed false k lt ne = ground (arith, all_below-true 256 (round false) k round_plain lt)

lookup-shifted_zero : lookup shifted 0 0 ≡ 0
unfolding lookup
lookup-shifted_zero = refl

-- A code that types a character is no shift key, and leaves `shift_held` alone.
keycode_to_char-typed :
    (s k : ℕ) → (keycode_to_char s k).1 ≢ 0 → keycode_to_char s k ≡ (s, typed (not (s == 0)) k)
unfolding keycode_to_char keycode_to_char_lower typed
keycode_to_char-typed s k ne = elim (Bool-cases (k == 0x2A || k == 0x36)) [
  | inl a ↦ absurd (ground (arith, lookup-shifted_zero))
  | inr a ↦ elim (Bool-cases (k == 0xAA || k == 0xB6)) [
    | inl b ↦ absurd (ground (arith, lookup-shifted_zero))
    | inr b ↦ elim (Bool-cases (s == 0)) [
      | inl z ↦ rw (a, b, z) (refl)
      | inr z ↦ rw (a, b, z) (ground arith)
    ]
  ]
]

-- With `shift_held` the same, two scan codes that type the same character are the same code.
pub keycode_to_char-injective :
    (s k k' : ℕ)
    → k < 256
    → k' < 256
    → (keycode_to_char s k).1 ≡ (keycode_to_char s k').1
    → (keycode_to_char s k).1 ≢ 0
    → k ≡ k'
keycode_to_char-injective s k k' lt lt' e ne =
    let a = ap (λ r. r.1) (keycode_to_char-typed s k ne) in
    let b = ap (λ r. r.1) (keycode_to_char-typed s k' (λ z. ne (e ∙ z))) in
    let held = not (s == 0) in
    sym (code_of-typed held k lt (λ z. ne (a ∙ z)))
    ∙ ap (code_of held) (sym a ∙ e ∙ b)
    ∙ code_of-typed held k' lt' (λ z. ne (e ∙ b ∙ z))

-- What a sequence of codes types from a value of `shift_held` on: a shift key counts it up or down,
-- and another key types its character, if it has one.
pub text : ℕ → List ℕ → List ℕ
text s [] = []
text s (code ∷ codes) =
    let c = typed (not (s == 0)) code in
    let on = text s codes in
    let down = text (u32 (s + 1)) codes in
    let up = text (sub32 s 1) codes in
    if code == 0x2A || code == 0x36
    then down
    else if code == 0xAA || code == 0xB6
    then up
    else if c == 0
    then on
    else c ∷ on

-- shift and A, then 1
text_capital : text 0 (0x2A ∷ 0x1E ∷ 0xAA ∷ 0x02 ∷ []) ≡ b'A' ∷ b'1' ∷ []
unfolding text typed lookup
text_capital = refl

-- the code of a shift key, pressed or released, and of another key
keycode_to_char-down :
    (s k : ℕ) → (k == 0x2A || k == 0x36) ≡ true → keycode_to_char s k ≡ (u32 (s + 1), 0)
unfolding keycode_to_char keycode_to_char_lower
keycode_to_char-down s k h = elim (ℕ_discrete (u32 (s + 1)) 0) [
  | yes z ↦ rw (h, z) refl
  | no ne ↦ rw (h, ==_ne _ _ ne, lookup-shifted_zero) refl
]

keycode_to_char-up :
    (s k : ℕ)
    → (k == 0x2A || k == 0x36) ≡ false
    → (k == 0xAA || k == 0xB6) ≡ true
    → keycode_to_char s k ≡ (sub32 s 1, 0)
unfolding keycode_to_char keycode_to_char_lower
keycode_to_char-up s k no_press h = elim (ℕ_discrete (sub32 s 1) 0) [
  | yes z ↦ rw (no_press, h, z) refl
  | no ne ↦ rw (no_press, h, ==_ne _ _ ne, lookup-shifted_zero) refl
]

keycode_to_char-key :
    (s k : ℕ)
    → (k == 0x2A || k == 0x36) ≡ false
    → (k == 0xAA || k == 0xB6) ≡ false
    → keycode_to_char s k ≡ (s, typed (not (s == 0)) k)
unfolding keycode_to_char keycode_to_char_lower typed
keycode_to_char-key s k no_press no_release = elim (Bool-cases (s == 0)) [
  | inl z ↦ rw (no_press, no_release, z) refl
  | inr z ↦ rw (no_press, no_release, z) (ground arith)
]

-- one interrupt, by what its code means
handle_keypress-shift :
    (k : Keyboard) (code held : ℕ)
    → keycode_to_char k.shift_held code ≡ (held, 0)
    → handle_keypress k code ≡ record k { shift_held = held }
unfolding handle_keypress
handle_keypress-shift k code held e = rw e refl

handle_keypress-key :
    (k : Keyboard) (code c : ℕ)
    → keycode_to_char k.shift_held code ≡ (k.shift_held, c)
    → c ≢ 0
    → handle_keypress k code ≡ record k { shown = k.shown ++ c ∷ []; stdin = (putc k.stdin c).0 }
unfolding handle_keypress
handle_keypress-key k code c e ne = rw (e, ==_ne _ _ ne) refl

-- The console and the terminal get the characters that the scan codes type, in their order: each
-- code that is no shift key types the character of its key, small or shifted by the count of the
-- shift keys before it, and nothing if the key has none.
pub handle_all_lem :
    (codes : List ℕ) (k : Keyboard)
    → ((handle_all k codes).shown ≡ k.shown ++ text k.shift_held codes)
      × ((handle_all k codes).stdin ≡ putc_all k.stdin (text k.shift_held codes))
unfolding handle_all putc_all text
handle_all_lem [] k = (sym (append-nil k.shown), refl)
handle_all_lem (code ∷ codes) k =
    let then_all : (t : Keyboard)
        → handle_keypress k code ≡ t
        → ((handle_all (handle_keypress k code) codes).shown ≡ t.shown ++ text t.shift_held codes)
          × ((handle_all (handle_keypress k code) codes).stdin
              ≡ putc_all t.stdin (text t.shift_held codes)) =
      λ t e. rw e (handle_all_lem codes t) in
    elim (Bool-cases (code == 0x2A || code == 0x36)) [
      | inl press ↦ rw press (
          then_all _
            (handle_keypress-shift k code _ (keycode_to_char-down k.shift_held code press)))
      | inr no_press ↦ elim (Bool-cases (code == 0xAA || code == 0xB6)) [
        | inl release ↦
            rw (no_press, release)
              (then_all _ (
                handle_keypress-shift k code _
                  (keycode_to_char-up k.shift_held code no_press release)))
        | inr no_release ↦
            let key = keycode_to_char-key k.shift_held code no_press no_release in
            elim (ℕ_discrete (typed (not (k.shift_held == 0)) code) 0) [
              | yes z ↦
                  rw (no_press, no_release, z)
                    (then_all k (handle_keypress-shift k code k.shift_held (rw z at key)))
              | no ne ↦
                  rw (no_press, no_release, ==_ne _ _ ne)
                    (let (shown, stdin) = then_all _ (handle_keypress-key k code _ key ne) in
                      (shown ∙ append_assoc k.shown _ _, stdin))
            ]
      ]
    ]
