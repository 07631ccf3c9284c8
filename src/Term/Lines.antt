-- ===== src/Term/Lines.antt =====
-- The text that a list of lines holds, and how writing a line changes it.
use muse.Base.{
  min, ℕ, zero, suc, ◌+◌, ◌-◌, ◌≤◌, ◌<◌, ◌≡◌, refl, sym, ap, ap₂, ◌∙◌, List, [], ◌∷◌, ◌++◌, arith,
  length, get_or, set, take, drop, append-nil, append_assoc,
}
use muse.Term.{Line}

-- the characters of a line, and of a list of lines
abbrev pub chars : Line → List ℕ
chars l = take l.len l.s

abbrev pub text : List Line → List ℕ
text [] = []
text (l ∷ ls) = chars l ++ text ls

module _ {ℓ} {A : Type ℓ} where
  pub take_next :
      (s : List A) (n : ℕ) (c : A) → n < length s → take (suc n) (set s n c) ≡ take n s ++ c ∷ []
  take_next [] n c h = absurd (omega arith)
  take_next (x ∷ s) zero c h = refl
  take_next (x ∷ s) (suc n) c h = ap (λ t. x ∷ t) (take_next s n c (omega arith))

  pub length-take_le : (n : ℕ) (s : List A) → n ≤ length s → length (take n s) ≡ n
  length-take_le zero s h = refl
  length-take_le (suc n) [] h = absurd (omega arith)
  length-take_le (suc n) (x ∷ s) h = ap suc (length-take_le n s (omega arith))

  pub drop-append : (xs ys : List A) → drop (length xs) (xs ++ ys) ≡ ys
  drop-append [] ys = refl
  drop-append (x ∷ xs) ys = drop-append xs ys

  pub set-append : (xs : List A) (x y : A) → set (xs ++ x ∷ []) (length xs) y ≡ xs ++ y ∷ []
  set-append [] x y = refl
  set-append (z ∷ xs) x y = ap (λ t. z ∷ t) (set-append xs x y)

  pub get_or-append_left :
      (xs ys : List A) (i : ℕ) (d : A) → i < length xs → get_or (xs ++ ys) i d ≡ get_or xs i d
  get_or-append_left [] ys i d h = absurd (omega arith)
  get_or-append_left (x ∷ xs) ys zero d h = refl
  get_or-append_left (x ∷ xs) ys (suc i) d h = get_or-append_left xs ys i d (omega arith)

  pub get_or-append_end : (xs : List A) (y d : A) → get_or (xs ++ y ∷ []) (length xs) d ≡ y
  get_or-append_end [] y d = refl
  get_or-append_end (x ∷ xs) y d = get_or-append_end xs y d

  pub drop-get_or :
      (xs : List A) (i : ℕ) (d : A) → i < length xs → drop i xs ≡ get_or xs i d ∷ drop (suc i) xs
  drop-get_or [] i d h = absurd (omega arith)
  drop-get_or (x ∷ xs) zero d h = refl
  drop-get_or (x ∷ xs) (suc i) d h = drop-get_or xs i d (omega arith)

  pub drop_all : (n : ℕ) (xs : List A) → length xs ≤ n → drop n xs ≡ []
  drop_all zero [] h = refl
  drop_all (suc n) [] h = refl
  drop_all zero (x ∷ xs) h = absurd (omega arith)
  drop_all (suc n) (x ∷ xs) h = drop_all n xs (omega arith)

  pub take_more :
      (n : ℕ) (xs ys : List A) → length xs ≤ n → take n (xs ++ ys) ≡ xs ++ take (n - length xs) ys
  take_more n [] ys h = ap (λ k. take k ys) (omega arith)
  take_more zero (x ∷ xs) ys h = absurd (omega arith)
  take_more (suc n) (x ∷ xs) ys h =
      ap (λ t. x ∷ t) (take_more n xs ys (omega arith) ∙ ap (λ k. xs ++ take k ys) (omega arith))

  pub take_within : (n : ℕ) (xs ys : List A) → n ≤ length xs → take n (xs ++ ys) ≡ take n xs
  take_within zero xs ys h = refl
  take_within (suc n) [] ys h = absurd (omega arith)
  take_within (suc n) (x ∷ xs) ys h = ap (λ t. x ∷ t) (take_within n xs ys (omega arith))

  pub drop_more :
      (n : ℕ) (xs ys : List A) → length xs ≤ n → drop n (xs ++ ys) ≡ drop (n - length xs) ys
  drop_more n [] ys h = ap (λ k. drop k ys) (omega arith)
  drop_more zero (x ∷ xs) ys h = absurd (omega arith)
  drop_more (suc n) (x ∷ xs) ys h =
      drop_more n xs ys (omega arith) ∙ ap (λ k. drop k ys) (omega arith)

  pub drop_within : (n : ℕ) (xs ys : List A) → n ≤ length xs → drop n (xs ++ ys) ≡ drop n xs ++ ys
  drop_within zero xs ys h = refl
  drop_within (suc n) [] ys h = absurd (omega arith)
  drop_within (suc n) (x ∷ xs) ys h = drop_within n xs ys (omega arith)

  pub length-drop : (n : ℕ) (xs : List A) → length (drop n xs) ≡ length xs - n
  length-drop zero xs = omega arith
  length-drop (suc n) [] = omega arith
  length-drop (suc n) (x ∷ xs) = omega (arith, length-drop n xs)

  -- A prefix of an append is a prefix of the first list and a prefix of the second.
  pub take_split :
      (xs ys : List A) (n k : ℕ)
      → k ≡ min n (length xs)
      → take k xs ++ take (n - k) ys ≡ take n (xs ++ ys)
  take_split [] ys n zero e = ap (λ m. take m ys) (omega arith)
  take_split [] ys n (suc k) e = absurd (omega arith)
  take_split (x ∷ xs) ys zero zero e = refl
  take_split (x ∷ xs) ys zero (suc k) e = absurd (omega arith)
  take_split (x ∷ xs) ys (suc n) zero e = absurd (omega arith)
  take_split (x ∷ xs) ys (suc n) (suc k) e =
      ap (λ m. x ∷ take k xs ++ take m ys) (omega arith)
      ∙ ap (λ t. x ∷ t) (take_split xs ys n k (omega arith))

  -- reading past a prefix of a prefix
  pub take-drop-take :
      (k c n : ℕ) (s : List A) → c + k ≤ n → take k (drop c s) ≡ take k (drop c (take n s))
  take-drop-take k zero n s h = prefix k n s (omega arith)
    where
      prefix : (k n : ℕ) (s : List A) → k ≤ n → take k s ≡ take k (take n s)
      prefix zero n s h = refl
      prefix (suc k) zero s h = absurd (omega arith)
      prefix (suc k) (suc n) [] h = refl
      prefix (suc k) (suc n) (x ∷ s) h = ap (λ t. x ∷ t) (prefix k n s (omega arith))
  take-drop-take k (suc c) zero s h = absurd (omega arith)
  take-drop-take k (suc c) (suc n) [] h = refl
  take-drop-take k (suc c) (suc n) (x ∷ s) h = take-drop-take k c n s (omega arith)

-- Every line from `i` on is empty.
abbrev pub BlankFrom : ℕ → List Line → Type 0
BlankFrom i [] = Unit
BlankFrom zero (l ∷ ls) = (l.len ≡ 0) × BlankFrom zero ls
BlankFrom (suc i) (l ∷ ls) = BlankFrom i ls

pub text_blank : (ls : List Line) → BlankFrom 0 ls → text ls ≡ []
text_blank [] h = refl
text_blank (l ∷ ls) h = ap₂ ◌++◌ (ap (λ n. take n l.s) h.0) (text_blank ls h.1)

-- Adding a character to the last line that is not empty adds it to the text.
pub text-set :
    (ls : List Line) (i : ℕ) (l' : Line) (c : ℕ) (d : Line)
    → i < length ls
    → BlankFrom (suc i) ls
    → chars l' ≡ chars (get_or ls i d) ++ c ∷ []
    → text (set ls i l') ≡ text ls ++ c ∷ []
text-set [] i l' c d h b e = absurd (omega arith)
text-set (l ∷ ls) zero l' c d h b e =
    ap₂ ◌++◌ e (text_blank ls b)
    ∙ append-nil (chars l ++ c ∷ [])
    ∙ ap (λ t. t ++ c ∷ []) (sym (ap (λ t. chars l ++ t) (text_blank ls b) ∙ append-nil (chars l)))
text-set (l ∷ ls) (suc i) l' c d h b e =
    ap (λ t. chars l ++ t) (text-set ls i l' c d (omega arith) b e)
    ∙ sym (append_assoc (chars l) (text ls) (c ∷ []))

pub text-append : (ls ms : List Line) → text (ls ++ ms) ≡ text ls ++ text ms
text-append [] ms = refl
text-append (l ∷ ls) ms =
    ap (λ t. chars l ++ t) (text-append ls ms) ∙ sym (append_assoc (chars l) (text ls) (text ms))
