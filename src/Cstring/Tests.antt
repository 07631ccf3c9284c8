-- ===== src/Cstring/Tests.antt =====
-- The string functions on the strings "ab" at 10, "b" at 20 and the bytes before them.
use muse.Base.Memory.{Bytes}
use muse.Base.{ℕ, ◌+◌, ◌≡◌, refl, some, arith, ◌==◌, if◌then◌else◌, ltb, ◌||◌}
use muse.Cstring.{strcspn, strpbrk}
use muse.Cstring.Strings.{IsString}
use muse.Cstring.Search.{strcspn-strpbrk, Stops, Among, NotAmong}

abbrev words : Bytes
words a = if a == 10 || a == 30 then b'a' else if a == 11 || a == 20 then b'b' else 0

ab : IsString words 10 2
ab = record { full = λ i h. ground arith; nul = refl }

b : IsString words 20 1
b = record { full = λ i h. ground arith; nul = refl }

strcspn-strpbrk_example :
    (r : ℕ) × (strcspn 3 words 10 20 ≡ some r)
    × (strpbrk 3 words 10 20 ≡ some (if ltb r 2 then 10 + r else 0))
    × Stops 2 0 r
        (λ j. NotAmong words 20 1 (words (10 + j)))
        (λ j. Among words 20 1 (words (10 + j)))
strcspn-strpbrk_example = strcspn-strpbrk 3 words 10 20 2 1 ab b (omega arith) (omega arith)
