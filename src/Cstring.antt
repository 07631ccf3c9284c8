-- ===== src/Cstring.antt =====
-- The C library's libc/lib/string.c over byte memory. A function that writes returns the
-- memory with its result. Loops up to `n` recurse on what is left of `n`; loops up to a NUL take
-- fuel and give `none` without it. Pointers are addresses that do not wrap, and 0 is the null
-- pointer; int results are 32-bit patterns.
pub mod Strings
pub mod Copy
pub mod Concat
pub mod Compare
pub mod Search
pub mod Find
mod Tests
use muse.Base.Memory.{Bytes}
use muse.Base.{
  ℕ, zero, suc, ◌+◌, ◌-◌, Bool, true, false, Option, none, some, ltb, leb, ◌==◌, if◌then◌else◌,
  update, sub32, char_to_int, not, ◌||◌, ◌&&◌,
}

-- `for (i = 0; i < n; i++) s1[i] = s2[i]`, with `left` bytes left
pub copy_bytes : ℕ → Bytes → ℕ → ℕ → ℕ → Bytes
copy_bytes zero m s1 s2 i = m
copy_bytes (suc left) m s1 s2 i = copy_bytes left (update m (s1 + i) (m (s2 + i))) s1 s2 (i + 1)

pub memcpy : Bytes → ℕ → ℕ → ℕ → Bytes × ℕ
memcpy m s1 s2 n = (copy_bytes n m s1 s2 0, s1)

-- `for (i = 0; i < n; i++) s1[n - i] = s2[n - i]`, with `left` = n - i
pub copy_down : ℕ → Bytes → ℕ → ℕ → Bytes
copy_down zero m s1 s2 = m
copy_down (suc left) m s1 s2 = copy_down left (update m (s1 + suc left) (m (s2 + suc left))) s1 s2

pub memmove : Bytes → ℕ → ℕ → ℕ → Bytes × ℕ
memmove m s1 s2 n = if leb s1 s2 then memcpy m s1 s2 n else (copy_down n m s1 s2, s1)

pub copy_string : ℕ → Bytes → ℕ → ℕ → ℕ → Option Bytes
copy_string zero m s1 s2 i = none
copy_string (suc fuel) m s1 s2 i =
    let written = update m (s1 + i) (m (s2 + i)) in
    let rest = copy_string fuel written s1 s2 (i + 1) in
    if written (s2 + i) == 0 then some written else rest

pub strcpy : ℕ → Bytes → ℕ → ℕ → Option (Bytes × ℕ)
strcpy fuel m s1 s2 = elim (copy_string fuel m s1 s2 0) [ none ↦ none | some m' ↦ some (m', s1) ]

-- `for (; i < n; i++) s1[i] = 0`
pub fill_zero : ℕ → Bytes → ℕ → ℕ → Bytes
fill_zero zero m s1 i = m
fill_zero (suc left) m s1 i = fill_zero left (update m (s1 + i) 0) s1 (i + 1)

pub copy_padded : ℕ → Bytes → ℕ → ℕ → ℕ → Bytes
copy_padded zero m s1 s2 i = m
copy_padded (suc left) m s1 s2 i =
    let rest = copy_padded left (update m (s1 + i) (m (s2 + i))) s1 s2 (i + 1) in
    if m (s2 + i) == 0 then fill_zero (suc left) m s1 i else rest

pub strncpy : Bytes → ℕ → ℕ → ℕ → Bytes × ℕ
strncpy m s1 s2 n = (copy_padded n m s1 s2 0, s1)

-- `while (s[i]) i++`
pub find_nul : ℕ → Bytes → ℕ → ℕ → Option ℕ
find_nul zero m s i = none
find_nul (suc fuel) m s i =
    let rest = find_nul fuel m s (i + 1) in if m (s + i) == 0 then some i else rest

pub strlen : ℕ → Bytes → ℕ → Option ℕ
strlen fuel m s = find_nul fuel m s 0

-- The second loop of `strcat` and its last write, to `d` = s1 + null_idx.
pub append_string : ℕ → Bytes → ℕ → ℕ → ℕ → Option Bytes
append_string zero m d s2 i = none
append_string (suc fuel) m d s2 i =
    let rest = append_string fuel (update m (d + i) (m (s2 + i))) d s2 (i + 1) in
    if m (s2 + i) == 0 then some (update m (d + i) 0) else rest

pub strcat : ℕ → Bytes → ℕ → ℕ → Option (Bytes × ℕ)
strcat fuel m s1 s2 = elim (find_nul fuel m s1 0) [
  | none ↦ none
  | some null_idx ↦ elim (append_string fuel m (s1 + null_idx) s2 0) [
    | none ↦ none
    | some m' ↦ some (m', s1)
  ]
]

pub append_counted : ℕ → Bytes → ℕ → ℕ → ℕ → Bytes
append_counted zero m d s2 i = update m (d + i) 0
append_counted (suc left) m d s2 i =
    let rest = append_counted left (update m (d + i) (m (s2 + i))) d s2 (i + 1) in
    if m (s2 + i) == 0 then update m (d + (i + 1)) 0 else rest

pub strncat : ℕ → Bytes → ℕ → ℕ → ℕ → Option (Bytes × ℕ)
strncat fuel m s1 s2 n = elim (find_nul fuel m s1 0) [
  | none ↦ none
  | some null_idx ↦ some (append_counted n m (s1 + null_idx) s2 0, s1)
]

pub compare_bytes : ℕ → Bytes → ℕ → ℕ → ℕ → ℕ
compare_bytes zero m s1 s2 i = 0
compare_bytes (suc left) m s1 s2 i =
    let rest = compare_bytes left m s1 s2 (i + 1) in
    if m (s1 + i) == m (s2 + i) then rest else sub32 (m (s1 + i)) (m (s2 + i))

pub memcmp : Bytes → ℕ → ℕ → ℕ → ℕ
memcmp m s1 s2 n = compare_bytes n m s1 s2 0

pub strcmp : ℕ → Bytes → ℕ → ℕ → Option ℕ
strcmp zero m s1 s2 = none
strcmp (suc fuel) m s1 s2 =
    let rest = strcmp fuel m s1 s2 in
    if m s1 == m s2 then (if m s1 == 0 then some 0 else rest) else some (sub32 (m s1) (m s2))

pub compare_strings : ℕ → Bytes → ℕ → ℕ → ℕ → ℕ
compare_strings zero m s1 s2 i = 0
compare_strings (suc left) m s1 s2 i =
    let rest = compare_strings left m s1 s2 (i + 1) in
    if m (s1 + i) == m (s2 + i)
    then (if m (s1 + i) == 0 then 0 else rest)
    else sub32 (m (s1 + i)) (m (s2 + i))

pub strncmp : Bytes → ℕ → ℕ → ℕ → ℕ
strncmp m s1 s2 n = compare_strings n m s1 s2 0

-- `(void *)s + i` at the first match, with `left` bytes left from `s` on; the null pointer else
pub memchr : Bytes → ℕ → ℕ → ℕ → ℕ
memchr m s c zero = 0
memchr m s c (suc left) = let rest = memchr m (s + 1) c left in if m s == c then s else rest

pub strchr : ℕ → Bytes → ℕ → ℕ → Option ℕ
strchr zero m s c = none
strchr (suc fuel) m s c =
    let rest = strchr fuel m (s + 1) c in
    if m s == 0
    then some (if c == 0 then s else 0)
    else if char_to_int (m s) == c
    then some s
    else rest

-- `while (s2[j])`, up to the first byte that is `c`
pub matches : ℕ → Bytes → ℕ → ℕ → Option Bool
matches zero m s2 c = none
matches (suc fuel) m s2 c =
    let rest = matches fuel m (s2 + 1) c in
    if m s2 == 0 then some false else if c == m s2 then some true else rest

-- The outer loop, with `i` from 0; `fuel` is for the inner one.
pub span_until : ℕ → ℕ → Bytes → ℕ → ℕ → ℕ → Option ℕ
span_until zero fuel m s1 s2 i = none
span_until (suc left) fuel m s1 s2 i =
    let rest = span_until left fuel m s1 s2 (i + 1) in
    if m (s1 + i) == 0 then some i else elim (matches fuel m s2 (m (s1 + i))) [
      | none ↦ none
      | some found ↦ if found then some i else rest
    ]

pub strcspn : ℕ → Bytes → ℕ → ℕ → Option ℕ
strcspn fuel m s1 s2 = span_until fuel fuel m s1 s2 0

pub first_of : ℕ → ℕ → Bytes → ℕ → ℕ → Option ℕ
first_of zero fuel m s1 s2 = none
first_of (suc left) fuel m s1 s2 =
    let rest = first_of left fuel m (s1 + 1) s2 in
    if m s1 == 0 then some 0 else elim (matches fuel m s2 (m s1)) [
      | none ↦ none
      | some found ↦ if found then some s1 else rest
    ]

pub strpbrk : ℕ → Bytes → ℕ → ℕ → Option ℕ
strpbrk fuel m s1 s2 = first_of fuel fuel m s1 s2

pub last_match : ℕ → Bytes → ℕ → ℕ → ℕ → Option ℕ
last_match zero m s c res = none
last_match (suc fuel) m s c res =
    let rest = last_match fuel m (s + 1) c (if char_to_int (m s) == c then s else res) in
    if m s == 0 then some res else rest

pub strrchr : ℕ → Bytes → ℕ → ℕ → Option ℕ
strrchr fuel m s c = last_match fuel m s c 0

-- The loop's test reads `*s1`, not `s1[i]`.
pub span_while : ℕ → ℕ → Bytes → ℕ → ℕ → ℕ → Option ℕ
span_while zero fuel m s1 s2 i = none
span_while (suc left) fuel m s1 s2 i =
    let rest = span_while left fuel m s1 s2 (i + 1) in
    if m s1 == 0 then some i else elim (matches fuel m s2 (m (s1 + i))) [
      | none ↦ none
      | some good ↦ if good then rest else some i
    ]

pub strspn : ℕ → Bytes → ℕ → ℕ → Option ℕ
strspn fuel m s1 s2 = span_while fuel fuel m s1 s2 0
