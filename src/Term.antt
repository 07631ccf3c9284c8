-- ===== src/Term.antt =====
-- The terminal's input buffer of src/kernel/term.c: `term_stdin_putc`, and the reading branch of
-- `term_transfer` up to the point where it waits for another line. Bytes of a line past its
-- length are kept, as in the C array. The lock is in `Sync`.
pub mod Lines
pub mod Put
pub mod Read
mod Tests
use muse.Base.{
  ℕ, zero, suc, ◌+◌, ◌-◌, ◌%◌, ◌^◌, Bool, true, false, ◌&&◌, ◌||◌, List, [], ◌∷◌, ◌++◌, ltb, leb,
  ◌==◌, if◌then◌else◌, u32, sub32, get_or, set, take, drop, replicate, min,
}

-- TERM_BFR_HEIGHT and TERM_BFR_WIDTH
abbrev pub height : ℕ
height = 8

abbrev pub width : ℕ
width = 64

-- `struct stdin_line`
pub record Line : Type 0 where
  pub len : ℕ
  pub s : List ℕ

-- `struct stdin`
pub record Stdin : Type 0 where
  pub active_line : ℕ
  pub bfr_offset : ℕ
  pub lines : List Line

abbrev pub empty_line : Line
empty_line = record { len = 0; s = replicate 64 0 }

-- `in->lines[i]`
abbrev pub line : Stdin → ℕ → Line
line t i = get_or t.lines i empty_line

-- The buffer that `init_root_term` sets up.
abbrev pub init_stdin : Stdin
init_stdin = record { active_line = 0; bfr_offset = 0; lines = replicate 8 empty_line }

-- `in->lines[in->active_line].s[in->lines[in->active_line].len++] = c`
pub append : Stdin → ℕ → Stdin
append t c =
    let l = line t t.active_line in
    record t {
      lines = set t.lines t.active_line (record { len = u32 (l.len + 1); s = set l.s l.len c });
    }

-- The `memcpy` of the lines one place down, and the new empty last line.
pub scroll : Stdin → Stdin
scroll t =
    let moved = drop 1 t.lines ++ (line t 7 ∷ []) in
    let active = t.active_line - 1 in
    record {
      active_line = active;
      bfr_offset = u32 (t.bfr_offset + (line t 0).len);
      lines = set moved active (record { len = 0; s = (get_or moved active empty_line).s });
    }

-- `term_stdin_putc`; the flag says whether readers are signalled.
pub putc : Stdin → ℕ → Stdin × Bool
putc t c =
    let u = append t c in
    if leb width (line u u.active_line).len || c == b'\n'
    then (let v = record u { active_line = u.active_line + 1 } in
        (if v.active_line == height then scroll v else v, true))
    else (u, false)

-- The search for the line of a file offset, on fuel: `(line_idx, line_offset)`.
pub find_line : ℕ → Stdin → ℕ → ℕ → ℕ → ℕ × ℕ
find_line zero t offset line_idx line_offset = (line_idx, line_offset)
find_line (suc fuel) t offset line_idx line_offset =
    let next = u32 (line_offset + (line t line_idx).len) in
    let rest = find_line fuel t offset (line_idx + 1) next in
    if ltb offset next
    then (line_idx, line_offset)
    else if leb t.active_line line_idx
    then (line_idx, next)
    else rest

-- `(line_idx, char_offset)` at which reading starts
pub start_at : Stdin → ℕ → ℕ × ℕ
start_at t offset =
    let found = find_line height t offset 0 t.bfr_offset in
    if leb offset t.bfr_offset then (0, 0) else (found.0, sub32 offset found.1)

-- Where a transaction of the reading loop stands: what it has copied, and what it still wants.
pub record Transfer : Type 0 where
  pub copied : List ℕ
  pub line_idx : ℕ
  pub char_offset : ℕ
  pub size : ℕ

-- The inner loop `while (size && line_idx <= in->active_line)`, on fuel.
pub copy_lines : ℕ → Stdin → Transfer → Transfer
copy_lines zero t r = r
copy_lines (suc fuel) t r =
    let l = line t r.line_idx in
    let transfer_size = min r.size (sub32 l.len r.char_offset) in
    let rest = copy_lines fuel t (record {
      copied = r.copied ++ take transfer_size (drop r.char_offset l.s);
      line_idx = r.line_idx + 1;
      char_offset = 0;
      size = r.size - transfer_size;
    }) in
    if r.size == 0 || ltb t.active_line r.line_idx
    then r
    else if r.line_idx == t.active_line && ltb transfer_size r.size
    then r
    else rest

-- The first transaction of a read of `size` bytes at `offset`; the read waits while `size` is left.
pub read : Stdin → ℕ → ℕ → Transfer
read t offset size =
    let (i, c) = start_at t offset in
    copy_lines (height + 1) t (record { copied = []; line_idx = i; char_offset = c; size = size })
