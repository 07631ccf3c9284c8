-- ===== src/Stdio.antt =====
-- Buffered streams of the C library, libc/lib/stdio.c. The system call `muse_syscall` (assembly in
-- libc/lib/syscall.c) and `malloc` are parameters, on the state of a process: the kernel's part of
-- it and the process's memory.
mod Tests
pub mod Output
use muse.Base.{
  ℕ, zero, suc, ◌+◌, ◌-◌, ◌*◌, ◌/◌, ◌^◌, bit_and, bit_or, Bool, true, false, ◌&&◌, ◌||◌, Option,
  none, some, ltb, leb, ◌==◌, if◌then◌else◌, u8, u32, sub32, update, not, char_to_int,
}
use muse.Base.Memory.{Bytes}
use muse.Malloc.{store32}

pub record Process (S : Type 0) : Type 0 where
  pub kernel : S
  pub mem : Bytes

-- `FILE`
pub record File : Type 0 where
  pub fd : ℕ
  pub pos : ℕ
  pub bfr : ℕ
  pub bfr_size : ℕ
  pub bfr_cap : ℕ
  pub line_buffered : Bool

-- EOF and BUFSIZ
abbrev pub eof : ℕ
eof = 2 ^ 32 - 1

abbrev pub bufsiz : ℕ
bufsiz = 8192

-- the mode of `fopen`, from its string at `s`
pub open_mode : Bytes → ℕ → ℕ
open_mode m s =
    let read = if m s == b'r' then 1 else 0 in
    let write = if m s == b'w' then bit_or read 26 else read in
    let append = if m s == b'a' then bit_or write 22 else write in
    let plus = if m (s + 1) == b'+' || m (s + 2) == b'+' then bit_or append 3 else append in
    if m (s + 1) == b'x' || m (s + 2) == b'x' || m (s + 3) == b'x' then bit_and plus 247 else plus

module _ {S : Type 0} (muse_syscall : ℕ → ℕ → ℕ → ℕ → Process S → ℕ × Process S) where
  pub syscall_read : File → ℕ → ℕ → Process S → ℕ × Process S
  syscall_read f size res p = muse_syscall 3 f.fd size res p

  pub syscall_write : File → ℕ → ℕ → Process S → ℕ × Process S
  syscall_write f size res p = muse_syscall 3 (sub32 0 f.fd) size res p

  pub syscall_seek : File → ℕ → ℕ → Process S → ℕ × Process S
  syscall_seek f offset whence p = muse_syscall 4 f.fd offset whence p

  -- `fopen`, with `malloc`: the stream, if there is one
  pub fopen : (ℕ → Process S → ℕ × Process S) → ℕ → ℕ → Process S → Option File × Process S
  fopen malloc filename mode_str p =
      let (fd, p1) = muse_syscall 2 filename (open_mode p.mem mode_str) 0 p in
      let (_, p2) = malloc 24 p1 in
      let opened : File = record {
        fd = fd;
        pos = 0;
        bfr = 0;
        bfr_size = 0;
        bfr_cap = bufsiz;
        line_buffered = false;
      } in
      let (pos, p3) = syscall_seek opened 0 1 p2 in
      let (bfr, p4) = malloc 0 p3 in
      if leb (2 ^ 31) fd then (none, p1) else (some (record opened { pos = pos; bfr = bfr }), p4)

  -- the stream, what the call returns, and the process
  pub fflush : File → Process S → File × ℕ × Process S
  fflush f p =
      let (chars_written, q) = syscall_write f f.bfr_size f.bfr p in
      let moved = record f { pos = u32 (f.pos + chars_written) } in
      if chars_written == f.bfr_size then (record moved { bfr_size = 0 }, 0, q) else (moved, eof, q)

  -- `fclose`, with `free`
  pub fclose : (ℕ → Process S → Process S) → File → Process S → ℕ × Process S
  fclose free f p =
      let (_, res, p1) = fflush f p in
      let p2 = if f.bfr == 0 then p1 else free f.bfr p1 in
      let (closed, p3) = muse_syscall 5 f.fd 0 0 p2 in
      (if leb (2 ^ 31) closed then eof else if res == eof then eof else 0, p3)

  -- `fgetc`, with the address of its local `c`
  pub fgetc : ℕ → File → Process S → File × ℕ × Process S
  fgetc c f p =
      let (g, _, p1) = fflush f p in
      let (chars_read, p2) = syscall_read g 1 c p1 in
      (record g { pos = u32 (g.pos + chars_read) }, if chars_read == 1 then p2.mem c else eof, p2)

  -- `fputc` on a stream without a buffer, with the address of its argument
  pub put_unbuffered : ℕ → ℕ → File → Process S → File × ℕ × Process S
  put_unbuffered address c f p =
      let (chars_written, q) =
        syscall_write f 1 address (record p { mem = store32 p.mem address c }) in
      (record f { pos = u32 (f.pos + chars_written) }, if chars_written == 1 then c else eof, q)

  -- and on one with a buffer
  pub put_buffered : ℕ → File → Process S → File × ℕ × Process S
  put_buffered c f p =
      let q = record p { mem = update p.mem (f.bfr + f.bfr_size) (u8 c) } in
      let g = record f { bfr_size = u32 (f.bfr_size + 1) } in
      if g.bfr_size == g.bfr_cap || g.line_buffered && c == b'\n' then fflush g q else (g, c, q)

  pub fputc : ℕ → ℕ → File → Process S → File × ℕ × Process S
  fputc address c f p = if f.bfr == 0 then put_unbuffered address c f p else put_buffered c f p

  -- The loop of `fwrite`, with `left` bytes left from byte `i` on: `i` where it stops, last.
  pub put_bytes : ℕ → ℕ → ℕ → ℕ → File → Process S → File × ℕ × Process S
  put_bytes zero address ptr i f p = (f, i, p)
  put_bytes (suc left) address ptr i f p =
      let (g, res, q) = fputc address (char_to_int (p.mem (ptr + i))) f p in
      let rest = put_bytes left address ptr (i + 1) g q in if res == eof then (g, i, q) else rest

  pub fwrite : ℕ → ℕ → ℕ → ℕ → File → Process S → File × ℕ × Process S
  fwrite address ptr size nmemb f p =
      let (chars_written, q) = syscall_write f (u32 (size * nmemb)) ptr p in
      let (g, i, r) = put_bytes (u32 (size * nmemb)) address ptr 0 f p in
      if f.bfr == 0
      then (record f { pos = u32 (f.pos + chars_written) }, chars_written / size, q)
      else (g, u32 (i + 1) / size, r)

  -- `fputs`, for a string of `n` bytes
  pub fputs : ℕ → ℕ → ℕ → File → Process S → File × ℕ × Process S
  fputs address s n f p = fwrite address s 1 n f p

  pub fread : ℕ → ℕ → ℕ → File → Process S → File × ℕ × Process S
  fread ptr size nmemb f p =
      let (g, _, p1) = fflush f p in
      let (chars_read, p2) = syscall_read g (u32 (size * nmemb)) ptr p1 in
      (record g { pos = u32 (g.pos + chars_read) }, chars_read / size, p2)
