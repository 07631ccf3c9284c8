-- ===== src/Term/Tests.antt =====
-- The terminal after typing "hi" and a new line.
use muse.Base.{◌+◌, ◌-◌, ◌≡◌, refl, arith, u32, [], ◌∷◌, ◌++◌, drop, take, replicate, subst}
use muse.Term.{Stdin, Line, init_stdin, empty_line, putc, read, append}
use muse.Term.Lines.{text}
use muse.Term.Put.{Valid, putc-text, putc_all, putc_all-Valid, init_stdin-Valid, dropped, completes}
use muse.Term.Read.{read-buffered}

abbrev typed : Stdin
typed = putc_all init_stdin (b'h' ∷ b'i' ∷ [])

typed-Valid : Valid typed
typed-Valid = putc_all-Valid (b'h' ∷ b'i' ∷ [])

putc-text_example :
    let (u, signalled) = putc init_stdin b'h' in
    (text u.lines ≡ drop (dropped init_stdin b'h') (text init_stdin.lines ++ b'h' ∷ []))
    × (u.bfr_offset ≡ u32 (0 + dropped init_stdin b'h'))
    × (signalled ≡ completes init_stdin b'h')
putc-text_example = putc-text b'h' init_stdin-Valid

putc_all-Valid_example : Valid (putc_all init_stdin (b'h' ∷ []))
putc_all-Valid_example = putc_all-Valid (b'h' ∷ [])

abbrev hi : Line
hi = record { len = 2; s = b'h' ∷ b'i' ∷ replicate 62 0 }

abbrev buffer : Stdin
buffer = record { active_line = 0; bfr_offset = 0; lines = hi ∷ replicate 7 empty_line }

buffer-is : typed ≡ buffer
unfolding putc_all putc append
buffer-is = refl

buffer-Valid : Valid buffer
buffer-Valid = subst Valid buffer-is typed-Valid

read-buffered_example :
    let r = read buffer 0 2 in (r.copied ≡ take 2 (drop (0 - 0) (text buffer.lines))) × (r.size ≡ 0)
read-buffered_example =
    read-buffered 0 2 buffer-Valid (omega arith) (omega arith) (omega arith) (omega arith)
