-- ===== src/Stdio/Output.antt =====
-- What is written to a buffered stream.
use muse.Base.{
  ℕ, zero, suc, ◌+◌, ◌*◌, ◌/◌, ◌^◌, ◌≤◌, ◌<◌, ◌≡◌, ◌≢◌, ◌⊎◌, inl, inr, refl, ap, ap₂, sym, subst,
  ◌∙◌, Bool, false, ◌&&◌, ◌||◌, List, [], ◌∷◌, ◌++◌, append_assoc, append-nil, arith, ◌==◌,
  if◌then◌else◌, u8, u32, sub32, update, char_to_int, Bool-cases, ==_ne, ==_refl,
}
use muse.Base.Memory.{slice, byte_here, slice-agree, slice-last}
use muse.Stdio.{Process, File, eof, syscall_write, fflush, put_buffered, fputc, put_bytes, fwrite}

-- A stream with a buffer that is not full.
pub record Buffered (f : File) : Type 0 where
  pub some_bfr : f.bfr ≢ 0
  pub some_room : f.bfr_size < f.bfr_cap
  pub small : f.bfr_cap < 2 ^ 32

module _ {S : Type 0} (muse_syscall : ℕ → ℕ → ℕ → ℕ → Process S → ℕ × Process S)
    (output : ℕ → S → List ℕ) where
  -- The kernel writes all that it is asked to write to descriptor `fd`, and returns its length.
  pub record Accepts (fd : ℕ) : Type 0 where
    pub next : ℕ → ℕ → Process S → S
    pub accepts :
        (n a : ℕ) (p : Process S)
        → muse_syscall 3 (sub32 0 fd) n a p ≡ (n, record p { kernel = next n a p })
    pub appends :
        (n a : ℕ) (p : Process S) → output fd (next n a p) ≡ output fd p.kernel ++ slice p.mem a n

  -- what has been written to a stream: the descriptor's output, and what waits in the buffer
  pub text : File → Process S → List ℕ
  text f p = output f.fd p.kernel ++ slice p.mem f.bfr f.bfr_size

  module _ (f : File) (kernel : Accepts f.fd) where
    flushed : Process S → Process S
    flushed p = record p { kernel = kernel.next f.bfr_size f.bfr p }

    fflush-flushed :
        (p : Process S)
        → fflush muse_syscall f p
          ≡ (record f { pos = u32 (f.pos + f.bfr_size); bfr_size = 0 }, 0, flushed p)
    unfolding fflush syscall_write flushed
    fflush-flushed p = rw (kernel.accepts f.bfr_size f.bfr p) (rw (==_refl f.bfr_size) refl)

    flushed-text : (p : Process S) → output f.fd (flushed p).kernel ++ [] ≡ text f p
    unfolding text flushed
    flushed-text p = append-nil _ ∙ kernel.appends f.bfr_size f.bfr p

  -- What `fputc` does with a character.
  pub record IsPut (f : File) (p : Process S) (c : ℕ) (g : File) (res : ℕ) (q : Process S)
      : Type 0 where
    pub added : text g q ≡ text f p ++ u8 c ∷ []
    pub still : Buffered g
    pub same_fd : g.fd ≡ f.fd
    pub same_bfr : g.bfr ≡ f.bfr
    pub same_cap : g.bfr_cap ≡ f.bfr_cap
    pub outside : (a : ℕ) → (a < f.bfr) ⊎ (f.bfr + f.bfr_cap ≤ a) → q.mem a ≡ p.mem a
    pub no_error : c ≢ eof → res ≢ eof

  module _ (f : File) (kernel : Accepts f.fd) (v : Buffered f) (c : ℕ) (p : Process S) where
    -- the character in the buffer
    abbrev pushed : Process S
    pushed = record p { mem = update p.mem (f.bfr + f.bfr_size) (u8 c) }

    abbrev longer : File
    longer = record f { bfr_size = f.bfr_size + 1 }

    in_place : pushed.mem (f.bfr + f.bfr_size) ≡ u8 c
    in_place = rw (==_refl (f.bfr + f.bfr_size)) refl

    elsewhere : (a : ℕ) → a ≢ f.bfr + f.bfr_size → pushed.mem a ≡ p.mem a
    elsewhere a ne = rw (==_ne (f.bfr + f.bfr_size) a (λ e. ne (sym e))) refl

    one_more : f.bfr_size + 1 ≡ suc f.bfr_size
    one_more = omega arith

    pushed-text : text longer pushed ≡ text f p ++ u8 c ∷ []
    unfolding text
    pushed-text =
        ap (λ n. output f.fd p.kernel ++ slice pushed.mem f.bfr n) one_more
        ∙ ap (λ l. output f.fd p.kernel ++ l)
            (slice-last pushed.mem f.bfr f.bfr_size
              ∙ ap₂ (λ l x. l ++ x ∷ [])
                  (slice-agree pushed.mem p.mem f.bfr f.bfr_size
                    (λ k lt. elsewhere (f.bfr + k) (λ e. absurd (omega (arith, e)))))
                  in_place)
        ∙ sym (append_assoc (output f.fd p.kernel) (slice p.mem f.bfr f.bfr_size) (u8 c ∷ []))

    room : u32 (f.bfr_size + 1) ≡ f.bfr_size + 1
    room = let lt = v.some_room in let small = v.small in omega arith

    -- The character stays in the buffer.
    kept-IsPut : f.bfr_size + 1 ≢ f.bfr_cap → IsPut f p c longer c pushed
    kept-IsPut more = record {
      added = pushed-text;
      still = record {
        some_bfr = v.some_bfr;
        some_room = (let lt = v.some_room in omega (arith, more));
        small = v.small;
      };
      same_fd = refl;
      same_bfr = refl;
      same_cap = refl;
      outside = λ a away. elsewhere a (λ e. absurd (ground (arith, v.some_room, away, e)));
      no_error = λ ne. ne;
    }

    -- The buffer is written out.
    flushed-IsPut :
        IsPut f p c
          (record longer { pos = u32 (f.pos + (f.bfr_size + 1)); bfr_size = 0 })
          0
          (flushed longer kernel pushed)
    unfolding flushed text
    flushed-IsPut = record {
      added = flushed-text longer kernel pushed ∙ pushed-text;
      still = record {
        some_bfr = v.some_bfr;
        some_room = (let lt = v.some_room in omega arith);
        small = v.small;
      };
      same_fd = refl;
      same_bfr = refl;
      same_cap = refl;
      outside = λ a away. elsewhere a (λ e. absurd (ground (arith, v.some_room, away, e)));
      no_error = λ ne. λ e. absurd (omega (arith, e));
    }

    -- the test for writing the buffer out
    is_due : Bool
    is_due = f.bfr_size + 1 == f.bfr_cap || f.line_buffered && c == b'\n'

    fputc-step :
        (address : ℕ)
        → fputc muse_syscall address c f p
          ≡ (if is_due then fflush muse_syscall longer pushed else (longer, c, pushed))
    unfolding fputc put_buffered is_due
    fputc-step address = rw (==_ne _ _ v.some_bfr) (rw room refl)

    not_full : is_due ≡ false → f.bfr_size + 1 ≢ f.bfr_cap
    unfolding is_due
    not_full h e = absurd (ground arith)

    -- `fputc` on such a stream.
    fputc-IsPut :
        (address : ℕ)
        → IsPut f p c
            (fputc muse_syscall address c f p).0
            (fputc muse_syscall address c f p).1
            (fputc muse_syscall address c f p).2
    fputc-IsPut address = elim (Bool-cases is_due) [
      | inl due ↦
          let same = fputc-step address ∙ rw due (fflush-flushed longer kernel pushed) in
          subst (λ t. IsPut f p c t.0 t.1 t.2) (sym same) flushed-IsPut
      | inr later ↦
          let same = fputc-step address ∙ rw later refl in
          subst (λ t. IsPut f p c t.0 t.1 t.2) (sym same) (kept-IsPut (not_full later))
    ]

  -- A source of bytes other than 0xFF that does not overlap a stream's buffer.
  pub record Source (f : File) (p : Process S) (a n : ℕ) : Type 0 where
    pub apart : (a + n ≤ f.bfr) ⊎ (f.bfr + f.bfr_cap ≤ a)
    pub bytes : (k : ℕ) → k < n → p.mem (a + k) < 255

  as_char : (x : ℕ) → x < 255 → (u8 (char_to_int x) ≡ x) × (char_to_int x ≢ eof)
  as_char x lt = (ground arith, λ e. absurd (ground arith))

  -- what `put_bytes` does with `n` bytes
  pub record IsWritten (f : File) (p : Process S) (address ptr i n : ℕ) : Type 0 where
    pub stream : File
    pub after : Process S
    pub returns : put_bytes muse_syscall n address ptr i f p ≡ (stream, i + n, after)
    pub added : text stream after ≡ text f p ++ slice p.mem (ptr + i) n

  next_index : (i n : ℕ) → i + 1 + n ≡ i + suc n
  next_index i n = omega arith

  next_place : (ptr i : ℕ) → ptr + (i + 1) ≡ ptr + i + 1
  next_place ptr i = omega arith

  -- The rest of a source is as it was, after a character has been put.
  module _ (f : File) (p : Process S) (ptr i n : ℕ) (source : Source f p (ptr + i) (suc n)) {c : ℕ}
      {g : File} {res : ℕ} {q : Process S} (put : IsPut f p c g res q) where
    Source-same : (k : ℕ) → k < n → q.mem (ptr + (i + 1) + k) ≡ p.mem (ptr + (i + 1) + k)
    Source-same k lt = put.outside _ (outside_at k lt source.apart)
      where
        outside_at :
            (k : ℕ)
            → k < n
            → (ptr + i + suc n ≤ f.bfr) ⊎ (f.bfr + f.bfr_cap ≤ ptr + i)
            → (ptr + (i + 1) + k < f.bfr) ⊎ (f.bfr + f.bfr_cap ≤ ptr + (i + 1) + k)
        outside_at k lt (inl below) = inl (omega arith)
        outside_at k lt (inr above) = inr (omega arith)

    Source-rest : Source g q (ptr + (i + 1)) n
    Source-rest =
        let bfr = put.same_bfr in
        let cap = put.same_cap in
        record {
          apart = rest_apart source.apart bfr cap;
          bytes = λ k lt. subst (λ t. t < 255) (sym (Source-same k lt)) (rest_bytes k lt);
        }
      where
        rest_apart :
            (ptr + i + suc n ≤ f.bfr) ⊎ (f.bfr + f.bfr_cap ≤ ptr + i)
            → g.bfr ≡ f.bfr
            → g.bfr_cap ≡ f.bfr_cap
            → (ptr + (i + 1) + n ≤ g.bfr) ⊎ (g.bfr + g.bfr_cap ≤ ptr + (i + 1))
        rest_apart (inl below) bfr cap = inl (omega arith)
        rest_apart (inr above) bfr cap = inr (omega arith)

        rest_bytes : (k : ℕ) → k < n → p.mem (ptr + (i + 1) + k) < 255
        rest_bytes k lt =
            let place : ptr + i + suc k ≡ ptr + (i + 1) + k = omega arith in
            subst (λ a. p.mem a < 255) place (source.bytes (suc k) (omega arith))

  put_bytes-IsWritten :
      (n address ptr i : ℕ) (f : File) (p : Process S)
      → Accepts f.fd
      → Buffered f
      → Source f p (ptr + i) n
      → IsWritten f p address ptr i n
  unfolding put_bytes
  put_bytes-IsWritten zero address ptr i f p kernel v source = record {
    stream = f;
    after = p;
    returns = ap (λ j. (f, j, p)) (omega arith);
    added = sym (append-nil (text f p));
  }
  put_bytes-IsWritten (suc n) address ptr i f p kernel v source =
      let byte = p.mem (ptr + i) in
      let small : byte < 255 =
        subst (λ t. t < 255) (byte_here p.mem (ptr + i)) (source.bytes 0 (omega arith)) in
      let (narrow, no_eof) = as_char byte small in
      let put = fputc-IsPut f kernel v (char_to_int byte) p address in
      let g = (fputc muse_syscall address (char_to_int byte) f p).0 in
      let q = (fputc muse_syscall address (char_to_int byte) f p).2 in
      let rest =
        put_bytes-IsWritten n address ptr (i + 1) g q (subst Accepts (sym put.same_fd) kernel)
          put.still (Source-rest f p ptr i n source put) in
      record {
        stream = rest.stream;
        after = rest.after;
        returns =
            rw (==_ne _ _ (put.no_error no_eof))
              (rest.returns ∙ ap (λ j. (rest.stream, j, rest.after)) (next_index i n));
        added =
            rest.added
            ∙ ap₂ ◌++◌ (put.added ∙ ap (λ x. text f p ++ x ∷ []) narrow) (
                slice-agree q.mem p.mem (ptr + (i + 1)) n (Source-same f p ptr i n source put)
                ∙ ap (λ a. slice p.mem a n) (next_place ptr i))
            ∙ append_assoc (text f p) (byte ∷ []) (slice p.mem (ptr + i + 1) n);
      }

-- Writing `n` bytes to a stream that has room in its buffer, where the kernel writes all that it is
-- asked to write, the bytes are not 0xFF, and the source does not overlap the buffer: what has been
-- written to the stream, to its descriptor or to its buffer, is what was there followed by the `n`
-- bytes in their order. `fwrite` for elements of one byte returns `n + 1`.
pub fwrite-text :
    {S : Type 0} (muse_syscall : ℕ → ℕ → ℕ → ℕ → Process S → ℕ × Process S)
    (output : ℕ → S → List ℕ) (address ptr n : ℕ) (f : File) (p : Process S)
    → Accepts muse_syscall output f.fd
    → Buffered f
    → Source muse_syscall output f p ptr n
    → n + 1 < 2 ^ 32
    → (g : File) × (q : Process S) × (fwrite muse_syscall address ptr 1 n f p ≡ (g, n + 1, q))
      × (text muse_syscall output g q ≡ text muse_syscall output f p ++ slice p.mem ptr n)
unfolding fwrite
fwrite-text muse_syscall output address ptr n f p kernel v source small =
    let start : ptr + 0 ≡ ptr = omega arith in
    let written =
      put_bytes-IsWritten muse_syscall output n address ptr 0 f p kernel v
        (subst (λ a. Source muse_syscall output f p a n) (sym start) source) in
    let count : u32 (1 * n) ≡ n = omega arith in
    let total : u32 (0 + n + 1) / 1 ≡ n + 1 = omega arith in
    (
      written.stream,
      written.after,
      rw (==_ne _ _ v.some_bfr, count, written.returns)
          (ap (λ i. (written.stream, i, written.after)) total),
      written.added ∙ ap (λ a. text muse_syscall output f p ++ slice p.mem a n) start,
    )
