-- ===== src/Stdio/Tests.antt =====
-- A kernel that keeps what is written to descriptor 1, and a stream on it.
use muse.Base.{ℕ, ◌+◌, ◌≡◌, inl, refl, List, [], ◌++◌, arith, true}
use muse.Base.Memory.{slice}
use muse.Stdio.{Process, File, fwrite}
use muse.Stdio.Output.{text, fwrite-text}

abbrev keep : ℕ → ℕ → ℕ → ℕ → Process (List ℕ) → ℕ × Process (List ℕ)
keep fn fd n a p = (n, record p { kernel = p.kernel ++ slice p.mem a n })

abbrev kept : ℕ → List ℕ → List ℕ
kept fd k = k

abbrev stream : File
stream = record { fd = 1; pos = 0; bfr = 4096; bfr_size = 3; bfr_cap = 5; line_buffered = true }

abbrev process : Process (List ℕ)
process = record { kernel = []; mem = λ _. 10 }

fwrite-text_example :
    (g : File) × (q : Process (List ℕ)) × (fwrite keep 64 100 1 4 stream process ≡ (g, 4 + 1, q))
    × (text keep kept g q ≡ text keep kept stream process ++ slice process.mem 100 4)
fwrite-text_example =
    fwrite-text keep kept 64 100 4 stream process
      (record {
        next = λ n a p. p.kernel ++ slice p.mem a n;
        accepts = λ _ _ _. refl;
        appends = λ _ _ _. refl;
      })
      (record {
        some_bfr = λ e. absurd (omega (arith, e));
        some_room = omega arith;
        small = omega arith;
      })
      (record { apart = inl (omega arith); bytes = λ k lt. omega arith }) (omega arith)
