-- ===== src/Ata/Words.antt =====
-- The loops of `ata_transfer` that poll the drive and move its words.
use muse.Base.{ℕ, zero, suc, ◌+◌, ◌-◌, ◌≡◌, refl, ap, ◌∙◌, fun_ext, true, arith, update, ℕ_discrete}
use muse.Base.Memory.{blit, blit_append}
use muse.Disk.{DataDir.{dir_read, dir_write}, DriveErr.{timeout}, ok, err}
use muse.Ata.{Ports, AtaDev, Io, has, flag_bsy, reg_stat, poll, move_word, move_words}

blit_none : (w : ℕ → ℕ) (k : ℕ) (h : ℕ → ℕ) → w ≡ blit w k 0 h
blit_none w k h = fun_ext λ a. ground arith

one_more : (j : ℕ) → suc j ≡ 1 + j
one_more j = omega arith

-- a word in front of a blit
blit_first :
    (w : ℕ → ℕ) (k n : ℕ) (h g : ℕ → ℕ)
    → ((j : ℕ) → g j ≡ h (1 + j))
    → blit (update w k (h 0)) (k + 1) n g ≡ blit w k (suc n) h
blit_first w k n h g same =
    let first : update w k (h 0) ≡ blit w k 1 h = fun_ext λ a. elim (ℕ_discrete k a) [
      | yes here ↦ let zeroth : h (a - k) ≡ h 0 = ap h (omega arith) in ground arith
      | no away ↦ ground arith
    ] in
    let total : 1 + n ≡ suc n = omega arith in
    ap (λ m. blit m (k + 1) n g) first
    ∙ blit_append w k 1 n h g h (λ j lt. refl) same
    ∙ ap (λ c. blit w k c h) total

module _ {S : Type 0} (ports : Ports S) (dev : AtaDev) where
  -- the controller after `n` words have been read, and the word that is read then
  pub after_reads : ℕ → S → S
  after_reads zero s = s
  after_reads (suc n) s = after_reads n (ports.inw dev.bus s).1

  pub nth_word : ℕ → S → ℕ
  nth_word n s = (ports.inw dev.bus (after_reads n s)).0

  -- and after words `k` to `k + n` of a buffer have been written
  pub after_writes : ℕ → (ℕ → ℕ) → ℕ → S → S
  after_writes zero words k s = s
  after_writes (suc n) words k s = after_writes n words (k + 1) (ports.outw dev.bus (words k) s)

  -- Reading `n` words: it never fails, words `k` to `k + n` of the buffer are the words that the
  -- data register gives in turn, and the other words stay as they were.
  pub move_words-read :
      (n k : ℕ) (io : Io S)
      → move_words ports n dev dir_read k io ≡ (
        ok tt,
        record { hw = after_reads n io.hw; words = blit io.words k n (λ i. nth_word i io.hw) },
      )
  unfolding move_words move_word nth_word after_reads
  move_words-read zero k io =
      ap (λ w. (ok tt, record { hw = io.hw; words = w }))
        (blit_none io.words k (λ i. nth_word i io.hw))
  move_words-read (suc n) k io =
      move_words-read n (k + 1) _
      ∙ ap (λ w. (ok tt, record { hw = after_reads n (ports.inw dev.bus io.hw).1; words = w }))
          (blit_first io.words k n (λ i. nth_word i io.hw) _
            (λ j. ap (λ i. nth_word i io.hw) (one_more j)))

  -- Writing `n` words: they go to the data register in turn, and the buffer stays as it was.
  pub move_words-write :
      (n k : ℕ) (io : Io S)
      → move_words ports n dev dir_write k io
        ≡ (ok tt, record { hw = after_writes n io.words k io.hw; words = io.words })
  unfolding move_words move_word after_writes
  move_words-write zero k io = refl
  move_words-write (suc n) k io = move_words-write n (k + 1) _

-- A drive that stays busy: if every read of the status has the busy flag, then polling it ends in a
-- timeout, however many polls there are.
pub poll-busy :
    {S : Type 0} (ports : Ports S) (left bus : ℕ) (io : Io S)
    → ((s : S) → has (ports.inb (bus + reg_stat) s).0 flag_bsy ≡ true)
    → (poll ports left bus io).0 ≡ err timeout
unfolding poll
poll-busy ports zero bus io busy = refl
poll-busy ports (suc left) bus io busy = rw (busy io.hw) (poll-busy ports left bus _ busy)
