-- ===== src/Vfs/Prefix.antt =====
-- Which mount point `vfs_open` of src/common/vfs.c takes.
use muse.Base.{
  ℕ, zero, suc, ◌+◌, ◌≤◌, ◌<◌, ◌≡◌, ◌≢◌, ◌⊎◌, inl, inr, refl, true, false, none, some, List, [],
  ◌∷◌, arith, ℕ_discrete,
}
use muse.Base.Memory.{Bytes}
use muse.Cstring.Strings.{IsString}
use muse.Vfs.{Mount, match_mount, find_mount}

-- The string at `mp`, of length `nm`, is a prefix of the one at `path`, from place `i` on.
abbrev pub Prefix : Bytes → ℕ → ℕ → ℕ → ℕ → Type 0
Prefix m path mp nm i = (j : ℕ) → i ≤ j → j < nm → m (path + j) ≡ m (mp + j)

-- They differ at a place of the mount point's path, which may be the end of `path`.
pub record Differs (m : Bytes) (path mp nm i : ℕ) : Type 0 where
  pub at : ℕ
  pub inside : at < nm
  pub above : i ≤ at
  pub unequal : m (path + at) ≢ m (mp + at)

match_mount_lem :
    (fuel : ℕ) (m : Bytes) (path mp np nm i : ℕ)
    → IsString m path np
    → IsString m mp nm
    → i ≤ np
    → i ≤ nm
    → nm < i + fuel
    → ((match_mount fuel m path mp i ≡ some (true, nm)) × Prefix m path mp nm i)
      ⊎ ((k : ℕ) × (match_mount fuel m path mp i ≡ some (false, k)) × Differs m path mp nm i)
unfolding match_mount
match_mount_lem zero m path mp np nm i s1 s2 a b lt = absurd (omega arith)
match_mount_lem (suc fuel) m path mp np nm i s1 s2 a b lt = elim (ℕ_discrete i nm) [
  | yes e ↦ inl (ground (arith, s2.nul), λ j p q. absurd (omega arith))
  | no ne ↦ elim (ℕ_discrete (m (path + i)) (m (mp + i))) [
    | no differ ↦ inr (
      i,
      ground (arith, s2.full i),
      record { at = i; inside = omega arith; above = omega arith; unequal = differ },
    )
    | yes same ↦
        let on : i ≢ np = λ e. ground (arith, s1.nul, s2.full i) in
        elim (match_mount_lem fuel m path mp np nm (i + 1) s1 s2 (omega arith) (omega arith)
          (omega arith)) [
            | inl h ↦ inl (ground (arith, s2.full i, h.0), λ j p q. ground (arith, h.1 j))
            | inr h ↦ inr (
              h.0,
              ground (arith, s2.full i, h.1),
              record {
                at = h.2.at;
                inside = h.2.inside;
                above = omega (arith, h.2.above);
                unequal = h.2.unequal;
              },
            )
          ]
  ]
]

-- Each mount point has a path, a string no longer than `bound`.
abbrev pub AllPaths : Bytes → ℕ → List Mount → Type 0
AllPaths m bound [] = 0 ≤ bound
AllPaths m bound (p ∷ ps) = ((n : ℕ) × (n ≤ bound) × IsString m p.path n) × AllPaths m bound ps

-- The first mount point whose path is a prefix of `path`: its inode and its path's length. The paths
-- of those before it differ from `path` before their ends.
pub data FirstPrefix (m : Bytes) (path inode n : ℕ) : List Mount → Type 0 where
  here :
      (p : Mount) (ps : List Mount)
      → p.inode ≡ inode
      → IsString m p.path n
      → Prefix m path p.path n 0
      → FirstPrefix m path inode n (p ∷ ps)
  later :
      (p : Mount) (ps : List Mount) (k : ℕ)
      → IsString m p.path k
      → Differs m path p.path k 0
      → FirstPrefix m path inode n ps
      → FirstPrefix m path inode n (p ∷ ps)

-- The path of each mount point differs before its end.
abbrev pub NonePrefix : Bytes → ℕ → List Mount → Type 0
NonePrefix m path [] = path ≡ path
NonePrefix m path (p ∷ ps) =
    ((k : ℕ) × IsString m p.path k × Differs m path p.path k 0) × NonePrefix m path ps

-- For a path and mount paths that are strings, with more fuel than the mount paths are long, the
-- search of `vfs_open` finds the first mount point whose path is a prefix of the path, with the
-- length of that prefix, or none if there is none.
pub find_mount_lem :
    (fuel : ℕ) (m : Bytes) (path np : ℕ) (ps : List Mount) (bound : ℕ)
    → IsString m path np
    → AllPaths m bound ps
    → bound < fuel
    → ((inode n : ℕ) × (find_mount fuel m path ps ≡ some (some (inode, n)))
        × FirstPrefix m path inode n ps)
      ⊎ ((find_mount fuel m path ps ≡ some none) × NonePrefix m path ps)
unfolding find_mount
find_mount_lem fuel m path np [] bound s paths lt = inr (refl, refl)
find_mount_lem fuel m path np (p ∷ ps) bound s paths lt =
    elim (match_mount_lem fuel m path p.path np paths.0.0 0 s paths.0.2 (omega arith) (omega arith)
      (omega (arith, paths.0.1))) [
        | inl h ↦
            inl (p.inode, paths.0.0, rw (h.0, find_mount) (refl), here p ps refl paths.0.2 h.1)
        | inr h ↦ elim (find_mount_lem fuel m path np ps bound s paths.1 lt) [
          | inl r ↦
              inl
                (r.0, r.1, rw (h.1, r.2, find_mount) (refl), later p ps paths.0.0 paths.0.2 h.2 r.3)
          | inr r ↦ inr (rw (h.1, r.0, find_mount) (refl), ((paths.0.0, paths.0.2, h.2), r.1))
        ]
      ]
