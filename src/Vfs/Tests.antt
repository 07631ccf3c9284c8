-- ===== src/Vfs/Tests.antt =====
-- Mount points "/d" at 10 and "/" at 20, and the path "/d/x" at 30.
use muse.Base.{ℕ, ◌≡◌, ◌⊎◌, refl, some, none, List, [], ◌∷◌, arith, ◌==◌, ◌||◌, if◌then◌else◌}
use muse.Base.Memory.{Bytes}
use muse.Vfs.{Mount, find_mount}
use muse.Vfs.Prefix.{AllPaths, FirstPrefix, NonePrefix, find_mount_lem}

abbrev bytes : Bytes
bytes a =
    if a == 10 || a == 20 || a == 30 || a == 32
    then b'/'
    else if a == 11 || a == 31
    then b'd'
    else if a == 33
    then b'x'
    else 0

abbrev mounts : List Mount
mounts = record { inode = 7; path = 20 } ∷ record { inode = 5; path = 10 } ∷ []

paths : AllPaths bytes 2 mounts
paths = (
  (1, omega arith, record { full = λ i h. ground arith; nul = refl }),
  ((2, omega arith, record { full = λ i h. ground arith; nul = refl }), omega arith),
)

find_mount_lem_example :
    ((inode n : ℕ) × (find_mount 5 bytes 30 mounts ≡ some (some (inode, n)))
      × FirstPrefix bytes 30 inode n mounts)
    ⊎ ((find_mount 5 bytes 30 mounts ≡ some none) × NonePrefix bytes 30 mounts)
find_mount_lem_example =
    find_mount_lem 5 bytes 30 4 mounts 2 (record { full = λ i h. ground arith; nul = refl }) paths
      (omega arith)
