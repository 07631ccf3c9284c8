-- ===== src/Vfs.antt =====
-- The virtual file system of src/common/vfs.c: mount points and the walk of a path. Strings lie in
-- byte memory; inodes and tnodes are in stores indexed by address, 0 the null pointer. The
-- mount points are the list from `first_mount_point` on. `register_inode` is an argument.
pub mod Prefix
mod Tests
use muse.Base.{
  ℕ, zero, suc, ◌+◌, ◌-◌, Bool, true, false, ◌&&◌, ◌||◌, Option, none, some, List, [], ◌∷◌, ltb,
  ◌==◌, if◌then◌else◌, update, sub32, not,
}
use muse.Base.Memory.{Bytes}

-- `struct vfs_mount_point`, with the address of its inode
pub record Mount : Type 0 where
  pub inode : ℕ
  pub path : ℕ

-- `struct vfs_inode`, its fields that the walk reads
pub record Node : Type 0 where
  pub present : Bool
  pub first_child : ℕ

-- `struct vfs_tnode`, with the address of its inode
pub record Tnode : Type 0 where
  pub name : ℕ
  pub name_len : ℕ
  pub inode : ℕ
  pub next : ℕ

pub record Vfs : Type 0 where
  pub mounts : List Mount
  pub nodes : ℕ → Node
  pub tnodes : ℕ → Tnode

-- `mount`
pub mount : Vfs → ℕ → ℕ → Vfs
mount v inode path = record v { mounts = record { inode = inode; path = path } ∷ v.mounts }

-- The comparison of a path with a mount point's, on fuel: whether it matches, and the place `i`
-- where it stopped.
pub match_mount : ℕ → Bytes → ℕ → ℕ → ℕ → Option (Bool × ℕ)
match_mount zero m path mount_path i = none
match_mount (suc fuel) m path mount_path i =
    let rest = match_mount fuel m path mount_path (i + 1) in
    if m (path + i) == 0 || m (mount_path + i) == 0
    then some (m (mount_path + i) == 0, i)
    else if m (path + i) == m (mount_path + i)
    then rest
    else some (false, i)

-- The loop over the mount points: the one that matches, with the length of its path.
pub find_mount : ℕ → Bytes → ℕ → List Mount → Option (Option (ℕ × ℕ))
find_mount fuel m path [] = some none
find_mount fuel m path (p ∷ ps) =
    let rest = find_mount fuel m path ps in
    elim (match_mount fuel m path p.path 0) [
      | none ↦ none
      | some found ↦ if found.0 then some (some (p.inode, found.1)) else rest
    ]

-- `while (*end && *end != '/') end++`
pub find_end : ℕ → Bytes → ℕ → Option ℕ
find_end zero m end = none
find_end (suc fuel) m end =
    let rest = find_end fuel m (end + 1) in if m end == 0 || m end == b'/' then some end else rest

-- `for (i = 0; i < tnode->name_len; i++)`, with `left` characters left
pub same_name : ℕ → Bytes → ℕ → ℕ → ℕ → Bool
same_name zero m name start i = true
same_name (suc left) m name start i =
    let rest = same_name left m name start (i + 1) in
    if m (name + i) == m (start + i) then rest else false

-- The loop over the children, on fuel: the first one of that name, 0 if there is none.
pub find_child : ℕ → Bytes → Vfs → ℕ → ℕ → ℕ → Option ℕ
find_child zero m v tnode start end = none
find_child (suc fuel) m v tnode start end =
    let t = v.tnodes tnode in
    let rest = find_child fuel m v t.next start end in
    if tnode == 0
    then some 0
    else if t.name_len == end - start && same_name t.name_len m t.name start 0
    then some tnode
    else rest

-- The outer loop of `vfs_open`, on fuel, from `start` on in the directory `inode`.
pub walk : (Vfs → ℕ → ℕ → Vfs) → ℕ → ℕ → Bytes → Vfs → ℕ → ℕ → Option (Vfs × ℕ)
walk register_inode zero fuel m v inode start = none
walk register_inode (suc left) fuel m v inode start = elim (find_end fuel m start) [
  | none ↦ none
  | some end ↦ elim (find_child fuel m v (v.nodes inode).first_child start end) [
    | none ↦ none
    | some tnode ↦
        let child = (v.tnodes tnode).inode in
        let u = if (v.nodes child).present then v else register_inode v inode tnode in
        let next = (u.tnodes tnode).inode in
        let rest = walk register_inode left fuel m u next (end + 1) in
        if tnode == 0 then some (v, 0) else if m end == 0 then some (u, next) else rest
  ]
]

-- `vfs_open`
pub vfs_open : (Vfs → ℕ → ℕ → Vfs) → ℕ → Bytes → Vfs → ℕ → Option (Vfs × ℕ)
vfs_open register_inode fuel m v path = elim (find_mount fuel m path v.mounts) [
  | none ↦ none
  | some found ↦ elim found [
    | none ↦ some (v, 0)
    | some at ↦ walk register_inode fuel fuel m v at.0 (path + 1 + at.1)
  ]
]

-- The first loop of `vfs_create`, on fuel: the last '/' of the path and its end.
pub split_path : ℕ → Bytes → ℕ → ℕ → Option (ℕ × ℕ)
split_path zero m dir_limit lookahead = none
split_path (suc fuel) m dir_limit lookahead =
    let limit = if m lookahead == b'/' then lookahead else dir_limit in
    let rest = split_path fuel m limit (lookahead + 1) in
    if m lookahead == 0 then some (dir_limit, lookahead) else rest
