-- ===== src/Scrolls.antt =====
-- The list of scrolls of an address space, insert_scroll of src/common/scroll.c, over a store of nodes.
-- The addresses that kmalloc returns, and what kfree leaves of the nodes, are parameters.
pub mod Disjoint
mod Tests
use muse.Base.{
  ℕ, zero, suc, ◌+◌, Bool, Option, none, some, ltb, ◌==◌, ◌&&◌, not, if◌then◌else◌, u32, sub32,
  update,
}

-- `struct scroll`: `aligned` is for the type SCROLL_ALIGNED, which alone uses `page`
pub record Scroll : Type 0 where
  pub vaddr : ℕ
  pub size : ℕ
  pub aligned : Bool
  pub page : ℕ
  pub next : ℕ

-- the nodes, and how many have been allocated
pub record Scrolls : Type 0 where
  pub node : ℕ → Scroll
  pub used : ℕ

-- the addresses behind the last byte of a scroll
abbrev pub limit : Scroll → ℕ
limit s = u32 (s.vaddr + s.size)

abbrev pub write : Scrolls → ℕ → Scroll → Scrolls
write m p s = record m { node = λ q. if p == q then s else m.node q }

module _ (kmalloc : ℕ → ℕ) (kfree : Scrolls → ℕ → Scrolls) where
  -- A scroll with exactly the new range is taken out: the store, and the first scroll.
  pub unlink : Scrolls → ℕ → ℕ → ℕ → Scrolls × ℕ
  unlink m first prev current = if prev == 0 then (kfree m current, (m.node first).next) else (
    kfree (write m prev (record (m.node prev) { next = (m.node current).next })) current,
    first,
  )

  -- A scroll from `cur_start` to `cur_end` that reaches beyond the new range at both ends is cut in
  -- two.
  pub split : Scrolls → ℕ → ℕ → ℕ → ℕ → ℕ → ℕ → Scrolls
  split m first current cur_start cur_end start end =
      let cur = m.node current in
      let new = kmalloc m.used in
      let behind : Scroll = record {
        vaddr = end;
        size = sub32 cur_end end;
        aligned = cur.aligned;
        page = if cur.aligned then sub32 (u32 (cur.page + end)) cur_start else cur.page;
        next = (m.node first).next;
      } in
      let linked = write m new behind in
      let after = write linked first (record (linked.node first) { next = new }) in
      let cut =
        write after current (record (after.node current) { size = sub32 start cur_start }) in
      record cut { used = m.used + 1 }

  -- A scroll that overlaps the new range at one end is shortened.
  pub shorten : Scrolls → ℕ → ℕ → ℕ → ℕ → ℕ → Scrolls
  shorten m current cur_start cur_end start end =
      let cur = m.node current in
      let head =
        if ltb cur_start start && ltb start cur_end
        then record cur { size = sub32 start cur_start }
        else cur in
      let tail =
        if ltb cur_start end && ltb end cur_end
        then record head { vaddr = end; size = sub32 head.size (sub32 end cur_start) }
        else head in
      write m current tail

  -- the loop of `insert_scroll`, on fuel
  pub make_room : ℕ → Scrolls → ℕ → ℕ → ℕ → ℕ → ℕ → Option (Scrolls × ℕ)
  make_room zero m first prev current start end = none
  make_room (suc fuel) m first prev current start end =
      let cur_start = (m.node current).vaddr in
      let cur_end = limit (m.node current) in
      let exact = cur_start == start && cur_end == end in
      let taken = if exact then unlink m first prev current else (m, first) in
      let inside = ltb cur_start start && ltb end cur_end in
      let again =
        make_room fuel (split taken.0 taken.1 current cur_start cur_end start end) taken.1 prev
          current start end in
      let short = shorten taken.0 current cur_start cur_end start end in
      let on = make_room fuel short taken.1 current (short.node current).next start end in
      let rest = if inside then again else on in if current == 0 then some (m, first) else rest

  pub insert_scroll : ℕ → Scrolls → ℕ → ℕ → Option (Scrolls × ℕ)
  insert_scroll fuel m scr first =
      let s = m.node scr in
      let room = make_room fuel m first 0 first s.vaddr (limit s) in
      let linked : Option (Scrolls × ℕ) = elim room [
        | none ↦ none
        | some (n, head) ↦ some (write n scr (record (n.node scr) { next = head }), scr)
      ] in
      if first == 0 then some (m, scr) else linked
