-- ===== src/Sched/Ready.antt =====
-- The ready queue: `schedule`, `preempt` and `create_context` against a first-in-first-out list.
use muse.Base.{
  ℕ, zero, suc, ◌+◌, ◌≤◌, ◌≡◌, ◌≢◌, refl, sym, ap, append_assoc, length-append, ◌∙◌, subst, List,
  [], ◌∷◌, ◌++◌, arith, length, get_or, update, ==_ne, true, false, u32,
}
use muse.Sched.{
  Context, Scheduler, set_next, context_switch, schedule, preempt, enqueue, create_context,
  lock_scheduler, unlock_scheduler,
}
use muse.Sched.Queue.{NotIn, Seg, Seg-update, Seg-snoc, NotIn-snoc}

-- The queue is the contexts of `q` and then `last_ctx`; the active context is not in it.
pub record Ready (s : Scheduler) (q : List ℕ) : Type 0 where
  pub seg : Seg s.ctx s.next_ctx q s.last_ctx
  pub end : (s.ctx s.last_ctx).next ≡ 0
  pub last : s.last_ctx ≢ 0
  pub once : NotIn s.last_ctx q
  pub active : s.active_ctx ≢ 0
  pub apart : NotIn s.active_ctx q
  pub apart_last : s.active_ctx ≢ s.last_ctx

Ready-next : {s : Scheduler} (q : List ℕ) → Ready s q → s.next_ctx ≢ 0
Ready-next [] v = ground (arith, v.seg, v.last)
Ready-next (c ∷ q) v = ground (arith, v.seg.0, v.seg.1)

-- the active context, linked behind the queue
appended : (ℕ → Context) → ℕ → ℕ → ℕ → Context
appended ctx last active = set_next (set_next ctx active 0) last active

preempted : Scheduler → Scheduler
preempted s = record s {
  ctx = appended s.ctx s.last_ctx s.active_ctx;
  last_ctx = (appended s.ctx s.last_ctx s.active_ctx s.last_ctx).next;
  next_ctx = (appended s.ctx s.last_ctx s.active_ctx s.next_ctx).next;
  active_ctx = s.next_ctx;
}

preempt-eq : {s : Scheduler} (q : List ℕ) → Ready s q → preempt s ≡ preempted s
unfolding preempt preempted appended context_switch
preempt-eq {s} q v = rw (==_ne s.next_ctx 0 (Ready-next q v)) (refl)

appended-last :
    {s : Scheduler} (q : List ℕ)
    → Ready s q
    → (appended s.ctx s.last_ctx s.active_ctx s.last_ctx).next ≡ s.active_ctx
unfolding appended
appended-last q v = ground arith

appended-active :
    {s : Scheduler} (q : List ℕ)
    → Ready s q
    → (appended s.ctx s.last_ctx s.active_ctx s.active_ctx).next ≡ 0
unfolding appended
appended-active q v = ground (arith, v.apart_last)

appended-Seg :
    {s : Scheduler} (q : List ℕ)
    → Ready s q
    → Seg (appended s.ctx s.last_ctx s.active_ctx) s.next_ctx (q ++ s.last_ctx ∷ []) s.active_ctx
unfolding appended
appended-Seg {s} q v =
    Seg-snoc (set_next s.ctx s.active_ctx 0) s.next_ctx q s.last_ctx s.active_ctx v.once v.last (
      Seg-update s.ctx s.active_ctx (record (s.ctx s.active_ctx) { next = 0 }) s.next_ctx q
        s.last_ctx v.apart v.seg)

-- `preempt` on a queue `c ∷ rest` with the context `a` running makes `c` run and leaves the queue
-- `rest` followed by `a`.
pub preempt-Ready :
    {s : Scheduler} (q : List ℕ) (c : ℕ) (rest : List ℕ)
    → Ready s q
    → q ++ s.last_ctx ∷ [] ≡ c ∷ rest
    → ((preempt s).active_ctx ≡ c) × ((preempt s).last_ctx ≡ s.active_ctx) × Ready (preempt s) rest
unfolding preempted
preempt-Ready {s} q c rest v e =
    let seg =
      subst (λ l. Seg (appended s.ctx s.last_ctx s.active_ctx) s.next_ctx l s.active_ctx) e
        (appended-Seg q v) in
    let out =
      subst (λ l. NotIn s.active_ctx l) e
        (NotIn-snoc s.active_ctx q s.last_ctx v.apart (λ h. v.apart_last (sym h))) in
    let last = appended-last q v in
    rw (preempt-eq q v) (
      seg.0,
      last,
      record {
        seg = rw (last, seg.0) (seg.3);
        end = rw (last) (appended-active q v);
        last = rw (last) (v.active);
        once = rw (last) (out.1);
        active = rw (seg.0) (seg.1);
        apart = rw (seg.0) (seg.2);
        apart_last = rw (last, seg.0) (out.0);
      },
    )

pub preempts : ℕ → Scheduler → Scheduler
preempts zero s = s
preempts (suc n) s = preempts n (preempt s)

split-first :
    (q : List ℕ) (l : ℕ)
    → (c : ℕ) × (rest : List ℕ) × (q ++ l ∷ [] ≡ c ∷ rest) × (length rest ≡ length q)
split-first [] l = (l, [], refl, refl)
split-first (c ∷ q) l = (c, q ++ l ∷ [], refl, length-append q (l ∷ []) ∙ omega arith)

queue_split :
    (q : List ℕ) (l a : ℕ) {c : ℕ} {rest : List ℕ}
    → q ++ l ∷ [] ≡ c ∷ rest
    → q ++ l ∷ a ∷ [] ≡ c ∷ rest ++ a ∷ []
queue_split q l a e = sym (append_assoc q (l ∷ []) (a ∷ [])) ∙ ap (λ x. x ++ a ∷ []) e

get_or-two :
    (q : List ℕ) (a c k : ℕ)
    → k ≤ length q
    → get_or (q ++ a ∷ c ∷ []) k 0 ≡ get_or (q ++ a ∷ []) k 0
get_or-two [] a c zero h = refl
get_or-two [] a c (suc k) h = absurd (omega arith)
get_or-two (x ∷ q) a c zero h = refl
get_or-two (x ∷ q) a c (suc k) h = get_or-two q a c k (omega arith)

-- Preemption is round robin: with the contexts of `q`, then `last_ctx`, queued behind the active one,
-- the context at place `k` of the queue runs after `k + 1` preemptions, and the one that was
-- active runs again after them all.
pub preempt-round_robin :
    (k : ℕ) {s : Scheduler} (q : List ℕ)
    → Ready s q
    → k ≤ length q + 1
    → (preempts (suc k) s).active_ctx ≡ get_or (q ++ s.last_ctx ∷ s.active_ctx ∷ []) k 0
unfolding preempts
preempt-round_robin zero {s} q v le =
    let (c, rest, e, len) = split-first q s.last_ctx in
    (preempt-Ready q c rest v e).0
    ∙ sym (ap (λ l. get_or l 0 0) (queue_split q s.last_ctx s.active_ctx e))
preempt-round_robin (suc k) {s} q v le =
    let (c, rest, e, len) = split-first q s.last_ctx in
    let turned = preempt-Ready q c rest v e in
    preempt-round_robin k rest turned.2 (omega (arith, len))
    ∙ ap (λ l. get_or (rest ++ l ∷ (preempt s).active_ctx ∷ []) k 0) turned.1
    ∙ get_or-two rest s.active_ctx (preempt s).active_ctx k (omega (arith, len))
    ∙ sym (ap (λ l. get_or l (suc k) 0) (queue_split q s.last_ctx s.active_ctx e))

-- `schedule` makes the first of several queued contexts run, without queueing the active one; the
-- queue loses it.
pub schedule-Ready :
    {s : Scheduler} (c : ℕ) (q : List ℕ)
    → Ready s (c ∷ q)
    → ((schedule s).active_ctx ≡ c) × ((schedule s).last_ctx ≡ s.last_ctx) × Ready (schedule s) q
unfolding schedule context_switch
schedule-Ready {s} c q v = rw (==_ne s.next_ctx 0 (Ready-next (c ∷ q) v)) (
  v.seg.0,
  refl,
  record {
    seg = rw (v.seg.0) (v.seg.3);
    end = v.end;
    last = v.last;
    once = v.once.1;
    active = Ready-next (c ∷ q) v;
    apart = rw (v.seg.0) (v.seg.2);
    apart_last = rw (v.seg.0) (v.once.0);
  },
)

-- `schedule` makes the only queued context run, and leaves the queue empty.
pub schedule-last :
    {s : Scheduler}
    → Ready s []
    → ((schedule s).active_ctx ≡ s.last_ctx) × ((schedule s).next_ctx ≡ 0)
unfolding schedule context_switch
schedule-last {s} v =
    rw (==_ne s.next_ctx 0 (Ready-next [] v)) (v.seg, ap (λ c. (s.ctx c).next) v.seg ∙ v.end)

-- The address `c` is of no context that the queue holds or that runs.
pub record New (s : Scheduler) (q : List ℕ) (c : ℕ) : Type 0 where
  pub nonnull : c ≢ 0
  pub out : NotIn c q
  pub not_last : s.last_ctx ≢ c
  pub not_active : s.active_ctx ≢ c

enqueue-Ready :
    {s : Scheduler} (q : List ℕ) (c : ℕ)
    → Ready s q
    → New s q c
    → (s.ctx c).next ≡ 0
    → ((enqueue s c).last_ctx ≡ c) × Ready (enqueue s c) (q ++ s.last_ctx ∷ [])
unfolding enqueue
enqueue-Ready {s} q c v n nil = rw (==_ne s.next_ctx 0 (Ready-next q v)) (
  refl,
  record {
    seg = Seg-snoc s.ctx s.next_ctx q s.last_ctx c v.once v.last v.seg;
    end = ground (arith, nil, n.not_last);
    last = n.nonnull;
    once = NotIn-snoc c q s.last_ctx n.out n.not_last;
    active = v.active;
    apart = NotIn-snoc s.active_ctx q s.last_ctx v.apart (λ e. v.apart_last (sym e));
    apart_last = n.not_active;
  },
)

enqueue-empty :
    {s : Scheduler} (c : ℕ)
    → s.next_ctx ≡ 0
    → s.active_ctx ≢ 0
    → New s [] c
    → (s.ctx c).next ≡ 0
    → ((enqueue s c).last_ctx ≡ c) × Ready (enqueue s c) []
unfolding enqueue
enqueue-empty {s} c z a n nil = rw (z) (
  refl,
  record {
    seg = refl;
    end = ground (arith, nil, n.not_active);
    last = n.nonnull;
    once = refl;
    active = a;
    apart = refl;
    apart_last = n.not_active;
  },
)

enqueue-kept :
    (s : Scheduler) (c : ℕ) (made : Context)
    → s.ctx c ≡ made
    → s.next_ctx ≢ 0
    → s.last_ctx ≢ c
    → (((enqueue s c).ctx c).id ≡ made.id)
      × (((enqueue s c).ctx c).priority ≡ made.priority)
      × (((enqueue s c).ctx c).slices_remaining ≡ made.slices_remaining)
unfolding enqueue
enqueue-kept s c made e nz ne =
    rw (==_ne s.next_ctx 0 nz, ==_ne s.last_ctx c ne)
      (ap Context.id e, ap Context.priority e, ap Context.slices_remaining e)

-- a context as `create_context` fills it in
made : Scheduler → ℕ → ℕ → ℕ → Context
made s c priority limit = record {
  present = true;
  id = s.ctx_id;
  next = 0;
  limit = limit;
  priority = priority;
  alarm = (s.ctx c).alarm;
  slices_remaining = 0;
}

-- the state in which `create_context` queues it
filled : Scheduler → ℕ → ℕ → ℕ → Scheduler
filled s c priority limit = record s {
  ctx = update s.ctx c (made s c priority limit);
  ctx_id = u32 (s.ctx_id + 1);
  irq_disable_counter = u32 (s.irq_disable_counter + 1);
  interrupts = false;
}

filled-made : (s : Scheduler) (c p l : ℕ) → (filled s c p l).ctx c ≡ made s c p l
unfolding filled
filled-made s c p l = ground arith

Ready-filled :
    {s : Scheduler} (q : List ℕ) (c p l : ℕ) → New s q c → Ready s q → Ready (filled s c p l) q
unfolding filled
Ready-filled {s} q c p l n v = record {
  seg = Seg-update s.ctx c (made s c p l) s.next_ctx q s.last_ctx n.out v.seg;
  end = ground (arith, n.not_last, v.end);
  last = v.last;
  once = v.once;
  active = v.active;
  apart = v.apart;
  apart_last = v.apart_last;
}

New-filled : {s : Scheduler} (q : List ℕ) (c p l : ℕ) → New s q c → New (filled s c p l) q c
unfolding filled
New-filled q c p l n = record {
  nonnull = n.nonnull;
  out = n.out;
  not_last = n.not_last;
  not_active = n.not_active;
}

unlocked-Ready : {s : Scheduler} (q : List ℕ) → Ready s q → Ready (unlock_scheduler s) q
unfolding unlock_scheduler
unlocked-Ready q v = record {
  seg = v.seg;
  end = v.end;
  last = v.last;
  once = v.once;
  active = v.active;
  apart = v.apart;
  apart_last = v.apart_last;
}

-- `create_context` with the address `c` of a new context puts it last in a queue that is not
-- empty, with the given priority, no time slice and the next id; what was queued stays in order.
pub create_context-Ready :
    {s : Scheduler} (q : List ℕ) (c priority limit : ℕ)
    → New s q c
    → Ready s q
    → let t = create_context s c priority limit in
      (t.last_ctx ≡ c)
      × Ready t (q ++ s.last_ctx ∷ [])
      × ((t.ctx c).id ≡ s.ctx_id)
      × ((t.ctx c).priority ≡ priority)
      × ((t.ctx c).slices_remaining ≡ 0)
unfolding create_context lock_scheduler unlock_scheduler filled made
create_context-Ready {s} q c priority limit n v =
    let u = filled s c priority limit in
    let v' = Ready-filled q c priority limit n v in
    let n' = New-filled q c priority limit n in
    let at = filled-made s c priority limit in
    let r = enqueue-Ready q c v' n' (ap Context.next at) in
    let kept = enqueue-kept u c (made s c priority limit) at (Ready-next q v') n.not_last in
    (r.0, unlocked-Ready (q ++ s.last_ctx ∷ []) r.1, kept.0, kept.1, kept.2)

-- In an empty queue `create_context` makes the new context the only one.
pub create_context-empty :
    {s : Scheduler} (c priority limit : ℕ)
    → New s [] c
    → s.next_ctx ≡ 0
    → s.active_ctx ≢ 0
    → let t = create_context s c priority limit in (t.last_ctx ≡ c) × Ready t []
unfolding create_context lock_scheduler unlock_scheduler filled made
create_context-empty {s} c priority limit n z a =
    let at = filled-made s c priority limit in
    let r =
      enqueue-empty {s = filled s c priority limit} c z a (New-filled [] c priority limit n)
        (ap Context.next at) in
    (r.0, unlocked-Ready [] r.1)
