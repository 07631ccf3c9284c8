-- ===== src/Sched/Sleep.antt =====
-- The sleepers' list and its tick: src/kernel/sleep.c.
use muse.Base.{
  ℕ, zero, suc, ◌+◌, ◌-◌, ◌<◌, ◌≡◌, ◌≢◌, refl, sym, ap, ◌∙◌, List, [], ◌∷◌, ◌++◌, arith, length,
  ==_ne, sub32, some,
}
use muse.Sched.{Context, Scheduler, set_alarm, wake, tick_one, tick_from, sleep_tick}
use muse.Sched.Queue.{NotIn, Seg, Seg-update}

abbrev pub ticked : Context → ℕ
ticked c = sub32 c.alarm 1

-- `sleeping_ctx->alarm--` for each context of the list
unfoldable pub dec_all : (ℕ → Context) → List ℕ → ℕ → Context
dec_all ctx [] = ctx
dec_all ctx (c ∷ q) = dec_all (set_alarm ctx c (ticked (ctx c))) q

-- None of these alarms goes off.
abbrev pub NotDue : (ℕ → Context) → List ℕ → Type 0
NotDue ctx [] = 0 < 1
NotDue ctx (c ∷ q) = (ticked (ctx c) ≢ 0) × NotDue ctx q

-- From `ctx` to `ctx'` these alarms are counted down by one.
abbrev pub Ticked : (ℕ → Context) → (ℕ → Context) → List ℕ → Type 0
Ticked ctx ctx' [] = 0 < 1
Ticked ctx ctx' (c ∷ q) = ((ctx' c).alarm ≡ ticked (ctx c)) × Ticked ctx ctx' q

-- From `ctx` to `ctx'` these alarms stay.
abbrev pub Untouched : (ℕ → Context) → (ℕ → Context) → List ℕ → Type 0
Untouched ctx ctx' [] = 0 < 1
Untouched ctx ctx' (c ∷ q) = ((ctx' c).alarm ≡ (ctx c).alarm) × Untouched ctx ctx' q

pub dec_all-next : (ctx : ℕ → Context) (q : List ℕ) (x : ℕ) → (dec_all ctx q x).next ≡ (ctx x).next
unfolding dec_all
dec_all-next ctx [] x = refl
dec_all-next ctx (c ∷ q) x = dec_all-next (set_alarm ctx c (ticked (ctx c))) q x ∙ ground arith

pub dec_all-out : (ctx : ℕ → Context) (q : List ℕ) (x : ℕ) → NotIn x q → dec_all ctx q x ≡ ctx x
unfolding dec_all
dec_all-out ctx [] x out = refl
dec_all-out ctx (c ∷ q) x out =
    dec_all-out (set_alarm ctx c (ticked (ctx c))) q x out.1 ∙ rw (==_ne c x out.0) (refl)

-- The lists of two stores that agree in `next`.
pub Seg-same :
    (ctx ctx' : ℕ → Context) (p : ℕ) (q : List ℕ) (e : ℕ)
    → ((x : ℕ) → (ctx' x).next ≡ (ctx x).next)
    → Seg ctx p q e
    → Seg ctx' p q e
Seg-same ctx ctx' p [] e same h = h
Seg-same ctx ctx' p (c ∷ q) e same h =
    (h.0, h.1, h.2, rw (same c) (Seg-same ctx ctx' (ctx c).next q e same h.3))

NotDue-set :
    (ctx : ℕ → Context) (c a : ℕ) (q : List ℕ)
    → NotIn c q
    → NotDue ctx q
    → NotDue (set_alarm ctx c a) q
NotDue-set ctx c a [] out h = h
NotDue-set ctx c a (b ∷ q) out h =
    (rw (==_ne c b (λ e. out.0 (sym e))) (h.0), NotDue-set ctx c a q out.1 h.1)

Ticked-set :
    (ctx ctx' : ℕ → Context) (c a : ℕ) (q : List ℕ)
    → NotIn c q
    → Ticked (set_alarm ctx c a) ctx' q
    → Ticked ctx ctx' q
Ticked-set ctx ctx' c a [] out h = h
Ticked-set ctx ctx' c a (b ∷ q) out h = (
  h.0 ∙ ap (λ x. ticked x) (unset ctx c a b (λ e. out.0 (sym e))),
  Ticked-set ctx ctx' c a q out.1 h.1,
)
  where
    unset : (ctx : ℕ → Context) (c a b : ℕ) → c ≢ b → set_alarm ctx c a b ≡ ctx b
    unset ctx c a b ne = rw (==_ne c b ne) (refl)

pub dec_all-Ticked :
    (ctx : ℕ → Context) (p : ℕ) (q : List ℕ) (e : ℕ) → Seg ctx p q e → Ticked ctx (dec_all ctx q) q
unfolding dec_all
dec_all-Ticked ctx p [] e h = omega arith
dec_all-Ticked ctx p (c ∷ q) e h =
    let ctx' = set_alarm ctx c (ticked (ctx c)) in
    (
      ap Context.alarm (dec_all-out ctx' q c h.2) ∙ ground arith,
      Ticked-set ctx (dec_all ctx' q) c (ticked (ctx c)) q h.2 (
          dec_all-Ticked ctx' (ctx c).next q e (
            Seg-update ctx c (record (ctx c) { alarm = ticked (ctx c) }) (ctx c).next q e h.2 h.3)),
    )

unfoldable pub last_or : ℕ → List ℕ → ℕ
last_or d [] = d
last_or d (c ∷ q) = last_or c q

-- The loop passes over contexts whose alarms do not go off.
pub tick_from-skip :
    (q : List ℕ) (fuel fuel' : ℕ) (s : Scheduler) (prev cur e : ℕ)
    → fuel' ≡ length q + fuel
    → Seg s.ctx cur q e
    → NotDue s.ctx q
    → tick_from fuel' s prev cur
      ≡ tick_from fuel (record s { ctx = dec_all s.ctx q }) (last_or prev q) e
unfolding tick_from tick_one dec_all last_or
tick_from-skip [] fuel fuel' s prev cur e f h due =
    let g : fuel' ≡ fuel = omega (arith, f) in
    ap (λ n. tick_from n s prev cur) g ∙ ap (tick_from fuel s prev) h
tick_from-skip (c ∷ q) fuel zero s prev cur e f h due = absurd (omega arith)
tick_from-skip (c ∷ q) fuel (suc fuel') s prev cur e f h due =
    let ctx' = set_alarm s.ctx c (ticked (s.ctx c)) in
    let seg : Seg ctx' (s.ctx c).next q e =
      Seg-update s.ctx c (record (s.ctx c) { alarm = ticked (s.ctx c) }) (s.ctx c).next q e h.2
        h.3 in
    let ih =
      tick_from-skip q fuel fuel' (record s { ctx = ctx' }) c (s.ctx c).next e (omega arith) seg
        (NotDue-set s.ctx c (ticked (s.ctx c)) q h.2 due.1) in
    let nx : (ctx' c).next ≡ (s.ctx c).next = ground arith in
    rw (h.0, ==_ne c 0 h.1, ==_ne (ticked (s.ctx c)) 0 due.0)
      (ap (tick_from fuel' (record s { ctx = ctx' }) c) nx ∙ ih)

-- Two stores agree in `next` outside of three contexts.
abbrev pub Agree : (ℕ → Context) → (ℕ → Context) → ℕ → ℕ → ℕ → Type 0
Agree ctx ctx' l c k = (x : ℕ) → x ≢ l → x ≢ c → x ≢ k → (ctx' x).next ≡ (ctx x).next

pub Seg-Agree :
    (ctx ctx' : ℕ → Context) (l c k p : ℕ) (q : List ℕ) (e : ℕ)
    → Agree ctx ctx' l c k
    → NotIn l q
    → NotIn c q
    → NotIn k q
    → Seg ctx p q e
    → Seg ctx' p q e
Seg-Agree ctx ctx' l c k p [] e same a b d h = h
Seg-Agree ctx ctx' l c k p (x ∷ q) e same a b d h = (
  h.0,
  h.1,
  h.2,
  rw (same x a.0 b.0 d.0) (Seg-Agree ctx ctx' l c k (ctx x).next q e same a.1 b.1 d.1 h.3),
)

-- membership in the parts of `before ++ c ∷ after`
NotIn-drop :
    (x : ℕ) (before : List ℕ) (c : ℕ) (after : List ℕ)
    → NotIn x (before ++ c ∷ after)
    → NotIn x (before ++ after)
NotIn-drop x [] c after h = h.1
NotIn-drop x (b ∷ before) c after h = (h.0, NotIn-drop x before c after h.1)

pub NotIn-mid :
    (x : ℕ) (before : List ℕ) (c : ℕ) (after : List ℕ) → NotIn x (before ++ c ∷ after) → c ≢ x
NotIn-mid x [] c after h = h.0
NotIn-mid x (b ∷ before) c after h = NotIn-mid x before c after h.1

pub NotIn-after :
    (x : ℕ) (before : List ℕ) (c : ℕ) (after : List ℕ)
    → NotIn x (before ++ c ∷ after)
    → NotIn x after
NotIn-after x [] c after h = h.1
NotIn-after x (b ∷ before) c after h = NotIn-after x before c after h.1

pub NotIn-last : (x b : ℕ) (before r : List ℕ) → NotIn x (b ∷ before ++ r) → last_or b before ≢ x
unfolding last_or
NotIn-last x b [] r h = h.0
NotIn-last x b (b' ∷ before) r h = NotIn-last x b' before r h.1

pub Seg-mid :
    (ctx : ℕ → Context) (p : ℕ) (before : List ℕ) (c : ℕ) (after : List ℕ)
    → Seg ctx p (before ++ c ∷ after) 0
    → (c ≢ 0) × NotIn c before × NotIn c after × Seg ctx p before c × Seg ctx (ctx c).next after 0
Seg-mid ctx p [] c after h = (h.1, refl, h.2, h.0, h.3)
Seg-mid ctx p (b ∷ before) c after h =
    let r = Seg-mid ctx (ctx b).next before c after h.3 in
    (
      r.0,
      ((λ e. NotIn-mid b before c after h.2 (sym e)), r.1),
      r.2,
      (h.0, h.1, NotIn-front b before (c ∷ after) h.2, r.3),
      r.4,
    )
  where
    NotIn-front : (x : ℕ) (q r : List ℕ) → NotIn x (q ++ r) → NotIn x q
    NotIn-front x [] r h = refl
    NotIn-front x (b ∷ q) r h = (h.0, NotIn-front x q r h.1)

pub Seg-last :
    (ctx : ℕ → Context) (p b : ℕ) (before : List ℕ) (c : ℕ) (after : List ℕ)
    → Seg ctx p (b ∷ before ++ c ∷ after) 0
    → (last_or b before ≢ 0) × (last_or b before ≢ c)
unfolding last_or
Seg-last ctx p b [] c after h = (h.1, λ e. h.2.0 (sym e))
Seg-last ctx p b (b' ∷ before) c after h = Seg-last ctx (ctx b).next b' before c after h.3

-- Unlinking `c` behind the last context of `b ∷ before`.
pub Seg-unlink :
    (ctx ctx' : ℕ → Context) (k p b : ℕ) (before : List ℕ) (c : ℕ) (after : List ℕ)
    → Agree ctx ctx' (last_or b before) c k
    → (ctx' (last_or b before)).next ≡ (ctx c).next
    → NotIn k (b ∷ before ++ c ∷ after)
    → Seg ctx p (b ∷ before ++ c ∷ after) 0
    → Seg ctx' p (b ∷ before ++ after) 0
unfolding last_or
Seg-unlink ctx ctx' k p b [] c after same link out h =
    let e : (ctx b).next ≡ c = h.3.0 in
    (
      h.0,
      h.1,
      h.2.1,
      rw (link) (Seg-Agree ctx ctx' b c k (ctx c).next after 0 same h.2.1 h.3.2 out.1.1 h.3.3),
    )
Seg-unlink ctx ctx' k p b (b' ∷ before) c after same link out h =
    let ne : b ≢ last_or b' before = λ e. NotIn-last b b' before (c ∷ after) h.2 (sym e) in
    (
      h.0,
      h.1,
      NotIn-drop b (b' ∷ before) c after h.2,
      rw (same b ne (λ e. NotIn-mid b (b' ∷ before) c after h.2 (sym e)) out.0)
          (Seg-unlink ctx ctx' k (ctx b).next b' before c after same link out.1 h.3),
    )

tick_from-end : (fuel : ℕ) (s : Scheduler) (prev : ℕ) → tick_from (suc fuel) s prev 0 ≡ some s
unfolding tick_from
tick_from-end fuel s prev = refl

-- When no sleeper's alarm goes off, `sleep_tick` returns with every alarm of the list counted down
-- by one, and the list and the ready queue's ends as they were.
pub sleep_tick-quiet :
    (fuel : ℕ) (s : Scheduler) (q : List ℕ)
    → Seg s.ctx s.first_sleeping_ctx q 0
    → NotDue s.ctx q
    → length q < fuel
    → (t : Scheduler) × (sleep_tick fuel s ≡ some t)
      × Ticked s.ctx t.ctx q
      × Seg t.ctx t.first_sleeping_ctx q 0
      × (t.last_ctx ≡ s.last_ctx)
      × (t.next_ctx ≡ s.next_ctx)
unfolding sleep_tick
sleep_tick-quiet fuel s q h due lt = (
  record s { ctx = dec_all s.ctx q },
  tick_from-skip q (suc (fuel - length q - 1)) fuel s 0 s.first_sleeping_ctx 0 (omega arith) h due
      ∙ tick_from-end (fuel - length q - 1) (record s { ctx = dec_all s.ctx q }) (last_or 0 q),
  dec_all-Ticked s.ctx s.first_sleeping_ctx q 0 h,
  Seg-same s.ctx (dec_all s.ctx q) s.first_sleeping_ctx q 0 (dec_all-next s.ctx q) h,
  refl,
  refl,
)

tick_one-due :
    (s : Scheduler) (prev c : ℕ)
    → ticked (s.ctx c) ≡ 0
    → tick_one s prev c ≡ wake (record s { ctx = set_alarm s.ctx c 0 }) prev c
unfolding tick_one
tick_one-due s prev c due = rw (due) (refl)

pub tick_from-due :
    (fuel : ℕ) (s : Scheduler) (prev c : ℕ)
    → c ≢ 0
    → ticked (s.ctx c) ≡ 0
    → ((wake (record s { ctx = set_alarm s.ctx c 0 }) prev c).ctx c).next ≡ 0
    → tick_from (suc (suc fuel)) s prev c
      ≡ some (wake (record s { ctx = set_alarm s.ctx c 0 }) prev c)
unfolding tick_from
tick_from-due fuel s prev c nz due stop = rw (==_ne c 0 nz, tick_one-due s prev c due, stop) (refl)

-- What `wake` writes when `c` is the first sleeper.
pub wake-first :
    (s : Scheduler) (c : ℕ)
    → s.last_ctx ≢ c
    → let t = wake s 0 c in
      (t.last_ctx ≡ c)
      × ((t.ctx s.last_ctx).next ≡ c)
      × ((t.ctx c).next ≡ 0)
      × (t.first_sleeping_ctx ≡ (s.ctx c).next)
      × ((x : ℕ) → x ≢ c → x ≢ s.last_ctx → (t.ctx x).next ≡ (s.ctx x).next)
      × ((x : ℕ) → (t.ctx x).alarm ≡ (s.ctx x).alarm)
unfolding wake
wake-first s c ne =
    (refl, ground arith, ground arith, ground arith, λ x a b. ground arith, λ x. ground arith)

-- What `wake` writes when `c` stands behind the sleeper `prev`.
pub wake-later :
    (s : Scheduler) (prev c : ℕ)
    → s.last_ctx ≢ c
    → prev ≢ 0
    → prev ≢ c
    → prev ≢ s.last_ctx
    → let t = wake s prev c in
      (t.last_ctx ≡ c)
      × ((t.ctx s.last_ctx).next ≡ c)
      × ((t.ctx c).next ≡ 0)
      × (t.first_sleeping_ctx ≡ s.first_sleeping_ctx)
      × ((t.ctx prev).next ≡ (s.ctx c).next)
      × ((x : ℕ) → x ≢ prev → x ≢ c → x ≢ s.last_ctx → (t.ctx x).next ≡ (s.ctx x).next)
      × ((x : ℕ) → (t.ctx x).alarm ≡ (s.ctx x).alarm)
unfolding wake
wake-later s prev c a nz b e = rw (==_ne prev 0 nz) (
  refl,
  ground arith,
  ground arith,
  refl,
  ground arith,
  λ x p q r. ground arith,
  λ x. ground arith,
)
