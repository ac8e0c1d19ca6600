-- ===== src/Kernel/Sleep/Chain.antt =====
-- Several tasks on one wait queue: each keeps the one before it in its local `tmp`, and one
-- `wake_up` reaches all of them.
use linux_0_11_notes.Prelude.{
  Bool, List, Option, [], ap, arith, fun_ext, if◌then◌else◌, none, refl, some, subst, sym, true, ℕ,
  ◌∙◌, ◌∷◌, ◌≡◌,
}
use linux_0_11_notes.Kernel.Sleep.{Sleepers, set_state, sleep_begin, sleep_end, wake_slot, wake_up}
use linux_0_11_notes.Kernel.Task.{Table, TaskState, holds, is_running, uninterruptible}

-- The tasks that sleep on the queue, last first, each with its `tmp`.
abbrev pub Stack : Type 0
Stack = List (ℕ × Option ℕ)

-- Task i begins to sleep on queue p.
unfoldable pub join : ℕ → ℕ → Sleepers × Stack → Sleepers × Stack
unfolding sleep_begin
join p i (s, st) =
    let (tmp, s') = sleep_begin uninterruptible p (record s { current = i }) in (s', (i, tmp) ∷ st)

unfoldable pub join_all : ℕ → List ℕ → Sleepers × Stack → Sleepers × Stack
join_all p [] x = x
join_all p (i ∷ is) x = join_all p is (join p i x)

abbrev pub runs : Table → ℕ → Bool
runs t i = holds (λ a. is_running a.state) (t i)

-- The sleepers finish `sleep_on`, last first; `none` if one of them is not runnable when its turn
-- comes.
unfoldable pub leave_all : Stack → Sleepers → Option Sleepers
unfolding sleep_end
leave_all [] s = some s
leave_all ((i, tmp) ∷ st) s =
    let rest = leave_all st (sleep_end tmp (record s { current = i })) in
    if runs s.task i then rest else none

abbrev pub present : Table → ℕ → Bool
present t i = holds (λ _. true) (t i)

abbrev pub All : (ℕ → Bool) → List ℕ → Type 0
All p [] = Unit
All p (i ∷ is) = (p i ≡ true) × All p is

abbrev pub AllStack : (ℕ → Bool) → Stack → Type 0
AllStack p [] = Unit
AllStack p ((i, _) ∷ st) = (p i ≡ true) × AllStack p st

-- Each sleeper's `tmp` is the sleeper before it.
abbrev pub Linked : Option ℕ → Stack → Type 0
Linked h [] = h ≡ none
Linked h ((i, tmp) ∷ st) = (h ≡ some i) × Linked tmp st

abbrev pub RunsIf : Option ℕ → Table → Type 0
RunsIf none t = Unit
RunsIf (some i) t = runs t i ≡ true

wake_slot-runs :
    (o : Option ℕ) (t : Table) (i : ℕ) → runs t i ≡ true → runs (wake_slot o t) i ≡ true
unfolding wake_slot
wake_slot-runs none t i h = h
wake_slot-runs (some j) t i h = ground arith

wake_slot-present : (o : Option ℕ) (t : Table) (i : ℕ) → present (wake_slot o t) i ≡ present t i
unfolding wake_slot
wake_slot-present none t i = refl
wake_slot-present (some j) t i = ground arith

wake_slot-RunsIf : (t : Table) (i : ℕ) → present t i ≡ true → runs (wake_slot (some i) t) i ≡ true
unfolding wake_slot
wake_slot-RunsIf t i h = ground arith

present-all :
    (o : Option ℕ) (t : Table) (st : Stack)
    → AllStack (present t) st
    → AllStack (present (wake_slot o t)) st
present-all o t [] h = tt
present-all o t ((i, _) ∷ st) h = (rw (wake_slot-present o t i) h.0, present-all o t st h.1)

Linked-RunsIf :
    (tmp : Option ℕ) (t : Table) (st : Stack)
    → Linked tmp st
    → AllStack (present t) st
    → RunsIf tmp (wake_slot tmp t)
Linked-RunsIf tmp t [] l h = subst (λ o. RunsIf o (wake_slot o t)) (sym l) tt
Linked-RunsIf tmp t ((i, _) ∷ st) l h =
    subst (λ o. RunsIf o (wake_slot o t)) (sym l.0) (wake_slot-RunsIf t i h.0)

leave_all-runs :
    (st : Stack) (s s' : Sleepers) (i : ℕ)
    → leave_all st s ≡ some s'
    → runs s.task i ≡ true
    → runs s'.task i ≡ true
unfolding leave_all
leave_all-runs [] s s' i e h = ground arith
leave_all-runs ((j, tmp) ∷ st) s s' i e h = ground (
  arith,
  wake_slot-runs tmp s.task i,
  leave_all-runs st (sleep_end tmp (record s { current = j })) s' i,
)

-- Once the first of them is runnable, each wakes the next, and all become runnable.
leave_all-AllStack :
    (st : Stack) (h : Option ℕ) (s : Sleepers)
    → Linked h st
    → RunsIf h s.task
    → AllStack (present s.task) st
    → (s' : Sleepers) × (leave_all st s ≡ some s')
      × AllStack (runs s'.task) st
      × (s'.queue ≡ s.queue)
unfolding leave_all
leave_all-AllStack [] h s l r p = (s, refl, tt, refl)
leave_all-AllStack ((i, tmp) ∷ st) h s l r p =
    let s1 : Sleepers = sleep_end tmp (record s { current = i }) in
    let top : runs s.task i ≡ true = subst (λ o. RunsIf o s.task) l.0 r in
    let (s', e, all, q) =
      leave_all-AllStack st tmp s1 l.1 (Linked-RunsIf tmp s.task st l.1 p.1)
        (present-all tmp s.task st p.1) in
    let moved : runs s1.task i ≡ true = wake_slot-runs tmp s.task i top in
    (s', rw (top, e), (leave_all-runs st s1 s' i e moved, all), q)

join_all-Linked :
    (p : ℕ) (is : List ℕ) (s : Sleepers) (st : Stack)
    → Linked (s.queue p) st
    → Linked ((join_all p is (s, st)).0.queue p) (join_all p is (s, st)).1
unfolding join_all join
join_all-Linked p [] s st l = l
join_all-Linked p (i ∷ is) s st l =
    join_all-Linked p is (join p i (s, st)).0 (join p i (s, st)).1 (ground arith)

join_all-covers :
    (f : ℕ → Bool) (p : ℕ) (is : List ℕ) (s : Sleepers) (st : Stack)
    → AllStack f (join_all p is (s, st)).1
    → All f is × AllStack f st
unfolding join_all join
join_all-covers f p [] s st h = (tt, h)
join_all-covers f p (i ∷ is) s st h =
    let (all, rest) = join_all-covers f p is (join p i (s, st)).0 (join p i (s, st)).1 h in
    ((rest.0, all), rest.1)

present-set : (st : TaskState) (t : Table) (i j : ℕ) → present (set_state st i t) j ≡ present t j
present-set st t i j = ground arith

join_all-present :
    (p j : ℕ) (is : List ℕ) (s : Sleepers) (st : Stack)
    → present (join_all p is (s, st)).0.task j ≡ present s.task j
unfolding join_all join
join_all-present p j [] s st = refl
join_all-present p j (i ∷ is) s st =
    join_all-present p j is (join p i (s, st)).0 (join p i (s, st)).1
    ∙ present-set uninterruptible s.task i j

join_all-AllStack :
    (f : ℕ → Bool) (p : ℕ) (is : List ℕ) (s : Sleepers) (st : Stack)
    → All f is
    → AllStack f st
    → AllStack f (join_all p is (s, st)).1
unfolding join_all join
join_all-AllStack f p [] s st a h = h
join_all-AllStack f p (i ∷ is) s st a h =
    join_all-AllStack f p is (join p i (s, st)).0 (join p i (s, st)).1 a.1 (a.0, h)

wake_up-slot :
    (p : ℕ) (s : Sleepers) (st : Stack)
    → Linked (s.queue p) st
    → (wake_up (some p) s).task ≡ wake_slot (s.queue p) s.task
unfolding wake_up wake_slot
wake_up-slot p s [] l = ground arith
wake_up-slot p s ((i, _) ∷ st) l = ground arith

wake_up-queue : (p : ℕ) (s : Sleepers) → (wake_up (some p) s).queue p ≡ none
unfolding wake_up
wake_up-queue p s = ground arith

-- Tasks go to sleep on an empty queue one after the other, and then one `wake_up` comes. Every
-- sleeper is runnable when its turn comes, last first; each that returns from `sleep_on` wakes the
-- one before it, so all of them end up runnable, and the queue is empty.
pub wake_up-leave_all :
    (p : ℕ) (is : List ℕ) (s : Sleepers)
    → s.queue p ≡ none
    → All (present s.task) is
    → let (s1, st) = join_all p is (s, []) in
      (s' : Sleepers) × (leave_all st (wake_up (some p) s1) ≡ some s')
      × All (runs s'.task) is
      × (s'.queue p ≡ none)
wake_up-leave_all p is s e a =
    let s1 : Sleepers = (join_all p is (s, [])).0 in
    let st : Stack = (join_all p is (s, [])).1 in
    let l : Linked (s1.queue p) st = join_all-Linked p is s [] e in
    let same : present s1.task ≡ present s.task = fun_ext (λ j. join_all-present p j is s []) in
    let here : AllStack (present s1.task) st =
      rw same (join_all-AllStack (present s.task) p is s [] a tt) in
    let w : (wake_up (some p) s1).task ≡ wake_slot (s1.queue p) s1.task = wake_up-slot p s1 st l in
    let (s', out, all, q) =
      leave_all-AllStack st (s1.queue p) (wake_up (some p) s1) l
        (subst (RunsIf (s1.queue p)) (sym w) (Linked-RunsIf (s1.queue p) s1.task st l here))
        (subst (λ t. AllStack (present t) st) (sym w) (present-all (s1.queue p) s1.task st here)) in
    (
      s',
      out,
      (join_all-covers (runs s'.task) p is s [] all).0,
      ap (λ f. f p) q ∙ wake_up-queue p s1,
    )
