-- ===== src/Kernel/Sched/Search.antt =====
-- What one search of the table finds: the runnable task with the largest counter.
use linux_0_11_notes.Prelude.{
  Bool-cases, Option, Option-cases, arith, false, inl, inr, none, refl, some, suc, true, zero, ℕ,
  ℕ_discrete, ◌&&◌, ◌<◌, ◌≡◌, ◌≤◌,
}
use linux_0_11_notes.Kernel.Sched.{
  Choice, above, choose, consider, ends_search, recharge, scan, search_loop,
}
use linux_0_11_notes.Kernel.Sched.Slots.{map_slots_lem}
use linux_0_11_notes.Kernel.Task.{Table, Task, is_running, last_slot, map_slots}

-- The counter is at most the largest one seen.
abbrev pub Within : ℕ → Option ℕ → Type 0
Within n none = ⊥
Within n (some c) = n ≤ c

abbrev pub Runs : Option Task → ℕ → Type 0
Runs none c = ⊥
Runs (some a) c = (is_running a.state ≡ true) × (a.counter ≡ c)

-- A counter that was seen belongs to a runnable task in the slot beside it; else the slot is 0.
abbrev pub Backed : Table → Option ℕ → ℕ → Type 0
Backed t none i = i ≡ 0
Backed t (some c) i = (0 < i) × (i ≤ last_slot) × Runs (t i) c

-- The best choice among the tasks in the slots above lo.
pub record IsBest (t : Table) (lo : ℕ) (best : Choice) : Type 0 where
  pub largest :
      (i : ℕ) (a : Task)
      → lo < i
      → i ≤ last_slot
      → t i ≡ some a
      → is_running a.state ≡ true
      → Within a.counter best.c
  pub backed : Backed t best.c best.next

consider-Backed :
    (t : Table) (n : ℕ) (best : Choice)
    → n < last_slot
    → Backed t best.c best.next
    → Backed t (consider (t (suc n)) (suc n) best).c (consider (t (suc n)) (suc n) best).next
unfolding consider
consider-Backed t n best h v = elim (Option-cases (t (suc n))) [
  | inl e ↦ rw (e, consider) v
  | inr (a, e) ↦ elim (Bool-cases (is_running a.state && above a.counter best.c)) [
    | inl p ↦ ground arith
    | inr p ↦ ground arith
  ]
]

consider-largest :
    (t : Table) (n : ℕ) (best : Choice) (a : Task)
    → t (suc n) ≡ some a
    → is_running a.state ≡ true
    → Within a.counter (consider (t (suc n)) (suc n) best).c
unfolding consider
consider-largest t n best a e r = ground arith

consider-Within :
    (o : Option Task) (i m : ℕ) (best : Choice) → Within m best.c → Within m (consider o i best).c
unfolding consider
consider-Within none i m best w = w
consider-Within (some b) i m best w = ground arith

consider-IsBest :
    (t : Table) (n : ℕ) (best : Choice)
    → n < last_slot
    → IsBest t (suc n) best
    → IsBest t n (consider (t (suc n)) (suc n) best)
consider-IsBest t n best h v = record {
  largest = λ i a lo hi e r. elim (ℕ_discrete i (suc n)) [
    | yes p ↦ let e' : t (suc n) ≡ some a = rw (← p) e in consider-largest t n best a e' r
    | no p ↦ consider-Within (t (suc n)) (suc n) a.counter best (v.largest i a (omega arith) hi e r)
  ];
  backed = consider-Backed t n best h v.backed;
}

scan-IsBest :
    (t : Table) (n : ℕ) (best : Choice)
    → n ≤ last_slot
    → IsBest t n best
    → IsBest t 0 (scan n t best)
unfolding scan
scan-IsBest t zero best h v = v
scan-IsBest t (suc n) best h v =
    scan-IsBest t n (consider (t (suc n)) (suc n) best) (omega arith) (consider-IsBest t n best h v)

pub choose-IsBest : (t : Table) → IsBest t 0 (choose t)
unfolding choose
choose-IsBest t =
    scan-IsBest t last_slot (record { c = none; next = 0 }) (omega arith)
      (record { largest = λ i a lo hi e r. absurd (omega arith); backed = refl })

-- The priorities that keep the search short: no runnable task in slots 1 to 63 has priority 0.
abbrev pub HasPriorities : Table → Type 0
HasPriorities t = (i : ℕ) (a : Task) → 0 < i → i ≤ last_slot → t i ≡ some a → 0 < a.priority

-- What `schedule` gives: the search ends, and it ends at a best choice that is not exhausted.
pub data Picks (t : Table) : Option (Table × ℕ) → Type 0 where
  at_once : {i : ℕ} → ends_search (choose t).c ≡ true → i ≡ (choose t).next → Picks t (some (t, i))
  recharged :
      {u : Table} {i : ℕ}
      → ends_search (choose t).c ≡ false
      → u ≡ map_slots last_slot recharge t
      → ends_search (choose u).c ≡ true
      → i ≡ (choose u).next
      → Picks t (some (u, i))

recharge-slot :
    (t : Table) (i : ℕ) (a : Task)
    → 0 < i
    → i ≤ last_slot
    → t i ≡ some a
    → map_slots last_slot recharge t i ≡ some (recharge a)
recharge-slot t i a lo hi e = ground (arith, map_slots_lem last_slot recharge t i)

-- After one recharge a runnable task has a counter above 0, so the second search ends the loop.
recharge-ends :
    (t : Table)
    → HasPriorities t
    → ends_search (choose t).c ≡ false
    → ends_search (choose (map_slots last_slot recharge t)).c ≡ true
unfolding recharge
recharge-ends t p h = go (choose t).c (choose t).next refl (choose-IsBest t).backed
  where
    finish :
        (i : ℕ) (a : Task)
        → 0 < i
        → i ≤ last_slot
        → t i ≡ some a
        → is_running a.state ≡ true
        → ends_search (choose (map_slots last_slot recharge t)).c ≡ true
    finish i a lo hi e r = ground (
      arith,
      (choose-IsBest (map_slots last_slot recharge t)).largest i (recharge a) lo hi
          (recharge-slot t i a lo hi e) r,
      p i a lo hi e,
    )

    go :
        (c : Option ℕ) (i : ℕ)
        → (choose t).c ≡ c
        → Backed t c i
        → ends_search (choose (map_slots last_slot recharge t)).c ≡ true
    go none i e b = absurd (ground arith)
    go (some c) i e b = elim (Option-cases (t i)) [
      | inl q ↦ absurd (ground arith)
      | inr (a, q) ↦ finish i a b.0 b.1 q (ground arith)
    ]

pub search_loop-Picks : (t : Table) → HasPriorities t → Picks t (search_loop 2 t)
unfolding search_loop
search_loop-Picks t p = elim (Bool-cases (ends_search (choose t).c)) [
  | inl e ↦ rw e (at_once e refl)
  | inr e ↦ rw (e, recharge-ends t p e) (recharged e refl (recharge-ends t p e) refl)
]
