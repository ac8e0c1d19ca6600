-- ===== src/Kernel/Fork/Fresh.antt =====
-- The search for a process id ends, and its result is fresh.
use linux_0_11_notes.Prelude.{
  Bool-cases, Option-cases, arith, err, false, if◌then◌else◌, inl, inr, ltb_ℤ, none, pos, refl,
  some, subst, suc, sym, true, zero, ℕ, ℕ_discrete, ℤ, ◌+◌, ◌<◌, ◌^◌, ◌≡◌, ◌≢◌, ◌≤◌, ◌⊎◌,
}
use linux_0_11_notes.Kernel.Fork.{
  eagain, empty_slot, find_empty_process, free_pid, is_used, next_pid,
}
use linux_0_11_notes.Kernel.Task.{Table, Task, holds, last_slot, nr_tasks}

-- Slots below n whose process id is above `last`.
unfoldable pub above : ℕ → ℕ → Table → ℕ
above zero last t = 0
above (suc n) last t = above n last t + (if holds (λ a. ltb_ℤ (pos last) a.pid) (t n) then 1 else 0)

above_le : (n last : ℕ) (t : Table) → above n last t ≤ n
unfolding above
above_le zero last t = omega arith
above_le (suc n) last t = ground (arith, above_le n last t)

above_later : (n last : ℕ) (t : Table) → above n (last + 1) t ≤ above n last t
unfolding above
above_later zero last t = omega arith
above_later (suc n) last t = elim (Option-cases (t n)) [
  | inl e ↦ ground (arith, above_later n last t)
  | inr (a, e) ↦ ground (arith, above_later n last t)
]

above_used :
    (n last : ℕ) (t : Table)
    → is_used n (pos (last + 1)) t ≡ true
    → above n (last + 1) t < above n last t
unfolding above is_used
above_used zero last t h = absurd (ground arith)
above_used (suc n) last t h = elim (Option-cases (t n)) [
  | inl e ↦ ground (arith, above_used n last t)
  | inr (a, e) ↦ ground (arith, above_used n last t, above_later n last t)
]

free_pid_lem :
    (fuel last : ℕ) (t : Table)
    → above nr_tasks last t < fuel
    → last + fuel < 2 ^ 31
    → (pid : ℕ) × (free_pid fuel last t ≡ some pid)
      × (last < pid)
      × (is_used nr_tasks (pos pid) t ≡ false)
unfolding free_pid
free_pid_lem zero last t h k = absurd (omega arith)
free_pid_lem (suc fuel) last t h k =
    let e : next_pid last ≡ last + 1 = ground arith in
    elim (Bool-cases (is_used nr_tasks (pos (next_pid last)) t)) [
      | inr u ↦ (next_pid last, rw (free_pid, u) refl, omega arith, u)
      | inl u ↦
          let used : is_used nr_tasks (pos (last + 1)) t ≡ true =
            subst (λ n. is_used nr_tasks (pos n) t ≡ true) e u in
          let fewer : above nr_tasks (next_pid last) t < fuel =
            subst (λ n. above nr_tasks n t < fuel) (sym e)
              (omega (arith, above_used nr_tasks last t used)) in
          let (pid, r, lt, fresh) = free_pid_lem fuel (next_pid last) t fewer (omega arith) in
          (pid, rw (free_pid, u) r, omega arith, fresh)
    ]

is_used-false :
    (n i : ℕ) (pid : ℤ) (t : Table) (a : Task)
    → is_used n pid t ≡ false
    → i < n
    → t i ≡ some a
    → a.pid ≢ pid
unfolding is_used
is_used-false zero i pid t a h lt e q = absurd (omega arith)
is_used-false (suc n) i pid t a h lt e q = elim (ℕ_discrete i n) [
  | yes p ↦ ground (arith, subst (λ x. t x ≡ some a) p e)
  | no p ↦ is_used-false n i pid t a (ground arith) (omega arith) e q
]

-- An empty slot from 1 to 63, or a table that has none.
abbrev pub SlotOr : ℤ → Table → Type 0
SlotOr r t =
    ((i : ℕ) × (r ≡ pos i) × (0 < i) × (i ≤ last_slot) × (t i ≡ none))
    ⊎ ((r ≡ err eagain) × ((i : ℕ) → 0 < i → i ≤ last_slot → t i ≢ none))

empty_slot_lem :
    (n i : ℕ) (t : Table)
    → ((k : ℕ) × (empty_slot n i t ≡ some k) × (i ≤ k) × (k < i + n) × (t k ≡ none))
      ⊎ ((empty_slot n i t ≡ none) × ((k : ℕ) → i ≤ k → k < i + n → t k ≢ none))
unfolding empty_slot
empty_slot_lem zero i t = inr (refl, λ k lo hi e. absurd (omega arith))
empty_slot_lem (suc n) i t = elim (Option-cases (t i)) [
  | inl e ↦ inl (i, rw (empty_slot, e) refl, omega arith, omega arith, e)
  | inr (a, e) ↦ elim (empty_slot_lem n (i + 1) t) [
    | inl (k, r, lo, hi, z) ↦ inl (k, rw (empty_slot, e) r, omega arith, omega arith, z)
    | inr (r, all) ↦ inr (
      rw (empty_slot, e) r,
      λ k lo hi z. elim (ℕ_discrete k i) [
        | yes q ↦ ground (arith, subst (λ x. t x ≡ none) q z)
        | no q ↦ all k (omega arith) (omega arith) z
      ],
    )
  ]
]

-- Unless the process ids come near their end, `find_empty_process` returns after at most 65 turns of
-- its first loop. The id that it leaves in `last_pid` is no task's, and it returns an empty slot
-- other than 0 if there is one, and -EAGAIN if there is none.
pub find_empty_process_lem :
    (last : ℕ) (t : Table)
    → last + 65 < 2 ^ 31
    → (r : ℤ) × (pid : ℕ) × (find_empty_process 65 last t ≡ some (r, pid))
      × ((i : ℕ) (a : Task) → i < nr_tasks → t i ≡ some a → a.pid ≢ pos pid)
      × SlotOr r t
unfolding find_empty_process
find_empty_process_lem last t h =
    let (pid, f, _, fresh) = free_pid_lem 65 last t (omega (arith, above_le nr_tasks last t)) h in
    let no_task = λ (i : ℕ) (a : Task). is_used-false nr_tasks i (pos pid) t a fresh in
    elim (empty_slot_lem last_slot 1 t) [
      | inl (k, e, lo, hi, z) ↦ (
        pos k,
        pid,
        rw (find_empty_process, f, e) refl,
        no_task,
        inl (k, refl, omega arith, omega arith, z),
      )
      | inr (e, all) ↦ (
        err eagain,
        pid,
        rw (find_empty_process, f, e) refl,
        no_task,
        inr (refl, λ i lo hi. all i (omega arith) (omega arith)),
      )
    ]
