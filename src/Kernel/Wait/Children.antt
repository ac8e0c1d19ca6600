-- ===== src/Kernel/Wait/Children.antt =====
-- What the loop of `waitpid` of kernel/exit.c finds among the tasks.
use linux_0_11_notes.Prelude.{
  Bool, Bool-cases, Option-cases, arith, eq_ℤ, eq_ℤ→eq, eq→eq_ℤ, false, if-false, if-true, inl, inr,
  negsuc, pos, refl, some, subst, suc, sym, true, zero, ℕ, ℕ_discrete, ℤ, ◌<◌, ◌==◌, ◌∙◌, ◌≡◌, ◌≤◌,
  ◌⊎◌,
}
use linux_0_11_notes.Kernel.Task.{
  Table, Task, TaskState, interruptible, running, stopped, uninterruptible, zombie,
}
use linux_0_11_notes.Kernel.Wait.{
  Pass, is_child, no_news, on_child, reap, selected, stopped_child, wait_pass,
}

-- Which children the pid selects.
pub Selected : ℤ → Task → Task → Type 0
Selected (pos zero) me a = a.pgrp ≡ me.pgrp
Selected (pos (suc n)) me a = a.pid ≡ pos (suc n)
Selected (negsuc zero) me a = Unit {0}
Selected (negsuc (suc n)) me a = a.pgrp ≡ pos (suc (suc n))

-- The task in slot i is another than the caller, a child of it, and one that the pid selects.
pub record IsWanted (pid : ℤ) (self : ℕ) (me : Task) (t : Table) (i : ℕ) (a : Task) : Type 0 where
  slot : t i ≡ some a
  low : 0 < i
  other : ¬ (i ≡ self)
  father : a.father ≡ me.pid
  selected : Selected pid me a

selected_pos : (n : ℕ) (me a : Task) → selected (pos (suc n)) me a ≡ eq_ℤ a.pid (pos (suc n))
selected_pos n me a = ground arith

selected_neg :
    (n : ℕ) (me a : Task) → selected (negsuc (suc n)) me a ≡ eq_ℤ a.pgrp (pos (suc (suc n)))
selected_neg n me a = ground arith

selected→Selected : (pid : ℤ) (me a : Task) → selected pid me a ≡ true → Selected pid me a
unfolding Selected
selected→Selected (pos zero) me a h = eq_ℤ→eq a.pgrp me.pgrp h
selected→Selected (pos (suc n)) me a h = eq_ℤ→eq a.pid (pos (suc n)) (sym (selected_pos n me a) ∙ h)
selected→Selected (negsuc zero) me a h = tt
selected→Selected (negsuc (suc n)) me a h =
    eq_ℤ→eq a.pgrp (pos (suc (suc n))) (sym (selected_neg n me a) ∙ h)

Selected→selected : (pid : ℤ) (me a : Task) → Selected pid me a → selected pid me a ≡ true
unfolding Selected
Selected→selected (pos zero) me a h = eq→eq_ℤ a.pgrp me.pgrp h
Selected→selected (pos (suc n)) me a h = selected_pos n me a ∙ eq→eq_ℤ a.pid (pos (suc n)) h
Selected→selected (negsuc zero) me a h = refl
Selected→selected (negsuc (suc n)) me a h =
    selected_neg n me a ∙ eq→eq_ℤ a.pgrp (pos (suc (suc n))) h

-- A task that gives no news: it is stopped and nobody asks for those, or (the flag) it lives.
abbrev pub IsIdle : Bool → Task → Bool → Type 0
IsIdle untraced a false = (a.state ≡ stopped) × (untraced ≡ false)
IsIdle untraced a true = ¬ (a.state ≡ zombie) × ((a.state ≡ stopped) → untraced ≡ false)

abbrev pub IsAlive : Task → Type 0
IsAlive a = ¬ (a.state ≡ zombie) × ¬ (a.state ≡ stopped)

stopped-IsIdle :
    (a : Task) (out : Bool) {untraced : Bool}
    → a.state ≡ stopped
    → untraced ≡ false
    → IsIdle untraced a out
stopped-IsIdle a false e u = (e, u)
stopped-IsIdle a true e u = (λ h. absurd (ground arith), λ _. u)

module _ (untraced : Bool) (pid : ℤ) (self : ℕ) (me : Task) (t : Table) where
  abbrev Wants : ℕ → Task → Type 0
  Wants i a = IsWanted pid self me t i a

  -- What a pass over the slots up to n has found.
  unfoldable pub IsPass : ℕ → Bool → Pass → Type 0
  IsPass n flag (stopped_child a) =
      (i : ℕ) × (i ≤ n) × Wants i a × (a.state ≡ stopped) × (untraced ≡ true)
  IsPass n flag (reap i a) = (i ≤ n) × Wants i a × (a.state ≡ zombie)
  IsPass n flag (no_news out) =
      ((i : ℕ) (a : Task) → i ≤ n → Wants i a → IsIdle untraced a out)
      × (flag ≡ true → out ≡ true)
      × (out ≡ true → (flag ≡ true) ⊎ ((i : ℕ) × (a : Task) × (i ≤ n) × Wants i a × IsAlive a))

  IsPass-further :
      (n : ℕ) (flag flag' : Bool) (r : Pass)
      → ((a : Task)
          → Wants (suc n) a
          → (out : Bool) → (flag' ≡ true → out ≡ true)
          → IsIdle untraced a out)
      → (flag ≡ true → flag' ≡ true)
      → (flag' ≡ true → (flag ≡ true) ⊎ ((a : Task) × Wants (suc n) a × IsAlive a))
      → IsPass n flag' r
      → IsPass (suc n) flag r
  unfolding IsPass
  IsPass-further n flag flag' (stopped_child a) new up down (i, le, w, s, u) =
      (i, omega arith, w, s, u)
  IsPass-further n flag flag' (reap i a) new up down (le, w, z) = (omega arith, w, z)
  IsPass-further n flag flag' (no_news out) new up down (idle, on, off) = (
    λ i a le w. elim (ℕ_discrete i (suc n)) [
      | yes e ↦ new a (subst (λ j. Wants j a) e w) out on
      | no ne ↦ idle i a (omega arith) w
    ],
    λ h. on (up h),
    λ h. elim (off h) [
      | inr (i, a, le, w, l) ↦ inr (i, a, omega arith, w, l)
      | inl f ↦ elim (down f) [ inl g ↦ inl g | inr (a, w, l) ↦ inr (suc n, a, omega arith, w, l) ]
    ],
  )

  -- Nothing that is wanted stands in the slot.
  IsPass-skip :
      (n : ℕ) (flag : Bool) (r : Pass)
      → ((a : Task) → ¬ Wants (suc n) a)
      → IsPass n flag r
      → IsPass (suc n) flag r
  IsPass-skip n flag r nobody =
      IsPass-further n flag flag r (λ a w _ _. absurd (nobody a w)) (λ h. h) (λ h. inl h)

  child-wanted :
      (i : ℕ) (a : Task)
      → t i ≡ some a
      → 0 < i
      → ¬ (i ≡ self)
      → is_child pid me a ≡ true
      → Wants i a
  unfolding is_child
  child-wanted i a e lo ne h = record {
    slot = e;
    low = lo;
    other = ne;
    father = eq_ℤ→eq a.father me.pid (ground arith);
    selected = selected→Selected pid me a (ground arith);
  }

  wanted-child : (i : ℕ) (a b : Task) → t i ≡ some b → Wants i a → is_child pid me b ≡ true
  unfolding is_child
  wanted-child i a b e w =
      let same : a ≡ b = ground (arith, w.slot) in
      subst (λ x. is_child pid me x ≡ true) same
        (ground (arith, eq→eq_ℤ a.father me.pid w.father, Selected→selected pid me a w.selected))

  same_task : (i : ℕ) (a b : Task) → t i ≡ some b → Wants i a → a ≡ b
  same_task i a b e w = ground (arith, w.slot)

  -- A child that lives sets the flag.
  alive-IsPass :
      (n : ℕ) (flag : Bool) (a : Task) (r : Pass)
      → Wants (suc n) a
      → IsAlive a
      → IsPass n true r
      → IsPass (suc n) flag r
  alive-IsPass n flag a r w l p =
      IsPass-further n flag true r
        (λ b v out on.
          subst (λ x. IsIdle untraced b x) (sym (on refl))
            (subst (λ x. IsIdle untraced x true) (sym (same_task (suc n) b a w.slot v))
              (l.0, λ h. absurd (l.1 h))))
        (λ _. refl) (λ _. inr (a, w, l)) p

  -- A child in slot n + 1, by its state.
  on_child-IsPass :
      (n : ℕ) (flag : Bool) (a : Task) (same flagged : Pass)
      → Wants (suc n) a
      → IsPass n flag same
      → IsPass n true flagged
      → (st : TaskState) → a.state ≡ st
      → IsPass (suc n) flag (on_child untraced (suc n) a same flagged st)
  unfolding IsPass
  on_child-IsPass n flag a same flagged w p q zombie e = (omega arith, w, e)
  on_child-IsPass n flag a same flagged w p q running e =
      alive-IsPass n flag a flagged w (λ h. absurd (ground arith), λ h. absurd (ground arith)) q
  on_child-IsPass n flag a same flagged w p q interruptible e =
      alive-IsPass n flag a flagged w (λ h. absurd (ground arith), λ h. absurd (ground arith)) q
  on_child-IsPass n flag a same flagged w p q uninterruptible e =
      alive-IsPass n flag a flagged w (λ h. absurd (ground arith), λ h. absurd (ground arith)) q
  on_child-IsPass n flag a same flagged w p q stopped e = elim (Bool-cases untraced) [
    | inl u ↦
        subst (IsPass (suc n) flag) (sym (if-true untraced (stopped_child a) same u))
          (suc n, omega arith, w, e, u)
    | inr u ↦ subst (IsPass (suc n) flag) (sym (if-false untraced (stopped_child a) same u)) (
        IsPass-further n flag flag same
          (λ b v out on.
            subst (λ x. IsIdle untraced x out) (sym (same_task (suc n) b a w.slot v))
              (stopped-IsIdle a out e u))
          (λ h. h) (λ h. inl h) p)
  ]

  pub wait_pass-IsPass :
      (n : ℕ) (flag : Bool) → IsPass n flag (wait_pass n untraced pid self me t flag)
  unfolding wait_pass IsPass
  wait_pass-IsPass zero flag = (λ i a le w. absurd (omega (arith, w.low)), λ h. h, λ h. inl h)
  wait_pass-IsPass (suc n) flag =
      let same = wait_pass n untraced pid self me t flag in
      let flagged = wait_pass n untraced pid self me t true in
      let p = wait_pass-IsPass n flag in
      elim (Option-cases (t (suc n))) [
        | inl e ↦
            subst (IsPass (suc n) flag) (sym (rw (wait_pass, e) refl))
              (IsPass-skip n flag same (λ a w. absurd (ground (arith, w.slot))) p)
        | inr (b, e) ↦ elim (Bool-cases (suc n == self)) [
          | inl s ↦
              subst (IsPass (suc n) flag) (sym (rw (wait_pass, e, s) refl))
                (IsPass-skip n flag same (λ a w. w.other (ground arith)) p)
          | inr s ↦ elim (Bool-cases (is_child pid me b)) [
            | inr c ↦ subst (IsPass (suc n) flag) (sym (rw (wait_pass, e, s, c) refl)) (
                IsPass-skip n flag same
                  (λ a w. absurd (ground (arith, wanted-child (suc n) a b e w))) p)
            | inl c ↦ subst (IsPass (suc n) flag) (sym (rw (wait_pass, e, s, c) refl)) (
                on_child-IsPass n flag b same flagged
                  (child-wanted (suc n) b e (omega arith) (ground arith) c) p
                  (wait_pass-IsPass n true) b.state refl)
          ]
        ]
      ]
