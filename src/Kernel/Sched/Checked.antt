-- ===== src/Kernel/Sched/Checked.antt =====
-- The first loop of `schedule`: the alarm of a task and its signals.
use linux_0_11_notes.Prelude.{
  Bits, Bool, Bool-cases, any_below-intro, any_below-true, ap, arith, false, if-false, if-true, inl,
  inr, ltb, not, refl, subst, sym, true, update, ℕ, ℕ_discrete, ◌&&◌, ◌<◌, ◌∙◌, ◌≡◌, ◌≤◌, ◌⊎◌,
}
use linux_0_11_notes.Kernel.Sched.{
  blockable, check_alarm, check_task, has_unblocked, wake_if_signalled,
}
use linux_0_11_notes.Kernel.Task.{
  Task, TaskState, interruptible, is_interruptible, running, stopped, uninterruptible, zombie,
}

-- A signal that is not blocked, or that cannot be: SIGKILL (bit 8) or SIGSTOP (bit 18).
pub record IsPending (a : Task) : Type 0 where
  bit : ℕ
  low : bit < 32
  sent : a.signal bit ≡ true
  heard : (a.blocked bit ≡ false) ⊎ ((bit ≡ 8) ⊎ (bit ≡ 18))

-- What the loop makes of a task: SIGALRM (bit 13) for an alarm that is over, and then an interruptible
-- task with a pending signal runs.
pub record IsChecked (now : ℕ) (a b : Task) : Type 0 where
  pub alarm :
      ((0 < a.alarm) × (a.alarm < now) × (b.alarm ≡ 0) × (b.signal ≡ update a.signal 13 true))
      ⊎ (((a.alarm ≡ 0) ⊎ (now ≤ a.alarm)) × (b.alarm ≡ a.alarm) × (b.signal ≡ a.signal))
  pub state :
      ((a.state ≡ interruptible) × IsPending b × (b.state ≡ running))
      ⊎ (¬ ((a.state ≡ interruptible) × IsPending b) × (b.state ≡ a.state))
  pub rest : b ≡ record a { state = b.state; signal = b.signal; alarm = b.alarm }

has_unblocked-IsPending : (a : Task) → has_unblocked a ≡ true → IsPending a
unfolding has_unblocked
has_unblocked-IsPending a h =
    let (k, lt, e) = any_below-true 32 (λ k. a.signal k && not (blockable k && a.blocked k)) h in
    record {
      bit = k;
      low = lt;
      sent = ground arith;
      heard = elim (Bool-cases (a.blocked k)) [
        | inr free ↦ inl free
        | inl blocked ↦ elim (ℕ_discrete k 8) [
          | yes kill ↦ inr (inl kill)
          | no ne ↦ inr (inr (ground arith))
        ]
      ];
    }

IsPending-has_unblocked : (a : Task) → IsPending a → has_unblocked a ≡ true
unfolding has_unblocked
IsPending-has_unblocked a p =
    any_below-intro 32 (λ k. a.signal k && not (blockable k && a.blocked k)) p.bit p.low
      (ground (arith, p.sent, p.heard))

-- Waking changes neither the signals nor what is blocked.
same-IsPending :
    (a b : Task) → b.signal ≡ a.signal → b.blocked ≡ a.blocked → IsPending a → IsPending b
same-IsPending a b e f p = record {
  bit = p.bit;
  low = p.low;
  sent = ap (λ (w : Bits). w p.bit) e ∙ p.sent;
  heard = elim p.heard [
    | inl free ↦ inl (ap (λ (w : Bits). w p.bit) f ∙ free)
    | inr other ↦ inr other
  ];
}

-- A task after the alarm.
abbrev rung : ℕ → Task → Task
rung now a = check_alarm now a

module _ (now : ℕ) (a : Task) where
  rung_lem :
      ((rung now a).state ≡ a.state)
      × ((rung now a).blocked ≡ a.blocked)
      × (rung now a ≡ record a {
        state = (rung now a).state;
        signal = (rung now a).signal;
        alarm = (rung now a).alarm;
      })
  unfolding check_alarm
  rung_lem = elim (Bool-cases (ltb 0 a.alarm && ltb a.alarm now)) [
    | inl e ↦ rw e (refl, refl, refl)
    | inr e ↦ rw e (refl, refl, refl)
  ]

  rung_alarm :
      ((0 < a.alarm)
        × (a.alarm < now)
        × ((rung now a).alarm ≡ 0)
        × ((rung now a).signal ≡ update a.signal 13 true))
      ⊎ (((a.alarm ≡ 0) ⊎ (now ≤ a.alarm))
          × ((rung now a).alarm ≡ a.alarm)
          × ((rung now a).signal ≡ a.signal))
  unfolding check_alarm
  rung_alarm = elim (Bool-cases (ltb 0 a.alarm && ltb a.alarm now)) [
    | inl e ↦ inl (ground arith, ground arith, rw e refl, rw e refl)
    | inr e ↦ inr (ground arith, rw e refl, rw e refl)
  ]

interruptible_lem : (st : TaskState) → is_interruptible st ≡ true → st ≡ interruptible
interruptible_lem interruptible h = refl
interruptible_lem running h = absurd (ground arith)
interruptible_lem uninterruptible h = absurd (ground arith)
interruptible_lem zombie h = absurd (ground arith)
interruptible_lem stopped h = absurd (ground arith)

abbrev wakes : Task → Bool
wakes b = has_unblocked b && is_interruptible b.state

woken : (b : Task) → wakes b ≡ true → wake_if_signalled b ≡ record b { state = running }
unfolding wake_if_signalled
woken b h = if-true (wakes b) _ b h

not_woken : (b : Task) → wakes b ≡ false → wake_if_signalled b ≡ b
unfolding wake_if_signalled
not_woken b h = if-false (wakes b) _ b h

pub check_task-IsChecked : (now : ℕ) (a : Task) → IsChecked now a (check_task now a)
unfolding check_task
check_task-IsChecked now a =
    let b : Task = rung now a in
    let (st, bl, shape) = rung_lem now a in
    elim (Bool-cases (wakes b)) [
      | inl h ↦ subst (IsChecked now a) (sym (woken b h)) (record {
        alarm = rung_alarm now a;
        state = inl (
          sym st ∙ interruptible_lem b.state (ground arith),
          same-IsPending b (record b { state = running }) refl refl
              (has_unblocked-IsPending b (ground arith)),
          refl,
        );
        rest = ap (λ (x : Task). record x { state = running }) shape;
      })
      | inr h ↦ subst (IsChecked now a) (sym (not_woken b h)) (record {
        alarm = rung_alarm now a;
        state = inr (
          λ k.
              absurd
                (ground (arith, IsPending-has_unblocked b k.1, ap is_interruptible (st ∙ k.0))),
          st,
        );
        rest = shape;
      })
    ]
