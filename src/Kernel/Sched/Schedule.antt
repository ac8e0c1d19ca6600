-- ===== src/Kernel/Sched/Schedule.antt =====
-- `schedule`: which task it makes current, and what it does to the others.
use linux_0_11_notes.Prelude.{Option, none, some, true, ℕ, ◌+◌, ◌/◌, ◌<◌, ◌≡◌, ◌≤◌, ◌⊎◌}
use linux_0_11_notes.Kernel.Sched.{Machine, ends_search}
use linux_0_11_notes.Kernel.Sched.Checked.{IsChecked}
use linux_0_11_notes.Kernel.Sched.Search.{IsBest}
use linux_0_11_notes.Kernel.Task.{Task, last_slot}

-- A slot after the first loop of `schedule`, and perhaps after one recharge.
pub Serviced : ℕ → Option Task → Option Task → Type 0
Serviced now none new = new ≡ none
Serviced now (some a) new =
    (b : Task) × IsChecked now a b
    × ((new ≡ some b) ⊎ (new ≡ some (record b { counter = b.counter / 2 + b.priority })))

-- The machine after `schedule`: the current task is a best choice, with time left, or task 0 where
-- no other task is runnable.
pub record Scheduled (m m' : Machine) : Type 0 where
  pub c : Option ℕ
  pub best : IsBest m'.task 0 (record { c = c; next = m'.current })
  pub ready : ends_search c ≡ true
  pub serviced : (i : ℕ) → 0 < i → i ≤ last_slot → Serviced m.jiffies (m.task i) (m'.task i)
  pub clock : m'.jiffies ≡ m.jiffies
