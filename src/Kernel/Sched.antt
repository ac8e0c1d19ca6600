-- ===== src/Kernel/Sched.antt =====
-- kernel/sched.c: the scheduler, and sleeping and waking.
pub mod Slots
pub mod Search
pub mod Checked
pub mod Schedule
pub mod Tests
use linux_0_11_notes.Prelude.{
  Bits, Bool, Option, any_below, if◌then◌else◌, ltb, none, not, some, suc, true, with_bit, zero, ℕ,
  ◌&&◌, ◌+◌, ◌/◌, ◌==◌, ◌||◌,
}
use linux_0_11_notes.Kernel.Task.{
  Table, Task, is_interruptible, is_running, last_slot, map_option, map_slots, running, sigalrm_bit,
  sigkill_bit, sigstop_bit,
}

-- `_BLOCKABLE`: every signal but SIGKILL and SIGSTOP.
abbrev pub blockable : Bits
blockable k = not (k == sigkill_bit || k == sigstop_bit)

-- `signal & ~(_BLOCKABLE & blocked)` is not zero.
unfoldable pub has_unblocked : Task → Bool
unfolding any_below
has_unblocked t = any_below 32 (λ k. t.signal k && not (blockable k && t.blocked k))

-- The first loop of `schedule`, for one task: the alarm, then the wakeup by a signal.
unfoldable pub check_alarm : ℕ → Task → Task
check_alarm jiffies t =
    if ltb 0 t.alarm && ltb t.alarm jiffies
    then record t { signal = with_bit t.signal sigalrm_bit; alarm = 0 }
    else t

unfoldable pub wake_if_signalled : Task → Task
wake_if_signalled t =
    if has_unblocked t && is_interruptible t.state then record t { state = running } else t

unfoldable pub check_task : ℕ → Task → Task
unfolding check_alarm wake_if_signalled
check_task jiffies t = wake_if_signalled (check_alarm jiffies t)

-- The choice so far: the largest counter seen (`none` is the -1 that the search starts from) and
-- its slot.
pub record Choice : Type 0 where
  pub c : Option ℕ
  pub next : ℕ

abbrev pub above : ℕ → Option ℕ → Bool
above n none = true
above n (some c) = ltb c n

unfoldable pub consider : Option Task → ℕ → Choice → Choice
consider none i best = best
consider (some t) i best =
    if is_running t.state && above t.counter best.c
    then record { c = some t.counter; next = i }
    else best

-- `while (--i) ...`, from slot n down to slot 1.
unfoldable pub scan : ℕ → Table → Choice → Choice
unfolding consider
scan zero t best = best
scan (suc n) t best = scan n t (consider (t (suc n)) (suc n) best)

unfoldable pub choose : Table → Choice
unfolding scan
choose t = scan last_slot t (record { c = none; next = 0 })

-- `counter = (counter >> 1) + priority`.
unfoldable pub recharge : Task → Task
recharge t = record t { counter = t.counter / 2 + t.priority }

-- `if (c) break`: -1 counts as true.
abbrev pub ends_search : Option ℕ → Bool
ends_search none = true
ends_search (some c) = ltb 0 c

-- `while (1)` with fuel: the table at the end and the slot for `switch_to`.
unfoldable pub search_loop : ℕ → Table → Option (Table × ℕ)
unfolding choose recharge map_slots
search_loop zero t = none
search_loop (suc fuel) t =
    let rest = search_loop fuel (map_slots last_slot recharge t) in
    if ends_search (choose t).c then some (t, (choose t).next) else rest

pub record Machine : Type 0 where
  pub task : Table
  pub current : ℕ
  pub jiffies : ℕ

-- Two rounds of the search are enough (module Sched.Search); `switch_to` makes the chosen task
-- current.
unfoldable pub schedule : Machine → Option Machine
unfolding search_loop check_task map_slots
schedule m =
    map_option (λ (t, next). record m { task = t; current = next })
      (search_loop 2 (map_slots last_slot (check_task m.jiffies) m.task))
