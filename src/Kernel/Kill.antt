-- ===== src/Kernel/Kill.antt =====
-- kernel/exit.c: sending signals, and leaving the table of tasks.
pub mod Delivery
use linux_0_11_notes.Prelude.{
  Bool, Option, Outcome, done, eq_ℤ, err, false, if◌then◌else◌, leb, ltb, ltb_ℤ, negsuc, none,
  panicked, pos, pos_part, some, suc, true, update, with_bit, zero, ℕ, ℤ, ◌&&◌, ◌+◌, ◌-ℤ◌, ◌-◌,
  ◌==◌, ◌||◌,
}
use linux_0_11_notes.Kernel.Sys.{eperm}
use linux_0_11_notes.Kernel.Task.{
  Table, Task, holds, last_slot, map_slots, nr_tasks, sigchld_bit, sighup_bit,
}

abbrev pub einval : ℕ
einval = 22

-- `release`: task[i] for 0 < i is emptied; what is not there is a panic.
unfoldable pub release : Option ℕ → Table → Outcome Table
release none t = done t
release (some i) t =
    if ltb 0 i && leb i last_slot && holds (λ _. true) (t i)
    then done (update t i none)
    else panicked

-- `sig < 1 || sig > 32`.
abbrev pub bad_signal : ℤ → Bool
bad_signal sig = pos_part sig == 0 || ltb 32 (pos_part sig)

-- `p->signal |= 1 << (sig - 1)`.
abbrev pub signalled : ℤ → Task → Task
signalled sig a = record a { signal = with_bit a.signal (pos_part sig - 1) }

-- `suser()` and the comparison of effective users.
abbrev pub may_signal : Bool → Task → Task → Bool
may_signal priv current a = priv || current.euid == a.euid || current.euid == 0

-- The return value, and the slot afterwards.
unfoldable pub send_sig : ℤ → Bool → Task → Option Task → ℤ × Option Task
send_sig sig priv current none = (err einval, none)
send_sig sig priv current (some a) =
    if bad_signal sig
    then (err einval, some a)
    else if may_signal priv current a
    then (pos 0, some (signalled sig a))
    else (err eperm, some a)

-- `while (--p > &FIRST_TASK) if (wanted) { err = send_sig(...); if (err) retval = err; }` from slot
-- n down. The table is changed slot by slot; `current` is read at the start, since none of its
-- fields that are read is changed.
unfoldable pub kill_slots : ℕ → (Option Task → Bool) → ℤ → Bool → Task → ℤ × Table → ℤ × Table
unfolding send_sig
kill_slots zero wanted sig priv current r = r
kill_slots (suc n) wanted sig priv current (retval, t) =
    let (e, a) = send_sig sig priv current (t (suc n)) in
    kill_slots n wanted sig priv current (
      if wanted (t (suc n))
      then (if eq_ℤ e (pos 0) then retval else e, update t (suc n) a)
      else (retval, t))

-- Which slots a pid stands for, and whether the permission is waived.
unfoldable pub kill_target : ℤ → Task → (Option Task → Bool) × Bool
kill_target pid current =
    if eq_ℤ pid (pos 0)
    then ((λ o. holds (λ a. eq_ℤ a.pgrp current.pid) o), true)
    else if ltb_ℤ (pos 0) pid
    then ((λ o. holds (λ a. eq_ℤ a.pid pid) o), false)
    else if eq_ℤ pid (negsuc 0)
    then ((λ _. true), false)
    else ((λ o. holds (λ a. eq_ℤ a.pgrp (pos 0 -ℤ pid)) o), false)

unfoldable pub sys_kill : ℤ → ℤ → Task → Table → ℤ × Table
unfolding kill_slots kill_target
sys_kill pid sig current t =
    let target = kill_target pid current in
    kill_slots last_slot target.0 sig target.1 current (pos 0, t)

-- SIGHUP for a task of the session of `current`.
abbrev pub in_session : Task → Task → Task
in_session current a =
    if eq_ℤ a.session current.session then record a { signal = with_bit a.signal sighup_bit } else a

-- `kill_session`, for the leader of a session that ends.
unfoldable pub kill_session : Task → Table → Table
unfolding map_slots
kill_session current t = map_slots last_slot (in_session current) t

-- `tell_father` from slot i on; `none` means that no father was found, and the caller is released.
unfoldable pub tell_from : ℕ → ℕ → ℤ → Table → Option Table
tell_from zero i pid t = none
tell_from (suc n) i pid t =
    let rest = tell_from n (i + 1) pid t in
    elim (t i) [
      | none ↦ rest
      | some a ↦
          if eq_ℤ a.pid pid
          then some (update t i (some (record a { signal = with_bit a.signal sigchld_bit })))
          else rest
    ]

unfoldable pub tell_father : ℤ → Table → Option Table
unfolding tell_from
tell_father pid t =
    let found = tell_from nr_tasks 0 pid t in if eq_ℤ pid (pos 0) then none else found
