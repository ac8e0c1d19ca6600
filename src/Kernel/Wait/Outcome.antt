-- ===== src/Kernel/Wait/Outcome.antt =====
-- What one pass of `waitpid` of kernel/exit.c comes to.
use linux_0_11_notes.Prelude.{
  Bool, arith, false, if◌then◌else◌, inl, inr, negsuc, none, pos, refl, some, true, update, ℕ, ℤ,
  ◌+◌, ◌<◌, ◌≡◌, ◌⊎◌,
}
use linux_0_11_notes.Kernel.Task.{Task, interruptible, last_slot, nr_tasks, stopped, zombie}
use linux_0_11_notes.Kernel.Wait.{
  sleeps, Family, Pass, Waited, after_pass, no_news, reap, reap_child, returned, stopped_child,
  waitpid_once,
}
use linux_0_11_notes.Kernel.Wait.Children.{IsAlive, IsIdle, IsPass, IsWanted, wait_pass-IsPass}

-- What `waitpid` comes to: a zombie in slot i is reported, its times are added up, and its slot is empty.
record IsReaped (pid : ℤ) (f : Family) (i : ℕ) (a : Task) (r : Waited) : Type 0 where
  low : i < nr_tasks
  wanted : IsWanted pid f.self f.me f.task i a
  is_zombie : a.state ≡ zombie
  value :
      r
      ≡ returned a.pid (some a.exit_code) (record f {
        task = update f.task i none;
        me = record f.me { cutime = f.me.cutime + a.utime; cstime = f.me.cstime + a.stime };
      })

-- A stopped child is reported, which was asked for, and stays.
record IsStopped (untraced : Bool) (pid : ℤ) (f : Family) (i : ℕ) (a : Task) (r : Waited)
    : Type 0 where
  low : i < nr_tasks
  wanted : IsWanted pid f.self f.me f.task i a
  is_stopped : a.state ≡ stopped
  asked : untraced ≡ true
  value : r ≡ returned a.pid (some (pos 127)) f

-- There is no news, since each child that is wanted is idle: -ECHILD if none of them lives, else 0 or
-- sleep.
record IsWaiting (untraced nohang : Bool) (pid : ℤ) (f : Family) (lives : Bool) (r : Waited)
    : Type 0 where
  idle :
      (i : ℕ) (a : Task)
      → i < nr_tasks
      → IsWanted pid f.self f.me f.task i a
      → IsIdle untraced a lives
  some_alive :
      lives ≡ true
      → (i : ℕ) × (a : Task) × (i < nr_tasks) × IsWanted pid f.self f.me f.task i a × IsAlive a
  value : r ≡ (
      if lives
      then if nohang
        then returned (pos 0) none f
        else sleeps (record f { me = record f.me { state = interruptible } })
      else returned (negsuc 9) none f)

pub IsWaited : Bool → Bool → ℤ → Family → Waited → Type 0
IsWaited untraced nohang pid f r =
    ((i : ℕ) × (a : Task) × IsReaped pid f i a r)
    ⊎ (((i : ℕ) × (a : Task) × IsStopped untraced pid f i a r)
        ⊎ ((lives : Bool) × IsWaiting untraced nohang pid f lives r))

after_pass-IsWaited :
    (untraced nohang : Bool) (pid : ℤ) (f : Family) (r : Pass)
    → IsPass untraced pid f.self f.me f.task last_slot false r
    → IsWaited untraced nohang pid f (after_pass nohang r f)
unfolding IsPass reap_child IsWaited
after_pass-IsWaited untraced nohang pid f (stopped_child a) (i, le, w, s, u) =
    inr (
      inl (i, a, record { low = omega arith; wanted = w; is_stopped = s; asked = u; value = refl }))
after_pass-IsWaited untraced nohang pid f (reap i a) (le, w, z) =
    inl (i, a, record { low = omega arith; wanted = w; is_zombie = z; value = refl })
after_pass-IsWaited untraced nohang pid f (no_news false) (idle, on, off) = inr (
    inr (
      false,
      record {
        idle = λ i a lt w. idle i a (omega arith) w;
        some_alive = λ h. absurd (ground arith);
        value = refl;
      },
    ))
after_pass-IsWaited untraced nohang pid f (no_news true) (idle, on, off) = inr (
    inr (
      true,
      record {
        idle = λ i a lt w. idle i a (omega arith) w;
        some_alive = λ h. elim (off refl) [
          | inl g ↦ absurd (ground arith)
          | inr (i, a, le, w, l) ↦ (i, a, omega arith, w, l)
        ];
        value = refl;
      },
    ))

-- One pass of `waitpid` over the table ends in one of these ways. A child is wanted if it stands in a
-- slot from 1 to 63 other than the caller's, its father is the caller, and the pid selects it: (1) a
-- wanted zombie is reported with its exit code, its slot is emptied, and its times are added to the
-- caller's; (2) a wanted stopped child is reported with status 127, if WUNTRACED is given; (3) no wanted
-- child is a zombie, and none is stopped if WUNTRACED is given: then the value is -ECHILD (-10) if every
-- wanted child is stopped, or there is none; and if one of them neither is a zombie nor is stopped, the
-- value is 0 with WNOHANG, and without it the caller goes to sleep.
pub waitpid_once-IsWaited :
    (untraced nohang : Bool) (pid : ℤ) (f : Family)
    → IsWaited untraced nohang pid f (waitpid_once untraced nohang pid f)
unfolding waitpid_once
waitpid_once-IsWaited untraced nohang pid f =
    after_pass-IsWaited untraced nohang pid f _
      (wait_pass-IsPass untraced pid f.self f.me f.task last_slot false)
