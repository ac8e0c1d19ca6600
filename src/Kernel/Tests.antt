-- ===== src/Kernel/Tests.antt =====
-- Inputs for the theorems on the rest of kernel/.
use linux_0_11_notes.Prelude.{
  List, [], arith, done, false, if◌then◌else◌, ltb, negsuc, no_bits, none, pos, refl, some, update,
  with_bit, ◌%◌, ◌^◌, ◌∷◌, ◌≡◌,
}
use linux_0_11_notes.Kernel.Format.{as_int}
use linux_0_11_notes.Kernel.Kill.{sys_kill}
use linux_0_11_notes.Kernel.Kill.Delivery.{IsKilled, kill-slot}
use linux_0_11_notes.Kernel.Mktime.{Tm, kernel_mktime}
use linux_0_11_notes.Kernel.Mktime.Calendar.{mktime_lem, seconds}
use linux_0_11_notes.Kernel.Sched.Tests.{table, worker}
use linux_0_11_notes.Kernel.Signal.{Regs, do_signal}
use linux_0_11_notes.Kernel.Signal.Handlers.{IsFrame, do_signal-IsFrame}
use linux_0_11_notes.Kernel.Sleep.{Sleepers, wake_up}
use linux_0_11_notes.Kernel.Sleep.Chain.{All, join_all, leave_all, runs, wake_up-leave_all}
use linux_0_11_notes.Kernel.Sys.Ids.{SmallIds}
use linux_0_11_notes.Kernel.Task.{SigAction, Task, running, zombie}
use linux_0_11_notes.Kernel.Tick.{Floppy}
use linux_0_11_notes.Kernel.Timer.{Timer, add_timer, timer}
use linux_0_11_notes.Kernel.Timer.Expiry.{
  add_timer-due, due_from, expiries, insert_event, run_ticks, run_ticks-due,
}
use linux_0_11_notes.Kernel.Wait.{Family, waitpid_once}
use linux_0_11_notes.Kernel.Wait.Outcome.{IsWaited, waitpid_once-IsWaited}

abbrev sleepers : Sleepers
sleepers = record { task = table; current = 1; queue = λ _. none }

wake_up-leave_all_example :
    let (s1, st) = join_all 5 (1 ∷ 2 ∷ []) (sleepers, []) in
    (s' : Sleepers) × (leave_all st (wake_up (some 5) s1) ≡ some s')
    × All (runs s'.task) (1 ∷ 2 ∷ [])
    × (s'.queue 5 ≡ none)
wake_up-leave_all_example = wake_up-leave_all 5 (1 ∷ 2 ∷ []) sleepers refl (refl, (refl, tt))

abbrev timers : List Timer
timers = timer 3 7 ∷ timer 4 8 ∷ []

run_ticks-due_example : run_ticks 9 timers ≡ due_from 10 9 (expiries 10 timers)
run_ticks-due_example = run_ticks-due 10 9 timers (omega arith)

add_timer-due_example :
    (us : List Timer) × (add_timer (pos 5) (some 9) timers
      ≡ done (record { called = none; timers = us }))
    × (run_ticks 20 us ≡ due_from 0 20 (insert_event 0 5 9 (expiries 0 timers)))
add_timer-due_example = add_timer-due 5 9 timers 20 (omega arith) (omega arith) (omega arith)

abbrev user : Task
user = record (worker 2) { gid = 100; egid = 100; sgid = 200 }

user-SmallIds : SmallIds user
user-SmallIds = (omega arith, omega arith, omega arith, omega arith, omega arith)

-- 29 February 2000, noon.
abbrev leap_day : Tm
leap_day = record { sec = 1; minute = 2; hour = 12; mday = 29; mon = 1; year = 100 }

mktime_lem_example : kernel_mktime leap_day ≡ (
    if ltb (seconds leap_day) (2 ^ 31)
    then pos (seconds leap_day)
    else as_int (seconds leap_day % 2 ^ 32))
mktime_lem_example = mktime_lem leap_day (omega arith) (omega arith) (omega arith) (omega arith)

-- 29 February 2000 at 12:02:01, and 20 January 2038, which is past the last second of a long.
leap_day_secs : kernel_mktime leap_day ≡ pos 951825721
unfolding kernel_mktime
leap_day_secs = refl

overflows : kernel_mktime (record leap_day { mday = 20; mon = 0; year = 138 }) ≡ negsuc 2147365574
unfolding kernel_mktime
overflows = refl

-- A handler at address 4096 for signal 2, whose mask blocks SIGKILL.
abbrev action : SigAction
action = record {
  handler = 4096;
  mask = with_bit no_bits 8;
  flags = with_bit no_bits 31;
  restorer = 8192;
}

abbrev catcher : Task
catcher = record user { sigaction = update user.sigaction 1 action }

abbrev regs : Regs
regs = record { eax = 1; ecx = 2; edx = 3; eip = 100; eflags = 0; esp = 5000 }

do_signal-IsFrame_example : IsFrame 2 regs catcher (do_signal 2 regs catcher)
do_signal-IsFrame_example =
    do_signal-IsFrame 2 regs catcher (omega arith) (omega arith) (omega arith)

kill-slot_example :
    IsKilled (pos 2) (pos 15) user (table 2) ((sys_kill (pos 2) (pos 15) user table).1 2)
kill-slot_example = kill-slot (pos 2) (pos 15) user table 2 (omega arith) (omega arith)

abbrev child : Task
child = record (worker 7) { state = zombie; exit_code = pos 256; utime = 5 }

abbrev family : Family
family = record { task = update (λ _. none) 4 (some child); self = 1; me = worker 1 }

waitpid_once-IsWaited_example :
    IsWaited false false (negsuc 0) family (waitpid_once false false (negsuc 0) family)
waitpid_once-IsWaited_example = waitpid_once-IsWaited false false (negsuc 0) family

abbrev busy : Family
busy = record family { task = update (λ _. none) 4 (some (record child { state = running })) }

abbrev floppy : Floppy
floppy = record { mon_timer = λ _. 0; moff_timer = λ _. 300; dor = 0x1c; ports = [] }
