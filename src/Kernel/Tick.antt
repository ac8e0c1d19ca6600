-- ===== src/Kernel/Tick.antt =====
-- kernel/sched.c: the timer interrupt, and the motors of the floppy drives.
pub mod Motors
use Prim.Native.Nat.{bit_and, bit_or, bit_xor}
use linux_0_11_notes.Prelude.{
  Bool, List, Option, Outcome, done, false, if◌then◌else◌, leb, ltb, not, panicked, some, suc,
  update, zero, ℕ, ◌%◌, ◌*◌, ◌++◌, ◌+◌, ◌-◌, ◌/◌, ◌==◌, ◌^◌, ◌∷◌,
}
use linux_0_11_notes.Kernel.Sched.{Machine, schedule}
use linux_0_11_notes.Kernel.Sleep.{Sleepers, wake_up}
use linux_0_11_notes.Kernel.Task.{Task, holds, hz, map_option}
use linux_0_11_notes.Kernel.Timer.{Timer, tick_timers, timer}
use linux_0_11_notes.Kernel.Wait.{selected}

-- `dor` is `current_DOR`, a byte; `ports` lists what was written to the port FD_DOR, the last first.
pub record Floppy : Type 0 where
  pub mon_timer : ℕ → ℕ
  pub moff_timer : ℕ → ℕ
  pub dor : ℕ
  pub ports : List ℕ

-- `0x10 << nr` in a byte.
abbrev pub motor_bit : ℕ → ℕ
motor_bit nr = 16 * 2 ^ nr % 256

abbrev pub has_motor : ℕ → Floppy → Bool
has_motor nr f = f.dor / 16 / 2 ^ nr % 2 == 1

-- The new value of `current_DOR`. `selected` says that another drive is selected.
abbrev pub wanted_dor : ℕ → Bool → ℕ → ℕ
wanted_dor nr selected dor =
    let mask : ℕ = bit_or (motor_bit nr) dor in
    if selected then mask else bit_or (bit_and mask 0xfc) nr

-- The ticks until the motor of drive nr is up to speed.
unfoldable pub ticks_to_floppy_on : ℕ → Bool → Floppy → Outcome (ℕ × Floppy)
ticks_to_floppy_on nr selected f =
    let mask : ℕ = wanted_dor nr selected f.dor in
    let timer : ℕ =
      if leb 16 (bit_xor mask f.dor)
      then hz / 2
      else if ltb (f.mon_timer nr) 2
      then 2
      else f.mon_timer nr in
    let f' : Floppy = record f { moff_timer = update f.moff_timer nr 10000 } in
    if ltb 3 nr
    then panicked
    else if mask == f.dor
    then done (f.mon_timer nr, f')
    else done (
      timer,
      record f' { mon_timer = update f.mon_timer nr timer; dor = mask; ports = mask ∷ f.ports },
    )

abbrev pub floppy_off : ℕ → Floppy → Floppy
floppy_off nr f = record f { moff_timer = update f.moff_timer nr (3 * hz) }

-- One turn of `do_floppy_timer`: whether to wake those who wait for the motor.
unfoldable pub tick_motor : ℕ → Floppy → Bool × Floppy
tick_motor i f =
    let on : ℕ = f.mon_timer i in
    let off : ℕ = f.moff_timer i in
    let dor : ℕ = f.dor - motor_bit i in
    if not (has_motor i f)
    then (false, f)
    else if not (on == 0)
    then (on == 1, record f { mon_timer = update f.mon_timer i (on - 1) })
    else if off == 0
    then (false, record f { dor = dor; ports = dor ∷ f.ports })
    else (false, record f { moff_timer = update f.moff_timer i (off - 1) })

-- Drives i and up, n of them; `wait i` is the address of `wait_motor[i]`.
unfoldable pub tick_motors : ℕ → ℕ → (ℕ → ℕ) → Floppy × Sleepers → Floppy × Sleepers
unfolding tick_motor wake_up
tick_motors zero i wait (f, s) = (f, s)
tick_motors (suc n) i wait (f, s) =
    let (up, f') = tick_motor i f in
    tick_motors n (i + 1) wait (f', if up then wake_up (some (wait i)) s else s)

unfoldable pub do_floppy_timer : (ℕ → ℕ) → Floppy × Sleepers → Floppy × Sleepers
unfolding tick_motors
do_floppy_timer wait x = tick_motors 4 0 wait x

-- What the interrupt finds. `beeps_stopped` counts the calls of `sysbeepstop`, and `called` lists the
-- functions that timers call, the first first; what they do is not modelled.
pub record Clock : Type 0 where
  pub sleepers : Sleepers
  pub jiffies : ℕ
  pub timers : List Timer
  pub floppy : Floppy
  pub beepcount : ℕ
  pub beeps_stopped : ℕ
  pub called : List ℕ

abbrev pub change_current : (Task → Task) → Clock → Clock
change_current g c =
    let s : Sleepers = c.sleepers in
    record c {
      sleepers = record s { task = update s.task s.current (map_option g (s.task s.current)) };
    }

abbrev pub count_beep : Clock → Clock
count_beep c = if c.beepcount == 0 then c else record c {
  beepcount = c.beepcount - 1;
  beeps_stopped = c.beeps_stopped + (if c.beepcount == 1 then 1 else 0);
}

-- `utime` counts the ticks outside the kernel, at a privilege `cpl` that is not 0.
abbrev pub count_time : Bool → Task → Task
count_time user t =
    if user then record t { utime = t.utime + 1 } else record t { stime = t.stime + 1 }

abbrev pub count_slice : Task → Task
count_slice t = record t { counter = t.counter - 1 }

-- Everything up to the counter: beep, time, timers and motors.
unfoldable pub tick : (ℕ → ℕ) → Bool → Clock → Clock
unfolding tick_timers do_floppy_timer
tick wait user c =
    let c1 : Clock = change_current (count_time user) (count_beep c) in
    let (fns, ts) = tick_timers c1.timers in
    let (f, s) = do_floppy_timer wait (c1.floppy, c1.sleepers) in
    let c2 : Clock = record c1 { timers = ts; called = c1.called ++ fns } in
    if leb 16 c1.floppy.dor then record c2 { floppy = f; sleepers = s } else c2

abbrev pub has_slice : Option Task → Bool
has_slice o = holds (λ a. ltb 0 a.counter) o

-- `schedule` acts on the table; the queues stay.
abbrev pub reschedule : Clock → Option Clock
reschedule c =
    let s : Sleepers = c.sleepers in
    map_option
      (λ (m : Machine). record c { sleepers = record s { task = m.task; current = m.current } })
      (schedule (record { task = s.task; current = s.current; jiffies = c.jiffies }))

-- A task in the kernel is not interrupted for another. `none` is a search for the next task that
-- does not end.
unfoldable pub do_timer : (ℕ → ℕ) → Bool → Clock → Option Clock
unfolding tick schedule
do_timer wait user c =
    let c' : Clock = change_current count_slice (tick wait user c) in
    if has_slice ((c'.sleepers).task (c'.sleepers).current)
    then some c'
    else if not user
    then some c'
    else reschedule c'
