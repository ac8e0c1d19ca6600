-- ===== src/Kernel/Signal/Handlers.antt =====
-- SIGKILL cannot be caught, and what the frame of a handler holds.
use linux_0_11_notes.Prelude.{
  Bits, Bool, List, arith, false, get_elem?, length, refl, some, true, ℕ, ℤ, ◌*◌, ◌+◌, ◌-◌, ◌<◌,
  ◌^◌, ◌≡◌, ◌≤◌,
}
use linux_0_11_notes.Kernel.Signal.{
  Delivery, Regs, Word, bits, do_signal, handled, handler_regs, handler_task, num, sa_nomask,
  sa_oneshot, signal_frame, sys_sigaction, sys_signal, sys_ssetmask,
}
use linux_0_11_notes.Kernel.Task.{SigAction, Task, sigkill_bit}

-- The handler of SIGKILL is the default one.
abbrev pub KillIsDefault : Task → Type 0
KillIsDefault t = (t.sigaction sigkill_bit).handler ≡ 0

-- Neither `signal` nor `sigaction` gives SIGKILL a handler, and `ssetmask` does not block it.
kill_uncaught :
    (n : ℤ) (handler restorer : ℕ) (action : SigAction) (w : Bool) (mask : Bits) (t : Task)
    → KillIsDefault t
    → KillIsDefault (sys_signal n handler restorer t).1
      × KillIsDefault (sys_sigaction n action w t).1
      × ((sys_ssetmask mask t).1.blocked sigkill_bit ≡ false)
unfolding sys_signal sys_sigaction sys_ssetmask
kill_uncaught n handler restorer action w mask t h = ground arith

-- What a delivery to a handler leaves on the stack and in the registers.
pub record IsFrame (signr : ℕ) (r : Regs) (t : Task) (d : Delivery) : Type 0 where
  pub task : Task
  pub regs : Regs
  pub frame : List Word
  pub is_handled : d ≡ handled task regs frame
  pub lands : regs.eip ≡ (t.sigaction (signr - 1)).handler
  pub fits : regs.esp + 4 * length frame ≡ r.esp
  pub returns : get_elem? frame (length frame - 1) ≡ some (num r.eip)
  pub restores :
      (t.sigaction (signr - 1)).flags sa_nomask ≡ false → get_elem? frame 2 ≡ some (bits t.blocked)
  pub once :
      (t.sigaction (signr - 1)).flags sa_oneshot ≡ true → (task.sigaction (signr - 1)).handler ≡ 0

-- Where a signal has a handler, its delivery goes on in the handler; the stack grows by exactly the
-- frame, which ends with the old instruction pointer and, unless SA_NOMASK is set, holds the mask of
-- blocked signals. With SA_ONESHOT the handler is gone afterwards.
pub do_signal-IsFrame :
    (signr : ℕ) (r : Regs) (t : Task)
    → 1 < (t.sigaction (signr - 1)).handler
    → 32 ≤ r.esp
    → r.esp < 2 ^ 32
    → IsFrame signr r t (do_signal signr r t)
unfolding do_signal signal_frame
do_signal-IsFrame signr r t h lo hi = record {
  task = handler_task signr t;
  regs = handler_regs (t.sigaction (signr - 1)) r;
  frame = signal_frame signr (t.sigaction (signr - 1)) t.blocked r;
  is_handled = ground arith;
  lands = refl;
  fits = ground arith;
  returns = ground arith;
  restores = λ q. ground arith;
  once = λ q. ground arith;
}

-- While a handler runs whose mask holds SIGKILL, SIGKILL is blocked.
mask_blocks_kill :
    (signr : ℕ) (r r' : Regs) (t t' : Task) (f : List Word)
    → (t.sigaction (signr - 1)).mask sigkill_bit ≡ true
    → do_signal signr r t ≡ handled t' r' f
    → t'.blocked sigkill_bit ≡ true
unfolding do_signal
mask_blocks_kill signr r r' t t' f h e = ground arith
