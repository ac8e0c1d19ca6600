-- ===== src/Kernel/Signal.antt =====
-- kernel/signal.c: signal masks, handlers, and the call of a handler.
pub mod Handlers
use linux_0_11_notes.Prelude.{
  Bits, Bool, List, Option, [], err, if◌then◌else◌, ltb, no_bits, none, pos, pos_part, some, update,
  with_bit, without_bit, ℕ, ℤ, ◌%◌, ◌*◌, ◌++◌, ◌+◌, ◌-◌, ◌==◌, ◌^◌, ◌||◌, ◌∷◌,
}
use linux_0_11_notes.Kernel.Task.{SigAction, Task, sigkill_bit}

abbrev pub sa_nomask : ℕ
sa_nomask = 30

abbrev pub sa_oneshot : ℕ
sa_oneshot = 31

abbrev pub sigkill : ℕ
sigkill = 9

abbrev pub sigchld : ℕ
sigchld = 17

unfoldable pub sys_sgetmask : Task → Bits
sys_sgetmask t = t.blocked

-- The old mask, and the task with the new one less SIGKILL.
unfoldable pub sys_ssetmask : Bits → Task → Bits × Task
sys_ssetmask newmask t = (t.blocked, record t { blocked = without_bit newmask sigkill_bit })

-- `signum < 1 || signum > 32 || signum == SIGKILL`.
abbrev pub bad_signum : ℤ → Bool
bad_signum n = pos_part n == 0 || ltb 32 (pos_part n) || pos_part n == sigkill

-- The returned address is that of the old handler.
unfoldable pub sys_signal : ℤ → ℕ → ℕ → Task → ℤ × Task
sys_signal signum handler restorer t = if bad_signum signum then (err 1, t) else (
  pos (t.sigaction (pos_part signum - 1)).handler,
  record t {
    sigaction = update t.sigaction (pos_part signum - 1) (record {
      handler = handler;
      mask = no_bits;
      flags = with_bit (with_bit no_bits sa_oneshot) sa_nomask;
      restorer = restorer;
    });
  },
)

-- `action` is what `get_new` reads from the caller's memory. The third component is what `save_old`
-- writes there if the caller asks for it.
unfoldable pub sys_sigaction : ℤ → SigAction → Bool → Task → ℤ × Task × Option SigAction
sys_sigaction signum action wants_old t = if bad_signum signum then (err 1, t, none) else (
  pos 0,
  record t {
    sigaction = update t.sigaction (pos_part signum - 1) (record action {
      mask = if action.flags sa_nomask then no_bits else with_bit action.mask (pos_part signum - 1);
    });
  },
  if wants_old then some (t.sigaction (pos_part signum - 1)) else none,
)

-- The registers that `do_signal` is passed.
pub record Regs : Type 0 where
  pub eax : ℕ
  pub ecx : ℕ
  pub edx : ℕ
  pub eip : ℕ
  pub eflags : ℕ
  pub esp : ℕ

-- A word on the user's stack.
pub data Word : Type 0 where
  num : ℕ → Word
  bits : Bits → Word

-- `exits` is the call of `do_exit` with the bit of the signal. `frame` is what is written from the
-- new `esp` upwards.
pub data Delivery : Type 0 where
  ignored : Delivery
  exits : ℕ → Delivery
  handled : Task → Regs → List Word → Delivery

abbrev pub pushed : SigAction → Bits → List Word
pushed sa blocked = if sa.flags sa_nomask then [] else bits blocked ∷ []

unfoldable pub signal_frame : ℕ → SigAction → Bits → Regs → List Word
signal_frame signr sa blocked r =
    num sa.restorer
    ∷ num signr
    ∷ (pushed sa blocked ++ (num r.eax ∷ num r.ecx ∷ num r.edx ∷ num r.eflags ∷ num r.eip ∷ []))

-- `if (sa->sa_flags & SA_ONESHOT) sa->sa_handler = NULL` and `current->blocked |= sa->sa_mask`.
unfoldable pub handler_task : ℕ → Task → Task
handler_task signr t =
    let sa : SigAction = t.sigaction (signr - 1) in
    record t {
      sigaction =
          update t.sigaction (signr - 1)
            (if sa.flags sa_oneshot then record sa { handler = 0 } else sa);
      blocked = λ k. t.blocked k || sa.mask k;
    }

-- `eip = sa_handler` and `esp -= longs`, a pointer to longs.
unfoldable pub handler_regs : SigAction → Regs → Regs
handler_regs sa r =
    let longs : ℕ = if sa.flags sa_nomask then 7 else 8 in
    record r { eip = sa.handler; esp = (r.esp + 2 ^ 32 - longs * 4) % 2 ^ 32 }

unfoldable pub do_signal : ℕ → Regs → Task → Delivery
unfolding signal_frame handler_task handler_regs
do_signal signr r t =
    let sa : SigAction = t.sigaction (signr - 1) in
    if sa.handler == 1
    then ignored
    else if sa.handler == 0
    then if signr == sigchld then ignored else exits (signr - 1)
    else handled (handler_task signr t) (handler_regs sa r) (signal_frame signr sa t.blocked r)
