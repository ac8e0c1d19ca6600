-- ===== src/Kernel/Tick/Motors.antt =====
-- A motor that is not needed is switched off in the end.
use linux_0_11_notes.Prelude.{suc, update, zero, ℕ}
use linux_0_11_notes.Kernel.Tick.{Floppy, tick_motor}

-- The floppy state after n ticks of one drive.
unfoldable pub run_motor : ℕ → ℕ → Floppy → Floppy
unfolding tick_motor
run_motor i zero f = f
run_motor i (suc n) f = run_motor i n (tick_motor i f).1

abbrev slower : ℕ → ℕ → Floppy → Floppy
slower i n f = record f { moff_timer = update f.moff_timer i n }
