-- ===== src/Kernel/Sched/Slots.antt =====
-- The loop over the slots of the task table changes every slot from 1 to n once, and no other.
use linux_0_11_notes.Prelude.{arith, if◌then◌else◌, leb, ltb, suc, update, zero, ℕ, ◌&&◌, ◌≡◌}
use linux_0_11_notes.Kernel.Task.{Table, Task, map_option, map_slots}

pub map_slots_lem :
    (n : ℕ) (f : Task → Task) (t : Table) (i : ℕ)
    → map_slots n f t i ≡ (if ltb 0 i && leb i n then map_option f (t i) else t i)
unfolding map_slots
map_slots_lem zero f t i = ground arith
map_slots_lem (suc n) f t i =
    ground (arith, map_slots_lem n f (update t (suc n) (map_option f (t (suc n)))) i)
