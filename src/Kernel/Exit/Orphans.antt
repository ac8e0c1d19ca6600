-- ===== src/Kernel/Exit/Orphans.antt =====
-- `do_exit` of kernel/exit.c leaves no child behind.
use linux_0_11_notes.Prelude.{
  Bool, Option, Option-cases, ap, arith, eq_ℤ, eq_ℤ→eq, eq→eq_ℤ, false, if◌then◌else◌, inl, inr,
  leb, ltb, none, pos, refl, some, suc, true, update, zero, ℕ, ℤ, ◌&&◌, ◌+◌, ◌<◌, ◌==◌, ◌∙◌, ◌≡◌,
}
use linux_0_11_notes.Kernel.Exit.{adopt, adopt_slot, ended, zombie_table}
use linux_0_11_notes.Kernel.Kill.{in_session, kill_session, send_sig}
use linux_0_11_notes.Kernel.Sched.Slots.{map_slots_lem}
use linux_0_11_notes.Kernel.Signal.{sigchld}
use linux_0_11_notes.Kernel.Task.{Table, Task, holds, last_slot, map_option, nr_tasks}

-- Whether the task in a slot is a child of the process.
abbrev pub has_father : ℤ → Option Task → Bool
has_father pid o = holds (λ a. eq_ℤ a.father pid) o

send_sig-has_father :
    (pid sig : ℤ) (priv : Bool) (me : Task) (o : Option Task)
    → has_father pid (send_sig sig priv me o).1 ≡ has_father pid o
unfolding send_sig
send_sig-has_father pid sig priv me none = refl
send_sig-has_father pid sig priv me (some a) = ground arith

adopt_slot-has_father :
    (me : Task) (i k : ℕ) (t : Table)
    → eq_ℤ (pos 1) me.pid ≡ false
    → has_father me.pid (adopt_slot me i t k) ≡ (if k == i then false else has_father me.pid (t k))
unfolding adopt_slot
adopt_slot-has_father me i k t h = elim (Option-cases (t i)) [
  | inl e ↦ ground arith
  | inr (a, e) ↦
      let t' : Table = update t i (some (record a { father = pos 1 })) in
      ground (arith, send_sig-has_father me.pid (pos sigchld) true me (t' 1))
]

adopt-has_father :
    (n i k : ℕ) (me : Task) (t : Table)
    → eq_ℤ (pos 1) me.pid ≡ false
    → has_father me.pid (adopt n i me t k)
      ≡ (if leb i k && ltb k (i + n) then false else has_father me.pid (t k))
unfolding adopt
adopt-has_father zero i k me t h = ground arith
adopt-has_father (suc n) i k me t h =
    ground (
      arith,
      adopt-has_father n (i + 1) k me (adopt_slot me i t) h,
      adopt_slot-has_father me i k t h,
    )

-- A task with another father keeps it.
adopt_slot-keeps :
    (me : Task) (pid : ℤ) (i k : ℕ) (t : Table)
    → eq_ℤ me.pid pid ≡ false
    → has_father pid (t k) ≡ true
    → has_father pid (adopt_slot me i t k) ≡ true
unfolding adopt_slot
adopt_slot-keeps me pid i k t ne h = elim (Option-cases (t i)) [
  | inl e ↦ ground arith
  | inr (a, e) ↦
      let t' : Table = update t i (some (record a { father = pos 1 })) in
      ground (arith, send_sig-has_father pid (pos sigchld) true me (t' 1))
]

adopt-keeps :
    (n i k : ℕ) (me : Task) (pid : ℤ) (t : Table)
    → eq_ℤ me.pid pid ≡ false
    → has_father pid (t k) ≡ true
    → has_father pid (adopt n i me t k) ≡ true
unfolding adopt
adopt-keeps zero i k me pid t ne h = h
adopt-keeps (suc n) i k me pid t ne h =
    adopt-keeps n (i + 1) k me pid (adopt_slot me i t) ne (adopt_slot-keeps me pid i k t ne h)

-- What does not read signals sees no difference after `kill_session`.
module _ (p : Task → Bool) (same : (me a : Task) → p (in_session me a) ≡ p a) where
  in_session_same :
      (me : Task) (o : Option Task) → holds p (map_option (in_session me) o) ≡ holds p o
  in_session_same me none = refl
  in_session_same me (some a) = same me a

  kill_session_same :
      (me : Task) (t : Table) (k : ℕ) → holds p (kill_session me t k) ≡ holds p (t k)
  unfolding kill_session
  kill_session_same me t k =
      ap (holds p) (map_slots_lem last_slot (in_session me) t k)
      ∙ ground (arith, in_session_same me (t k))

  leader_same :
      (leader : Bool) (me : Task) (t : Table) (k : ℕ)
      → holds p ((if leader then kill_session me t else t) k) ≡ holds p (t k)
  leader_same true me t k = kill_session_same me t k
  leader_same false me t k = refl

-- The table in which the process is a zombie.
module _ (nr : ℕ) (code : ℤ) (me : Task) (t : Table) where
  abbrev session_table : Table
  session_table = let t1 = adopt nr_tasks 0 me t in if me.leader then kill_session me t1 else t1

  session-has_father :
      (k : ℕ) (pid : ℤ)
      → has_father pid (session_table k) ≡ has_father pid (adopt nr_tasks 0 me t k)
  session-has_father k pid =
      leader_same (λ a. eq_ℤ a.father pid) (λ me a. ground arith) me.leader me
        (adopt nr_tasks 0 me t) k

  pub zombie_table-childless :
      (k : ℕ)
      → eq_ℤ (pos 1) me.pid ≡ false
      → k < nr_tasks
      → has_father me.pid (zombie_table nr code me t k) ≡ false
  zombie_table-childless k h lt =
      ground (arith, session-has_father k me.pid, adopt-has_father nr_tasks 0 k me t h)

  -- The process is a zombie with its exit code and its father.
  pub zombie_table-zombie :
      t nr ≡ some me
      → eq_ℤ me.pid me.father ≡ false
      → (a : Task) × (a.father ≡ me.father) × (zombie_table nr code me t nr ≡ some (ended code a))
  zombie_table-zombie here ne =
      let h : has_father me.father (t nr) ≡ true =
        ground (arith, eq→eq_ℤ me.father me.father refl) in
      let k : has_father me.father (session_table nr) ≡ true =
        session-has_father nr me.father ∙ adopt-keeps nr_tasks 0 nr me me.father t ne h in
      elim (Option-cases (session_table nr)) [
        | inl e ↦ absurd (ground (arith, k))
        | inr (a, e) ↦ (a, eq_ℤ→eq a.father me.father (ground (arith, k)), ground arith)
      ]
