-- ===== src/Kernel/Sys/Ids.antt =====
-- The rules of the calls that change user ids, group ids, sessions and priorities.
use linux_0_11_notes.Prelude.{
  Bool-cases, Option, Option-cases, arith, eq_ℤ, eq_ℤ→eq, err, false, inl, inr, pos, refl, some,
  subst, suc, sym, true, update, zero, ℕ, ℤ, ◌+◌, ◌<◌, ◌==◌, ◌≡◌, ◌⊎◌,
}
use linux_0_11_notes.Kernel.Sys.{
  eperm, ok, or_own, set_egid, set_euid, setpgid_from, suser, sys_alarm, sys_nice, sys_setpgid,
  sys_setregid, sys_setreuid,
}
use linux_0_11_notes.Kernel.Task.{Table, Task, nr_tasks}

-- The users that a task may turn into.
abbrev pub IsOwnId : Task → ℕ → Type 0
IsOwnId t id = (id ≡ t.uid) ⊎ (id ≡ t.euid)

abbrev pub SmallIds : Task → Type 0
SmallIds t =
    (t.uid < 65536) × (t.euid < 65536) × (t.gid < 65536) × (t.egid < 65536) × (t.sgid < 65536)

-- A task that is not the superuser gets no user id by `setreuid` that it did not have.
setreuid-IsOwnId :
    (ruid euid : ℤ) (t : Task)
    → SmallIds t
    → suser t ≡ false
    → IsOwnId t (sys_setreuid ruid euid t).1.uid × IsOwnId t (sys_setreuid ruid euid t).1.euid
unfolding sys_setreuid set_euid
setreuid-IsOwnId ruid euid t small user = ground arith

-- `setreuid` that is refused changes nothing.
setreuid_refused :
    (ruid euid : ℤ) (t : Task)
    → (sys_setreuid ruid euid t).0 ≡ err eperm
    → (sys_setreuid ruid euid t).1 ≡ t
unfolding sys_setreuid set_euid
setreuid_refused ruid euid t e = ground arith

-- `setregid` that is refused changes nothing either: it has then set at most the id that was there.
setregid_refused :
    (rgid egid : ℤ) (t : Task)
    → SmallIds t
    → (sys_setregid rgid egid t).0 ≡ err eperm
    → (sys_setregid rgid egid t).1 ≡ t
unfolding sys_setregid set_egid
setregid_refused rgid egid t small e = ground arith

-- The groups that a task may turn into.
abbrev pub IsOwnGroup : Task → ℕ → Type 0
IsOwnGroup t id = (id ≡ t.gid) ⊎ (id ≡ t.egid) ⊎ (id ≡ t.sgid)

-- `setregid` of a task that is not the superuser leaves the real group, and makes only a group that
-- the task has the effective one.
setregid-IsOwnGroup :
    (rgid egid : ℤ) (t : Task)
    → SmallIds t
    → suser t ≡ false
    → ((sys_setregid rgid egid t).1.gid ≡ t.gid) × IsOwnGroup t (sys_setregid rgid egid t).1.egid
unfolding sys_setregid set_egid
setregid-IsOwnGroup rgid egid t small user = ground arith

-- `nice` never brings a priority down to 0, which is what the scheduler's search rests on.
nice_keeps_priority : (n : ℤ) (t : Task) → 0 < t.priority → 0 < (sys_nice n t).1.priority
unfolding sys_nice
nice_keeps_priority n t h = ground arith

-- `alarm` reports 0 where none was set, and a second call at the same time reports the first one's
-- seconds.
alarm_again :
    (now s : ℕ) (n : ℤ) (t : Task) → 0 < s → (sys_alarm now n (sys_alarm now (pos s) t).1).0 ≡ pos s
unfolding sys_alarm
alarm_again now s n t h = ground arith

-- What `setpgid` may do to one slot.
abbrev pub Moved : ℤ → ℤ → Task → Option Task → Option Task → Type 0
Moved pid pgid current old new =
    (new ≡ old)
    ⊎ ((a : Task) × (old ≡ some a)
        × (a.pid ≡ pid)
        × (a.leader ≡ false)
        × (a.session ≡ current.session)
        × (new ≡ some (record a { pgrp = pgid })))

found_lem :
    (i j : ℕ) (pid pgid : ℤ) (current a : Task) (t : Table)
    → t i ≡ some a
    → eq_ℤ a.pid pid ≡ true
    → a.leader ≡ false
    → eq_ℤ a.session current.session ≡ true
    → Moved pid pgid current (t j) (update t i (some (record a { pgrp = pgid })) j)
found_lem i j pid pgid current a t e p l s = elim (Bool-cases (i == j)) [
  | inl q ↦
      inr
        (a, ground arith, eq_ℤ→eq a.pid pid p, l, eq_ℤ→eq a.session current.session s, ground arith)
  | inr q ↦ inl (ground arith)
]

setpgid_from-Moved :
    (n i j : ℕ) (pid pgid : ℤ) (current : Task) (t : Table)
    → Moved pid pgid current (t j) ((setpgid_from n i pid pgid current t).1 j)
unfolding setpgid_from
setpgid_from-Moved zero i j pid pgid current t = inl refl
setpgid_from-Moved (suc n) i j pid pgid current t = elim (Option-cases (t i)) [
  | inl e ↦ rw (e, setpgid_from) (setpgid_from-Moved n (i + 1) j pid pgid current t)
  | inr (a, e) ↦ elim (Bool-cases (eq_ℤ a.pid pid)) [
    | inr p ↦ rw (e, setpgid_from, p) (setpgid_from-Moved n (i + 1) j pid pgid current t)
    | inl p ↦ elim (Bool-cases a.leader) [
      | inl l ↦ inl (ground arith)
      | inr l ↦ elim (Bool-cases (eq_ℤ a.session current.session)) [
        | inl s ↦
            let r : ℤ × Table = (ok, update t i (some (record a { pgrp = pgid }))) in
            let q : setpgid_from (suc n) i pid pgid current t ≡ r = ground arith in
            subst (λ (x : ℤ × Table). Moved pid pgid current (t j) (x.1 j)) (sym q)
              (found_lem i j pid pgid current a t e p l s)
        | inr s ↦ inl (ground arith)
      ]
    ]
  ]
]

-- `setpgid` changes nothing in a slot but the process group, and that only of a task with the pid
-- that was asked for, in the caller's session, that is no session leader.
setpgid-Moved :
    (pid pgid : ℤ) (current : Task) (t : Table) (j : ℕ)
    → Moved
        (or_own pid current)
        (or_own pgid current)
        current
        (t j)
        ((sys_setpgid pid pgid current t).1 j)
unfolding sys_setpgid
setpgid-Moved pid pgid current t j =
    setpgid_from-Moved nr_tasks 0 j (or_own pid current) (or_own pgid current) current t
