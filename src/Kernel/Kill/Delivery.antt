-- ===== src/Kernel/Kill/Delivery.antt =====
-- Whom `kill` of kernel/exit.c reaches.
use linux_0_11_notes.Prelude.{
  Bool, Bool-cases, Option, ap, arith, eq_ℤ, eq_ℤ→eq, eq→eq_ℤ, false, if-false, if-true,
  if◌then◌else◌, inl, inr, leb, ltb, negsuc, none, not, pos, pos_part, refl, some, subst, suc, sym,
  true, update, zero, ℕ, ℕ_discrete, ℤ, ◌&&◌, ◌-◌, ◌<◌, ◌∙◌, ◌≡◌, ◌≤◌, ◌⊎◌,
}
use linux_0_11_notes.Kernel.Kill.{
  bad_signal, kill_slots, kill_target, may_signal, send_sig, signalled, sys_kill,
}
use linux_0_11_notes.Kernel.Task.{Table, Task, holds, last_slot, map_option}

-- The slot after `kill` has looked at it.
unfoldable pub after_kill : (Option Task → Bool) → ℤ → Bool → Task → Option Task → Option Task
after_kill wanted sig priv current o =
    if wanted o && not (bad_signal sig) && holds (may_signal priv current) o
    then map_option (signalled sig) o
    else o

send_sig-slot :
    (wanted : Option Task → Bool) (sig : ℤ) (priv : Bool) (current : Task) (o : Option Task)
    → (if wanted o then (send_sig sig priv current o).1 else o)
      ≡ after_kill wanted sig priv current o
unfolding send_sig after_kill
send_sig-slot wanted sig priv current none = ground arith
send_sig-slot wanted sig priv current (some a) = ground arith

kill_slots-slot :
    (n : ℕ) (wanted : Option Task → Bool) (sig : ℤ) (priv : Bool) (current : Task) (r : ℤ)
    (t : Table) (i : ℕ)
    → (kill_slots n wanted sig priv current (r, t)).1 i
      ≡ (if ltb 0 i && leb i n then after_kill wanted sig priv current (t i) else t i)
unfolding kill_slots
kill_slots-slot zero wanted sig priv current r t i = ground arith
kill_slots-slot (suc n) wanted sig priv current r t i =
    let e : ℤ = (send_sig sig priv current (t (suc n))).0 in
    let a : Option Task = (send_sig sig priv current (t (suc n))).1 in
    let q : (if wanted (t (suc n)) then a else t (suc n))
        ≡ after_kill wanted sig priv current (t (suc n)) =
      send_sig-slot wanted sig priv current (t (suc n)) in
    let e' : ℤ = if eq_ℤ e (pos 0) then r else e in
    let go : ℤ × Table → Option Task = λ x. (kill_slots n wanted sig priv current x).1 i in
    elim (Bool-cases (wanted (t (suc n)))) [
      | inl w ↦
          ap go (if-true (wanted (t (suc n))) (e', update t (suc n) a) (r, t) w)
          ∙ kill_slots-slot n wanted sig priv current e' (update t (suc n) a) i
          ∙ ground (arith, q)
      | inr w ↦
          ap go (if-false (wanted (t (suc n))) (e', update t (suc n) a) (r, t) w)
          ∙ kill_slots-slot n wanted sig priv current r t i
          ∙ ground (arith, q)
    ]

-- Whom a pid stands for: 0 is the group of the caller, another positive pid the process with it, -1 is
-- everybody, and -g the group g.
pub Reached : ℤ → Task → Task → Type 0
Reached (pos zero) current a = a.pgrp ≡ current.pid
Reached (pos (suc n)) current a = a.pid ≡ pos (suc n)
Reached (negsuc zero) current a = Unit {0}
Reached (negsuc (suc n)) current a = a.pgrp ≡ pos (suc (suc n))

-- The caller sends to its own group, has the same effective user, or is the superuser.
abbrev pub Permitted : ℤ → Task → Task → Type 0
Permitted pid current a = (pid ≡ pos 0) ⊎ ((current.euid ≡ a.euid) ⊎ (current.euid ≡ 0))

-- Signal n, from 1 to 32, goes to the task.
record IsSent (pid sig : ℤ) (current a : Task) (n : ℕ) : Type 0 where
  numbered : sig ≡ pos n
  low : 0 < n
  high : n ≤ 32
  reached : Reached pid current a
  permitted : Permitted pid current a

-- A slot before and after.
pub IsKilled : ℤ → ℤ → Task → Option Task → Option Task → Type 0
IsKilled pid sig current none o = o ≡ none
IsKilled pid sig current (some a) o =
    ((n : ℕ) × IsSent pid sig current a n
      × (o ≡ some (record a { signal = update a.signal (n - 1) true })))
    ⊎ (((n : ℕ) → ¬ IsSent pid sig current a n) × (o ≡ some a))

-- Which tasks another pid than 0 and -1 stands for.
target_pos :
    (n : ℕ) (current a : Task)
    → (kill_target (pos (suc n)) current).0 (some a) ≡ eq_ℤ a.pid (pos (suc n))
unfolding kill_target
target_pos n current a = ground arith

target_neg :
    (n : ℕ) (current a : Task)
    → (kill_target (negsuc (suc n)) current).0 (some a) ≡ eq_ℤ a.pgrp (pos (suc (suc n)))
unfolding kill_target
target_neg n current a = ground arith

target-Reached :
    (pid : ℤ) (current a : Task)
    → (kill_target pid current).0 (some a) ≡ true
    → Reached pid current a
unfolding kill_target Reached
target-Reached (pos zero) current a h = eq_ℤ→eq a.pgrp current.pid h
target-Reached (pos (suc n)) current a h =
    eq_ℤ→eq a.pid (pos (suc n)) (sym (target_pos n current a) ∙ h)
target-Reached (negsuc zero) current a h = tt
target-Reached (negsuc (suc n)) current a h =
    eq_ℤ→eq a.pgrp (pos (suc (suc n))) (sym (target_neg n current a) ∙ h)

Reached-target :
    (pid : ℤ) (current a : Task)
    → Reached pid current a
    → (kill_target pid current).0 (some a) ≡ true
unfolding kill_target Reached
Reached-target (pos zero) current a h = eq→eq_ℤ a.pgrp current.pid h
Reached-target (pos (suc n)) current a h = target_pos n current a ∙ eq→eq_ℤ a.pid (pos (suc n)) h
Reached-target (negsuc zero) current a h = refl
Reached-target (negsuc (suc n)) current a h =
    target_neg n current a ∙ eq→eq_ℤ a.pgrp (pos (suc (suc n))) h

priv_lem : (pid : ℤ) (current : Task) → (kill_target pid current).1 ≡ eq_ℤ pid (pos 0)
unfolding kill_target
priv_lem pid current = ground arith

may-Permitted :
    (pid : ℤ) (current a : Task)
    → may_signal (kill_target pid current).1 current a ≡ true
    → Permitted pid current a
may-Permitted pid current a h = elim (Bool-cases (eq_ℤ pid (pos 0))) [
  | inl e ↦ inl (eq_ℤ→eq pid (pos 0) e)
  | inr e ↦ elim (ℕ_discrete current.euid a.euid) [
    | yes same ↦ inr (inl same)
    | no ne ↦ inr (inr (ground (arith, priv_lem pid current)))
  ]
]

Permitted-may :
    (pid : ℤ) (current a : Task)
    → Permitted pid current a
    → may_signal (kill_target pid current).1 current a ≡ true
Permitted-may pid current a (inl e) = ground (arith, priv_lem pid current, eq→eq_ℤ pid (pos 0) e)
Permitted-may pid current a (inr (inl e)) = ground arith
Permitted-may pid current a (inr (inr e)) = ground arith

bad_lem : (sig : ℤ) → bad_signal sig ≡ false → sig ≡ pos (pos_part sig)
bad_lem (pos n) h = refl
bad_lem (negsuc n) h = absurd (ground arith)

IsSent-sends :
    (pid sig : ℤ) (current a : Task) (n : ℕ)
    → IsSent pid sig current a n
    → ((kill_target pid current).0 (some a)
        && not (bad_signal sig)
        && may_signal (kill_target pid current).1 current a)
      ≡ true
IsSent-sends pid sig current a n r =
    let e : pos_part sig ≡ n = ap pos_part r.numbered in
    ground (
      arith,
      Reached-target pid current a r.reached,
      Permitted-may pid current a r.permitted,
      r.low,
      r.high,
    )

after_kill-IsKilled :
    (pid sig : ℤ) (current : Task) (o : Option Task)
    → IsKilled pid sig current o
        (after_kill (kill_target pid current).0 sig (kill_target pid current).1 current o)
unfolding after_kill IsKilled
after_kill-IsKilled pid sig current none = ground arith
after_kill-IsKilled pid sig current (some a) =
    elim (Bool-cases (
      (kill_target pid current).0 (some a)
      && not (bad_signal sig)
      && may_signal (kill_target pid current).1 current a)) [
        | inl sends ↦ inl (
          pos_part sig,
          record {
            numbered = bad_lem sig (ground arith);
            low = ground arith;
            high = ground arith;
            reached = target-Reached pid current a (ground arith);
            permitted = may-Permitted pid current a (ground arith);
          },
          if-true _ _ _ sends,
        )
        | inr keeps ↦ inr (
          λ n r. absurd (ground (arith, IsSent-sends pid sig current a n r)),
          if-false _ _ _ keeps,
        )
      ]

-- `kill` sets bit n - 1 of the signals of the task in a slot other than 0, and changes nothing else of
-- it, if the signal is a number n from 1 to 32, the pid stands for the task (0 for the group of the
-- caller's id, another positive pid for that process, -1 for everybody, -g for group g), and the caller
-- sends to its own group by pid 0, has the same effective user, or is the superuser; otherwise the task
-- is unchanged. An empty slot stays empty.
pub kill-slot :
    (pid sig : ℤ) (current : Task) (t : Table) (i : ℕ)
    → 0 < i
    → i ≤ last_slot
    → IsKilled pid sig current (t i) ((sys_kill pid sig current t).1 i)
unfolding sys_kill
kill-slot pid sig current t i lo hi =
    subst (IsKilled pid sig current (t i))
      (sym (
        kill_slots-slot last_slot (kill_target pid current).0 sig (kill_target pid current).1
          current (pos 0) t i
        ∙ if-true (ltb 0 i && leb i last_slot) _ _ (ground arith)))
      (after_kill-IsKilled pid sig current (t i))
