-- ===== src/Kernel/Exit/Leave.antt =====
-- What `do_exit` of kernel/exit.c leaves of a process.
use linux_0_11_notes.Prelude.{
  Bool-cases, Option, Option-cases, ap, arith, done, eq_ℤ, eq_ℤ→eq, eq→eq_ℤ, false, if-false,
  if-true, inl, inr, leb, ltb, none, pos, refl, some, subst, suc, sym, true, update, update_ne,
  update_self, with_bit, zero, ℕ, ℕ_discrete, ℤ, ◌&&◌, ◌+◌, ◌<◌, ◌∙◌, ◌≡◌, ◌≤◌, ◌⊎◌,
}
use linux_0_11_notes.Chr.Queue.{left}
use linux_0_11_notes.Fs.Descriptors.{Files, nr_open}
use linux_0_11_notes.Fs.Descriptors.Count.{IsCounted}
use linux_0_11_notes.Kernel.Exit.{
  Exiting, do_exit, ended, exit_task, father_of, notify, over, put_node, zombie_table,
}
use linux_0_11_notes.Kernel.Exit.Descriptors.{close_all_lem}
use linux_0_11_notes.Kernel.Exit.Orphans.{has_father, zombie_table-childless, zombie_table-zombie}
use linux_0_11_notes.Kernel.Fork.{Segments}
use linux_0_11_notes.Kernel.Kill.{release, tell_father, tell_from}
use linux_0_11_notes.Kernel.Task.{Table, Task, TaskState, nr_tasks, sigchld_bit}
use linux_0_11_notes.Mm.{Memory}
use linux_0_11_notes.Mm.Tables.{free_page_tables}

abbrev pub heard : Task → Task
heard a = record a { signal = with_bit a.signal sigchld_bit }

-- The father is a task of the table, and gets SIGCHLD.
tell_from_lem :
    (n i : ℕ) (pid : ℤ) (t q : Table)
    → tell_from n i pid t ≡ some q
    → (j : ℕ) × (a : Task) × (t j ≡ some a) × (a.pid ≡ pid) × (q ≡ update t j (some (heard a)))
unfolding tell_from
tell_from_lem zero i pid t q h = absurd (ground arith)
tell_from_lem (suc n) i pid t q h = elim (Option-cases (t i)) [
  | inl e ↦ tell_from_lem n (i + 1) pid t q (ground arith)
  | inr (a, e) ↦ elim (Bool-cases (eq_ℤ a.pid pid)) [
    | inl same ↦ (i, a, e, eq_ℤ→eq a.pid pid same, ground arith)
    | inr other ↦ tell_from_lem n (i + 1) pid t q (ground arith)
  ]
]

-- No father is found only if there is none.
tell_from-none :
    (n i j : ℕ) (pid : ℤ) (a : Task) (t : Table)
    → tell_from n i pid t ≡ none
    → i ≤ j
    → j < i + n
    → t j ≡ some a
    → eq_ℤ a.pid pid ≡ false
unfolding tell_from
tell_from-none zero i j pid a t h lo hi e = absurd (omega arith)
tell_from-none (suc n) i j pid a t h lo hi e = elim (ℕ_discrete i j) [
  | yes same ↦ ground arith
  | no ne ↦ elim (Option-cases (t i)) [
    | inl q ↦ tell_from-none n (i + 1) j pid a t (ground arith) (omega arith) (omega arith) e
    | inr (b, q) ↦ tell_from-none n (i + 1) j pid a t (ground arith) (omega arith) (omega arith) e
  ]
]

-- There is no father: its id is 0, or no task has it.
abbrev pub IsFatherless : ℤ → Table → Type 0
IsFatherless father t =
    (father ≡ pos 0) ⊎ ((j : ℕ) (a : Task) → j < nr_tasks → t j ≡ some a → ¬ (a.pid ≡ father))

tell_father-none :
    (pid : ℤ) (nr : ℕ) (t : Table) → tell_father pid t ≡ none → IsFatherless pid (update t nr none)
unfolding tell_father
tell_father-none pid nr t h = elim (Bool-cases (eq_ℤ pid (pos 0))) [
  | inl e ↦ inl (eq_ℤ→eq pid (pos 0) e)
  | inr e ↦ inr (λ j a lt at same.
      let n : ¬ (j ≡ nr) = λ q. absurd (ground arith) in
      let k : t j ≡ some a = sym (update_ne t nr j none n) ∙ at in
      absurd (
        ground (
          arith,
          eq→eq_ℤ a.pid pid same,
          tell_from-none nr_tasks 0 j pid a t (ground arith) (omega arith) (omega arith) k,
        )))
]

-- The process stays as a zombie with its exit code, of which its father has heard by SIGCHLD.
pub record IsReported (nr : ℕ) (code father_pid : ℤ) (t : Table) : Type 0 where
  pub zombie : Task
  pub slot : t nr ≡ some zombie
  pub is_zombie : zombie.state ≡ TaskState.zombie
  pub exit_code : zombie.exit_code ≡ code
  pub child_of : zombie.father ≡ father_pid
  pub father_slot : ℕ
  pub father : Task
  pub known : t father_slot ≡ some father
  pub pid : father.pid ≡ father_pid
  pub signal : father.signal sigchld_bit ≡ true

-- Or there is no father, and the process has left the table.
abbrev pub HasLeft : ℕ → ℤ → ℤ → Table → Type 0
HasLeft nr code father t = IsReported nr code father t ⊎ ((t nr ≡ none) × IsFatherless father t)

heard-IsReported :
    (nr j : ℕ) (code : ℤ) (a b : Task) (t : Table)
    → t nr ≡ some (ended code a)
    → t j ≡ some b
    → b.pid ≡ a.father
    → IsReported nr code a.father (update t j (some (heard b)))
heard-IsReported nr j code a b t e f g = elim (ℕ_discrete j nr) [
  | yes same ↦ record {
    zombie = heard (ended code a);
    slot = ground arith;
    is_zombie = refl;
    exit_code = refl;
    child_of = refl;
    father_slot = j;
    father = heard b;
    known = update_self t j (some (heard b));
    pid = g;
    signal = update_self b.signal sigchld_bit true;
  }
  | no ne ↦ record {
    zombie = ended code a;
    slot = ground arith;
    is_zombie = refl;
    exit_code = refl;
    child_of = refl;
    father_slot = j;
    father = heard b;
    known = update_self t j (some (heard b));
    pid = g;
    signal = update_self b.signal sigchld_bit true;
  }
]

tell_father_lem :
    (pid : ℤ) (t q : Table) → tell_father pid t ≡ some q → tell_from nr_tasks 0 pid t ≡ some q
unfolding tell_father
tell_father_lem pid t q h = elim (Bool-cases (eq_ℤ pid (pos 0))) [
  | inl e ↦ absurd (ground arith)
  | inr e ↦ sym (if-false (eq_ℤ pid (pos 0)) none (tell_from nr_tasks 0 pid t) e) ∙ h
]

heard-has_father :
    (pid : ℤ) (j k : ℕ) (b : Task) (t : Table)
    → t j ≡ some b
    → has_father pid (t k) ≡ false
    → has_father pid (update t j (some (heard b)) k) ≡ false
heard-has_father pid j k b t e f = elim (ℕ_discrete k j) [
  | yes same ↦
      ap (has_father pid) (ap (update t j (some (heard b))) same ∙ update_self t j (some (heard b)))
      ∙ ap (has_father pid) (sym e)
      ∙ ap (λ (i : ℕ). has_father pid (t i)) (sym same)
      ∙ f
  | no ne ↦ ap (has_father pid) (update_ne t j k (some (heard b)) ne) ∙ f
]

released-has_father :
    (pid : ℤ) (j k : ℕ) (t : Table)
    → has_father pid (t k) ≡ false
    → has_father pid (update t j none k) ≡ false
released-has_father pid j k t f = ground arith

release_lem :
    (nr : ℕ) (a : Task) (t : Table)
    → 0 < nr
    → nr < nr_tasks
    → t nr ≡ some a
    → release (some nr) t ≡ done (update t nr none)
unfolding release
release_lem nr a t lo hi e = ground arith

-- The table that `tell_father` or `release` leaves.
notify_lem :
    (nr : ℕ) (code pid : ℤ) (a : Task) (t : Table)
    → 0 < nr
    → nr < nr_tasks
    → t nr ≡ some (ended code a)
    → (q : Table) × (notify nr t ≡ done q)
      × HasLeft nr code a.father q
      × ((k : ℕ) → has_father pid (t k) ≡ false → has_father pid (q k) ≡ false)
unfolding notify
notify_lem nr code pid a t lo hi e = elim (Option-cases (tell_father (father_of (t nr)) t)) [
  | inl orphan ↦ (
    update t nr none,
    rw (notify, orphan) (release_lem nr (ended code a) t lo hi e),
    inr (
      update_self t nr none,
      subst (λ x. IsFatherless x (update t nr none)) (ap father_of e)
          (tell_father-none (father_of (t nr)) nr t orphan),
    ),
    λ k f. released-has_father pid nr k t f,
  )
  | inr (q, told) ↦
      let (j, b, f, g, h) =
        tell_from_lem nr_tasks 0 (father_of (t nr)) t q
          (tell_father_lem (father_of (t nr)) t q told) in
      (
        q,
        rw (notify, told) refl,
        inl (
            subst (IsReported nr code a.father) (sym h)
              (heard-IsReported nr j code a b t e f (g ∙ ap father_of e))),
        λ k c. ap (λ (u : Table). has_father pid (u k)) h ∙ heard-has_father pid j k b t f c,
      )
]

-- What the end of a process comes to: no descriptor is open, and the counts of files are right; its
-- directories and program are given back; no task is its child; it has left or is reported.
pub record IsOver (others : ℕ → ℕ) (nr : ℕ) (code : ℤ) (me : Task) (q : Exiting) : Type 0 where
  pub closed : (fd : ℕ) → fd < nr_open → q.files.filp fd ≡ none
  pub counted : IsCounted others q.files
  pub childless : (k : ℕ) → k < nr_tasks → has_father me.pid (q.table k) ≡ false
  pub has_left : HasLeft nr code me.father q.table

-- Giving inodes back changes no descriptor.
put_node-filp : (o : Option ℕ) (f : Files) → (put_node o f).filp ≡ f.filp
put_node-filp none f = refl
put_node-filp (some i) f = refl

put_node-IsCounted :
    (others : ℕ → ℕ) (o : Option ℕ) (f : Files)
    → IsCounted others f
    → IsCounted others (put_node o f)
put_node-IsCounted others none f c = c
put_node-IsCounted others (some i) f c = c

is_descriptor : (fd : ℕ) → fd < nr_open → (leb 0 fd && ltb fd (0 + nr_open)) ≡ true
is_descriptor fd lt = ground arith

-- `do_exit` of a process in a slot from 1 on, whose id is not 1 and which is not its own father, ends if
-- its page tables can be freed and the counts of files are right: no descriptor of it is open, and the
-- counts are right without it; no task is its child any more; and either it is a zombie with its exit
-- code and the same father, and a task with the father's id has SIGCHLD, or it has left the table, and
-- then its father's id is 0 or no task that is left has that id.
pub do_exit-IsOver :
    (others : ℕ → ℕ) (nr : ℕ) (seg : Segments) (code : ℤ) (me : Task) (m1 m2 : Memory) (s : Exiting)
    → 0 < nr
    → nr < nr_tasks
    → s.table nr ≡ some me
    → eq_ℤ (pos 1) me.pid ≡ false
    → eq_ℤ me.pid me.father ≡ false
    → IsCounted others s.files
    → free_page_tables seg.code_base seg.code_limit s.memory ≡ done m1
    → free_page_tables seg.data_base seg.data_limit m1 ≡ done m2
    → (q : Exiting) × (do_exit nr seg code s ≡ done q) × IsOver others nr code me q
unfolding do_exit exit_task
do_exit-IsOver others nr seg code me m1 m2 s lo hi here init orphaned c h1 h2 =
    let (f, e, counted, closed) = close_all_lem nr_open 0 others s.files (omega arith) c in
    let (a, same, z) = zombie_table-zombie nr code me s.table here orphaned in
    let t : Table = zombie_table nr code me s.table in
    let (q, told, left, rest) = notify_lem nr code me.pid a t lo hi z in
    (
      over nr me s q m2 f,
      rw (do_exit, here, exit_task, h1, h2, e, told) refl,
      record {
        closed = λ fd lt.
            ap (λ (u : ℕ → Option ℕ). u fd)
              (put_node-filp s.executable _ ∙ put_node-filp s.root _ ∙ put_node-filp s.pwd f)
            ∙ closed fd
            ∙ if-true _ none (s.files.filp fd) (is_descriptor fd lt);
        counted =
            put_node-IsCounted others s.executable _
              (put_node-IsCounted others s.root _ (put_node-IsCounted others s.pwd f counted));
        childless = λ k lt. rest k (zombie_table-childless nr code me s.table k init lt);
        has_left = subst (λ x. HasLeft nr code x q) same left;
      },
    )
