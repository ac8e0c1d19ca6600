-- ===== src/Kernel/Fork/Inherit.antt =====
-- What `copy_process` of kernel/fork.c leaves: a child that shares what its parent has, or nothing.
use linux_0_11_notes.Prelude.{
  Bool-cases, Option, Option-cases, ap, arith, bind-done, done, done-inj, eq_ℤ, err, false,
  if-false, if-true, inl, inr, none, pos, refl, some, subst, suc, sym, update, update_ne,
  update_self, zero, ℕ, ℕ_discrete, ℤ, ◌%◌, ◌+◌, ◌<◌, ◌==◌, ◌∙◌, ◌≡◌, ◌≢◌, ◌≤◌, ◌⊎◌,
}
use linux_0_11_notes.Fs.Descriptors.{nr_open}
use linux_0_11_notes.Fs.Descriptors.Count.{IsCounted, one, refs}
use linux_0_11_notes.Kernel.Fork.{copy_mem, eagain}
use linux_0_11_notes.Kernel.Fork.Copy.{
  Parent, Processes, child_registers, child_task, copy_process, share_from, started, use_inode,
}
use linux_0_11_notes.Kernel.Sys.{short}
use linux_0_11_notes.Kernel.Task.{TaskState}
use linux_0_11_notes.Mm.{Memory, free_page, get_free_page, page_size}
use linux_0_11_notes.Mm.Unshare.{copied}

-- The descriptors that name a file, n of them from fd on.
refs_from : ℕ → ℕ → (ℕ → Option ℕ) → ℕ → ℕ
refs_from zero fd filp file = 0
refs_from (suc n) fd filp file = one (filp fd) file + refs_from n (fd + 1) filp file

refs_from-refs :
    (n fd : ℕ) (filp : ℕ → Option ℕ) (file : ℕ)
    → refs_from n fd filp file + refs fd filp file ≡ refs (fd + n) filp file
unfolding refs_from refs
refs_from-refs zero fd filp file =
    let e : fd ≡ fd + 0 = omega arith in omega (arith, ap (λ (k : ℕ). refs k filp file) e)
refs_from-refs (suc n) fd filp file =
    let e : suc fd + n ≡ fd + suc n = omega arith in
    let f : fd + 1 ≡ suc fd = omega arith in
    omega (
      arith,
      refs_from-refs n (suc fd) filp file,
      ap (λ (k : ℕ). refs k filp file) e,
      ap (λ (k : ℕ). refs_from n k filp file) f,
    )

share_from-refs :
    (n fd : ℕ) (filp : ℕ → Option ℕ) (count : ℕ → ℕ) (file : ℕ)
    → ((k : ℕ) → count k + refs_from n fd filp k < 65536)
    → share_from n fd filp count file ≡ count file + refs_from n fd filp file
unfolding share_from refs_from
share_from-refs zero fd filp count file h = omega arith
share_from-refs (suc n) fd filp count file h = elim (Option-cases (filp fd)) [
  | inl e ↦
      let small : (k : ℕ) → count k + refs_from n (fd + 1) filp k < 65536 =
        λ k. ground (arith, h k) in
      ground (arith, share_from-refs n (fd + 1) filp count file small)
  | inr (i, e) ↦
      let count' : ℕ → ℕ = update count i ((count i + 1) % 65536) in
      let small : (k : ℕ) → count' k + refs_from n (fd + 1) filp k < 65536 =
        λ k. ground (arith, h k, h i) in
      rw e (ground (arith, share_from-refs n (fd + 1) filp count' file small, h i))
]

-- All the descriptors of a task.
refs_from-all :
    (filp : ℕ → Option ℕ) (file : ℕ) → refs_from nr_open 0 filp file ≡ refs nr_open filp file
unfolding refs
refs_from-all filp file = omega (arith, refs_from-refs nr_open 0 filp file)

one_le : (o : Option ℕ) (i : ℕ) → one o i ≤ 1
one_le none i = omega arith
one_le (some k) i = ground arith

-- The inodes that the child uses too: the working directory, the root and the program.
abbrev shared : Parent → ℕ → ℕ
shared p i = one p.pwd i + one p.root i + one p.executable i

use_inode_lem :
    (o : Option ℕ) (users : ℕ → ℕ) (i : ℕ)
    → ((k : ℕ) → users k + 1 < 65536)
    → use_inode o users i ≡ users i + one o i
use_inode_lem none users i h = omega arith
use_inode_lem (some k) users i h = ground (arith, h i, h k)

use_inodes_lem :
    (a b c : Option ℕ) (users : ℕ → ℕ) (i : ℕ)
    → ((k : ℕ) → users k + 3 < 65536)
    → use_inode c (use_inode b (use_inode a users)) i ≡ users i + one a i + one b i + one c i
use_inodes_lem a b c users i h =
    let u1 : ℕ → ℕ = use_inode a users in
    let u2 : ℕ → ℕ = use_inode b u1 in
    let e1 : (k : ℕ) → u1 k ≡ users k + one a k =
      λ k. use_inode_lem a users k λ k. omega (arith, h k) in
    let e2 : (k : ℕ) → u2 k ≡ u1 k + one b k =
      λ k. use_inode_lem b u1 k λ k. omega (arith, h k, e1 k, one_le a k) in
    let e3 : use_inode c u2 i ≡ u2 i + one c i =
      use_inode_lem c u2 i λ k. omega (arith, h k, e1 k, e2 k, one_le a k, one_le b k) in
    omega (arith, e1 i, e2 i, e3)

-- The child runs in its slot, as a copy of its parent but for its id and its father, a full counter, no
-- signals and no alarm, and its times, and it leads no session; its registers are its parent's, but 0 is
-- what it returns; the other slots are as before; and the counts of files and inodes have one user more
-- for each that the child shares.
pub record IsForked (others : ℕ → ℕ) (nr : ℕ) (p : Parent) (s q : Processes) : Type 0 where
  pub child :
      q.table nr
      ≡ some (record p.task {
        state = TaskState.running;
        pid = pos p.last_pid;
        father = p.task.pid;
        counter = p.task.priority;
        signal = λ _. false;
        alarm = 0;
        leader = false;
        utime = 0;
        stime = 0;
        cutime = 0;
        cstime = 0;
      })
  pub rest : (k : ℕ) → k ≢ nr → q.table k ≡ s.table k
  pub filp : q.files.filp ≡ s.files.filp
  pub counted : IsCounted (λ file. others file + refs nr_open s.files.filp file) q.files
  pub users : (i : ℕ) → q.users i ≡ s.users i + shared p i
  pub registers : q.tss nr ≡ record p.regs {
    eax = 0;
    es = p.regs.es % 65536;
    cs = p.regs.cs % 65536;
    ss = p.regs.ss % 65536;
    ds = p.regs.ds % 65536;
    fs = p.regs.fs % 65536;
    gs = p.regs.gs % 65536;
  }

-- Nothing is left of the child.
pub record IsUndone (s q : Processes) : Type 0 where
  pub table : (k : ℕ) → q.table k ≡ s.table k
  pub files : q.files ≡ s.files
  pub users : q.users ≡ s.users

started-IsForked :
    (others : ℕ → ℕ) (nr page : ℕ) (p : Parent) (m : Memory) (s : Processes)
    → IsCounted others s.files
    → ((k : ℕ) → s.files.count k + refs nr_open s.files.filp k < 65536)
    → ((k : ℕ) → s.users k + 3 < 65536)
    → IsForked others nr p s (
        started nr p m (record s {
          table = update s.table nr (some (child_task p));
          tss = update s.tss nr (child_registers p.regs);
          esp0 = update s.esp0 nr (page + page_size);
        }))
started-IsForked others nr page p m s c small few = record {
  child = update_self (update s.table nr (some (child_task p))) nr _;
  rest = λ k ne.
      update_ne (update s.table nr (some (child_task p))) nr k _ ne ∙ update_ne s.table nr k _ ne;
  filp = refl;
  counted = λ file.
      let f : ℕ → Option ℕ = s.files.filp in
      let each : (k : ℕ) → s.files.count k + refs_from nr_open 0 f k < 65536 =
        λ k. omega (arith, small k, refs_from-all f k) in
      omega
        (arith, share_from-refs nr_open 0 f s.files.count file each, refs_from-all f file, c file);
  users = λ i. use_inodes_lem p.pwd p.root p.executable s.users i few ∙ omega arith;
  registers = update_self s.tss nr (child_registers p.regs);
}

-- The two outcomes of a fork: the child's id and the child, or -EAGAIN and nothing.
abbrev pub Forks : (ℕ → ℕ) → ℕ → Parent → Processes → ℤ × Processes → Type 0
Forks others nr p s r =
    ((r.0 ≡ pos p.last_pid) × IsForked others nr p s r.1) ⊎ ((r.0 ≡ err eagain) × IsUndone s r.1)

module _ (others : ℕ → ℕ) (nr : ℕ) (p : Parent) (s : Processes) where
  undone : (m : Memory) → s.table nr ≡ none → IsUndone s (record s { memory = m })
  undone m free = record { table = λ k. refl; files = refl; users = refl }

  abbrev with_child : ℕ → Processes
  with_child page = record s {
    table = update s.table nr (some (child_task p));
    tss = update s.tss nr (child_registers p.regs);
    esp0 = update s.esp0 nr (page + page_size);
  }

  -- The slot is empty again.
  emptied_slot :
      (page : ℕ) (m : Memory)
      → s.table nr ≡ none
      → IsUndone s
          (record (with_child page) { table = update (with_child page).table nr none; memory = m })
  emptied_slot page m free = record {
    table = λ k. elim (ℕ_discrete k nr) [
      | yes e ↦
          ap (update (with_child page).table nr none) e
          ∙ update_self (with_child page).table nr none
          ∙ sym free
          ∙ ap s.table (sym e)
      | no ne ↦
          update_ne (with_child page).table nr k none ne
          ∙ update_ne s.table nr k (some (child_task p)) ne
    ];
    files = refl;
    users = refl;
  }

-- While the counts of files are right, and neither they nor those of inodes overflow, `copy_process` on
-- an empty slot either returns the new id with the child in its slot: running, with the new id, its
-- parent as father, a full counter, no signals, no alarm, all times 0 and not a leader, the rest as its
-- parent has it, the parent's registers but 0 to return, and its descriptors and inodes counted; or it
-- returns -EAGAIN, and the table of tasks, the files and the counts of inodes are as they were.
pub copy_process-Forks :
    (others : ℕ → ℕ) (nr : ℕ) (p : Parent) (s q : Processes) (v : ℤ)
    → IsCounted others s.files
    → ((k : ℕ) → s.files.count k + refs nr_open s.files.filp k < 65536)
    → ((k : ℕ) → s.users k + 3 < 65536)
    → s.table nr ≡ none
    → copy_process nr p s ≡ done (v, q)
    → Forks others nr p s (v, q)
unfolding copy_process
copy_process-Forks others nr p s q v c small few free h =
    let got = get_free_page s.memory in
    let page : ℕ = got.0 in
    elim (Bool-cases (page == 0)) [
      | inl no_page ↦
          let e =
            done-inj (err eagain, record s { memory = got.1 }) (v, q)
              (sym (if-true (page == 0) _ _ no_page) ∙ h) in
          subst (Forks others nr p s) e (inr (refl, undone others nr p s got.1 free))
      | inr there ↦
          let ((w, base, m), _, g) =
            bind-done (copy_mem nr p.segments got.1) _ (v, q)
              (sym (if-false (page == 0) _ _ there) ∙ h) in
          elim (Bool-cases (eq_ℤ w (pos 0))) [
            | inl copied ↦
                let e =
                  done-inj (pos p.last_pid, started nr p m (with_child others nr p s page)) (v, q)
                    (sym (if-true (eq_ℤ w (pos 0)) _ _ copied) ∙ g) in
                subst (Forks others nr p s) e
                  (inl (refl, started-IsForked others nr page p m s c small few))
            | inr short ↦
                let (m', _, g') =
                  bind-done (free_page page m) _ (v, q)
                    (sym (if-false (eq_ℤ w (pos 0)) _ _ short) ∙ g) in
                subst (Forks others nr p s) (done-inj (err eagain, _) (v, q) g')
                  (inr (refl, emptied_slot others nr p s page m' free))
          ]
    ]
