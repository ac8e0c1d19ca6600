-- ===== src/Fs/Descriptors/Count.antt =====
-- `f_count` counts the descriptors that name a file.
use linux_0_11_notes.Prelude.{
  Option, Option-cases, arith, done, err, false, if◌then◌else◌, inl, inr, none, pos, refl, some,
  subst, suc, sym, update, zero, ℕ, ℕ_discrete, ◌+◌, ◌-◌, ◌<◌, ◌==◌, ◌∷◌, ◌≡◌, ◌≢◌, ◌≤◌,
}
use linux_0_11_notes.Fs.Descriptors.{
  Files, drop_file, dupfd, ebadf, lowest_free, nr_open, share_file, sys_close, sys_dup2, without_fd,
}
use linux_0_11_notes.Kernel.Sched.{above}

abbrev pub one : Option ℕ → ℕ → ℕ
one none file = 0
one (some i) file = if i == file then 1 else 0

-- The descriptors below n of the current task that name the file.
unfoldable pub refs : ℕ → (ℕ → Option ℕ) → ℕ → ℕ
refs zero filp file = 0
refs (suc n) filp file = refs n filp file + one (filp n) file

refs-above :
    (n k file : ℕ) (filp : ℕ → Option ℕ) (v : Option ℕ)
    → n ≤ k
    → refs n (update filp k v) file ≡ refs n filp file
unfolding refs
refs-above zero k file filp v h = refl
refs-above (suc n) k file filp v h = ground (arith, refs-above n k file filp v)

refs-update :
    (n k file : ℕ) (filp : ℕ → Option ℕ) (v : Option ℕ)
    → k < n
    → refs n (update filp k v) file + one (filp k) file ≡ refs n filp file + one v file
unfolding refs
refs-update zero k file filp v h = absurd (omega arith)
refs-update (suc n) k file filp v h = elim (ℕ_discrete k n) [
  | yes e ↦ ground (arith, refs-above n k file filp v)
  | no e ↦ ground (arith, refs-update n k file filp v)
]

-- `others` is how many descriptors of other tasks name each file.
abbrev pub IsCounted : (ℕ → ℕ) → Files → Type 0
IsCounted others f = (file : ℕ) → f.count file ≡ others file + refs nr_open f.filp file

pub refs-positive :
    (n fd file : ℕ) (filp : ℕ → Option ℕ) → fd < n → filp fd ≡ some file → 0 < refs n filp file
unfolding refs
refs-positive zero fd file filp h e = absurd (omega arith)
refs-positive (suc n) fd file filp h e = elim (ℕ_discrete fd n) [
  | yes q ↦ ground arith
  | no q ↦ ground (arith, refs-positive n fd file filp)
]

pub without_fd-IsCounted :
    (others : ℕ → ℕ) (fd file : ℕ) (f : Files)
    → IsCounted others f
    → fd < nr_open
    → f.filp fd ≡ some file
    → IsCounted others (without_fd fd file f)
without_fd-IsCounted others fd file f c h e k = ground (
  arith,
  c k,
  c file,
  refs-positive nr_open fd file f.filp h e,
  refs-update nr_open fd k f.filp none h,
)

-- While `f_count` counts the descriptors, closing an open one does not panic, keeps the counts
-- right, and gives the inode back exactly if no other descriptor names the file.
pub close-IsCounted :
    (others : ℕ → ℕ) (fd file : ℕ) (f : Files)
    → IsCounted others f
    → fd < nr_open
    → f.filp fd ≡ some file
    → (f' : Files) × (sys_close fd f ≡ done (pos 0, f'))
      × IsCounted others f'
      × (f'.filp fd ≡ none)
      × (f'.put ≡ (if f'.count file == 0 then f.node file ∷ f.put else f.put))
unfolding sys_close drop_file
close-IsCounted others fd file f c h e =
    let pos : 0 < f.count file = ground (arith, c file, refs-positive nr_open fd file f.filp h e) in
    (
      without_fd fd file f,
      ground arith,
      without_fd-IsCounted others fd file f c h e,
      ground arith,
      ground arith,
    )

share_file-IsCounted :
    (others : ℕ → ℕ) (new file : ℕ) (f : Files)
    → IsCounted others f
    → new < nr_open
    → f.filp new ≡ none
    → f.count file < 65535
    → IsCounted others (share_file new file f)
unfolding share_file
share_file-IsCounted others new file f c h e small k =
    ground (arith, c k, c file, refs-update nr_open new k f.filp (some file) h)

lowest_free_lem :
    (n arg new : ℕ) (filp : ℕ → Option ℕ)
    → lowest_free n arg filp ≡ some new
    → (arg ≤ new)
      × (new < arg + n)
      × (filp new ≡ none)
      × ((k : ℕ) → arg ≤ k → k < new → filp k ≢ none)
unfolding lowest_free
lowest_free_lem zero arg new filp h = absurd (ground arith)
lowest_free_lem (suc n) arg new filp h = elim (Option-cases (filp arg)) [
  | inl e ↦ (ground arith, ground arith, ground arith, λ k lo hi. absurd (ground arith))
  | inr (i, e) ↦
      let (above, below, free, first) = lowest_free_lem n (arg + 1) new filp (ground arith) in
      (
        omega arith,
        omega arith,
        free,
        λ k lo hi. elim (ℕ_discrete k arg) [
          | yes q ↦ ground arith
          | no q ↦ first k (omega arith) hi
        ],
      )
]

-- A descriptor from `arg` on, the first that was free, and what it names.
pub record IsDup (fd arg new : ℕ) (f f' : Files) : Type 0 where
  pub above : arg ≤ new
  pub in_range : new < nr_open
  pub was_free : f.filp new ≡ none
  pub lowest : (k : ℕ) → arg ≤ k → k < new → f.filp k ≢ none
  pub same_file : f'.filp new ≡ f.filp fd
  pub unchanged : (k : ℕ) → k ≢ new → f'.filp k ≡ f.filp k
  pub kept_on_exec : f'.close_on_exec new ≡ false

dupfd_success :
    (fd arg new : ℕ) (f f' : Files)
    → dupfd fd arg f ≡ (pos new, f')
    → (file : ℕ) × (f.filp fd ≡ some file)
      × (arg < nr_open)
      × (lowest_free (nr_open - arg) arg f.filp ≡ some new)
      × (f' ≡ share_file new file f)
unfolding dupfd
dupfd_success fd arg new f f' h = elim (Option-cases (f.filp fd)) [
  | inl e ↦ absurd (ground arith)
  | inr (file, e) ↦ elim (Option-cases (lowest_free (nr_open - arg) arg f.filp)) [
    | inl q ↦ absurd (ground arith)
    | inr (n, q) ↦ (file, e, ground arith, ground arith, ground arith)
  ]
]

-- Where `dupfd` succeeds, it returns the lowest free descriptor from its argument on, which names
-- the same file and is not closed on exec; no other descriptor changes, and `f_count` still counts
-- the descriptors, as long as it does not overflow.
dupfd-IsDup :
    (others : ℕ → ℕ) (fd arg new : ℕ) (f f' : Files)
    → IsCounted others f
    → ((file : ℕ) → f.count file < 65535)
    → dupfd fd arg f ≡ (pos new, f')
    → IsDup fd arg new f f' × IsCounted others f'
unfolding dupfd share_file
dupfd-IsDup others fd arg new f f' c small h =
    let (file, names, small_arg, found, e) = dupfd_success fd arg new f f' h in
    let (above, below, free, first) = lowest_free_lem (nr_open - arg) arg new f.filp found in
    let inside : new < nr_open = omega arith in
    subst (λ g. IsDup fd arg new f g × IsCounted others g) (sym e)
      (
        record {
          above = above;
          in_range = inside;
          was_free = free;
          lowest = first;
          same_file = ground arith;
          unchanged = λ k ne. ground arith;
          kept_on_exec = ground arith;
        },
        share_file-IsCounted others new file f c inside free (small file),
      )

-- `dup2` of an open descriptor onto itself fails, and the descriptor is closed.
dup2_self :
    (others : ℕ → ℕ) (fd file : ℕ) (f : Files)
    → IsCounted others f
    → fd < nr_open
    → f.filp fd ≡ some file
    → (f' : Files) × (sys_dup2 fd fd f ≡ done (err ebadf, f')) × (f'.filp fd ≡ none)
unfolding sys_dup2 dupfd
dup2_self others fd file f c h e =
    let (f', d, _, closed, _) = close-IsCounted others fd file f c h e in (f', ground arith, closed)
