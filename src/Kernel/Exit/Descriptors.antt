-- ===== src/Kernel/Exit/Descriptors.antt =====
-- `do_exit` of kernel/exit.c closes every descriptor.
use linux_0_11_notes.Prelude.{
  Option-cases, arith, done, if◌then◌else◌, inl, inr, leb, ltb, none, pos, refl, some, suc, zero, ℕ,
  ℕ_discrete, ◌&&◌, ◌+◌, ◌<◌, ◌≡◌, ◌≤◌,
}
use linux_0_11_notes.Fs.Descriptors.{Files, drop_file, nr_open, sys_close, without_fd}
use linux_0_11_notes.Fs.Descriptors.Count.{IsCounted, refs-positive, without_fd-IsCounted}
use linux_0_11_notes.Kernel.Exit.{close_all}

close_open :
    (others : ℕ → ℕ) (fd file : ℕ) (f : Files)
    → IsCounted others f
    → fd < nr_open
    → f.filp fd ≡ some file
    → sys_close fd f ≡ done (pos 0, without_fd fd file f)
unfolding sys_close drop_file
close_open others fd file f c h e =
    let some_use : 0 < f.count file =
      ground (arith, c file, refs-positive nr_open fd file f.filp h e) in
    ground arith

-- n descriptors from fd on are closed, and the others are as before.
pub close_all_lem :
    (n fd : ℕ) (others : ℕ → ℕ) (f : Files)
    → fd + n ≤ nr_open
    → IsCounted others f
    → (f' : Files) × (close_all n fd f ≡ done f')
      × IsCounted others f'
      × ((k : ℕ) → f'.filp k ≡ (if leb fd k && ltb k (fd + n) then none else f.filp k))
unfolding close_all
close_all_lem zero fd others f le c = (f, refl, c, λ k. ground arith)
close_all_lem (suc n) fd others f le c = elim (Option-cases (f.filp fd)) [
  | inl e ↦
      let (f', r, c', closed) = close_all_lem n (fd + 1) others f (omega arith) c in
      (
        f',
        rw (close_all, e) r,
        c',
        λ k. elim (ℕ_discrete k fd) [
          | yes q ↦ rw q (ground (arith, closed fd))
          | no q ↦ ground (arith, closed k)
        ],
      )
  | inr (file, e) ↦
      let g : Files = without_fd fd file f in
      let (f', r, c', closed) =
        close_all_lem n (fd + 1) others g (omega arith)
          (without_fd-IsCounted others fd file f c (omega arith) e) in
      (
        f',
        rw (close_all, e, close_open others fd file f c (omega arith) e) r,
        c',
        λ k. ground (arith, closed k),
      )
]
