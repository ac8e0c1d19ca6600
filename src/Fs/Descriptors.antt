-- ===== src/Fs/Descriptors.antt =====
-- fs/fcntl.c and fs/open.c: the file descriptors of the current task, and the table of open files.
pub mod Count
pub mod Tests
use linux_0_11_notes.Prelude.{
  Bits, Bool, List, Option, Outcome, done, err, if◌then◌else◌, leb, none, panicked, pos, some, suc,
  update, without_bit, zero, ℕ, ℤ, ◌%◌, ◌+◌, ◌-◌, ◌/◌, ◌==◌, ◌>>=◌, ◌>>◌, ◌^◌, ◌||◌, ◌∷◌,
}
use linux_0_11_notes.Kernel.Kill.{einval}

-- `filp` gives the number in `file_table` of each descriptor's file. `count` and `flags` are
-- `f_count` and `f_flags`, and `node` and `offset` are `f_inode` and `f_pos`. `put` lists the inodes
-- that `iput` was called on, the last first.
pub record Files : Type 0 where
  pub filp : ℕ → Option ℕ
  pub close_on_exec : Bits
  pub count : ℕ → ℕ
  pub flags : ℕ → Bits
  pub node : ℕ → ℕ
  pub offset : ℕ → ℕ
  pub put : List ℕ

abbrev pub nr_open : ℕ
nr_open = 20

abbrev pub nr_file : ℕ
nr_file = 64

abbrev pub ebadf : ℕ
ebadf = 9

abbrev pub emfile : ℕ
emfile = 24

-- The first of n descriptors from `arg` on that is free.
unfoldable pub lowest_free : ℕ → ℕ → (ℕ → Option ℕ) → Option ℕ
lowest_free zero arg filp = none
lowest_free (suc n) arg filp = elim (filp arg) [
  | none ↦ some arg
  | some _ ↦ lowest_free n (arg + 1) filp
]

-- `(current->filp[new] = file)->f_count++` on an unsigned short, and the close-on-exec bit cleared.
unfoldable pub share_file : ℕ → ℕ → Files → Files
share_file new file f = record f {
  close_on_exec = without_bit f.close_on_exec new;
  filp = update f.filp new (some file);
  count = update f.count file ((f.count file + 1) % 65536);
}

unfoldable pub dupfd : ℕ → ℕ → Files → ℤ × Files
unfolding lowest_free share_file
dupfd fd arg f = if leb nr_open fd then (err ebadf, f) else elim (f.filp fd) [
  | none ↦ (err ebadf, f)
  | some file ↦
      if leb nr_open arg then (err einval, f) else elim (lowest_free (nr_open - arg) arg f.filp) [
        | none ↦ (err emfile, f)
        | some new ↦ (pos new, share_file new file f)
      ]
]

-- The file loses a descriptor, and its last one gives the inode back.
abbrev pub without_fd : ℕ → ℕ → Files → Files
without_fd fd file f = record f {
  close_on_exec = without_bit f.close_on_exec fd;
  filp = update f.filp fd none;
  count = update f.count file (f.count file - 1);
  put = if f.count file == 1 then f.node file ∷ f.put else f.put;
}

unfoldable pub drop_file : ℕ → ℕ → Files → Outcome Files
drop_file fd file f = if f.count file == 0 then panicked else done (without_fd fd file f)

unfoldable pub sys_close : ℕ → Files → Outcome (ℤ × Files)
unfolding drop_file
sys_close fd f = if leb nr_open fd then done (err einval, f) else elim (f.filp fd) [
  | none ↦ done (err einval, record f { close_on_exec = without_bit f.close_on_exec fd })
  | some file ↦ (do f' ← drop_file fd file f; done (pos 0, f'))
]

unfoldable pub sys_dup2 : ℕ → ℕ → Files → Outcome (ℤ × Files)
unfolding sys_close dupfd
sys_dup2 oldfd newfd f = do (_, f') ← sys_close newfd f; done (dupfd oldfd newfd f')

unfoldable pub sys_dup : ℕ → Files → ℤ × Files
unfolding dupfd
sys_dup fildes f = dupfd fildes 0 f

-- A flag word read back as a number.
unfoldable pub bits_value : ℕ → Bits → ℕ
bits_value zero w = 0
bits_value (suc n) w = bits_value n w + (if w n then 2 ^ n else 0)

-- Bits 10 and 11: O_APPEND and O_NONBLOCK, which F_SETFL may change.
abbrev pub is_settable : ℕ → Bool
is_settable k = k == 10 || k == 11

abbrev pub bit_of : ℕ → Bits
bit_of n k = n / 2 ^ k % 2 == 1

-- F_DUPFD, F_GETFD, F_SETFD, F_GETFL and F_SETFL are 0 to 4; the rest are refused.
unfoldable pub sys_fcntl : ℕ → ℕ → ℕ → Files → ℤ × Files
unfolding dupfd bits_value
sys_fcntl fd cmd arg f = if leb nr_open fd then (err ebadf, f) else elim (f.filp fd) [
  | none ↦ (err ebadf, f)
  | some file ↦
      if cmd == 0
      then dupfd fd arg f
      else if cmd == 1
      then (pos (if f.close_on_exec fd then 1 else 0), f)
      else if cmd == 2
      then (pos 0, record f { close_on_exec = update f.close_on_exec fd (arg % 2 == 1) })
      else if cmd == 3
      then (pos (bits_value 16 (f.flags file)), f)
      else if cmd == 4
      then (
        pos 0,
        record f {
          flags = update f.flags file (λ k. if is_settable k then bit_of arg k else f.flags file k);
        },
      )
      else (err 1, f)
]
