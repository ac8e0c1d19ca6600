-- ===== src/Fs/Bitmap/Inodes.antt =====
-- fs/bitmap.c: `free_inode` and `new_inode`.
use linux_0_11_notes.Prelude.{
  Bool, Option, Option-cases, Outcome, arith, done, false, if◌then◌else◌, inl, inr, ltb, none, not,
  panicked, some, true, ℕ, ◌%◌, ◌*◌, ◌+◌, ◌/◌, ◌==◌, ◌>>=◌, ◌||◌, ◌≡◌, ◌≤◌,
}
use linux_0_11_notes.Fs.Bitmap.{MapBlock, Super, find_bit, map_bits, put_bit}
use linux_0_11_notes.Fs.Bitmap.Lowest.{IsLowest, find_bit-IsLowest}
use linux_0_11_notes.Kernel.Task.{Task}

-- What they read and set of an inode.
pub record Inode : Type 0 where
  pub dev : ℕ
  pub num : ℕ
  pub count : ℕ
  pub nlinks : ℕ
  pub uid : ℕ
  pub gid : ℕ
  pub dirt : Bool
  pub times : ℕ × ℕ × ℕ

-- `memset(inode, 0, sizeof(*inode))`.
abbrev pub no_inode : Inode
no_inode = record {
  dev = 0;
  num = 0;
  count = 0;
  nlinks = 0;
  uid = 0;
  gid = 0;
  dirt = false;
  times = (0, 0, 0);
}

abbrev pub is_there : Option MapBlock → Bool
is_there none = false
is_there (some _) = true

-- A bit that is clear already gets a message only.
unfoldable pub clear_inode : Inode → Super → Outcome (Inode × Super)
unfolding put_bit
clear_inode inode sb =
    if inode.num == 0 || ltb sb.ninodes inode.num
    then panicked
    else if not (is_there (sb.imap (inode.num / map_bits)))
    then panicked
    else done (
      no_inode,
      record sb { imap = put_bit false (inode.num / map_bits) (inode.num % map_bits) sb.imap },
    )

-- `sb` is what `get_super` gives for the device of the inode; `none` for the inode is a null pointer.
unfoldable pub free_inode : Option Inode → Option Super → Outcome (Option Inode × Option Super)
unfolding clear_inode
free_inode none sb = done (none, sb)
free_inode (some inode) sb =
    if inode.dev == 0
    then done (some no_inode, sb)
    else if ltb 1 inode.count
    then panicked
    else if not (inode.nlinks == 0)
    then panicked
    else elim sb [
      | none ↦ panicked
      | some s ↦ (do (i, s') ← clear_inode inode s; done (some i, some s'))
    ]

-- `empty` is the inode of `get_empty_inode`. It goes back by `iput` where no number is free; `true`
-- says so.
unfoldable pub new_inode :
    Option Inode → ℕ → ℕ → Option Super → Task → Outcome (Option Inode × Bool × Option Super)
unfolding find_bit put_bit
new_inode none dev now sb current = done (none, false, sb)
new_inode (some inode) dev now none current = panicked
new_inode (some inode) dev now (some sb) current = elim (find_bit 8 0 sb.imap) [
  | none ↦ done (none, true, some sb)
  | some (i, j) ↦
      if ltb sb.ninodes (j + i * map_bits)
      then done (none, true, some sb)
      else done (
        some (record {
          dev = dev;
          num = j + i * map_bits;
          count = 1;
          nlinks = 1;
          uid = current.euid;
          gid = current.egid % 256;
          dirt = true;
          times = (now, now, now);
        }),
        false,
        some (record sb { imap = put_bit true i j sb.imap }),
      )
]

-- The number of a new inode is at most `s_ninodes`, and its bit was the lowest clear one.
new_inode_lem :
    (inode new : Inode) (dev now : ℕ) (sb : Super) (osb : Option Super) (back : Bool)
    (current : Task)
    → new_inode (some inode) dev now (some sb) current ≡ done (some new, back, osb)
    → (new.num ≤ sb.ninodes) × IsLowest 0 (new.num / map_bits) (new.num % map_bits) sb.imap
unfolding new_inode
new_inode_lem inode new dev now sb osb back current h = elim (Option-cases (find_bit 8 0 sb.imap)) [
  | inl e ↦ absurd (ground arith)
  | inr (ij, e) ↦
      let (l, _) = find_bit-IsLowest 8 0 ij.0 ij.1 sb.imap e in
      let n : new.num ≡ ij.1 + ij.0 * map_bits = ground arith in
      let p : new.num / map_bits ≡ ij.0 = omega (arith, l.small) in
      let q : new.num % map_bits ≡ ij.1 = omega (arith, l.small) in rw (p, q) (ground arith, l)
]
