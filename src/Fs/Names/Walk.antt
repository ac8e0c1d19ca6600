-- ===== src/Fs/Names/Walk.antt =====
-- `get_dir`, `dir_namei` and `namei` of fs/namei.c. A path is the list of its bytes before the zero.
use linux_0_11_notes.Prelude.{
  Bool, List, Option, [], false, if◌then◌else◌, length, none, not, some, suc, true, zero, ℕ, ◌%◌,
  ◌+◌, ◌==◌, ◌||◌, ◌∷◌,
}
use linux_0_11_notes.Fs.Inode.{iget, iput}
use linux_0_11_notes.Fs.Names.{Caller, Entry, entry_inode, find_entry, may_exec, permission}
use linux_0_11_notes.Fs.Store.{Call, Store, brelse, crash, edit, give, look, runs_on, ◌>>=◌, ◌>>◌}
use linux_0_11_notes.Fs.Truncate.{is_dir}

-- A name up to the next '/', and what follows that, if there is one.
unfoldable pub split_name : List ℕ → List ℕ × Option (List ℕ)
split_name [] = ([], none)
split_name (c ∷ cs) =
    let rest = split_name cs in if c == b'/' then ([], some cs) else (c ∷ rest.0, rest.1)

-- The inode and the device of an entry, which is given back then.
unfoldable pub entry_number : ℕ → Entry → Call (ℕ × ℕ)
entry_number dir e = do
  s ← look
  let dev = (s.inode dir).dev
  brelse dev e.block
  give (entry_inode e.place (s.content dev e.block), dev)

-- The loop of `get_dir`: each turn takes a name and a '/' off the path.
unfoldable pub walk : ℕ → Caller → ℕ → List ℕ → Call (Option ℕ)
unfolding split_name entry_number permission find_entry iput iget
walk zero me i path = λ s. runs_on
walk (suc fuel) me i path = do
  s ← look
  if not (is_dir (s.inode i).mode) || not (permission me (s.inode i) may_exec)
      then (do iput i; give none)
      else elim (split_name path).1 [
        | none ↦ give (some i)
        | some rest ↦ (do
          (dir, found) ← find_entry me i (split_name path).0
          elim found [
            | none ↦ (do iput dir; give none)
            | some e ↦ (do
              (nr, dev) ← entry_number dir e
              iput dir
              next ← iget dev nr
              walk fuel me next rest)
          ])
      ]

-- A slot that is there and in use.
abbrev pub in_use : Option ℕ → Store → Bool
in_use none s = false
in_use (some i) s = not ((s.inode i).count == 0)

abbrev start_at : ℕ → Caller → Option ℕ → List ℕ → Call (Option ℕ)
start_at fuel me none path = crash
start_at fuel me (some i) path = do
  edit i (λ n. record n { count = (n.count + 1) % 65536 })
  walk fuel me i path

abbrev from_start : ℕ → Caller → List ℕ → Call (Option ℕ)
from_start fuel me [] = give none
from_start fuel me (c ∷ cs) =
    if c == b'/' then start_at fuel me me.root cs else start_at fuel me me.pwd (c ∷ cs)

unfoldable pub get_dir : Caller → List ℕ → Call (Option ℕ)
unfolding walk
get_dir me path = do
  s ← look
  if not (in_use me.root s) || not (in_use me.pwd s)
      then crash
      else from_start (length path + 1) me path

-- The loop of `dir_namei`: what follows the last '/', `base` so far.
unfoldable pub base_name : List ℕ → List ℕ → List ℕ
base_name [] base = base
base_name (c ∷ cs) base = base_name cs (if c == b'/' then cs else base)

unfoldable pub dir_namei : Caller → List ℕ → Call (Option (ℕ × List ℕ))
unfolding get_dir base_name
dir_namei me path = do
  dir ← get_dir me path
  elim dir [ none ↦ give none | some i ↦ give (some (i, base_name path path)) ]

unfoldable pub namei : Caller → List ℕ → Call (Option ℕ)
unfolding dir_namei find_entry entry_number iput iget
namei me path = do
  found ← dir_namei me path
  elim found [
    | none ↦ give none
    | some (dir0, base) ↦ if length base == 0 then give (some dir0) else (do
      (dir, entry) ← find_entry me dir0 base
      elim entry [
        | none ↦ (do iput dir; give none)
        | some e ↦ (do
          (nr, dev) ← entry_number dir e
          iput dir
          i ← iget dev nr
          s ← look
          edit i (λ n. record n { atime = s.now; dirt = true })
          give (some i))
      ])
  ]
