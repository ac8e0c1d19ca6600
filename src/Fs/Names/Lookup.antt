-- ===== src/Fs/Names/Lookup.antt =====
-- `find_entry` of fs/namei.c against a search that looks at one entry after the other.
use linux_0_11_notes.Prelude.{
  List, Option, if◌then◌else◌, none, some, suc, zero, ℕ, ◌%◌, ◌+◌, ◌/◌, ◌<◌, ◌==◌, ◌≡◌, ◌≤◌, ◌⊎◌,
}
use linux_0_11_notes.Fs.Inode.Blocks.{file_block, held}
use linux_0_11_notes.Fs.Names.{Entry, Loaded, at, entries_per_block, matches, missing, unreadable}
use linux_0_11_notes.Fs.Store.{Run, Store, returns, ◌>>=◌, ◌>>◌}

-- Where entry i of a directory is.
unfoldable pub located : Store → ℕ → ℕ → Loaded
located s dir i =
    let b : ℕ = file_block s dir (i / entries_per_block) in
    if b == 0
    then missing
    else if s.broken (s.inode dir).dev b
    then unreadable
    else at b (i % entries_per_block)

abbrev pub entry_at : Store → ℕ → List ℕ → Loaded → Option Entry → Option Entry
entry_at s dir name (at b k) later =
    if matches name k (s.content (s.inode dir).dev b)
    then some (record { block = b; place = k })
    else later
entry_at s dir name missing later = later
entry_at s dir name unreadable later = later

-- The first of n entries from entry i on that has the name.
unfoldable pub first_entry : ℕ → Store → ℕ → List ℕ → ℕ → Option Entry
first_entry zero s dir name i = none
first_entry (suc n) s dir name i =
    entry_at s dir name (located s dir i) (first_entry n s dir name (i + 1))

-- The state in which the block is in use once more.
abbrev pub hold : ℕ → Option ℕ → Store → Store
hold dir none s = s
hold dir (some b) s = held (s.inode dir).dev b s

abbrev block_of : Loaded → Option ℕ
block_of (at b k) = some b
block_of missing = none
block_of unreadable = none

abbrev pub entry_block : Option Entry → Option ℕ
entry_block none = none
entry_block (some e) = some e.block

located-block :
    (s : Store) (dir i i' : ℕ)
    → i' / 64 ≡ i / 64
    → i' % 64 ≡ i % 64
    → located s dir i' ≡ located s dir i
unfolding located
located-block s dir i i' e f = rw (e, f)

-- An entry whose block is not there.
abbrev IsAbsent : Store → ℕ → ℕ → Type 0
IsAbsent s dir i = (located s dir i ≡ missing) ⊎ (located s dir i ≡ unreadable)

module _ (s : Store) (dir : ℕ) where
  abbrev d : ℕ
  d = (s.inode dir).dev

  abbrev loaded : Loaded → Run Loaded
  loaded l = returns l (hold dir (block_of l) s)

  -- The last block is in use, and entry i is at place j of it, or at its start if j is past the end.
  abbrev Ready : ℕ → Option ℕ → ℕ → Type 0
  Ready i none j = i % 64 ≡ 0
  Ready i (some b) j = ((located s dir i ≡ at b j) × (j < 64)) ⊎ ((64 ≤ j) × (i % 64 ≡ 0))

  abbrev found : Option Entry → Run (Option Entry)
  found r = returns r (hold dir (entry_block r) s)
