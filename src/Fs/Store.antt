-- ===== src/Fs/Store.antt =====
-- The state that fs/inode.c, fs/truncate.c, fs/namei.c, fs/super.c and fs/file_dev.c share, and how
-- they use the buffer cache: `bread` gives the contents of a block, which count it until `brelse`.
-- What goes on while a call sleeps for the disk is left out here; a wait for a lock ends the run.
pub mod Words
pub mod Layout
use linux_0_11_notes.Prelude.{
  Bool, Option, ap, arith, done, exited, false, if◌then◌else◌, leb, ltb, none, not, panicked, refl,
  some, suc, true, update, zero, ℕ, ◌+◌, ◌-◌, ◌==◌, ◌||◌, ◌≡◌,
}
use linux_0_11_notes.Fs.Bitmap.{Super, clear_zone, take_block}
use linux_0_11_notes.Fs.Pipe.{broken}
use linux_0_11_notes.Kernel.Signal.{num}

-- struct m_inode, without what waits on it.
pub record MInode : Type 0 where
  pub mode : ℕ
  pub uid : ℕ
  pub size : ℕ
  pub mtime : ℕ
  pub gid : ℕ
  pub nlinks : ℕ
  pub zone : ℕ → ℕ
  pub atime : ℕ
  pub ctime : ℕ
  pub dev : ℕ
  pub num : ℕ
  pub count : ℕ
  pub lock : Bool
  pub dirt : Bool
  pub pipe : Bool
  pub mount : Bool

-- struct super_block; `maps` has its numbers and its two maps. The inodes are slots of the table.
pub record SuperBlock : Type 0 where
  pub dev : ℕ
  pub maps : Super
  pub imap_blocks : ℕ
  pub zmap_blocks : ℕ
  pub lock : Bool
  pub isup : Option ℕ
  pub imount : Option ℕ

-- `users` is `b_count` of the buffer of a block; a block that nobody uses need not have one. The
-- device cannot read the blocks of `broken`.
pub record Store : Type 0 where
  pub inode : ℕ → MInode
  pub last_inode : ℕ
  pub super : ℕ → SuperBlock
  pub content : ℕ → ℕ → ℕ → ℕ
  pub users : ℕ → ℕ → ℕ
  pub dirty : ℕ → ℕ → Bool
  pub broken : ℕ → ℕ → Bool
  pub now : ℕ

abbrev pub nr_inode : ℕ
nr_inode = 32

abbrev pub nr_super : ℕ
nr_super = 8

abbrev pub block_size : ℕ
block_size = 1024

-- What a run comes to: a value and the state; a panic; a wait for a lock that another task holds; or
-- more turns of a loop than it has fuel for.
pub data Run {ℓ} (A : Type ℓ) : Type ℓ where
  returns : A → Store → Run A
  panics : Run A
  sleeps : Run A
  runs_on : Run A

abbrev pub Call {ℓ} : Type ℓ → Type ℓ
Call A = Store → Run A

infixl 5 ◌>>=◌ ◌>>◌
abbrev pub ◌>>=◌ {ℓ κ} : {A : Type ℓ} {B : Type κ} → Call A → (A → Call B) → Call B
◌>>=◌ m f s = elim (m s) [
  | returns a s' ↦ f a s'
  | panics ↦ panics
  | sleeps ↦ sleeps
  | runs_on ↦ runs_on
]

abbrev pub ◌>>◌ {ℓ} : {B : Type ℓ} → Call (Unit {0}) → Call B → Call B
m >> k = m >>= λ _. k

abbrev pub give {ℓ} : {A : Type ℓ} → A → Call A
give a s = returns a s

abbrev pub crash {ℓ} : {A : Type ℓ} → Call A
crash s = panics

-- The state, and a change of it.
abbrev pub look : Call Store
look s = returns s s

abbrev pub change : (Store → Store) → Call (Unit {0})
change f s = returns tt (f s)

abbrev pub nothing_to_do : Call (Unit {0})
nothing_to_do = give tt

-- A change of one inode.
abbrev pub set_inode : ℕ → MInode → Store → Store
set_inode i n s = record s { inode = update s.inode i n }

abbrev pub edit : ℕ → (MInode → MInode) → Call (Unit {0})
edit i f = change (λ s. set_inode i (f (s.inode i)) s)

abbrev pub update_at {ℓ} : {A : Type ℓ} → (ℕ → ℕ → A) → ℕ → ℕ → A → ℕ → ℕ → A
update_at f d b v = update f d (update (f d) b v)

-- `bread`: whether the block could be read; then it has one user more.
unfoldable pub bread : ℕ → ℕ → Call Bool
bread dev b s =
    if s.broken dev b
    then returns false s
    else returns true (record s { users = update_at s.users dev b (s.users dev b + 1) })

unfoldable pub brelse : ℕ → ℕ → Call (Unit {0})
brelse dev b s =
    if s.users dev b == 0
    then panics
    else returns tt (record s { users = update_at s.users dev b (s.users dev b - 1) })

-- `b_dirt = 1` after a change of the contents.
abbrev pub write_block : ℕ → ℕ → (ℕ → ℕ) → Call (Unit {0})
write_block dev b f =
    change (λ s. record s {
      content = update_at s.content dev b f;
      dirty = update_at s.dirty dev b true;
    })

-- The slot of the device in the table of super blocks, from slot k on.
unfoldable pub find_super : ℕ → ℕ → ℕ → (ℕ → SuperBlock) → Option ℕ
find_super zero k dev t = none
find_super (suc n) k dev t =
    let rest = find_super n (k + 1) dev t in if (t k).dev == dev then some k else rest

unfoldable pub get_super : ℕ → Call (Option ℕ)
unfolding find_super
get_super dev s = if dev == 0 then returns none s else elim (find_super nr_super 0 dev s.super) [
  | none ↦ returns none s
  | some k ↦ if (s.super k).lock then sleeps else returns (some k) s
]

abbrev pub set_maps : ℕ → Super → Store → Store
set_maps k m s = record s { super = update s.super k (record (s.super k) { maps = m }) }

-- `new_block`: the bit is taken by `take_block`, and the block is cleared. A buffer that somebody uses
-- is a panic.
unfoldable pub alloc_block : ℕ → Call ℕ
unfolding get_super
alloc_block dev = do
  sb ← get_super dev
  elim sb [
    | none ↦ crash
    | some k ↦ λ s. elim (take_block (some (s.super k).maps)) [
      | done (nr, m) ↦
          if nr == 0
          then returns 0 (set_maps k m s)
          else if not (s.users dev nr == 0)
          then panics
          else returns nr (record (set_maps k m s) {
            content = update_at s.content dev nr (λ _. 0);
            dirty = update_at s.dirty dev nr true;
          })
      | panicked ↦ panics
      | exited ↦ panics
    ]
  ]

-- `free_block`: a block that somebody uses is not freed, and has one user more from then on.
unfoldable pub drop_block : ℕ → ℕ → Call (Unit {0})
unfolding get_super
drop_block dev b = do
  sb ← get_super dev
  elim sb [
    | none ↦ crash
    | some k ↦ λ s.
        if ltb b (s.super k).maps.firstdatazone || leb (s.super k).maps.nzones b
        then panics
        else if not (s.users dev b == 0)
        then returns tt (record s { users = update_at s.users dev b (s.users dev b + 1) })
        else elim (clear_zone b (s.super k).maps) [
          | done m ↦ returns tt (record (set_maps k m s) { dirty = update_at s.dirty dev b false })
          | panicked ↦ panics
          | exited ↦ panics
        ]
  ]

-- A run goes on from what its first part returns.
pub bind_at {ℓ κ} :
    {A : Type ℓ} {B : Type κ} (m : Call A) (f : A → Call B) (s s' : Store) (a : A)
    → m s ≡ returns a s'
    → (m >>= f) s ≡ f a s'
bind_at {A} {B} m f s s' a e =
    ap
      (λ (r : Run A). elim r as (λ _. Run B) [
        | returns a t ↦ f a t
        | panics ↦ panics
        | sleeps ↦ sleeps
        | runs_on ↦ runs_on
      ])
      e

-- The branch of a test, in a state.
pub take_then {ℓ} :
    {A : Type ℓ} (b : Bool) (m n : Call A) (s : Store) → b ≡ true → (if b then m else n) s ≡ m s
take_then true m n s e = refl
take_then false m n s e = absurd (ground arith)

pub take_else {ℓ} :
    {A : Type ℓ} (b : Bool) (m n : Call A) (s : Store) → b ≡ false → (if b then m else n) s ≡ n s
take_else true m n s e = absurd (ground arith)
take_else false m n s e = refl

-- A panic in the first part is one of the whole.
pub bind_panics {ℓ κ} :
    {A : Type ℓ} {B : Type κ} (m : Call A) (f : A → Call B) (s : Store)
    → m s ≡ panics
    → (m >>= f) s ≡ panics
bind_panics {A} {B} m f s e =
    ap
      (λ (r : Run A). elim r as (λ _. Run B) [
        | returns a t ↦ f a t
        | panics ↦ panics
        | sleeps ↦ sleeps
        | runs_on ↦ runs_on
      ])
      e
