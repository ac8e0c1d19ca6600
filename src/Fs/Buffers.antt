-- ===== src/Fs/Buffers.antt =====
-- fs/buffer.c: the buffer cache.
pub mod Choice
pub mod Unique
pub mod Result
pub mod Tests
use Prim.Native.Nat.{bit_xor}
use linux_0_11_notes.Prelude.{
  Bool, List, Option, Outcome, [], done, false, if◌then◌else◌, ltb, none, not, panicked, some, true,
  update, ℕ, ◌%◌, ◌&&◌, ◌++◌, ◌+◌, ◌-◌, ◌==◌, ◌∷◌,
}

-- What the cache reads of a buffer head; device 0 means that it holds no block.
pub record BufferHead : Type 0 where
  pub dev : ℕ
  pub blocknr : ℕ
  pub uptodate : Bool
  pub dirt : Bool
  pub count : ℕ
  pub lock : Bool

-- `chain` gives the buffers of each hash queue, first to last, and `free` those of the free list from
-- `free_list` on, once round. The links of both run in two directions, and are lists here.
pub record Cache : Type 0 where
  pub head : ℕ → BufferHead
  pub chain : ℕ → List ℕ
  pub free : List ℕ

abbrev pub nr_hash : ℕ
nr_hash = 307

-- _hashfn
unfoldable pub hashfn : ℕ → ℕ → ℕ
hashfn dev block = bit_xor dev block % nr_hash

abbrev pub holds_block : ℕ → ℕ → BufferHead → Bool
holds_block dev block b = b.dev == dev && b.blocknr == block

-- The loop of `find_buffer` over a hash queue.
unfoldable pub find_in : (ℕ → BufferHead) → ℕ → ℕ → List ℕ → Option ℕ
find_in head dev block [] = none
find_in head dev block (i ∷ is) =
    if holds_block dev block (head i) then some i else find_in head dev block is

unfoldable pub find_buffer : ℕ → ℕ → Cache → Option ℕ
find_buffer dev block c = find_in c.head dev block (c.chain (hashfn dev block))

-- A list without a buffer: what unlinking leaves.
unfoldable pub unlink : ℕ → List ℕ → List ℕ
unlink i [] = []
unlink i (j ∷ js) = let rest = unlink i js in if j == i then rest else j ∷ rest

unfoldable pub remove_from_queues : ℕ → Cache → Cache
unfolding unlink
remove_from_queues i c =
    let h : ℕ = hashfn (c.head i).dev (c.head i).blocknr in
    record c { chain = update c.chain h (unlink i (c.chain h)); free = unlink i c.free }

-- At the end of the free list, and at the head of the hash queue if it has a device.
unfoldable pub insert_into_queues : ℕ → Cache → Cache
insert_into_queues i c =
    let h : ℕ = hashfn (c.head i).dev (c.head i).blocknr in
    record c {
      free = c.free ++ (i ∷ []);
      chain = if (c.head i).dev == 0 then c.chain else update c.chain h (i ∷ c.chain h);
    }

-- BADNESS
abbrev pub badness : BufferHead → ℕ
badness b = (if b.dirt then 2 else 0) + (if b.lock then 1 else 0)

abbrev pub is_better : (ℕ → BufferHead) → ℕ → Option ℕ → Bool
is_better head i none = true
is_better head i (some best) = ltb (badness (head i)) (badness (head best))

-- The `do` loop of `getblk` over the free list.
unfoldable pub choose_free : (ℕ → BufferHead) → List ℕ → Option ℕ → Option ℕ
choose_free head [] best = best
choose_free head (i ∷ is) best =
    let same = choose_free head is best in
    let mine = choose_free head is (some i) in
    if not ((head i).count == 0)
    then same
    else if is_better head i best
    then if badness (head i) == 0 then some i else mine
    else same

-- Where a call of `getblk` sleeps: for a free buffer, for the lock of the block's own buffer, for
-- that of the one that it chose, or in `sync_dev` for the device of that one.
pub data Wait : Type 0 where
  for_buffer : Wait
  for_block : ℕ → Wait
  for_choice : ℕ → Wait
  for_sync : ℕ → Wait

pub data Getblk : Type 0 where
  has_block : ℕ → Cache → Getblk
  waits : Wait → Cache → Getblk

abbrev pub set_head : ℕ → BufferHead → Cache → Cache
set_head i b c = record c { head = update c.head i b }

-- `b_count` is a byte.
unfoldable pub use_buffer : ℕ → Cache → Cache
use_buffer i c = set_head i (record (c.head i) { count = ((c.head i).count + 1) % 256 }) c

unfoldable pub unuse_buffer : ℕ → Cache → Cache
unuse_buffer i c = set_head i (record (c.head i) { count = ((c.head i).count + 255) % 256 }) c

-- The end of `getblk`: the buffer becomes that of the block.
unfoldable pub claim : ℕ → ℕ → ℕ → Cache → Cache
unfolding remove_from_queues insert_into_queues
claim dev block i c =
    let b : BufferHead = record (c.head i) { count = 1; dirt = false; uptodate = false } in
    let c' : Cache = remove_from_queues i (set_head i b c) in
    insert_into_queues i (set_head i (record b { dev = dev; blocknr = block }) c')

-- `getblk` from `repeat:` to the first sleep.
unfoldable pub getblk_start : ℕ → ℕ → Cache → Getblk
getblk_start dev block c = elim (find_buffer dev block c) [
  | some i ↦
      if (c.head i).lock then waits (for_block i) (use_buffer i c) else has_block i (use_buffer i c)
  | none ↦ elim (choose_free c.head c.free none) [
    | none ↦ waits for_buffer c
    | some i ↦
        if (c.head i).lock
        then waits (for_choice i) c
        else if (c.head i).dirt
        then waits (for_sync i) c
        else has_block i (claim dev block i c)
  ]
]

-- After the wait for the buffer that was chosen.
unfoldable pub after_wait : ℕ → ℕ → ℕ → Cache → Getblk
unfolding find_buffer
after_wait dev block i c =
    if (c.head i).lock
    then waits (for_choice i) c
    else if not ((c.head i).count == 0)
    then getblk_start dev block c
    else if (c.head i).dirt
    then waits (for_sync i) c
    else elim (find_buffer dev block c) [
      | some _ ↦ getblk_start dev block c
      | none ↦ has_block i (claim dev block i c)
    ]

-- And after a sleep. A buffer that another task took or that holds the wrong block by now is given
-- up, and so is the choice if the block has come into the cache.
unfoldable pub getblk_on : ℕ → ℕ → Wait → Cache → Getblk
unfolding find_buffer
getblk_on dev block for_buffer c = getblk_start dev block c
getblk_on dev block (for_block i) c =
    if (c.head i).lock
    then waits (for_block i) c
    else if holds_block dev block (c.head i)
    then has_block i c
    else getblk_start dev block (unuse_buffer i c)
getblk_on dev block (for_choice i) c = after_wait dev block i c
getblk_on dev block (for_sync i) c = after_wait dev block i c

-- Each function of the list is what others do while the call sleeps.
unfoldable pub getblk_turns : List (Cache → Cache) → ℕ → ℕ → Getblk → Getblk
getblk_turns turns dev block (has_block i c) = has_block i c
getblk_turns [] dev block (waits w c) = waits w c
getblk_turns (others ∷ rest) dev block (waits w c) =
    getblk_turns rest dev block (getblk_on dev block w (others c))

unfoldable pub getblk : List (Cache → Cache) → ℕ → ℕ → Cache → Getblk
getblk turns dev block c = getblk_turns turns dev block (getblk_start dev block c)

-- `none` is the wait for the lock.
unfoldable pub brelse : ℕ → Cache → Outcome (Option Cache)
brelse i c =
    if (c.head i).lock
    then done none
    else if (c.head i).count == 0
    then panicked
    else done (some (set_head i (record (c.head i) { count = (c.head i).count - 1 }) c))
