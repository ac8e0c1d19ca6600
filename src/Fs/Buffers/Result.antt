-- ===== src/Fs/Buffers/Result.antt =====
-- What `getblk` returns.
use linux_0_11_notes.Prelude.{
  Bool-cases, List, Option-cases, [], arith, false, inl, inr, none, some, sym, true, ℕ, ◌%◌, ◌+◌,
  ◌==◌, ◌∙◌, ◌∷◌, ◌≡◌, ◌≢◌,
}
use linux_0_11_notes.Fs.Buffers.{
  Cache, Getblk, Wait, after_wait, choose_free, claim, find_buffer, for_block, for_buffer,
  for_choice, for_sync, getblk, getblk_on, getblk_start, getblk_turns, has_block, hashfn,
  holds_block, set_head, unuse_buffer, use_buffer, waits,
}
use linux_0_11_notes.Fs.Buffers.Unique.{IsCache, claim-IsCache, claim-head_self, find_in-some}

abbrev counted : ℕ → ℕ → Cache → Cache
counted i n c = set_head i (record (c.head i) { count = n }) c

counted-head :
    (i n j : ℕ) (c : Cache)
    → (((counted i n c).head j).dev ≡ (c.head j).dev)
      × (((counted i n c).head j).blocknr ≡ (c.head j).blocknr)
      × (((counted i n c).head j).lock ≡ (c.head j).lock)
counted-head i n j c = (ground arith, ground arith, ground arith)

-- The counts do not matter.
counted-IsCache : (i n : ℕ) (c : Cache) → IsCache c → IsCache (counted i n c)
counted-IsCache i n c v = record {
  indexed =
      λ j live. let (d, b, _) = counted-head i n j c in rw (d, b) (v.indexed j (λ z. live (d ∙ z)));
  unique = λ j k live e f.
      let (d, b, _) = counted-head i n j c in
      let (d', b', _) = counted-head i n k c in
      v.unique j k (λ z. live (d ∙ z)) (sym d ∙ e ∙ d') (sym b ∙ f ∙ b');
}

-- A call that has returned has the only buffer of the block, unlocked.
pub record HasBlock (dev block i : ℕ) (c : Cache) : Type 0 where
  pub valid : IsCache c
  pub right_dev : (c.head i).dev ≡ dev
  pub right_block : (c.head i).blocknr ≡ block
  pub unlocked : (c.head i).lock ≡ false
  pub only : (k : ℕ) → (c.head k).dev ≡ dev → (c.head k).blocknr ≡ block → k ≡ i

abbrev pub IsGot : ℕ → ℕ → Getblk → Type 0
IsGot dev block (has_block i c) = HasBlock dev block i c
IsGot dev block (waits w c) = IsCache c

has_block_lem :
    (dev block i : ℕ) (c : Cache)
    → IsCache c
    → dev ≢ 0
    → holds_block dev block (c.head i) ≡ true
    → (c.head i).lock ≡ false
    → HasBlock dev block i c
has_block_lem dev block i c v nz h u =
    let d : (c.head i).dev ≡ dev = ground arith in
    let b : (c.head i).blocknr ≡ block = ground arith in
    record {
      valid = v;
      right_dev = d;
      right_block = b;
      unlocked = u;
      only = λ k e f. v.unique k i (λ z. nz (sym e ∙ z)) (e ∙ sym d) (f ∙ sym b);
    }

claim-HasBlock :
    (dev block i : ℕ) (c : Cache)
    → IsCache c
    → dev ≢ 0
    → find_buffer dev block c ≡ none
    → (c.head i).lock ≡ false
    → HasBlock dev block i (claim dev block i c)
claim-HasBlock dev block i c v nz h u =
    let (d, b, _, l) = claim-head_self dev block i c in
    has_block_lem dev block i (claim dev block i c) (claim-IsCache dev block i c v nz h) nz
      (ground arith) (l ∙ u)

use_buffer-IsCache : (i : ℕ) (c : Cache) → IsCache c → IsCache (use_buffer i c)
unfolding use_buffer
use_buffer-IsCache i c v = counted-IsCache i (((c.head i).count + 1) % 256) c v

unuse_buffer-IsCache : (i : ℕ) (c : Cache) → IsCache c → IsCache (unuse_buffer i c)
unfolding unuse_buffer
unuse_buffer-IsCache i c v = counted-IsCache i (((c.head i).count + 255) % 256) c v

use_buffer-IsGot :
    (dev block i : ℕ) (c : Cache)
    → IsCache c
    → dev ≢ 0
    → find_buffer dev block c ≡ some i
    → (c.head i).lock ≡ false
    → HasBlock dev block i (use_buffer i c)
unfolding find_buffer use_buffer
use_buffer-IsGot dev block i c v nz h u =
    let n : ℕ = ((c.head i).count + 1) % 256 in
    let q = find_in-some c.head dev block i (c.chain (hashfn dev block)) h in
    let (d, b, l) = counted-head i n i c in
    has_block_lem dev block i (use_buffer i c) (counted-IsCache i n c v) nz (ground arith) (l ∙ u)

getblk_start-IsGot :
    (dev block : ℕ) (c : Cache) → dev ≢ 0 → IsCache c → IsGot dev block (getblk_start dev block c)
unfolding getblk_start
getblk_start-IsGot dev block c nz v = elim (Option-cases (find_buffer dev block c)) [
  | inr (i, e) ↦ elim (Bool-cases (c.head i).lock) [
    | inl l ↦ rw (getblk_start, e, l) (use_buffer-IsCache i c v)
    | inr l ↦ rw (getblk_start, e, l) (use_buffer-IsGot dev block i c v nz e l)
  ]
  | inl e ↦ elim (Option-cases (choose_free c.head c.free none)) [
    | inl q ↦ rw (getblk_start, e, q) v
    | inr (i, q) ↦ elim (Bool-cases (c.head i).lock) [
      | inl l ↦ rw (getblk_start, e, q, l) v
      | inr l ↦ elim (Bool-cases (c.head i).dirt) [
        | inl d ↦ rw (getblk_start, e, q, l, d) v
        | inr d ↦ rw (getblk_start, e, q, l, d) (claim-HasBlock dev block i c v nz e l)
      ]
    ]
  ]
]

after_wait-IsGot :
    (dev block i : ℕ) (c : Cache) → dev ≢ 0 → IsCache c → IsGot dev block (after_wait dev block i c)
unfolding after_wait
after_wait-IsGot dev block i c nz v = elim (Bool-cases (c.head i).lock) [
  | inl l ↦ rw (after_wait, l) v
  | inr l ↦ elim (Bool-cases ((c.head i).count == 0)) [
    | inr z ↦ rw (after_wait, l, z) (getblk_start-IsGot dev block c nz v)
    | inl z ↦ elim (Bool-cases (c.head i).dirt) [
      | inl d ↦ rw (after_wait, l, z, d) v
      | inr d ↦ elim (Option-cases (find_buffer dev block c)) [
        | inl e ↦ rw (after_wait, l, z, d, e) (claim-HasBlock dev block i c v nz e l)
        | inr (k, e) ↦ rw (after_wait, l, z, d, e) (getblk_start-IsGot dev block c nz v)
      ]
    ]
  ]
]

getblk_on-IsGot :
    (dev block : ℕ) (w : Wait) (c : Cache)
    → dev ≢ 0
    → IsCache c
    → IsGot dev block (getblk_on dev block w c)
unfolding getblk_on
getblk_on-IsGot dev block for_buffer c nz v = getblk_start-IsGot dev block c nz v
getblk_on-IsGot dev block (for_choice i) c nz v = after_wait-IsGot dev block i c nz v
getblk_on-IsGot dev block (for_sync i) c nz v = after_wait-IsGot dev block i c nz v
getblk_on-IsGot dev block (for_block i) c nz v = elim (Bool-cases (c.head i).lock) [
  | inl l ↦ rw (getblk_on, l) v
  | inr l ↦ elim (Bool-cases (holds_block dev block (c.head i))) [
    | inl h ↦ rw (getblk_on, l, h) (has_block_lem dev block i c v nz h l)
    | inr h ↦
        rw (getblk_on, l, h)
          (getblk_start-IsGot dev block (unuse_buffer i c) nz (unuse_buffer-IsCache i c v))
  ]
]

-- What others do keeps the cache in order.
abbrev pub Keeps : List (Cache → Cache) → Type 0
Keeps [] = Unit
Keeps (f ∷ fs) = ((c : Cache) → IsCache c → IsCache (f c)) × Keeps fs

getblk_turns-IsGot :
    (turns : List (Cache → Cache)) (dev block : ℕ) (r : Getblk)
    → Keeps turns
    → dev ≢ 0
    → IsGot dev block r
    → IsGot dev block (getblk_turns turns dev block r)
unfolding getblk_turns
getblk_turns-IsGot [] dev block (has_block i c) k nz g = g
getblk_turns-IsGot (f ∷ fs) dev block (has_block i c) k nz g = g
getblk_turns-IsGot [] dev block (waits w c) k nz g = g
getblk_turns-IsGot (f ∷ fs) dev block (waits w c) k nz g =
    getblk_turns-IsGot fs dev block (getblk_on dev block w (f c)) k.1 nz
      (getblk_on-IsGot dev block w (f c) nz (k.0 c g))

-- The cache has never two buffers for a block: `getblk` keeps it so, whatever others do while it
-- sleeps that keeps it so too, and when it returns, it returns the only buffer of the block that it
-- was asked for, unlocked.
pub getblk-IsGot :
    (turns : List (Cache → Cache)) (dev block : ℕ) (c : Cache)
    → Keeps turns
    → dev ≢ 0
    → IsCache c
    → IsGot dev block (getblk turns dev block c)
unfolding getblk
getblk-IsGot turns dev block c k nz v =
    getblk_turns-IsGot turns dev block (getblk_start dev block c) k nz
      (getblk_start-IsGot dev block c nz v)
