-- ===== src/Fs/Buffers/Choice.antt =====
-- Which free buffer is taken.
use linux_0_11_notes.Prelude.{
  Bool, List, Option, Option-cases, [], arith, false, inl, inr, none, refl, some, true, ℕ, ◌==◌,
  ◌||◌, ◌∷◌, ◌≡◌, ◌≢◌, ◌≤◌, ◌⊎◌,
}
use linux_0_11_notes.Fs.Buffers.{
  BufferHead, Cache, badness, choose_free, claim, find_buffer, getblk, getblk_start, getblk_turns,
  has_block, use_buffer,
}

unfoldable pub contains : ℕ → List ℕ → Bool
contains i [] = false
contains i (j ∷ js) = j == i || contains i js

-- Better than none, or than the best so far.
abbrev AtMost : (ℕ → BufferHead) → ℕ → Option ℕ → Type 0
AtMost head i none = Unit
AtMost head i (some b) = badness (head i) ≤ badness (head b)

choose_free-AtMost :
    (head : ℕ → BufferHead) (is : List ℕ) (best : Option ℕ) (i : ℕ)
    → choose_free head is best ≡ some i
    → AtMost head i best
unfolding choose_free
choose_free-AtMost head [] none i h = tt
choose_free-AtMost head [] (some b) i h = ground arith
choose_free-AtMost head (j ∷ is) none i h = tt
choose_free-AtMost head (j ∷ is) (some b) i h =
    ground (arith, choose_free-AtMost head is (some b) i, choose_free-AtMost head is (some j) i)

choose_free_least :
    (head : ℕ → BufferHead) (is : List ℕ) (best : Option ℕ) (i k : ℕ)
    → choose_free head is best ≡ some i
    → contains k is ≡ true
    → (head k).count ≡ 0
    → badness (head i) ≤ badness (head k)
unfolding choose_free contains
choose_free_least head [] best i k h m z = absurd (ground arith)
choose_free_least head (j ∷ is) none i k h m z = ground (
  arith,
  choose_free_least head is none i k,
  choose_free_least head is (some j) i k,
  choose_free-AtMost head is (some j) i,
)
choose_free_least head (j ∷ is) (some b) i k h m z = ground (
  arith,
  choose_free_least head is (some b) i k,
  choose_free_least head is (some j) i k,
  choose_free-AtMost head is (some j) i,
  choose_free-AtMost head is (some b) i,
)

choose_free_from :
    (head : ℕ → BufferHead) (is : List ℕ) (best : Option ℕ) (i : ℕ)
    → choose_free head is best ≡ some i
    → ((contains i is ≡ true) × ((head i).count ≡ 0)) ⊎ (best ≡ some i)
unfolding choose_free contains
choose_free_from head [] best i h = inr h
choose_free_from head (j ∷ is) none i h =
    ground (arith, choose_free_from head is none i, choose_free_from head is (some j) i)
choose_free_from head (j ∷ is) (some b) i h =
    ground (arith, choose_free_from head is (some b) i, choose_free_from head is (some j) i)

-- The buffer that `getblk` chooses is on the free list and is not used, and none of the unused ones
-- there is better: a clean and unlocked one goes first, then a locked, then a dirty one.
choose_free_best :
    (c : Cache) (i : ℕ)
    → choose_free c.head c.free none ≡ some i
    → (contains i c.free ≡ true)
      × ((c.head i).count ≡ 0)
      × ((k : ℕ)
          → contains k c.free ≡ true
          → (c.head k).count ≡ 0
          → badness (c.head i) ≤ badness (c.head k))
choose_free_best c i h = elim (choose_free_from c.head c.free none i h) [
  | inl (m, z) ↦ (m, z, λ k. choose_free_least c.head c.free none i k h)
  | inr e ↦ absurd (ground arith)
]

choose_free-some :
    (head : ℕ → BufferHead) (is : List ℕ) (b : ℕ) → choose_free head is (some b) ≢ none
unfolding choose_free
choose_free-some head [] b h = ground arith
choose_free-some head (j ∷ is) b h =
    ground (arith, choose_free-some head is b, choose_free-some head is j)

choose_free-none :
    (head : ℕ → BufferHead) (is : List ℕ) (k : ℕ)
    → choose_free head is none ≡ none
    → contains k is ≡ true
    → (head k).count ≢ 0
unfolding choose_free contains
choose_free-none head [] k h m z = ground arith
choose_free-none head (j ∷ is) k h m z =
    ground (arith, choose_free-none head is k, choose_free-some head is j)

-- `getblk` returns without sleeping where the block's own buffer, if it has one, is unlocked, and an
-- unused buffer on the free list is clean and unlocked.
pub getblk_returns :
    (dev block k : ℕ) (c : Cache)
    → ((i : ℕ) → find_buffer dev block c ≡ some i → (c.head i).lock ≡ false)
    → contains k c.free ≡ true
    → (c.head k).count ≡ 0
    → badness (c.head k) ≡ 0
    → (i : ℕ) × (c' : Cache) × (getblk [] dev block c ≡ has_block i c')
unfolding getblk getblk_turns getblk_start
getblk_returns dev block k c own m z b = elim (Option-cases (find_buffer dev block c)) [
  | inr (i, e) ↦
      let u = own i e in (i, use_buffer i c, rw (getblk, getblk_start, e, u, getblk_turns) refl)
  | inl e ↦ elim (Option-cases (choose_free c.head c.free none)) [
    | inl q ↦ absurd (choose_free-none c.head c.free k q m z)
    | inr (i, q) ↦
        let best = choose_free_least c.head c.free none i k q m z in
        let l : (c.head i).lock ≡ false = ground arith in
        let d : (c.head i).dirt ≡ false = ground arith in
        (i, claim dev block i c, rw (getblk, getblk_start, e, q, l, d, getblk_turns) refl)
  ]
]
