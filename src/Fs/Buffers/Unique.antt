-- ===== src/Fs/Buffers/Unique.antt =====
-- A block has at most one buffer.
use linux_0_11_notes.Prelude.{
  List, [], ap, arith, false, none, some, subst, sym, true, ℕ, ℕ_discrete, ◌∙◌, ◌∷◌, ◌≡◌, ◌≢◌,
}
use linux_0_11_notes.Fs.Buffers.{
  BufferHead, Cache, claim, find_buffer, find_in, hashfn, holds_block, unlink,
}
use linux_0_11_notes.Fs.Buffers.Choice.{contains}

-- Every buffer that holds a block is on the hash queue of the block, and no other holds it.
pub record IsCache (c : Cache) : Type 0 where
  pub indexed :
      (i : ℕ)
      → (c.head i).dev ≢ 0
      → contains i (c.chain (hashfn (c.head i).dev (c.head i).blocknr)) ≡ true
  pub unique :
      (i j : ℕ)
      → (c.head i).dev ≢ 0
      → (c.head i).dev ≡ (c.head j).dev
      → (c.head i).blocknr ≡ (c.head j).blocknr
      → i ≡ j

contains-unlink :
    (i j : ℕ) (xs : List ℕ) → i ≢ j → contains i xs ≡ true → contains i (unlink j xs) ≡ true
unfolding contains unlink
contains-unlink i j [] ne h = h
contains-unlink i j (x ∷ xs) ne h = ground (arith, contains-unlink i j xs ne)

find_in-none :
    (head : ℕ → BufferHead) (dev block i : ℕ) (xs : List ℕ)
    → find_in head dev block xs ≡ none
    → contains i xs ≡ true
    → holds_block dev block (head i) ≡ false
unfolding find_in contains
find_in-none head dev block i [] h m = absurd (ground arith)
find_in-none head dev block i (x ∷ xs) h m = ground (arith, find_in-none head dev block i xs)

pub find_in-some :
    (head : ℕ → BufferHead) (dev block i : ℕ) (xs : List ℕ)
    → find_in head dev block xs ≡ some i
    → holds_block dev block (head i) ≡ true
unfolding find_in
find_in-some head dev block i [] h = absurd (ground arith)
find_in-some head dev block i (x ∷ xs) h = ground (arith, find_in-some head dev block i xs)

-- A block that is not found has no buffer.
not_found :
    (dev block i : ℕ) (c : Cache)
    → IsCache c
    → dev ≢ 0
    → find_buffer dev block c ≡ none
    → (c.head i).dev ≡ dev
    → (c.head i).blocknr ≢ block
unfolding find_buffer
not_found dev block i c v nz h d b =
    let m : contains i (c.chain (hashfn dev block)) ≡ true =
      subst (λ n. contains i (c.chain (hashfn n block)) ≡ true) d
        (subst (λ n. contains i (c.chain (hashfn (c.head i).dev n)) ≡ true) b
          (v.indexed i (λ z. nz (sym d ∙ z)))) in
    let q = find_in-none c.head dev block i (c.chain (hashfn dev block)) h m in ground (arith, q)

pub claim-head_self :
    (dev block i : ℕ) (c : Cache)
    → (((claim dev block i c).head i).dev ≡ dev)
      × (((claim dev block i c).head i).blocknr ≡ block)
      × (((claim dev block i c).head i).count ≡ 1)
      × (((claim dev block i c).head i).lock ≡ (c.head i).lock)
unfolding claim
claim-head_self dev block i c = (ground arith, ground arith, ground arith, ground arith)

claim-head_other : (dev block i j : ℕ) (c : Cache) → j ≢ i → (claim dev block i c).head j ≡ c.head j
unfolding claim
claim-head_other dev block i j c ne = ground arith

claim-chain_self :
    (dev block i : ℕ) (c : Cache)
    → dev ≢ 0
    → contains i ((claim dev block i c).chain (hashfn dev block)) ≡ true
unfolding claim contains
claim-chain_self dev block i c nz = ground arith

claim-chain_other :
    (dev block i j h : ℕ) (c : Cache)
    → j ≢ i
    → contains j (c.chain h) ≡ true
    → contains j ((claim dev block i c).chain h) ≡ true
unfolding claim contains
claim-chain_other dev block i j h c ne m = ground (arith, contains-unlink j i (c.chain h) ne m)

new_alone :
    (dev block i k : ℕ) (c : Cache)
    → IsCache c
    → dev ≢ 0
    → find_buffer dev block c ≡ none
    → k ≢ i
    → ((claim dev block i c).head k).dev ≡ dev
    → ((claim dev block i c).head k).blocknr ≢ block
new_alone dev block i k c v nz h ne d b =
    let o = claim-head_other dev block i k c ne in
    not_found dev block k c v nz h (sym (ap (λ (x : BufferHead). x.dev) o) ∙ d)
      (sym (ap (λ (x : BufferHead). x.blocknr) o) ∙ b)

old_unique :
    (dev block i j k : ℕ) (c : Cache)
    → IsCache c
    → j ≢ i
    → k ≢ i
    → ((claim dev block i c).head j).dev ≢ 0
    → ((claim dev block i c).head j).dev ≡ ((claim dev block i c).head k).dev
    → ((claim dev block i c).head j).blocknr ≡ ((claim dev block i c).head k).blocknr
    → j ≡ k
old_unique dev block i j k c v p q =
    rw (claim-head_other dev block i j c p, claim-head_other dev block i k c q) (v.unique j k)

pub claim-IsCache :
    (dev block i : ℕ) (c : Cache)
    → IsCache c
    → dev ≢ 0
    → find_buffer dev block c ≡ none
    → IsCache (claim dev block i c)
claim-IsCache dev block i c v nz h =
    let (d, b, _, _) = claim-head_self dev block i c in
    record {
      indexed = λ j live. elim (ℕ_discrete j i) [
        | yes e ↦ rw (e, d, b) (claim-chain_self dev block i c nz)
        | no ne ↦
            let o = claim-head_other dev block i j c ne in
            rw o (
              claim-chain_other dev block i j (hashfn (c.head j).dev (c.head j).blocknr) c ne
                (v.indexed j (λ z. live (ap (λ (x : BufferHead). x.dev) o ∙ z))))
      ];
      unique = λ j k live e f. elim (ℕ_discrete j i) [
        | yes p ↦ elim (ℕ_discrete k i) [
          | yes q ↦ p ∙ sym q
          | no q ↦ absurd (
              new_alone dev block i k c v nz h q
                (sym (
                    subst
                      (λ n. ((claim dev block i c).head n).dev ≡ ((claim dev block i c).head k).dev)
                      p e)
                  ∙ d)
                (sym (
                    subst
                      (λ n.
                        ((claim dev block i c).head n).blocknr
                        ≡ ((claim dev block i c).head k).blocknr)
                      p f)
                  ∙ b))
        ]
        | no p ↦ elim (ℕ_discrete k i) [
          | yes q ↦ absurd (
              new_alone dev block i j c v nz h p
                (e ∙ ap (λ n. ((claim dev block i c).head n).dev) q ∙ d)
                (f ∙ ap (λ n. ((claim dev block i c).head n).blocknr) q ∙ b))
          | no q ↦ old_unique dev block i j k c v p q live e f
        ]
      ];
    }
