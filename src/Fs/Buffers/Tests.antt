-- ===== src/Fs/Buffers/Tests.antt =====
-- Inputs for the theorems on the buffer cache.
use linux_0_11_notes.Prelude.{[], arith, false, refl, true, update, ℕ, ℕ_discrete, ◌∷◌, ◌≡◌}
use linux_0_11_notes.Fs.Buffers.{BufferHead, Cache, find_buffer, find_in, getblk, has_block, hashfn}
use linux_0_11_notes.Fs.Buffers.Choice.{contains, getblk_returns}
use linux_0_11_notes.Fs.Buffers.Result.{IsGot, getblk-IsGot}
use linux_0_11_notes.Fs.Buffers.Unique.{IsCache}

abbrev blank : BufferHead
blank = record { dev = 0; blocknr = 0; uptodate = false; dirt = false; count = 0; lock = false }

-- Buffer 1 holds block 5 of device 3, and is dirty; buffer 2 holds none.
abbrev cache : Cache
cache = record {
  head = update (λ _. blank) 1 (record blank { dev = 3; blocknr = 5; dirt = true });
  chain = update (λ _. []) 6 (1 ∷ []);
  free = 1 ∷ 2 ∷ [];
}

cache-IsCache : IsCache cache
unfolding contains hashfn
cache-IsCache = record {
  indexed =
      λ i live. elim (ℕ_discrete i 1) [ yes e ↦ rw e refl | no ne ↦ absurd (live (ground arith)) ];
  unique = λ i j live e f. ground arith;
}

getblk-IsGot_example : IsGot 3 9 (getblk ((λ c. c) ∷ []) 3 9 cache)
getblk-IsGot_example =
    getblk-IsGot ((λ c. c) ∷ []) 3 9 cache ((λ c v. v), tt) (λ e. absurd (omega arith))
      cache-IsCache

getblk_returns_example : (i : ℕ) × (c' : Cache) × (getblk [] 3 9 cache ≡ has_block i c')
unfolding find_buffer find_in hashfn contains
getblk_returns_example = getblk_returns 3 9 2 cache (λ i e. absurd (ground arith)) refl refl refl
