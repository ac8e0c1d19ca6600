-- ===== src/Fs/Mounts/Fresh.antt =====
-- The maps that `read_super` of fs/super.c reads, and its changes of a super block.
use linux_0_11_notes.Prelude.{
  Option, ap, arith, false, if-false, if-true, if◌then◌else◌, leb, ltb, none, refl, some, sym, true,
  update, update_ne, update_self, ℕ, ℕ_discrete, ◌&&◌, ◌+◌, ◌-◌, ◌<◌, ◌==◌, ◌∙◌, ◌≡◌,
}
use linux_0_11_notes.Fs.Bitmap.{MapBlock}
use linux_0_11_notes.Fs.Mounts.{no_map, with_first}
use linux_0_11_notes.Fs.Mounts.Load.{HasBlocks, IsLoaded, block_map_of}
use linux_0_11_notes.Fs.Store.{Store, SuperBlock}

pub loaded-HasBlocks :
    (n dev b : ℕ) (s : Store) (u : ℕ → ℕ → ℕ)
    → (r : IsLoaded n 0 dev b s u no_map) → HasBlocks r.m r.map
loaded-HasBlocks n dev b s u r j = (
  λ le. r.slots j ∙ if-false (leb 0 j && ltb j (0 + r.m)) _ none (ground arith),
  λ lt. (_, r.slots j ∙ if-true (leb 0 j && ltb j (0 + r.m)) _ none (ground arith)),
)

abbrev pub marked : MapBlock → MapBlock
marked w = record w { bit = update w.bit 0 true }

-- The map of n blocks from block b on, with its first bit set.
abbrev pub fresh_map : Store → ℕ → ℕ → ℕ → ℕ → Option MapBlock
fresh_map s dev b n j =
    let w = block_map_of s dev (b + j) in
    if ltb j n then some (if j == 0 then marked w else w) else none

pub with_first_lem :
    (n dev b : ℕ) (s : Store) (u : ℕ → ℕ → ℕ) (r : IsLoaded n 0 dev b s u no_map)
    → 0 < r.m
    → (m : ℕ → Option MapBlock) × (with_first r.map ≡ some m)
      × ((j : ℕ) → m j ≡ fresh_map s dev b r.m j)
with_first_lem n dev b s u r some_block =
    let g : ℕ → MapBlock = block_map_of s dev in
    let w : MapBlock = g (b + 0) in
    let first : r.map 0 ≡ some w =
      r.slots 0 ∙ if-true (leb 0 0 && ltb 0 (0 + r.m)) _ none (ground arith) in
    (
      update r.map 0 (some (marked w)),
      rw (with_first, first) refl,
      λ j. elim (ℕ_discrete j 0) [
        | yes e ↦ rw e (sym (if-true (ltb 0 r.m) (some (marked w)) none (ground arith)))
        | no ne ↦
            let q : g (b + (j - 0)) ≡ g (b + j) = ap g (omega arith) in
            update_ne r.map 0 j (some (marked w)) ne ∙ r.slots j ∙ ground (arith, q)
      ],
    )

-- A change of one super block.
abbrev pub edited : ℕ → (SuperBlock → SuperBlock) → Store → Store
edited k f s = record s { super = update s.super k (f (s.super k)) }

pub edited_self :
    (k : ℕ) (f : SuperBlock → SuperBlock) (s : Store) → (edited k f s).super k ≡ f (s.super k)
edited_self k f s = update_self s.super k (f (s.super k))

pub edited_ne :
    (k j : ℕ) (f : SuperBlock → SuperBlock) (s : Store)
    → ¬ (j ≡ k)
    → (edited k f s).super j ≡ s.super j
edited_ne k j f s ne = update_ne s.super k j (f (s.super k)) ne

abbrev pub unlocked : SuperBlock → SuperBlock
unlocked b = record b { lock = false }

abbrev pub with_maps : (ℕ → Option MapBlock) → (ℕ → Option MapBlock) → SuperBlock → SuperBlock
with_maps im zm b = record b { maps = record b.maps { imap = im; zmap = zm } }

-- The store after `read_maps` has the maps, and after it has given up.
abbrev pub filled : ℕ → (ℕ → Option MapBlock) → (ℕ → Option MapBlock) → Store → Store
filled k im zm s = edited k unlocked (edited k (with_maps im zm) s)

abbrev pub left_alone : ℕ → Store → Store
left_alone k s = edited k (λ b. record b { dev = 0; lock = false }) s

pub filled_self :
    (k : ℕ) (im zm : ℕ → Option MapBlock) (s : Store)
    → (filled k im zm s).super k ≡ unlocked (with_maps im zm (s.super k))
filled_self k im zm s =
    edited_self k unlocked (edited k (with_maps im zm) s)
    ∙ ap unlocked (edited_self k (with_maps im zm) s)

pub filled_ne :
    (k j : ℕ) (im zm : ℕ → Option MapBlock) (s : Store)
    → ¬ (j ≡ k)
    → (filled k im zm s).super j ≡ s.super j
filled_ne k j im zm s ne =
    edited_ne k j unlocked (edited k (with_maps im zm) s) ne ∙ edited_ne k j (with_maps im zm) s ne
