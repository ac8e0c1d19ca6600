-- ===== src/Fs/Inode/Blocks.antt =====
-- The map of fs/inode.c from the blocks of a file to those of its device, against a plain definition.
use linux_0_11_notes.Prelude.{
  Bool, Bool-cases, ap, arith, false, fun_ext, if◌then◌else◌, inl, inr, leb, ltb, not, refl, subst,
  sym, true, ℕ, ◌%◌, ◌&&◌, ◌+◌, ◌-◌, ◌/◌, ◌<◌, ◌==◌, ◌∙◌, ◌≡◌, ◌⊎◌,
}
use linux_0_11_notes.Fs.Inode.Bmap.{
  block_map, bmap, create_block, max_block, through, word_of, zone_of,
}
use linux_0_11_notes.Fs.Store.{
  Store, alloc_block, bind_at, bread, brelse, give, nothing_to_do, returns, take_else, take_then,
  update_at, write_block, ◌>>=◌,
}
use linux_0_11_notes.Fs.Store.Words.{get_word, set_word}

-- What word k of block b of the device says, if the block is there.
unfoldable pub word_in : Store → ℕ → ℕ → ℕ → ℕ
word_in s dev b k = if b == 0 then 0 else if s.broken dev b then 0 else get_word k (s.content dev b)

-- The block of the device that is block `n` of the file, or 0.
unfoldable pub file_block : Store → ℕ → ℕ → ℕ
file_block s i n =
    let d : ℕ = (s.inode i).dev in
    if ltb n 7
    then (s.inode i).zone n
    else if ltb n 519
    then word_in s d ((s.inode i).zone 7) (n - 7)
    else word_in s d (word_in s d ((s.inode i).zone 8) ((n - 519) / 512)) ((n - 519) % 512)

-- A block that is read and given back has as many users as before.
users-back :
    (f : ℕ → ℕ → ℕ) (d b n : ℕ)
    → n ≡ f d b + 1
    → update_at (update_at f d b n) d b (update_at f d b n d b - 1) ≡ f
users-back f d b n e = fun_ext (λ d'. fun_ext (λ b'. ground arith))

pub bread-broken : (dev b : ℕ) (s : Store) → s.broken dev b ≡ true → bread dev b s ≡ returns false s
unfolding bread
bread-broken dev b s e = rw e

abbrev pub held : ℕ → ℕ → Store → Store
held dev b s = record s { users = update_at s.users dev b (s.users dev b + 1) }

pub bread-good :
    (dev b : ℕ) (s : Store) → s.broken dev b ≡ false → bread dev b s ≡ returns true (held dev b s)
unfolding bread
bread-good dev b s e = rw e

-- What was read can be given back.
pub brelse-held : (dev b : ℕ) (s : Store) → brelse dev b (held dev b s) ≡ returns tt s
unfolding brelse
brelse-held dev b s =
    let t : (update_at s.users dev b (s.users dev b + 1) dev b == 0) ≡ false = ground arith in
    rw (t, users-back s.users dev b (s.users dev b + 1) refl)

word_in-broken : (s : Store) (dev b k : ℕ) → s.broken dev b ≡ true → word_in s dev b k ≡ 0
unfolding word_in
word_in-broken s dev b k e = ground arith

word_in-no_block : (s : Store) (dev b k : ℕ) → b ≡ 0 → word_in s dev b k ≡ 0
unfolding word_in
word_in-no_block s dev b k e = ground arith

word_in-good :
    (s : Store) (dev b k : ℕ)
    → ¬ (b ≡ 0)
    → s.broken dev b ≡ false
    → word_in s dev b k ≡ get_word k (s.content dev b)
unfolding word_in
word_in-good s dev b k nz e = ground arith

word_of-word_in :
    (create : Bool) (s : Store) (dev b k : ℕ)
    → ¬ (b ≡ 0)
    → (create ≡ false) ⊎ ¬ (word_in s dev b k ≡ 0)
    → word_of create dev b k s ≡ returns (word_in s dev b k) s
unfolding word_of
word_of-word_in create s dev b k nz h = elim (Bool-cases (s.broken dev b)) [
  | inl e ↦
      bind_at (bread dev b) _ s s false (bread-broken dev b s e)
      ∙ ap (λ (n : ℕ). returns n s) (sym (word_in-broken s dev b k e))
  | inr e ↦
      let w : ℕ = get_word k (s.content dev b) in
      let g : word_in s dev b k ≡ w = word_in-good s dev b k nz e in
      let t : (create && w == 0) ≡ false = ground arith in
      let t' : (create && w == 0 && not (w == 0)) ≡ false = ground arith in
      let u : Store = held dev b s in
      bind_at (bread dev b) _ s u true (bread-good dev b s e)
      ∙ bind_at (if create && w == 0 then alloc_block dev else give w) _ u u w
          (take_else (create && w == 0) (alloc_block dev) (give w) u t)
      ∙ bind_at
          (if create && w == 0 && not (w == 0)
            then (λ v. write_block dev b (set_word k w (v.content dev b)) v)
            else nothing_to_do)
          _ u u tt (take_else (create && w == 0 && not (w == 0)) _ nothing_to_do u t')
      ∙ bind_at (brelse dev b) (λ _. give w) u s tt (brelse-held dev b s)
      ∙ ap (λ (n : ℕ). returns n s) (sym g)
]

zone_of-zone :
    (create : Bool) (s : Store) (z i : ℕ)
    → (create ≡ false) ⊎ ¬ ((s.inode i).zone z ≡ 0)
    → zone_of create z i s ≡ returns ((s.inode i).zone z) s
unfolding zone_of
zone_of-zone create s z i h =
    let t : (create && (s.inode i).zone z == 0) ≡ false = ground arith in ground (arith, t)

through-word_in :
    (create : Bool) (s : Store) (dev b k : ℕ)
    → (create ≡ false) ⊎ ¬ (word_in s dev b k ≡ 0)
    → through b (λ z. word_of create dev z k) s ≡ returns (word_in s dev b k) s
through-word_in create s dev b k h = elim (Bool-cases (b == 0)) [
  | inl e ↦
      take_then (b == 0) (give 0) (word_of create dev b k) s e
      ∙ ap (λ (n : ℕ). returns n s) (sym (word_in-no_block s dev b k (ground arith)))
  | inr e ↦
      take_else (b == 0) (give 0) (word_of create dev b k) s e
      ∙ word_of-word_in create s dev b k (ground arith) h
]

module _ (create : Bool) (s : Store) (i n : ℕ) where
  -- Nothing has to be created for a word.
  abbrev Suffices : ℕ → Type 0
  Suffices v = (create ≡ false) ⊎ ¬ (v ≡ 0)

  abbrev dev : ℕ
  dev = (s.inode i).dev

  abbrev first : ℕ
  first = word_in s dev ((s.inode i).zone 8) ((n - 519) / 512)

  -- A block that a word leads to has a word that leads to it.
  leads : (b k : ℕ) → Suffices (word_in s dev b k) → Suffices b
  leads b k (inl e) = inl e
  leads b k (inr h) = inr (λ z. h (word_in-no_block s dev b k z))

  single_lem :
      Suffices (word_in s dev ((s.inode i).zone 7) (n - 7))
      → (do z ← zone_of create 7 i; through z (λ z. word_of create dev z (n - 7))) s
        ≡ returns (word_in s dev ((s.inode i).zone 7) (n - 7)) s
  single_lem h =
      bind_at (zone_of create 7 i) (λ z. through z (λ z. word_of create dev z (n - 7))) s s _
        (zone_of-zone create s 7 i (leads ((s.inode i).zone 7) (n - 7) h))
      ∙ through-word_in create s dev ((s.inode i).zone 7) (n - 7) h

  double_lem :
      Suffices (word_in s dev first ((n - 519) % 512))
      → (do
        z ← zone_of create 8 i
        w ← through z (λ z. word_of create dev z ((n - 519) / 512))
        through w (λ w. word_of create dev w ((n - 519) % 512)))
          s
        ≡ returns (word_in s dev first ((n - 519) % 512)) s
  double_lem h =
      let k : Suffices first = leads first ((n - 519) % 512) h in
      bind_at (zone_of create 8 i) _ s s _
        (zone_of-zone create s 8 i (leads ((s.inode i).zone 8) ((n - 519) / 512) k))
      ∙ bind_at (through ((s.inode i).zone 8) (λ z. word_of create dev z ((n - 519) / 512))) _ s s _
          (through-word_in create s dev ((s.inode i).zone 8) ((n - 519) / 512) k)
      ∙ through-word_in create s dev first ((n - 519) % 512) h

  -- Where nothing has to be created, the map is that of `file_block`, and nothing changes.
  map-file_block :
      n < max_block
      → Suffices (file_block s i n)
      → block_map create i n s ≡ returns (file_block s i n) s
  unfolding block_map file_block
  map-file_block lt h =
      let in_range : leb max_block n ≡ false = ground arith in
      elim (Bool-cases (ltb n 7)) [
        | inl direct ↦
            let f : file_block s i n ≡ (s.inode i).zone n = rw direct in
            rw (in_range, direct) (zone_of-zone create s n i (subst Suffices f h))
        | inr e ↦ elim (Bool-cases (ltb n 519)) [
          | inl single ↦
              let f : file_block s i n ≡ word_in s dev ((s.inode i).zone 7) (n - 7) =
                rw (e, single) in
              let g : ltb (n - 7) 512 ≡ true = ground arith in
              rw (in_range, e, g, single) (single_lem (subst Suffices f h))
          | inr double ↦
              let f : file_block s i n ≡ word_in s dev first ((n - 519) % 512) = rw (e, double) in
              let g : ltb (n - 7) 512 ≡ false = ground arith in
              rw (in_range, e, g, double) (double_lem (subst Suffices f h))
        ]
      ]

-- `bmap` gives the block of the device that the zones of the inode and the indirect blocks give for
-- block n of the file, 0 where there is none or an indirect block cannot be read; it ends, and leaves
-- everything as it was, the use of each buffer included.
pub bmap-file_block :
    (s : Store) (i n : ℕ) → n < max_block → bmap i n s ≡ returns (file_block s i n) s
bmap-file_block s i n lt = map-file_block false s i n lt (inl refl)

-- `create_block` does the same, and creates nothing, where the block is there.
create_block-file_block :
    (s : Store) (i n : ℕ)
    → n < max_block
    → ¬ (file_block s i n ≡ 0)
    → create_block i n s ≡ returns (file_block s i n) s
create_block-file_block s i n lt h = map-file_block true s i n lt (inr h)
