-- ===== src/Fs/Mounts/Read.antt =====
-- What `read_super` of fs/super.c makes of a device.
use linux_0_11_notes.Prelude.{
  Bool-cases, ap, ap₂, arith, false, if◌then◌else◌, inl, inr, none, not, refl, some, true, ℕ,
  ℕ_discrete, ◌+◌, ◌==◌, ◌∙◌, ◌≡◌, ◌⊎◌,
}
use linux_0_11_notes.Fs.Inode.Blocks.{bread-broken, bread-good, brelse-held, held}
use linux_0_11_notes.Fs.Mounts.{
  fill_super, leave_super, lock_super, magic_of, no_map, read_maps, read_numbers, super_magic,
}
use linux_0_11_notes.Fs.Mounts.Device.{
  BadDevice, HasMaps, IsMounted, IsRefused, block_one, left_alone-IsRefused,
}
use linux_0_11_notes.Fs.Mounts.Fill.{read_maps_refused, read_maps_all, BrokenMap, IsComplete}
use linux_0_11_notes.Fs.Mounts.Fresh.{edited, edited_ne, edited_self, fresh_map, left_alone}
use linux_0_11_notes.Fs.Mounts.Load.{held_one, load_map-IsLoaded}
use linux_0_11_notes.Fs.Store.{
  Store, SuperBlock, bind_at, bread, brelse, give, returns, take_else, take_then, ◌>>◌,
}
use linux_0_11_notes.Fs.Store.Words.{get_word}

abbrev pub locked : SuperBlock → SuperBlock
locked b = record b { lock = true }

abbrev pub claimed : ℕ → SuperBlock → SuperBlock
claimed dev b = record b { dev = dev; isup = none; imount = none }

lock_free :
    (k : ℕ) (t : Store) → (t.super k).lock ≡ false → lock_super k t ≡ returns tt (edited k locked t)
unfolding lock_super
lock_free k t h = rw h refl

module _ (device k : ℕ) (s : Store) (free : (s.super k).lock ≡ false) where
  -- The states after the claim of the slot, its lock, and the numbers.
  abbrev s1 : Store
  s1 = edited k (claimed device) s

  abbrev s2 : Store
  s2 = edited k locked s1

  abbrev s3 : Store
  s3 = edited k (read_numbers (block_one s device)) s2

  s1_unlocked : (s1.super k).lock ≡ false
  s1_unlocked = ap (λ (b : SuperBlock). b.lock) (edited_self k (claimed device) s) ∙ free

  s2_others : (j : ℕ) → ¬ (j ≡ k) → s2.super j ≡ s.super j
  s2_others j ne = edited_ne k j locked s1 ne ∙ edited_ne k j (claimed device) s ne

  s3_others : (j : ℕ) → ¬ (j ≡ k) → s3.super j ≡ s.super j
  s3_others j ne = edited_ne k j (read_numbers (block_one s device)) s2 ne ∙ s2_others j ne

  s3_slot : s3.super k ≡ read_numbers (block_one s device) (locked (claimed device (s.super k)))
  s3_slot =
      edited_self k (read_numbers (block_one s device)) s2
      ∙ ap (read_numbers (block_one s device))
          (edited_self k locked s1 ∙ ap locked (edited_self k (claimed device) s))

  fill_super_broken :
      s.broken device 1 ≡ true → fill_super device k s ≡ returns none (left_alone k s2)
  unfolding fill_super
  fill_super_broken bad =
      bind_at (lock_super k) _ s1 s2 tt (lock_free k s1 s1_unlocked)
      ∙ bind_at (bread device 1) _ s2 s2 false (bread-broken device 1 s2 bad)

  -- Up to the test of the magic number.
  fill_super_numbers :
      s.broken device 1 ≡ false
      → fill_super device k s
        ≡ (if not (magic_of (block_one s device) == super_magic)
              then (do leave_super k; give none)
              else read_maps device k)
            s3
  unfolding fill_super
  fill_super_numbers good =
      bind_at (lock_super k) _ s1 s2 tt (lock_free k s1 s1_unlocked)
      ∙ bind_at (bread device 1) _ s2 (held device 1 s2) true (bread-good device 1 s2 good)
      ∙ bind_at (brelse device 1) _ (held device 1 s3) s3 tt (brelse-held device 1 s3)

  s3_imap : (s3.super k).imap_blocks ≡ get_word 2 (block_one s device)
  unfolding read_numbers
  s3_imap = ap (λ (b : SuperBlock). b.imap_blocks) s3_slot

  s3_zmap : (s3.super k).zmap_blocks ≡ get_word 3 (block_one s device)
  unfolding read_numbers
  s3_zmap = ap (λ (b : SuperBlock). b.zmap_blocks) s3_slot

  filled-IsMounted :
      (q : Store)
      → magic_of (block_one s device) ≡ super_magic
      → IsComplete device k s3 q
      → IsMounted device k s q
  unfolding read_numbers
  filled-IsMounted q magic r = record {
    dev = r.same_dev ∙ ap (λ (b : SuperBlock). b.dev) s3_slot;
    lock = r.lock;
    magic = magic;
    isup = r.isup ∙ ap (λ (b : SuperBlock). b.isup) s3_slot;
    imount = r.imount ∙ ap (λ (b : SuperBlock). b.imount) s3_slot;
    ninodes = r.ninodes ∙ ap (λ (b : SuperBlock). b.maps.ninodes) s3_slot;
    imap_blocks = r.imap_blocks ∙ s3_imap;
    zmap_blocks = r.zmap_blocks ∙ s3_zmap;
    nzones = r.nzones ∙ ap (λ (b : SuperBlock). b.maps.nzones) s3_slot;
    firstdatazone = r.firstdatazone ∙ ap (λ (b : SuperBlock). b.maps.firstdatazone) s3_slot;
    imap = λ j. r.imap j ∙ ap (λ (n : ℕ). fresh_map s device 2 n j) s3_imap;
    zmap = λ j. r.zmap j ∙ ap₂ (λ (a : ℕ) (n : ℕ). fresh_map s device (2 + a) n j) s3_imap s3_zmap;
    others = λ j ne. r.others j ne ∙ s3_others j ne;
    users = λ d c.
        r.users d c
        ∙ ap₂ (λ (a : ℕ) (n : ℕ). s.users d c + held_one device 2 (a + n) d c) s3_imap s3_zmap;
    content = r.content;
    inode = r.inode;
  }

  -- The maps are read, or a block of them cannot be.
  read_maps_result :
      HasMaps (block_one s device)
      → ((q : Store) × (read_maps device k s3 ≡ returns (some k) q) × IsComplete device k s3 q)
        ⊎ ((read_maps device k s3 ≡ returns none (left_alone k s3)) × BrokenMap device k s3)
  read_maps_result (p1, l1, p2, l2) =
      let n1 : ℕ = (s3.super k).imap_blocks in
      let n2 : ℕ = (s3.super k).zmap_blocks in
      let r1 = load_map-IsLoaded n1 0 device 2 s3 s3.users no_map (omega (arith, s3_imap)) in
      let r2 =
        load_map-IsLoaded n2 0 device (2 + r1.m) s3 r1.users no_map (omega (arith, s3_zmap)) in
      elim (ℕ_discrete (2 + r1.m + r2.m) (2 + n1 + n2)) [
        | yes e ↦ inl (
            read_maps_all device k s3 r1 r2 (omega (arith, s3_imap)) (omega (arith, s3_zmap))
              (omega (arith, r1.at_most, r2.at_most)) (omega (arith, r1.at_most, r2.at_most)))
        | no ne ↦ inr (
            read_maps_refused device k s3 r1 r2 (omega (arith, s3_imap)) (omega (arith, s3_zmap))
              ne)
      ]

-- `read_super` on a free slot and a device whose maps have 1 to 8 blocks each either returns the slot,
-- which then has the device, the five numbers of its block 1 that are kept (words 0 to 4), no inode
-- mounted, and its two maps, each with its first bit set, and whose blocks
-- have one user more each; or it returns none, because the magic number is another one or a block cannot
-- be read, and then the slot is free again and each block has the users that it had.
pub fill_super-IsMounted :
    (device k : ℕ) (s : Store)
    → (s.super k).lock ≡ false
    → HasMaps (block_one s device)
    → ((q : Store) × (fill_super device k s ≡ returns (some k) q) × IsMounted device k s q)
      ⊎ ((q : Store) × (fill_super device k s ≡ returns none q)
          × IsRefused k s q
          × BadDevice device s)
fill_super-IsMounted device k s free maps = elim (Bool-cases (s.broken device 1)) [
  | inl bad ↦ inr (
    _,
    fill_super_broken device k s free bad,
    left_alone-IsRefused k s (s2 device k s free) (s2_others device k s free) refl refl refl,
    inl (1, omega arith, omega arith, bad),
  )
  | inr good ↦
      let t : Store = s3 device k s free in
      let go = fill_super_numbers device k s free good in
      elim (ℕ_discrete (magic_of (block_one s device)) super_magic) [
        | no other ↦ inr (
          left_alone k t,
          go ∙ take_then (not (magic_of (block_one s device) == super_magic)) _ _ t (ground arith),
          left_alone-IsRefused k s t (s3_others device k s free) refl refl refl,
          inr other,
        )
        | yes magic ↦
            let go2 =
              go
              ∙ take_else (not (magic_of (block_one s device) == super_magic)) _
                  (read_maps device k) t (ground arith) in
            elim (read_maps_result device k s free maps) [
              | inl (q, run, r) ↦ inl (q, go2 ∙ run, filled-IsMounted device k s free q magic r)
              | inr (run, (c, lo, hi, bad)) ↦ inr (
                left_alone k t,
                go2 ∙ run,
                left_alone-IsRefused k s t (s3_others device k s free) refl refl refl,
                inl (
                  c,
                  omega arith,
                  omega (arith, s3_imap device k s free, s3_zmap device k s free),
                  bad,
                ),
              )
            ]
      ]
]
