-- ===== src/Fs/Mounts/Fill.antt =====
-- What `read_super` of fs/super.c makes of the maps of a device.
use linux_0_11_notes.Prelude.{
  ap, ap₂, arith, false, inl, inr, min, none, not, refl, some, sym, true, ℕ, ◌+◌, ◌-◌, ◌<◌, ◌==◌,
  ◌∙◌, ◌≡◌, ◌≤◌,
}
use linux_0_11_notes.Fs.Mounts.{give_map, load_map, map_places, no_map, read_maps}
use linux_0_11_notes.Fs.Mounts.Fresh.{
  filled, filled_ne, filled_self, fresh_map, left_alone, loaded-HasBlocks, with_first_lem,
}
use linux_0_11_notes.Fs.Mounts.Load.{IsLoaded, give_map_lem, held_one, with_users}
use linux_0_11_notes.Fs.Store.{Store, SuperBlock, bind_at, returns, take_else, take_then}
use linux_0_11_notes.Kernel.Sys.{short}

-- The device's slot has both maps, whose blocks have one user more each, and nothing else changes.
pub record IsComplete (dev k : ℕ) (s q : Store) : Type 0 where
  pub imap : (j : ℕ) → (q.super k).maps.imap j ≡ fresh_map s dev 2 (s.super k).imap_blocks j
  pub zmap :
      (j : ℕ)
      → (q.super k).maps.zmap j
        ≡ fresh_map s dev (2 + (s.super k).imap_blocks) (s.super k).zmap_blocks j
  pub ninodes : (q.super k).maps.ninodes ≡ (s.super k).maps.ninodes
  pub imap_blocks : (q.super k).imap_blocks ≡ (s.super k).imap_blocks
  pub zmap_blocks : (q.super k).zmap_blocks ≡ (s.super k).zmap_blocks
  pub isup : (q.super k).isup ≡ (s.super k).isup
  pub imount : (q.super k).imount ≡ (s.super k).imount
  pub nzones : (q.super k).maps.nzones ≡ (s.super k).maps.nzones
  pub firstdatazone : (q.super k).maps.firstdatazone ≡ (s.super k).maps.firstdatazone
  pub same_dev : (q.super k).dev ≡ (s.super k).dev
  pub lock : (q.super k).lock ≡ false
  pub others : (j : ℕ) → ¬ (j ≡ k) → q.super j ≡ s.super j
  pub users :
      (d c : ℕ)
      → q.users d c
        ≡ s.users d c + held_one dev 2 ((s.super k).imap_blocks + (s.super k).zmap_blocks) d c
  pub content : q.content ≡ s.content
  pub inode : q.inode ≡ s.inode

-- Some block of a map cannot be read.
abbrev pub BrokenMap : ℕ → ℕ → Store → Type 0
BrokenMap dev k s =
    (c : ℕ) × (2 ≤ c)
    × (c < 2 + (s.super k).imap_blocks + (s.super k).zmap_blocks)
    × (s.broken dev c ≡ true)

module _ (dev k : ℕ) (s : Store) where
  abbrev n1 : ℕ
  n1 = (s.super k).imap_blocks

  abbrev n2 : ℕ
  n2 = (s.super k).zmap_blocks

  module _ (r1 : IsLoaded n1 0 dev 2 s s.users no_map)
      (r2 : IsLoaded n2 0 dev (2 + r1.m) s r1.users no_map) where
    both_counted : (d c : ℕ) → r2.users d c ≡ s.users d c + held_one dev 2 (r1.m + r2.m) d c
    both_counted d c = ground (arith, r1.counts d c, r2.counts d c)

    pub read_maps_all :
        0 < n1
        → 0 < n2
        → r1.m ≡ n1
        → r2.m ≡ n2
        → (q : Store) × (read_maps dev k s ≡ returns (some k) q) × IsComplete dev k s q
    unfolding read_maps
    read_maps_all p1 p2 e1 e2 =
        let (im, f1, g1) = with_first_lem n1 dev 2 s s.users r1 (omega arith) in
        let (zm, f2, g2) = with_first_lem n2 dev (2 + r1.m) s r1.users r2 (omega arith) in
        let slot = filled_self k im zm (with_users s r2.users) in
        (
          filled k im zm (with_users s r2.users),
          bind_at (load_map n1 0 dev 2 no_map) _ s (with_users s r1.users) (2 + r1.m, r1.map) r1.run
              ∙ bind_at (load_map n2 0 dev (2 + r1.m) no_map) _ (with_users s r1.users)
                  (with_users s r2.users) (2 + r1.m + r2.m, r2.map) r2.run
              ∙ take_else (not (2 + r1.m + r2.m == 2 + n1 + n2)) _ _ (with_users s r2.users)
                  (ground arith)
              ∙ rw (f1, f2) refl,
          record {
            imap = λ j.
                ap (λ (b : SuperBlock). b.maps.imap j) slot
                ∙ g1 j
                ∙ ap (λ (n : ℕ). fresh_map s dev 2 n j) e1;
            zmap = λ j.
                ap (λ (b : SuperBlock). b.maps.zmap j) slot
                ∙ g2 j
                ∙ ap₂ (λ (a : ℕ) (n : ℕ). fresh_map s dev (2 + a) n j) e1 e2;
            ninodes = ap (λ (b : SuperBlock). b.maps.ninodes) slot;
            imap_blocks = ap (λ (b : SuperBlock). b.imap_blocks) slot;
            zmap_blocks = ap (λ (b : SuperBlock). b.zmap_blocks) slot;
            isup = ap (λ (b : SuperBlock). b.isup) slot;
            imount = ap (λ (b : SuperBlock). b.imount) slot;
            nzones = ap (λ (b : SuperBlock). b.maps.nzones) slot;
            firstdatazone = ap (λ (b : SuperBlock). b.maps.firstdatazone) slot;
            same_dev = ap (λ (b : SuperBlock). b.dev) slot;
            lock = ap (λ (b : SuperBlock). b.lock) slot;
            others = λ j ne. filled_ne k j im zm (with_users s r2.users) ne;
            users = λ d c.
                both_counted d c ∙ ap (λ (n : ℕ). s.users d c + held_one dev 2 n d c) (omega arith);
            content = refl;
            inode = refl;
          },
        )

    first_used : (j : ℕ) → 0 ≤ j → j < r1.m → 0 < r2.users dev (2 + j)
    first_used j lo lt = ground (arith, both_counted dev (2 + j))

    -- Both maps are given back, and each block has the users that it had.
    given_back :
        n1 ≤ map_places
        → n2 ≤ map_places
        → (v1 v2 : ℕ → ℕ → ℕ) × (give_map map_places 0 dev 2 r1.map (with_users s r2.users)
            ≡ returns tt (with_users s v1))
          × (give_map map_places 0 dev (2 + r1.m) r2.map (with_users s v1)
              ≡ returns tt (with_users s v2))
          × ((d c : ℕ) → v2 d c ≡ s.users d c)
    given_back l1 l2 =
        let (v1, run1, q1) =
          give_map_lem map_places 0 r1.m dev 2 s r2.users r1.map
            (loaded-HasBlocks n1 dev 2 s s.users r1) first_used in
        let m1 : min map_places (r1.m - 0) ≡ r1.m = omega (arith, r1.at_most) in
        let m2 : min map_places (r2.m - 0) ≡ r2.m = omega (arith, r2.at_most) in
        let back1 : (d c : ℕ) → v1 d c + held_one dev 2 r1.m d c ≡ r2.users d c =
          λ d c. ap (λ (n : ℕ). v1 d c + held_one dev 2 n d c) (sym m1) ∙ q1 d c in
        let (v2, run2, q2) =
          give_map_lem map_places 0 r2.m dev (2 + r1.m) s v1 r2.map
            (loaded-HasBlocks n2 dev (2 + r1.m) s r1.users r2)
            (λ j lo lt.
              ground (arith, back1 dev (2 + r1.m + j), both_counted dev (2 + r1.m + j))) in
        let back2 : (d c : ℕ) → v2 d c + held_one dev (2 + r1.m) r2.m d c ≡ v1 d c = λ d c.
          ap₂ (λ (n : ℕ) (b : ℕ). v2 d c + held_one dev b n d c) (sym m2) (omega arith) ∙ q2 d c in
        (v1, v2, run1, run2, λ d c. ground (arith, back1 d c, back2 d c, both_counted d c))

    same_users : (v : ℕ → ℕ → ℕ) → ((d c : ℕ) → v d c ≡ s.users d c) → with_users s v ≡ s
    same_users v h = λ i. with_users s (λ d c. h d c i)

    pub read_maps_refused :
        n1 ≤ map_places
        → n2 ≤ map_places
        → ¬ (2 + r1.m + r2.m ≡ 2 + n1 + n2)
        → (read_maps dev k s ≡ returns none (left_alone k s)) × BrokenMap dev k s
    unfolding read_maps
    read_maps_refused l1 l2 short =
        let (v1, v2, run1, run2, back) = given_back l1 l2 in
        (
          bind_at (load_map n1 0 dev 2 no_map) _ s (with_users s r1.users) (2 + r1.m, r1.map) r1.run
              ∙ bind_at (load_map n2 0 dev (2 + r1.m) no_map) _ (with_users s r1.users)
                  (with_users s r2.users) (2 + r1.m + r2.m, r2.map) r2.run
              ∙ take_then (not (2 + r1.m + r2.m == 2 + n1 + n2)) _ _ (with_users s r2.users)
                  (ground arith)
              ∙ bind_at (give_map map_places 0 dev 2 r1.map) _ (with_users s r2.users)
                  (with_users s v1) tt run1
              ∙ bind_at (give_map map_places 0 dev (2 + r1.m) r2.map) _ (with_users s v1)
                  (with_users s v2) tt run2
              ∙ ap (λ (t : Store). returns none (left_alone k t)) (same_users v2 back),
          elim r2.stops [
            | inr bad ↦ (2 + r1.m + r2.m, omega arith, omega (arith, r1.at_most, r2.at_most), bad)
            | inl all2 ↦ elim r1.stops [
              | inl all ↦ absurd (omega arith)
              | inr bad ↦ (2 + r1.m, omega arith, omega (arith, r1.at_most), bad)
            ]
          ],
        )
