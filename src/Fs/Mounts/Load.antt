-- ===== src/Fs/Mounts/Load.antt =====
-- The blocks of a map that `read_super` of fs/super.c counts, and gives back.
use linux_0_11_notes.Prelude.{
  Bool-cases, Option, ap, ap₂, arith, dec_lt, false, if◌then◌else◌, inl, inr, leb, ltb, min, none,
  refl, some, suc, true, update, zero, ℕ, ℕ_discrete, ◌&&◌, ◌+◌, ◌-◌, ◌<◌, ◌==◌, ◌∙◌, ◌≡◌, ◌≤◌, ◌⊎◌,
}
use linux_0_11_notes.Fs.Bitmap.{MapBlock}
use linux_0_11_notes.Fs.Inode.Blocks.{bread-broken, bread-good, held}
use linux_0_11_notes.Fs.Mounts.{give_map, load_map, map_block, map_places}
use linux_0_11_notes.Fs.Store.{Store, bind_at, bread, brelse, returns, take_else, update_at}
use linux_0_11_notes.Mm.{used}

-- The store with other counts of users.
abbrev pub with_users : Store → (ℕ → ℕ → ℕ) → Store
with_users s u = record s { users = u }

-- 1 for the m blocks of the device from block b on.
abbrev pub held_one : ℕ → ℕ → ℕ → ℕ → ℕ → ℕ
held_one dev b m d c = if d == dev && leb b c && ltb c (b + m) then 1 else 0

-- The map after m of its blocks were read into slots from i on.
abbrev pub loaded_from : (ℕ → MapBlock) → ℕ → ℕ → (ℕ → Option MapBlock) → ℕ → ℕ → Option MapBlock
loaded_from g i b m0 m j = if leb i j && ltb j (i + m) then some (g (b + (j - i))) else m0 j

abbrev pub block_map_of : Store → ℕ → ℕ → MapBlock
block_map_of s dev c = map_block (s.content dev c) (s.dirty dev c)

abbrev pub loaded : Store → ℕ → ℕ → ℕ → (ℕ → Option MapBlock) → ℕ → ℕ → Option MapBlock
loaded s dev = loaded_from (block_map_of s dev)

loaded_from_next :
    (g : ℕ → MapBlock) (i b : ℕ) (m0 : ℕ → Option MapBlock) (m j : ℕ)
    → loaded_from g (i + 1) (b + 1) (update m0 i (some (g b))) m j ≡ loaded_from g i b m0 (suc m) j
loaded_from_next g i b m0 m j = elim (ℕ_discrete j i) [
  | yes e ↦ let q : g (b + (j - i)) ≡ g b = ap g (omega arith) in ground (arith, q)
  | no ne ↦
      let q : (i < j) → g (b + 1 + (j - (i + 1))) ≡ g (b + (j - i)) = λ lt. ap g (omega arith) in
      ground (arith, q)
]

-- The loop reads m blocks: all n, or up to one that cannot be read.
pub record IsLoaded (n i dev b : ℕ) (s : Store) (u : ℕ → ℕ → ℕ) (m0 : ℕ → Option MapBlock)
    : Type 0 where
  pub m : ℕ
  pub map : ℕ → Option MapBlock
  pub users : ℕ → ℕ → ℕ
  pub run : load_map n i dev b m0 (with_users s u) ≡ returns (b + m, map) (with_users s users)
  pub at_most : m ≤ n
  pub read : (j : ℕ) → j < m → s.broken dev (b + j) ≡ false
  pub stops : (m ≡ n) ⊎ (s.broken dev (b + m) ≡ true)
  pub slots : (j : ℕ) → map j ≡ loaded s dev i b m0 m j
  pub counts : (d c : ℕ) → users d c ≡ u d c + held_one dev b m d c

pub load_map-IsLoaded :
    (n i dev b : ℕ) (s : Store) (u : ℕ → ℕ → ℕ) (m0 : ℕ → Option MapBlock)
    → i + n ≤ map_places
    → IsLoaded n i dev b s u m0
unfolding load_map
load_map-IsLoaded zero i dev b s u m0 le = record {
  m = 0;
  map = m0;
  users = u;
  run = ap (λ (x : ℕ). returns (x, m0) (with_users s u)) (omega arith);
  at_most = omega arith;
  read = λ j lt. absurd (omega arith);
  stops = inl refl;
  slots = λ j. ground arith;
  counts = λ d c. ground arith;
}
load_map-IsLoaded (suc n) i dev b s u m0 le = elim (Bool-cases (s.broken dev b)) [
  | inl bad ↦ record {
    m = 0;
    map = m0;
    users = u;
    run =
        bind_at (bread dev b) _ (with_users s u) (with_users s u) false
          (bread-broken dev b (with_users s u) bad)
        ∙ ap (λ (x : ℕ). returns (x, m0) (with_users s u)) (omega arith);
    at_most = omega arith;
    read = λ j lt. absurd (omega arith);
    stops = inr (ap (s.broken dev) (omega arith) ∙ bad);
    slots = λ j. ground arith;
    counts = λ d c. ground arith;
  }
  | inr good ↦
      let s' : Store = with_users s u in
      let w : MapBlock = map_block (s.content dev b) (s.dirty dev b) in
      let r =
        load_map-IsLoaded n (i + 1) dev (b + 1) s (held dev b s').users (update m0 i (some w))
          (omega arith) in
      record {
        m = suc r.m;
        map = r.map;
        users = r.users;
        run =
            bind_at (bread dev b) _ s' (held dev b s') true (bread-good dev b s' good)
            ∙ take_else (leb map_places i) _ _ (held dev b s') (ground arith)
            ∙ r.run
            ∙ ap (λ (x : ℕ). returns (x, r.map) (with_users s r.users)) (omega arith);
        at_most = omega (arith, r.at_most);
        read = λ j lt. elim (ℕ_discrete j 0) [
          | yes e ↦ ap (s.broken dev) (omega arith) ∙ good
          | no ne ↦ ap (s.broken dev) (omega arith) ∙ r.read (j - 1) (omega arith)
        ];
        stops = elim r.stops [
          | inl e ↦ inl (ap suc e)
          | inr e ↦ inr (ap (s.broken dev) (omega arith) ∙ e)
        ];
        slots = λ j. r.slots j ∙ loaded_from_next (block_map_of s dev) i b m0 r.m j;
        counts = λ d c. ground (arith, r.counts d c);
      }
]

brelse-used :
    (dev c : ℕ) (s : Store) (u : ℕ → ℕ → ℕ)
    → 0 < u dev c
    → brelse dev c (with_users s u) ≡ returns tt (with_users s (update_at u dev c (u dev c - 1)))
unfolding brelse
brelse-used dev c s u used = let e : (u dev c == 0) ≡ false = ground arith in rw e

min_next : (n l i : ℕ) → i < l → min (suc n) (l - i) ≡ suc (min n (l - (i + 1)))
min_next n l i lt = omega arith

one_more :
    (u : ℕ → ℕ → ℕ) (v dev x k d c : ℕ)
    → 0 < u dev x
    → v + held_one dev (x + 1) k d c ≡ update_at u dev x (u dev x - 1) d c
    → v + held_one dev x (suc k) d c ≡ u d c
one_more u v dev x k d c used h = elim (ℕ_discrete d dev) [
  | yes e ↦ elim (ℕ_discrete c x) [
    | yes f ↦ let q : u d c ≡ u dev x = ap₂ u e f in ground (arith, q)
    | no ne ↦ let q : u d c ≡ u dev c = ap (λ (a : ℕ). u a c) e in ground (arith, q)
  ]
  | no ne ↦ ground arith
]

-- A map whose slots below l have blocks.
abbrev pub HasBlocks : ℕ → (ℕ → Option MapBlock) → Type 0
HasBlocks l m = (j : ℕ) → (l ≤ j → m j ≡ none) × (j < l → (w : MapBlock) × (m j ≡ some w))

-- Each block of the map loses a user.
pub give_map_lem :
    (n i l dev b : ℕ) (s : Store) (u : ℕ → ℕ → ℕ) (m : ℕ → Option MapBlock)
    → HasBlocks l m
    → ((j : ℕ) → i ≤ j → j < l → 0 < u dev (b + j))
    → (v : ℕ → ℕ → ℕ) × (give_map n i dev b m (with_users s u) ≡ returns tt (with_users s v))
      × ((d c : ℕ) → v d c + held_one dev (b + i) (min n (l - i)) d c ≡ u d c)
unfolding give_map
give_map_lem zero i l dev b s u m h used = (u, refl, λ d c. ground arith)
give_map_lem (suc n) i l dev b s u m h used = elim (dec_lt i l) [
  | no ge ↦
      let e : m i ≡ none = (h i).0 (omega arith) in
      let (v, r, q) = give_map_lem n (i + 1) l dev b s u m h (λ j lo hi. absurd (omega arith)) in
      (v, rw (give_map, e) r, λ d c. ground (arith, q d c))
  | yes lt ↦
      let (w, e) = (h i).1 lt in
      let u' : ℕ → ℕ → ℕ = update_at u dev (b + i) (u dev (b + i) - 1) in
      let (v, r, q) = give_map_lem n (i + 1) l dev b s u' m h (λ j lo hi. ground (arith, used j)) in
      (
        v,
        rw (give_map, e)
            (bind_at (brelse dev (b + i)) _ (with_users s u) (with_users s u') tt
                (brelse-used dev (b + i) s u (used i (omega arith) lt))
              ∙ r),
        λ d c.
            ap (λ (k : ℕ). v d c + held_one dev (b + i) k d c) (min_next n l i lt)
            ∙ one_more u (v d c) dev (b + i) (min n (l - (i + 1))) d c (used i (omega arith) lt) (
                ap (λ (x : ℕ). v d c + held_one dev x (min n (l - (i + 1))) d c) (omega arith)
                ∙ q d c),
      )
]
