-- ===== src/Fs/Contents/Reading.antt =====
-- `file_read` of fs/file_dev.c gives the bytes of the file.
use linux_0_11_notes.Prelude.{
  Bool-cases, List, [], ap, append-nil, append_assoc, ap₂, arith, false, if-false, if-true,
  if◌then◌else◌, inl, inr, length, negsuc, pos, refl, subst, suc, sym, true, zero, ℕ, ℕ_discrete,
  ◌%◌, ◌*◌, ◌++◌, ◌+◌, ◌-◌, ◌/◌, ◌<◌, ◌==◌, ◌∙◌, ◌∷◌, ◌≡◌, ◌≤◌, ◌⊎◌,
}
use linux_0_11_notes.Fs.Contents.{
  Progress, bytes_of, chunk, file_read, further, read_from, read_result,
}
use linux_0_11_notes.Fs.Inode.Blocks.{
  bmap-file_block, bread-broken, bread-good, brelse-held, file_block, held,
}
use linux_0_11_notes.Fs.Inode.Bmap.{bmap, max_block}
use linux_0_11_notes.Fs.Store.{
  Store, bind_at, bread, brelse, returns, set_inode, take_else, take_then,
}
use linux_0_11_notes.Kernel.Exit.{over}

-- Byte p of the file; a hole is zeros.
unfoldable pub file_byte : Store → ℕ → ℕ → ℕ
file_byte s i p =
    let b : ℕ = file_block s i (p / 1024) in
    if b == 0 then 0 else s.content (s.inode i).dev b (p % 1024)

-- n bytes of the file from byte p on.
unfoldable pub file_bytes : ℕ → Store → ℕ → ℕ → List ℕ
file_bytes zero s i p = []
file_bytes (suc n) s i p = file_byte s i p ∷ file_bytes n s i (p + 1)

length-file_bytes : (n : ℕ) (s : Store) (i p : ℕ) → length (file_bytes n s i p) ≡ n
unfolding file_bytes
length-file_bytes zero s i p = refl
length-file_bytes (suc n) s i p = ap suc (length-file_bytes n s i (p + 1))

file_bytes-append :
    (m n : ℕ) (s : Store) (i p : ℕ)
    → file_bytes m s i p ++ file_bytes n s i (p + m) ≡ file_bytes (m + n) s i p
unfolding file_bytes
file_bytes-append zero n s i p =
    ap₂ (λ (a : ℕ) (b : ℕ). file_bytes a s i b) (omega arith) (omega arith)
file_bytes-append (suc m) n s i p =
    let e : p + suc m ≡ p + 1 + m = omega arith in
    let f : suc m + n ≡ suc (m + n) = omega arith in rw (e, f, file_bytes-append m n s i (p + 1))

-- What one turn takes out of a block are bytes of the file.
bytes_of-file_bytes :
    (n o : ℕ) (s : Store) (i p : ℕ) (f : ℕ → ℕ)
    → p % 1024 ≡ o
    → o + n ≤ 1024
    → ((k : ℕ) → k < 1024 → f k ≡ file_byte s i (p / 1024 * 1024 + k))
    → bytes_of n o f ≡ file_bytes n s i p
unfolding bytes_of file_bytes
bytes_of-file_bytes zero o s i p f e le h = refl
bytes_of-file_bytes (suc zero) o s i p f e le h =
    ap (λ (x : ℕ). x ∷ []) (h o (omega arith) ∙ ap (file_byte s i) (omega arith))
bytes_of-file_bytes (suc (suc n)) o s i p f e le h =
    let q : (p + 1) / 1024 ≡ p / 1024 = omega arith in
    ap₂ (λ (x : ℕ) (xs : List ℕ). x ∷ xs) (h o (omega arith) ∙ ap (file_byte s i) (omega arith))
      (bytes_of-file_bytes (suc n) (o + 1) s i (p + 1) f (omega arith) (omega arith)
        λ k lt. h k lt ∙ ap (λ (x : ℕ). file_byte s i (x * 1024 + k)) (sym q))

in_block :
    (s : Store) (i p k : ℕ)
    → k < 1024
    → file_byte s i (p / 1024 * 1024 + k) ≡ (
        if file_block s i (p / 1024) == 0
        then 0
        else s.content (s.inode i).dev (file_block s i (p / 1024)) k)
unfolding file_byte
in_block s i p k lt =
    let q : (p / 1024 * 1024 + k) / 1024 ≡ p / 1024 = omega arith in
    let r : (p / 1024 * 1024 + k) % 1024 ≡ k = omega arith in rw (q, r)

hole_bytes :
    (n : ℕ) (s : Store) (i p : ℕ)
    → p % 1024 + n ≤ 1024
    → file_block s i (p / 1024) ≡ 0
    → bytes_of n (p % 1024) (λ _. 0) ≡ file_bytes n s i p
hole_bytes n s i p le e =
    bytes_of-file_bytes n (p % 1024) s i p (λ _. 0) refl le
      λ k lt. sym (
        in_block s i p k lt
        ∙ if-true (file_block s i (p / 1024) == 0) 0
            (s.content (s.inode i).dev (file_block s i (p / 1024)) k) (ground arith))

block_bytes :
    (n : ℕ) (s : Store) (i p : ℕ)
    → p % 1024 + n ≤ 1024
    → ¬ (file_block s i (p / 1024) ≡ 0)
    → bytes_of n (p % 1024) (s.content (s.inode i).dev (file_block s i (p / 1024)))
      ≡ file_bytes n s i p
block_bytes n s i p le e = bytes_of-file_bytes n (p % 1024) s i p _ refl le λ k lt. sym (
    in_block s i p k lt
    ∙ if-false (file_block s i (p / 1024) == 0) 0
        (s.content (s.inode i).dev (file_block s i (p / 1024)) k) (ground arith))

-- A block of the file that the device cannot read.
abbrev pub Unreadable : Store → ℕ → ℕ → Type 0
Unreadable s i p =
    (¬ (file_block s i (p / 1024) ≡ 0))
    × (s.broken (s.inode i).dev (file_block s i (p / 1024)) ≡ true)

-- k more bytes were read, and no more because that was all or the next block cannot be read.
pub record IsRead (s : Store) (i : ℕ) (p q : Progress) : Type 0 where
  pub more : ℕ
  pub out : q.out ≡ p.out ++ file_bytes more s i p.place
  pub place : q.place ≡ p.place + more
  pub left : q.left + more ≡ p.left
  pub stops : (q.left ≡ 0) ⊎ Unreadable s i q.place

IsRead-none :
    (s : Store) (i : ℕ) (p : Progress) → (p.left ≡ 0) ⊎ Unreadable s i p.place → IsRead s i p p
unfolding file_bytes
IsRead-none s i p h = record {
  more = 0;
  out = sym (append-nil p.out);
  place = omega arith;
  left = omega arith;
  stops = h;
}

IsRead-more :
    (s : Store) (i n : ℕ) (p p' q : Progress)
    → p'.out ≡ p.out ++ file_bytes n s i p.place
    → p'.place ≡ p.place + n
    → p'.left + n ≡ p.left
    → IsRead s i p' q
    → IsRead s i p q
IsRead-more s i n p p' q e f g r = record {
  more = n + r.more;
  out =
      r.out
      ∙ ap₂ (λ (xs : List ℕ) (a : ℕ). xs ++ file_bytes r.more s i a) e f
      ∙ append_assoc p.out (file_bytes n s i p.place) _
      ∙ ap (λ (xs : List ℕ). p.out ++ xs) (file_bytes-append n r.more s i p.place);
  place = omega (arith, r.place);
  left = omega (arith, r.left);
  stops = r.stops;
}

-- The turns of the loop.
module _ (fuel : ℕ) (s : Store) (i : ℕ) (p : Progress) where
  abbrev at_block : ℕ
  at_block = file_block s i (p.place / 1024)

  abbrev hole_turn : Progress
  hole_turn = further (bytes_of (chunk p.place p.left) (p.place % 1024) (λ _. 0)) p

  abbrev block_turn : Progress
  block_turn =
      further
        (bytes_of (chunk p.place p.left) (p.place % 1024) (s.content (s.inode i).dev at_block)) p

  read_hole :
      ¬ (p.left ≡ 0)
      → p.place / 1024 < max_block
      → at_block ≡ 0
      → read_from (suc fuel) i p s ≡ read_from fuel i hole_turn s
  unfolding read_from
  read_hole more small hole =
      take_else (p.left == 0) _ _ s (ground arith)
      ∙ bind_at (bmap i (p.place / 1024)) _ s s at_block
          (bmap-file_block s i (p.place / 1024) small)
      ∙ take_then (at_block == 0) _ _ s (ground arith)

  read_broken :
      ¬ (p.left ≡ 0)
      → p.place / 1024 < max_block
      → Unreadable s i p.place
      → read_from (suc fuel) i p s ≡ returns p s
  unfolding read_from
  read_broken more small (there, bad) =
      take_else (p.left == 0) _ _ s (ground arith)
      ∙ bind_at (bmap i (p.place / 1024)) _ s s at_block
          (bmap-file_block s i (p.place / 1024) small)
      ∙ take_else (at_block == 0) _ _ s (ground arith)
      ∙ bind_at (bread (s.inode i).dev at_block) _ s s false
          (bread-broken (s.inode i).dev at_block s bad)

  read_block :
      ¬ (p.left ≡ 0)
      → p.place / 1024 < max_block
      → ¬ (at_block ≡ 0)
      → s.broken (s.inode i).dev at_block ≡ false
      → read_from (suc fuel) i p s ≡ read_from fuel i block_turn s
  unfolding read_from
  read_block more small there good =
      let d : ℕ = (s.inode i).dev in
      take_else (p.left == 0) _ _ s (ground arith)
      ∙ bind_at (bmap i (p.place / 1024)) _ s s at_block
          (bmap-file_block s i (p.place / 1024) small)
      ∙ take_else (at_block == 0) _ _ s (ground arith)
      ∙ bind_at (bread d at_block) _ s (held d at_block s) true (bread-good d at_block s good)
      ∙ bind_at (brelse d at_block) _ (held d at_block s) s tt (brelse-held d at_block s)

read_from-IsRead :
    (fuel : ℕ) (s : Store) (i : ℕ) (p : Progress)
    → p.left < fuel
    → (p.place + p.left) / 1024 < max_block
    → (q : Progress) × (read_from fuel i p s ≡ returns q s) × IsRead s i p q
unfolding read_from
read_from-IsRead zero s i p f m = absurd (omega arith)
read_from-IsRead (suc fuel) s i p f m = elim (Bool-cases (p.left == 0)) [
  | inl over ↦ (p, take_then (p.left == 0) _ _ s over, IsRead-none s i p (inl (ground arith)))
  | inr more ↦
      let b : ℕ = at_block fuel s i p in
      let small : p.place / 1024 < max_block = omega arith in
      let left : ¬ (p.left ≡ 0) = ground arith in
      elim (ℕ_discrete b 0) [
        | yes hole ↦
            let (q, e, r) =
              read_from-IsRead fuel s i (hole_turn fuel s i p) (omega arith) (omega arith) in
            (
              q,
              read_hole fuel s i p left small hole ∙ e,
              IsRead-more s i _ p _ q
                  (ap (λ (xs : List ℕ). p.out ++ xs) (hole_bytes _ s i p.place (omega arith) hole))
                  refl (omega arith) r,
            )
        | no there ↦ elim (Bool-cases (s.broken (s.inode i).dev b)) [
          | inl bad ↦ (
            p,
            read_broken fuel s i p left small (there, bad),
            IsRead-none s i p (inr (there, bad)),
          )
          | inr good ↦
              let (q, e, r) =
                read_from-IsRead fuel s i (block_turn fuel s i p) (omega arith) (omega arith) in
              (
                q,
                read_block fuel s i p left small there good ∙ e,
                IsRead-more s i _ p _ q
                    (ap (λ (xs : List ℕ). p.out ++ xs)
                      (block_bytes _ s i p.place (omega arith) there))
                    refl (omega arith) r,
              )
        ]
      ]
]

-- Where the bytes asked for lie before block max_block, `file_read` ends. It gives the bytes of the file from the
-- position on, holes as zeros, as many as are asked for or up to the first block that cannot be read;
-- the position moves by as many, the value is how many they are, or -ERROR (-99) if none, and only the time of
-- access changes.
pub file_read-file_bytes :
    (s : Store) (i place count : ℕ)
    → 0 < count
    → (place + count) / 1024 < max_block
    → (n : ℕ) × (file_read i place (pos count) s
        ≡ returns
            (if n == 0 then negsuc 98 else pos n, file_bytes n s i place, place + n)
            (set_inode i (record (s.inode i) { atime = s.now }) s))
      × (n ≤ count)
      × ((n ≡ count) ⊎ Unreadable s i (place + n))
unfolding file_read
file_read-file_bytes s i place count some_count small =
    let p : Progress = record { out = []; place = place; left = count } in
    let (q, e, r) = read_from-IsRead (count + 1) s i p (omega arith) small in
    let t : Store = set_inode i (record (s.inode i) { atime = s.now }) s in
    let n : count - q.left ≡ r.more = omega (arith, r.left) in
    (
      r.more,
      take_else (count == 0) _ _ s (ground arith)
          ∙ bind_at (read_from (count + 1) i p) _ s s q e
          ∙ ap (λ (x : ℕ). returns (read_result x, q.out, q.place) t) n
          ∙ ap₂ (λ (xs : List ℕ) (a : ℕ). returns (read_result r.more, xs, a) t) r.out r.place,
      omega (arith, r.left),
      elim r.stops [
        | inl z ↦ inl (omega (arith, r.left))
        | inr u ↦ inr (subst (Unreadable s i) r.place u)
      ],
    )
