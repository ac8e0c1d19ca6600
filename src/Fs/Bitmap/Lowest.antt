-- ===== src/Fs/Bitmap/Lowest.antt =====
-- The search for a clear bit.
use linux_0_11_notes.Prelude.{
  Bits, Bool-cases, Option, Option-cases, arith, false, inl, inr, ltb, none, some, subst, suc, sym,
  true, zero, ℕ, ℕ_discrete, ◌+◌, ◌<◌, ◌≡◌, ◌≤◌,
}
use linux_0_11_notes.Fs.Bitmap.{MapBlock, find_bit, find_first_zero, map_bits, zero_from}

zero_from_lem :
    (n k : ℕ) (w : Bits)
    → (k ≤ zero_from n k w)
      × (zero_from n k w ≤ k + n)
      × (zero_from n k w < k + n → w (zero_from n k w) ≡ false)
      × ((b : ℕ) → k ≤ b → b < zero_from n k w → w b ≡ true)
unfolding zero_from
zero_from_lem zero k w =
    (omega arith, omega arith, (λ h. absurd (omega arith)), λ b lo hi. absurd (omega arith))
zero_from_lem (suc n) k w = elim (Bool-cases (w k)) [
  | inr e ↦ rw e (omega arith, omega arith, (λ h. e), λ b lo hi. absurd (omega arith))
  | inl e ↦
      let (lo, hi, free, below) = zero_from_lem n (k + 1) w in
      rw e (
        omega arith,
        omega arith,
        (λ h. free (omega arith)),
        λ b l h. elim (ℕ_discrete b k) [ yes q ↦ rw q e | no q ↦ below b (omega arith) h ],
      )
]

-- Every bit of the block is set; a block that is not there counts too.
abbrev pub IsFull : ℕ → Option MapBlock → Type 0
IsFull n none = Unit
IsFull n (some b) = (k : ℕ) → k < n → b.bit k ≡ true

IsFull-block :
    (b : MapBlock) → ltb (find_first_zero b.bit) map_bits ≡ false → IsFull map_bits (some b)
IsFull-block b h k lt =
    let (_, _, _, below) = zero_from_lem map_bits 0 b.bit in below k (omega arith) (ground arith)

-- The lowest clear bit.
pub record IsLowest (from i j : ℕ) (map : ℕ → Option MapBlock) : Type 0 where
  pub block : MapBlock
  pub in_map : map i ≡ some block
  pub small : j < map_bits
  pub above : from ≤ i
  pub clear : block.bit j ≡ false
  pub lower : (k : ℕ) → k < j → block.bit k ≡ true
  pub before : (h : ℕ) → from ≤ h → h < i → IsFull map_bits (map h)

IsLowest-skip :
    (from i j n : ℕ) (map : ℕ → Option MapBlock)
    → IsFull map_bits (map from)
    → IsLowest (from + 1) i j map × (i < from + 1 + n)
    → IsLowest from i j map × (i < from + suc n)
IsLowest-skip from i j n map full (l, lt) = (
  record {
    block = l.block;
    in_map = l.in_map;
    small = l.small;
    above = omega (arith, l.above);
    clear = l.clear;
    lower = l.lower;
    before = λ h lo hi. elim (ℕ_discrete h from) [
      | yes q ↦ subst (λ x. IsFull map_bits (map x)) (sym q) full
      | no q ↦ l.before h (omega arith) hi
    ];
  },
  omega arith,
)

IsLowest-here :
    (from n : ℕ) (b : MapBlock) (map : ℕ → Option MapBlock)
    → map from ≡ some b
    → find_first_zero b.bit < map_bits
    → IsLowest from from (find_first_zero b.bit) map × (from < from + suc n)
IsLowest-here from n b map e lt =
    let (_, _, free, below) = zero_from_lem map_bits 0 b.bit in
    (
      record {
        block = b;
        in_map = e;
        small = lt;
        above = omega arith;
        clear = free (omega arith);
        lower = λ k h. below k (omega arith) h;
        before = λ h lo hi. absurd (omega arith);
      },
      omega arith,
    )

pub find_bit-IsLowest :
    (n from i j : ℕ) (map : ℕ → Option MapBlock)
    → find_bit n from map ≡ some (i, j)
    → IsLowest from i j map × (i < from + n)
unfolding find_bit
find_bit-IsLowest zero from i j map h = absurd (ground arith)
find_bit-IsLowest (suc n) from i j map h = elim (Option-cases (map from)) [
  | inl e ↦
      IsLowest-skip from i j n map (subst (IsFull map_bits) (sym e) tt)
        (find_bit-IsLowest n (from + 1) i j map (ground arith))
  | inr (b, e) ↦ elim (Bool-cases (ltb (find_first_zero b.bit) map_bits)) [
    | inr q ↦
        IsLowest-skip from i j n map (subst (IsFull map_bits) (sym e) (IsFull-block b q))
          (find_bit-IsLowest n (from + 1) i j map (ground arith))
    | inl q ↦
        let same : (from ≡ i) × (find_first_zero b.bit ≡ j) = ground arith in
        subst (λ x. IsLowest from x j map × (x < from + suc n)) same.0
          (subst (λ y. IsLowest from from y map × (from < from + suc n)) same.1
            (IsLowest-here from n b map e (ground arith)))
  ]
]
