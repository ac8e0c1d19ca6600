-- ===== src/Fs/Bitmap/Blocks.antt =====
-- Which block is taken, and that a block that is freed can be taken again.
use linux_0_11_notes.Prelude.{
  Bool, Bool-cases, Option, Option-cases, ap, arith, dec_lt, done, false, inl, inr, leb, none, refl,
  some, subst, sym, true, update_ne, update_self, ℕ, ℕ_discrete, ◌%◌, ◌*◌, ◌+◌, ◌-◌, ◌/◌, ◌<◌, ◌∙◌,
  ◌≡◌, ◌≢◌, ◌≤◌,
}
use linux_0_11_notes.Fs.Bitmap.{
  MapBlock, Super, bit_at, bit_nr, clear_zone, find_bit, get_bit, map_bits, put_bit, set_in,
  take_block,
}
use linux_0_11_notes.Fs.Bitmap.Lowest.{IsLowest, find_bit-IsLowest}
use linux_0_11_notes.Kernel.Task.{map_option}

get-put_self :
    (v : Bool) (i j : ℕ) (map : ℕ → Option MapBlock) (b : MapBlock)
    → map i ≡ some b
    → get_bit i j (put_bit v i j map) ≡ v
unfolding put_bit
get-put_self v i j map b e = ground arith

bit_at-set_in :
    (v : Bool) (j k : ℕ) (o : Option MapBlock)
    → k ≢ j
    → bit_at k (map_option (set_in v j) o) ≡ bit_at k o
bit_at-set_in v j k none ne = refl
bit_at-set_in v j k (some b) ne = update_ne b.bit j k v ne

get-put_other :
    (v : Bool) (i j h k : ℕ) (map : ℕ → Option MapBlock)
    → ¬ ((h ≡ i) × (k ≡ j))
    → get_bit h k (put_bit v i j map) ≡ get_bit h k map
unfolding put_bit
get-put_other v i j h k map ne = elim (ℕ_discrete h i) [
  | no q ↦ ap (bit_at k) (update_ne map i h (map_option (set_in v j) (map i)) q)
  | yes q ↦
      subst (λ x. get_bit x k (put_bit v i j map) ≡ get_bit x k map) (sym q)
        (ap (bit_at k) (update_self map i (map_option (set_in v j) (map i)))
          ∙ bit_at-set_in v j k (map i) (λ e. ne (q, e)))
]

IsLowest-clear :
    (i j : ℕ) (map : ℕ → Option MapBlock) → IsLowest 0 i j map → get_bit i j map ≡ false
IsLowest-clear i j map l = let e = l.in_map in let c = l.clear in ground arith

take_block_success :
    (nr : ℕ) (sb sb' : Super)
    → take_block (some sb) ≡ done (nr, sb')
    → nr ≢ 0
    → (i : ℕ) × (j : ℕ) × (find_bit 8 0 sb.zmap ≡ some (i, j))
      × (nr ≡ j + i * map_bits + sb.firstdatazone - 1)
      × (nr < sb.nzones)
      × (sb' ≡ record sb { zmap = put_bit true i j sb.zmap })
unfolding take_block
take_block_success nr sb sb' h nz = elim (Option-cases (find_bit 8 0 sb.zmap)) [
  | inl e ↦ absurd (ground arith)
  | inr (ij, e) ↦
      elim (Bool-cases (leb sb.nzones (ij.1 + ij.0 * map_bits + sb.firstdatazone - 1))) [
        | inl q ↦ absurd (ground arith)
        | inr q ↦ (ij.0, ij.1, e, ground arith, ground arith, ground arith)
      ]
]

-- A new block is in the data zone and was not used: its bit was the lowest clear one, it is set
-- afterwards, and no other bit changes. (Block 0 of the zone, bit 0 of the map, is never free.)
pub take_block_lem :
    (nr : ℕ) (sb sb' : Super)
    → 0 < sb.firstdatazone
    → get_bit 0 0 sb.zmap ≡ true
    → take_block (some sb) ≡ done (nr, sb')
    → nr ≢ 0
    → let i = bit_nr nr sb / map_bits in
      let j = bit_nr nr sb % map_bits in
      (sb.firstdatazone ≤ nr)
      × (nr < sb.nzones)
      × IsLowest 0 i j sb.zmap
      × (get_bit i j sb'.zmap ≡ true)
      × ((h k : ℕ) → ¬ ((h ≡ i) × (k ≡ j)) → get_bit h k sb'.zmap ≡ get_bit h k sb.zmap)
unfolding take_block
take_block_lem nr sb sb' lo first h nz =
    let (i, j, f, e, small, z) = take_block_success nr sb sb' h nz in
    let (l, _) = find_bit-IsLowest 8 0 i j sb.zmap f in
    let some_bit : 0 < j + i * map_bits = elim (dec_lt 0 (j + i * map_bits)) [
      | yes y ↦ y
      | no n ↦
          let zi : i ≡ 0 = omega arith in
          let zj : j ≡ 0 = omega arith in
          let c : get_bit i j sb.zmap ≡ false = IsLowest-clear i j sb.zmap l in
          absurd (
            ground (
              arith,
              subst (λ x. get_bit x 0 sb.zmap ≡ false) zi
                  (subst (λ y. get_bit i y sb.zmap ≡ false) zj c),
            ))
    ] in
    let p : bit_nr nr sb / map_bits ≡ i = omega (arith, l.small) in
    let q : bit_nr nr sb % map_bits ≡ j = omega (arith, l.small) in
    rw (p, q)
      (
        omega arith,
        small,
        l,
        ap (λ (s : Super). get_bit i j s.zmap) z ∙ get-put_self true i j sb.zmap l.block l.in_map,
        λ h k ne. ap (λ (s : Super). get_bit h k s.zmap) z ∙ get-put_other true i j h k sb.zmap ne,
      )

clear-put_bits :
    (i j h k : ℕ) (map : ℕ → Option MapBlock) (b : MapBlock)
    → map i ≡ some b
    → get_bit i j map ≡ false
    → get_bit h k (put_bit false i j (put_bit true i j map)) ≡ get_bit h k map
unfolding put_bit
clear-put_bits i j h k map b e c = elim (ℕ_discrete h i) [
  | no q ↦
      get-put_other false i j h k (put_bit true i j map) (λ x. q x.0)
      ∙ get-put_other true i j h k map (λ x. q x.0)
  | yes q ↦ elim (ℕ_discrete k j) [
    | no r ↦
        get-put_other false i j h k (put_bit true i j map) (λ x. r x.1)
        ∙ get-put_other true i j h k map (λ x. r x.1)
    | yes r ↦
        rw (q, r)
          (get-put_self false i j (put_bit true i j map) (set_in true j b) (
              update_self map i (map_option (set_in true j) (map i))
              ∙ ap (map_option (set_in true j)) e)
            ∙ sym c)
  ]
]

clear-put :
    (i j nr : ℕ) (sb : Super) (b : MapBlock)
    → sb.zmap i ≡ some b
    → get_bit i j sb.zmap ≡ false
    → bit_nr nr sb / map_bits ≡ i
    → bit_nr nr sb % map_bits ≡ j
    → (back : Super) × (clear_zone nr (record sb { zmap = put_bit true i j sb.zmap }) ≡ done back)
      × ((h k : ℕ) → get_bit h k back.zmap ≡ get_bit h k sb.zmap)
unfolding clear_zone
clear-put i j nr sb b e c p q = (
  record sb { zmap = put_bit false i j (put_bit true i j sb.zmap) },
  rw (clear_zone, p, q, get-put_self true i j sb.zmap b e) refl,
  λ h k. clear-put_bits i j h k sb.zmap b e c,
)

-- A block that has just been taken can be freed, and then the map has the bits that it had before.
take-clear :
    (nr : ℕ) (sb sb' : Super)
    → 0 < sb.firstdatazone
    → get_bit 0 0 sb.zmap ≡ true
    → take_block (some sb) ≡ done (nr, sb')
    → nr ≢ 0
    → (back : Super) × (clear_zone nr sb' ≡ done back)
      × ((h k : ℕ) → get_bit h k back.zmap ≡ get_bit h k sb.zmap)
take-clear nr sb sb' lo first h nz =
    let (i, j, f, e, small, z) = take_block_success nr sb sb' h nz in
    let (l, _) = find_bit-IsLowest 8 0 i j sb.zmap f in
    let (above, _, _, _, _) = take_block_lem nr sb sb' lo first h nz in
    subst
      (λ s.
        (back : Super) × (clear_zone nr s ≡ done back)
        × ((h k : ℕ) → get_bit h k back.zmap ≡ get_bit h k sb.zmap))
      (sym z)
      (clear-put i j nr sb l.block l.in_map (IsLowest-clear i j sb.zmap l) (omega (arith, l.small))
        (omega (arith, l.small)))
