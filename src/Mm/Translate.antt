-- ===== src/Mm/Translate.antt =====
-- The processor's walk through directory and table, and `put_page` against it.
use linux_0_11_notes.Prelude.{
  ==_iff, Bool-cases, Option, ap, arith, false, if◌then◌else◌, inl, inr, ne→==_false, none, not,
  some, true, update, update_ne, update_self, ℕ, ◌%◌, ◌+◌, ◌<◌, ◌==◌, ◌∙◌, ◌≡◌, ◌≢◌, ◌≤◌, ◌⊎◌,
}
use linux_0_11_notes.Mm.{Memory, frame_of, get_free_page, is_present, or_7, page_size, paging_pages}
use linux_0_11_notes.Mm.Alloc.{get_free_page_lem}
use linux_0_11_notes.Mm.Tables.{dir_of, put_page, slot_of}

-- The physical address of a linear address.
unfoldable pub translate : (ℕ → ℕ) → ℕ → Option ℕ
translate w a =
    let table : ℕ = w (dir_of a) in
    let entry : ℕ = w (frame_of table + slot_of a) in
    if not (is_present table)
    then none
    else if not (is_present entry)
    then none
    else some (frame_of entry + a % page_size)

-- The page table of the address, if there is one, is not in the page of the directory.
abbrev pub TableAway : ℕ → Memory → Type 0
TableAway address m =
    is_present (m.word (dir_of address)) ≡ true → page_size ≤ frame_of (m.word (dir_of address))

-- A walk through a directory entry and a table entry that have been written with `| 7`.
walk_lem :
    (w : ℕ → ℕ) (a page table : ℕ)
    → page % 4096 ≡ 0
    → frame_of (w (dir_of a)) ≡ table
    → is_present (w (dir_of a)) ≡ true
    → w (table + slot_of a) ≡ or_7 page
    → translate w a ≡ some (page + a % page_size)
unfolding translate
walk_lem w a page table al f p e =
    let q : is_present (or_7 page) ≡ true = (==_iff (or_7 page % 2) 1).1 (omega arith) in
    let g : frame_of (or_7 page) ≡ page = omega arith in
    rw (p, f, e, q) (ap (λ x. some (x + a % page_size)) g)

-- For a page at a multiple of 4096, and an address whose page table, if it has one, is not in the page
-- of the directory, `put_page` makes the address lead to the page; it fails, with 0 and the memory as it
-- was, only if the address has no page table and no page is free.
pub put_page-translate :
    (page address : ℕ) (m : Memory)
    → page % 4096 ≡ 0
    → TableAway address m
    → ((m' : Memory) × (put_page page address m ≡ (page, m'))
        × (translate m'.word address ≡ some (page + address % page_size)))
      ⊎ ((put_page page address m ≡ (0, m))
          × (is_present (m.word (dir_of address)) ≡ false)
          × ((j : ℕ) → j < paging_pages → m.mem_map j ≢ 0))
unfolding put_page
put_page-translate page address m al away =
    elim (Bool-cases (is_present (m.word (dir_of address)))) [
      | inl p ↦
          let table : ℕ = frame_of (m.word (dir_of address)) in
          let w : ℕ → ℕ = update m.word (table + slot_of address) (or_7 page) in
          let far : page_size ≤ table = away p in
          let d : w (dir_of address) ≡ m.word (dir_of address) =
            update_ne m.word (table + slot_of address) (dir_of address) (or_7 page) (omega arith) in
          inl (
            record m { word = w },
            rw p,
            walk_lem w address page table al (ap (λ x. frame_of x) d) (rw d p)
                (update_self m.word (table + slot_of address) (or_7 page)),
          )
      | inr p ↦ elim (get_free_page_lem m) [
        | inr (z, same, full) ↦ inr (rw (p, z, same), p, full)
        | inl f ↦
            let tmp : ℕ = (get_free_page m).0 in
            let m1 : Memory = (get_free_page m).1 in
            let z : (tmp == 0) ≡ false = ne→==_false tmp 0 (omega (arith, f.here)) in
            let w : ℕ → ℕ =
              update (update m1.word (dir_of address) (or_7 tmp)) (tmp + slot_of address)
                (or_7 page) in
            let d : w (dir_of address) ≡ or_7 tmp =
              update_ne (update m1.word (dir_of address) (or_7 tmp)) (tmp + slot_of address)
                (dir_of address) (or_7 page) (omega (arith, f.here))
              ∙ update_self m1.word (dir_of address) (or_7 tmp) in
            let g : frame_of (or_7 tmp) ≡ tmp = omega (arith, f.here) in
            let q : is_present (or_7 tmp) ≡ true = (==_iff (or_7 tmp % 2) 1).1 (omega arith) in
            inl (
              record m1 { word = w },
              rw (p, z),
              walk_lem w address page tmp al (ap (λ x. frame_of x) d ∙ g) (rw d q) (
                  update_self (update m1.word (dir_of address) (or_7 tmp)) (tmp + slot_of address)
                    (or_7 page)),
            )
      ]
    ]
