-- ===== src/Mm/Alloc.antt =====
-- What the allocation of pages promises.
use linux_0_11_notes.Prelude.{
  Bool-cases, Option-cases, arith, done, fun_ext, if◌then◌else◌, inl, inr, leb, le→leb, ltb,
  lt→leb_false, none, refl, some, suc, update, zero, ℕ, ℕ_discrete, ◌&&◌, ◌*◌, ◌+◌, ◌-◌, ◌/◌, ◌<◌,
  ◌==◌, ◌≡◌, ◌≢◌, ◌≤◌, ◌⊎◌,
}
use linux_0_11_notes.Mm.{
  Memory, clear_bytes, find_free, free_page, get_free_page, low_mem, map_nr, mark_free, mem_init,
  page_size, paging_pages, used,
}

-- The free page with the highest number below n.
abbrev pub IsHighestFree : ℕ → (ℕ → ℕ) → ℕ → Type 0
IsHighestFree n map i = (i < n) × (map i ≡ 0) × ((j : ℕ) → i < j → j < n → map j ≢ 0)

find_free-some : (n i : ℕ) (map : ℕ → ℕ) → find_free n map ≡ some i → IsHighestFree n map i
unfolding find_free
find_free-some zero i map e = absurd (ground arith)
find_free-some (suc n) i map e = elim (ℕ_discrete (map n) 0) [
  | yes p ↦ (ground arith, ground arith, λ j lo hi. absurd (ground arith))
  | no p ↦
      let r : find_free n map ≡ some i = ground arith in
      let (lt, free, top) = find_free-some n i map r in
      (
        omega arith,
        free,
        λ j lo hi. elim (ℕ_discrete j n) [ yes q ↦ rw q p | no q ↦ top j lo (omega arith) ],
      )
]

find_free-none : (n j : ℕ) (map : ℕ → ℕ) → find_free n map ≡ none → j < n → map j ≢ 0
unfolding find_free
find_free-none zero j map e h = absurd (omega arith)
find_free-none (suc n) j map e h = elim (ℕ_discrete j n) [
  | yes p ↦ ground arith
  | no p ↦ ground (arith, find_free-none n j map)
]

clear_bytes-inside :
    (start stop a : ℕ) (w : ℕ → ℕ) → start ≤ a → a < stop → clear_bytes start stop w a ≡ 0
unfolding clear_bytes
clear_bytes-inside start stop a w lo hi = rw (lt→leb_false stop a hi, le→leb start a lo)

clear_bytes-below :
    (start stop a : ℕ) (w : ℕ → ℕ) → a + 4 ≤ start → clear_bytes start stop w a ≡ w a
unfolding clear_bytes
clear_bytes-below start stop a w h = elim (Bool-cases (leb stop a)) [
  | inl e ↦ rw e
  | inr e ↦ rw (e, lt→leb_false start a (omega arith), le→leb (a + 4) start h)
]

clear_bytes-above : (start stop a : ℕ) (w : ℕ → ℕ) → stop ≤ a → clear_bytes start stop w a ≡ w a
unfolding clear_bytes
clear_bytes-above start stop a w h = rw (le→leb stop a h)

clear_bytes-outside :
    (start stop a : ℕ) (w : ℕ → ℕ) → (a + 4 ≤ start) ⊎ (stop ≤ a) → clear_bytes start stop w a ≡ w a
clear_bytes-outside start stop a w (inl h) = clear_bytes-below start stop a w h
clear_bytes-outside start stop a w (inr h) = clear_bytes-above start stop a w h

-- A page that was handed out: it was free, it has one user now, it is full of zeros, and nothing
-- else has changed.
pub record IsFresh (m : Memory) (page : ℕ) (m' : Memory) : Type 0 where
  pub nr : ℕ
  pub here : page ≡ nr * page_size + low_mem
  pub highest : IsHighestFree paging_pages m.mem_map nr
  pub counted : (i : ℕ) → m'.mem_map i ≡ (if nr == i then 1 else m.mem_map i)
  pub zeroed : (a : ℕ) → page ≤ a → a < page + page_size → m'.word a ≡ 0
  pub kept : (a : ℕ) → (a + 4 ≤ page) ⊎ (page + page_size ≤ a) → m'.word a ≡ m.word a
  pub top : m'.high ≡ m.high

-- A page is handed out unless all are in use; then the answer is 0, and nothing changes.
pub get_free_page_lem :
    (m : Memory)
    → IsFresh m (get_free_page m).0 (get_free_page m).1
      ⊎ (((get_free_page m).0 ≡ 0)
          × ((get_free_page m).1 ≡ m)
          × ((j : ℕ) → j < paging_pages → m.mem_map j ≢ 0))
unfolding get_free_page
get_free_page_lem m = elim (Option-cases (find_free paging_pages m.mem_map)) [
  | inl e ↦ inr (ground arith, ground arith, λ j h. find_free-none paging_pages j m.mem_map e h)
  | inr (n, e) ↦
      rw (e, get_free_page)
        (inl (record {
          nr = n;
          here = refl;
          highest = find_free-some paging_pages n m.mem_map e;
          counted = λ i. refl;
          zeroed = λ a lo hi.
              clear_bytes-inside (n * page_size + low_mem) (n * page_size + low_mem + page_size) a
                m.word lo hi;
          kept = λ a out.
              clear_bytes-outside (n * page_size + low_mem) (n * page_size + low_mem + page_size) a
                m.word out;
          top = refl;
        }))
]

-- A page that is given back at once leaves the counts as they were.
pub free-get :
    (m : Memory)
    → (get_free_page m).0 ≢ 0
    → (get_free_page m).0 < m.high
    → (m' : Memory) × (free_page (get_free_page m).0 (get_free_page m).1 ≡ done m')
      × (m'.mem_map ≡ m.mem_map)
unfolding free_page
free-get m ne lt = elim (get_free_page_lem m) [
  | inr (z, _, _) ↦ absurd (ne z)
  | inl f ↦
      let page : ℕ = (get_free_page m).0 in
      let m1 : Memory = (get_free_page m).1 in
      let nr : map_nr page ≡ f.nr = omega (arith, f.here) in
      let one : m1.mem_map (map_nr page) ≡ 1 = ground (arith, f.counted (map_nr page), nr) in
      let high : m1.high ≡ m.high = f.top in
      (
        record m1 { mem_map = update m1.mem_map (map_nr page) (m1.mem_map (map_nr page) - 1) },
        ground (arith, f.here, one, high),
        fun_ext (λ i. ground (arith, f.counted i, f.highest.1, nr, one)),
      )
]

mark_free_lem :
    (n i j : ℕ) (map : ℕ → ℕ)
    → mark_free n i map j ≡ (if leb i j && ltb j (i + n) then 0 else map j)
unfolding mark_free
mark_free_lem zero i j map = ground arith
mark_free_lem (suc n) i j map = ground (arith, mark_free_lem n (i + 1) j (update map i 0))

-- After `mem_init` exactly the pages from `start_mem` to `end_mem` are free, and the others are in
-- use for good.
mem_init_lem :
    (start_mem end_mem : ℕ) (m : Memory) (i : ℕ)
    → i < paging_pages
    → (mem_init start_mem end_mem m).mem_map i ≡ (
        if leb (map_nr start_mem) i && ltb i (map_nr start_mem + (end_mem - start_mem) / page_size)
        then 0
        else used)
unfolding mem_init
mem_init_lem start_mem end_mem m i h = ground (
  arith,
  mark_free_lem ((end_mem - start_mem) / page_size) (map_nr start_mem) i
      (λ i. if ltb i paging_pages then used else m.mem_map i),
)
