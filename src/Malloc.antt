-- ===== src/Malloc.antt =====
-- lib/malloc.c: the kernel's allocator of small objects.
pub mod Fits
pub mod Objects
pub mod Tests
use linux_0_11_notes.Prelude.{
  Bool, List, Option, Outcome, [], done, false, if◌then◌else◌, leb, ltb, none, not, panicked, some,
  suc, true, update, zero, ℕ, ◌%◌, ◌*◌, ◌+◌, ◌-◌, ◌/◌, ◌==◌, ◌>>=◌, ◌>>◌, ◌^◌, ◌||◌, ◌∷◌,
}
use linux_0_11_notes.Kernel.Task.{map_option}
use linux_0_11_notes.Mm.{Memory, frame_of, free_page, get_free_page, page_size}

-- A bucket descriptor. `free` is the chain that starts at `freeptr`, whose links stand in the free
-- objects themselves.
pub record Bucket : Type 0 where
  pub page : ℕ
  pub free : List ℕ
  pub refcnt : ℕ
  pub size : ℕ

-- `chain` gives the buckets of each entry of `bucket_dir`, and `spare` the number of descriptors on
-- the list `free_bucket_desc`.
pub record Heap : Type 0 where
  pub chain : ℕ → List Bucket
  pub spare : ℕ
  pub memory : Memory

-- Entry d of `bucket_dir`, of 9: 16, 32, and so on to 4096.
abbrev pub dir_size : ℕ → ℕ
dir_size d = 16 * 2 ^ d

abbrev pub nr_dirs : ℕ
nr_dirs = 9

-- The first of n entries from d on with room for `len`.
unfoldable pub find_dir : ℕ → ℕ → ℕ → Option ℕ
find_dir zero d len = none
find_dir (suc n) d len =
    let later = find_dir n (d + 1) len in if leb len (dir_size d) then some d else later

-- A page of descriptors of 16 bytes each.
unfoldable pub init_bucket_desc : Heap → Outcome Heap
unfolding get_free_page
init_bucket_desc h =
    let (page, m) = get_free_page h.memory in
    if page == 0 then panicked else done (record h { spare = h.spare + page_size / 16; memory = m })

-- The chain of free objects of a new page: n of them from address a on.
unfoldable pub objects : ℕ → ℕ → ℕ → List ℕ
objects zero a size = []
objects (suc n) a size = a ∷ objects n (a + size) size

abbrev pub fresh_bucket : ℕ → ℕ → Bucket
fresh_bucket page size = record {
  page = page;
  free = objects (page_size / size) page size;
  refcnt = 0;
  size = size;
}

unfoldable pub link_bucket : ℕ → Heap → Outcome Heap
unfolding get_free_page objects
link_bucket d h =
    let (page, m) = get_free_page h.memory in
    if page == 0
    then panicked
    else done (record {
      chain = update h.chain d (fresh_bucket page (dir_size d) ∷ h.chain d);
      spare = h.spare - 1;
      memory = m;
    })

-- A page of descriptors first, if none is spare.
unfoldable pub new_bucket : ℕ → Heap → Outcome Heap
unfolding init_bucket_desc link_bucket
new_bucket d h = do h' ← if h.spare == 0 then init_bucket_desc h else done h; link_bucket d h'

-- `retval = bdesc->freeptr` and what follows, for the first bucket that has a free object. The count
-- is an unsigned short.
unfoldable pub take_object : List Bucket → Option (ℕ × List Bucket)
take_object [] = none
take_object (b ∷ bs) =
    let rest = map_option (λ (r : ℕ × List Bucket). (r.0, b ∷ r.1)) (take_object bs) in
    elim b.free [
      | [] ↦ rest
      | a ∷ others ↦ some (a, record b { free = others; refcnt = (b.refcnt + 1) % 65536 } ∷ bs)
    ]

abbrev pub has_free : List Bucket → Bool
has_free bs = elim (take_object bs) [ none ↦ false | some _ ↦ true ]

unfoldable pub malloc_from : ℕ → Heap → Outcome (ℕ × Heap)
unfolding take_object
malloc_from d h = elim (take_object (h.chain d)) [
  | none ↦ panicked
  | some (a, bs) ↦ done (a, record h { chain = update h.chain d bs })
]

-- A new bucket always has an object, so that `malloc_from` does not fail.
unfoldable pub malloc_in : ℕ → Heap → Outcome (ℕ × Heap)
malloc_in d h = do h' ← if has_free (h.chain d) then done h else new_bucket d h; malloc_from d h'

unfoldable pub malloc : ℕ → Heap → Outcome (ℕ × Heap)
malloc len h = elim (find_dir nr_dirs 0 len) [ none ↦ panicked | some d ↦ malloc_in d h ]

-- The first entry of n from d on, of at least `size` bytes, that has a bucket on the page.
unfoldable pub has_page : ℕ → List Bucket → Bool
has_page page [] = false
has_page page (b ∷ bs) = b.page == page || has_page page bs

unfoldable pub find_page : ℕ → ℕ → ℕ → ℕ → Heap → Option ℕ
unfolding has_page
find_page zero d page size h = none
find_page (suc n) d page size h =
    let later = find_page n (d + 1) page size h in
    if ltb (dir_size d) size then later else if has_page page (h.chain d) then some d else later

-- The object goes back to the bucket of its page, and a bucket that is not used any more off the
-- chain; the test says whether it was.
unfoldable pub give_back : ℕ → ℕ → List Bucket → Bool × List Bucket
give_back obj page [] = (false, [])
give_back obj page (b ∷ bs) =
    let (gone, rest) = give_back obj page bs in
    let count : ℕ = (b.refcnt + 65535) % 65536 in
    if not (b.page == page)
    then (gone, b ∷ rest)
    else if count == 0
    then (true, bs)
    else (false, record b { free = obj ∷ b.free; refcnt = count } ∷ bs)

unfoldable pub free_s : ℕ → ℕ → Heap → Outcome Heap
unfolding find_page give_back free_page
free_s obj size h =
    let page : ℕ = frame_of obj in
    elim (find_page nr_dirs 0 page size h) [
      | none ↦ panicked
      | some d ↦
          let (gone, bs) = give_back obj page (h.chain d) in
          let h' : Heap = record h { chain = update h.chain d bs } in
          if gone
          then (do
            m ← free_page page h.memory
            done (record h' { spare = h.spare + 1; memory = m }))
          else done h'
    ]
