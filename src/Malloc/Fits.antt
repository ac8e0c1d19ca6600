-- ===== src/Malloc/Fits.antt =====
-- What `malloc` returns lies in the page of a bucket, with room for what was asked for.
use linux_0_11_notes.Prelude.{
  Bool-cases, List, Option-cases, arith, bind-done, done, if-false, if-true, if◌then◌else◌, inl,
  inr, subst, sym, update, update_self, ℕ, ◌%◌, ◌+◌, ◌-◌, ◌/◌, ◌<◌, ◌==◌, ◌∙◌, ◌∷◌, ◌≡◌, ◌≤◌,
}
use linux_0_11_notes.Malloc.{
  Bucket, Heap, dir_size, find_dir, fresh_bucket, has_free, init_bucket_desc, link_bucket, malloc,
  malloc_from, malloc_in, new_bucket, nr_dirs, take_object,
}
use linux_0_11_notes.Malloc.Objects.{
  HasRoom, HasRoom-less, IsHeap, find_dir_lem, fresh_bucket-IsBucket, set-IsHeap, take_object_lem,
}
use linux_0_11_notes.Mm.{Memory, get_free_page, page_size}
use linux_0_11_notes.Mm.Alloc.{get_free_page_lem}

page-aligned : (m : Memory) → (get_free_page m).0 % page_size ≡ 0
page-aligned m = elim (get_free_page_lem m) [
  | inl r ↦ omega (arith, r.here)
  | inr (e, _, _) ↦ omega (arith, e)
]

init_bucket_desc-IsHeap : (h h' : Heap) → IsHeap h → init_bucket_desc h ≡ done h' → IsHeap h'
unfolding init_bucket_desc
init_bucket_desc-IsHeap h h' v e = elim (Bool-cases ((get_free_page h.memory).0 == 0)) [
  | inl z ↦ absurd (ground arith)
  | inr z ↦
      let same : record h { spare = h.spare + page_size / 16; memory = (get_free_page h.memory).1 }
          ≡ h' =
        ground arith in
      subst IsHeap same v
]

link_bucket-IsHeap :
    (d : ℕ) (h h' : Heap) → d < nr_dirs → IsHeap h → link_bucket d h ≡ done h' → IsHeap h'
unfolding link_bucket
link_bucket-IsHeap d h h' lt v e = elim (Bool-cases ((get_free_page h.memory).0 == 0)) [
  | inl z ↦ absurd (ground arith)
  | inr z ↦
      let page : ℕ = (get_free_page h.memory).0 in
      let m : Memory = (get_free_page h.memory).1 in
      let bs : List Bucket = fresh_bucket page (dir_size d) ∷ h.chain d in
      let same : record { chain = update h.chain d bs; spare = h.spare - 1; memory = m } ≡ h' =
        ground arith in
      subst IsHeap same (
        set-IsHeap h d bs (h.spare - 1) m v
          (fresh_bucket-IsBucket d page lt (page-aligned h.memory), v d lt))
]

new_bucket-IsHeap :
    (d : ℕ) (h h' : Heap) → d < nr_dirs → IsHeap h → new_bucket d h ≡ done h' → IsHeap h'
unfolding new_bucket
new_bucket-IsHeap d h h' lt v e =
    let start = if h.spare == 0 then init_bucket_desc h else done h in
    let (h1, p, q) = bind-done start (link_bucket d) h' e in
    let v1 : IsHeap h1 = elim (Bool-cases (h.spare == 0)) [
      | inl z ↦ init_bucket_desc-IsHeap h h1 v (ground arith)
      | inr z ↦ (let same : h ≡ h1 = ground arith in subst IsHeap same v)
    ] in
    link_bucket-IsHeap d h1 h' lt v1 q

malloc_from-IsHeap :
    (d a : ℕ) (h h' : Heap)
    → d < nr_dirs
    → IsHeap h
    → malloc_from d h ≡ done (a, h')
    → IsHeap h' × HasRoom (dir_size d) a (h'.chain d)
unfolding malloc_from
malloc_from-IsHeap d a h h' lt v e = elim (Option-cases (take_object (h.chain d))) [
  | inl n ↦ absurd (ground arith)
  | inr (r, n) ↦
      let taken = take_object_lem d r.0 (h.chain d) r.1 lt (v d lt) n in
      let same : (r.0 ≡ a) × (record h { chain = update h.chain d r.1 } ≡ h') = ground arith in
      let k : Heap = record h { chain = update h.chain d r.1 } in
      (
        subst IsHeap same.1 (set-IsHeap h d r.1 h.spare h.memory v taken.0),
        subst (λ (g : Heap). HasRoom (dir_size d) a (g.chain d)) same.1
            (subst (λ (x : ℕ). HasRoom (dir_size d) x (k.chain d)) same.0
              (subst (HasRoom (dir_size d) r.0) (sym (update_self h.chain d r.1)) taken.1)),
      )
]

done_lem : {h h' : Heap} → done h ≡ done h' → h ≡ h'
done_lem e = ground arith

malloc_in-IsHeap :
    (d a : ℕ) (h h' : Heap)
    → d < nr_dirs
    → IsHeap h
    → malloc_in d h ≡ done (a, h')
    → IsHeap h' × HasRoom (dir_size d) a (h'.chain d)
unfolding malloc_in
malloc_in-IsHeap d a h h' lt v e =
    let start = if has_free (h.chain d) then done h else new_bucket d h in
    let (h1, p, q) = bind-done start (malloc_from d) (a, h') e in
    let v1 : IsHeap h1 = elim (Bool-cases (has_free (h.chain d))) [
      | inr z ↦
          new_bucket-IsHeap d h h1 lt v
            (sym (if-false (has_free (h.chain d)) (done h) (new_bucket d h) z) ∙ p)
      | inl z ↦
          (let same : h ≡ h1 =
              done_lem (sym (if-true (has_free (h.chain d)) (done h) (new_bucket d h) z) ∙ p) in
            subst IsHeap same v)
    ] in
    malloc_from-IsHeap d a h1 h' lt v1 q

-- On a heap whose buckets are in order, the `len` bytes from the address `malloc` returns lie in the
-- page of a bucket of the new heap, which starts at a multiple of the page size, whose objects have room
-- for them, and which counts a used object. In the new heap too, every bucket of every size has the size
-- of its directory entry, its free objects lie in its page, which starts at a multiple of the page
-- size, and used and free objects together are as many as fill the page.
pub malloc-IsHeap :
    (len a : ℕ) (h h' : Heap)
    → IsHeap h
    → malloc len h ≡ done (a, h')
    → IsHeap h' × ((d : ℕ) × (d < nr_dirs) × (len ≤ dir_size d) × HasRoom len a (h'.chain d))
unfolding malloc
malloc-IsHeap len a h h' v e = elim (Option-cases (find_dir nr_dirs 0 len)) [
  | inl n ↦ absurd (ground arith)
  | inr (d, n) ↦
      let (big, lt) = find_dir_lem nr_dirs 0 len d n in
      let (v', place) = malloc_in-IsHeap d a h h' lt v (ground arith) in
      (v', (d, lt, big, HasRoom-less len (dir_size d) a (h'.chain d) big place))
]
