-- ===== src/Malloc/Tests.antt =====
-- Inputs for the theorems on the allocator.
use linux_0_11_notes.Prelude.{
  [], arith, refl, subst, sym, update, update_ne, ℕ, ℕ_discrete, ◌<◌, ◌∷◌, ◌≤◌,
}
use linux_0_11_notes.Malloc.{
  Bucket, Heap, dir_size, find_dir, malloc, malloc_from, malloc_in, nr_dirs, take_object,
}
use linux_0_11_notes.Malloc.Fits.{malloc-IsHeap}
use linux_0_11_notes.Malloc.Objects.{AllBuckets, HasRoom, IsHeap}

-- The page at 2 MB has two free objects of 16 bytes.
abbrev bucket : Bucket
bucket = record { page = 0x20_0000; free = 0x20_0010 ∷ 0x20_0ff0 ∷ []; refcnt = 254; size = 16 }

abbrev heap : Heap
heap = record {
  chain = update (λ _. []) 0 (bucket ∷ []);
  spare = 255;
  memory = record { word = λ _. 0; mem_map = λ _. 1; high = 0x100_0000 };
}

heap-IsHeap : IsHeap heap
heap-IsHeap d lt = elim (ℕ_discrete d 0) [
  | yes e ↦
      subst (λ x. AllBuckets x (heap.chain x)) (sym e)
        (
          record {
            aligned = refl;
            right_size = refl;
            fit = (omega arith, omega arith, (omega arith, omega arith, tt));
            number = refl;
          },
          tt,
        )
  | no ne ↦ subst (AllBuckets d) (sym (update_ne (λ _. []) 0 d (bucket ∷ []) ne)) tt
]

abbrev heap_after : Heap
heap_after = record heap {
  chain = update heap.chain 0 (record bucket { free = 0x20_0ff0 ∷ []; refcnt = 255 } ∷ []);
}

malloc-IsHeap_example :
    IsHeap heap_after
    × ((d : ℕ) × (d < nr_dirs) × (12 ≤ dir_size d) × HasRoom 12 0x20_0010 (heap_after.chain d))
unfolding malloc malloc_in malloc_from take_object find_dir
malloc-IsHeap_example = malloc-IsHeap 12 0x20_0010 heap heap_after heap-IsHeap refl
