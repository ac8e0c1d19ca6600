-- ===== src/Malloc/Objects.antt =====
-- The buckets of lib/malloc.c in order: their free objects, and taking one of them.
use linux_0_11_notes.Prelude.{
  Bool, List, Option-cases, [], any_below, any_below-intro, ap, arith, false, inl, inr, length, ltb,
  not, refl, some, subst, suc, sym, update, update_ne, update_self, zero, ℕ, ℕ_discrete, ◌%◌, ◌&&◌,
  ◌*◌, ◌++◌, ◌+◌, ◌/◌, ◌<◌, ◌==◌, ◌∷◌, ◌≡◌, ◌≤◌, ◌⊎◌,
}
use linux_0_11_notes.Malloc.{
  Bucket, Heap, dir_size, find_dir, fresh_bucket, nr_dirs, objects, take_object,
}
use linux_0_11_notes.Mm.{Memory, page_size}

abbrev pub AllFit : Bucket → List ℕ → Type 0
AllFit b [] = Unit
AllFit b (a ∷ xs) = (b.page ≤ a) × (a + b.size ≤ b.page + page_size) × AllFit b xs

-- The free objects of every bucket lie in its page and are as large as the entry of the directory
-- says; the objects that are used and those that are free fill the page, which starts at a multiple of
-- its size.
pub record IsBucket (d : ℕ) (b : Bucket) : Type 0 where
  pub aligned : b.page % page_size ≡ 0
  pub right_size : b.size ≡ dir_size d
  pub fit : AllFit b b.free
  pub number : b.refcnt + length b.free ≡ page_size / dir_size d

abbrev pub AllBuckets : ℕ → List Bucket → Type 0
AllBuckets d [] = Unit
AllBuckets d (b ∷ bs) = IsBucket d b × AllBuckets d bs

abbrev pub IsHeap : Heap → Type 0
IsHeap h = (d : ℕ) → d < nr_dirs → AllBuckets d (h.chain d)

pub find_dir_lem : (n d len e : ℕ) → find_dir n d len ≡ some e → (len ≤ dir_size e) × (e < d + n)
unfolding find_dir
find_dir_lem zero d len e h = absurd (ground arith)
find_dir_lem (suc n) d len e h = ground (arith, find_dir_lem n (d + 1) len e)

objects-AllFit :
    (n a : ℕ) (b : Bucket)
    → b.page ≤ a
    → a + n * b.size ≤ b.page + page_size
    → AllFit b (objects n a b.size)
unfolding objects
objects-AllFit zero a b lo hi = tt
objects-AllFit (suc n) a b lo hi =
    (lo, omega arith, objects-AllFit n (a + b.size) b (omega arith) (omega arith))

length-objects : (n a size : ℕ) → length (objects n a size) ≡ n
unfolding objects
length-objects zero a size = refl
length-objects (suc n) a size = ap suc (length-objects n (a + size) size)

wastes : ℕ → Bool
wastes d =
    not (page_size / dir_size d * dir_size d == page_size && ltb (page_size / dir_size d) 65536)

-- The objects of each size fill a page.
no_waste : any_below nr_dirs wastes ≡ false
unfolding any_below wastes
no_waste = refl

capacity :
    (d : ℕ)
    → d < nr_dirs
    → (page_size / dir_size d * dir_size d ≡ page_size) × (page_size / dir_size d < 65536)
unfolding wastes
capacity d h = ground (arith, no_waste, any_below-intro nr_dirs wastes d h)

AllFit-same :
    (b c : Bucket) (xs : List ℕ) → b.page ≡ c.page → b.size ≡ c.size → AllFit b xs → AllFit c xs
AllFit-same b c [] p s f = tt
AllFit-same b c (a ∷ xs) p s f =
    (omega (arith, f.0), omega (arith, f.1), AllFit-same b c xs p s f.2)

-- The `len` bytes from address a lie in the page of a bucket of the chain, which counts an object.
pub record HasRoom (len a : ℕ) (bs : List Bucket) : Type 0 where
  pub before : List Bucket
  pub bucket : Bucket
  pub after : List Bucket
  pub chain : bs ≡ before ++ (bucket ∷ after)
  pub aligned : bucket.page % page_size ≡ 0
  pub low : bucket.page ≤ a
  pub high : a + len ≤ bucket.page + page_size
  pub counted : 0 < bucket.refcnt

HasRoom-behind :
    (len a : ℕ) (b : Bucket) (bs : List Bucket) → HasRoom len a bs → HasRoom len a (b ∷ bs)
HasRoom-behind len a b bs r = record {
  before = b ∷ r.before;
  bucket = r.bucket;
  after = r.after;
  chain = ap (λ xs. b ∷ xs) r.chain;
  aligned = r.aligned;
  low = r.low;
  high = r.high;
  counted = r.counted;
}

pub HasRoom-less : (len n a : ℕ) (bs : List Bucket) → len ≤ n → HasRoom n a bs → HasRoom len a bs
HasRoom-less len n a bs le r = record {
  before = r.before;
  bucket = r.bucket;
  after = r.after;
  chain = r.chain;
  aligned = r.aligned;
  low = r.low;
  high = omega (arith, r.high);
  counted = r.counted;
}

-- A chain from which an object was taken, and where the object lies.
abbrev pub Taken : ℕ → ℕ → List Bucket → Type 0
Taken d a cs = AllBuckets d cs × HasRoom (dir_size d) a cs

Taken-bucket :
    (d a : ℕ) (xs : List ℕ) (b : Bucket) (bs : List Bucket)
    → d < nr_dirs
    → IsBucket d b
    → AllBuckets d bs
    → b.free ≡ a ∷ xs
    → Taken d a (record b { free = xs; refcnt = (b.refcnt + 1) % 65536 } ∷ bs)
Taken-bucket d a xs b bs lt i all e =
    let c : Bucket = record b { free = xs; refcnt = (b.refcnt + 1) % 65536 } in
    let f : AllFit b (a ∷ xs) = subst (AllFit b) e i.fit in
    let (_, small) = capacity d lt in
    let n : b.refcnt + suc (length xs) ≡ page_size / dir_size d =
      subst (λ ys. b.refcnt + length ys ≡ page_size / dir_size d) e i.number in
    let i' : IsBucket d c = record {
      aligned = i.aligned;
      right_size = i.right_size;
      fit = AllFit-same b c xs refl refl f.2;
      number = omega arith;
    } in
    (
      (i', all),
      record {
        before = [];
        bucket = c;
        after = bs;
        chain = refl;
        aligned = i.aligned;
        low = f.0;
        high = omega (arith, f.1, i.right_size);
        counted = omega arith;
      },
    )

List-cases : (xs : List ℕ) → (xs ≡ []) ⊎ ((x : ℕ) × (ys : List ℕ) × (xs ≡ x ∷ ys))
List-cases [] = inl refl
List-cases (x ∷ xs) = inr (x, xs, refl)

pub take_object_lem :
    (d a : ℕ) (bs cs : List Bucket)
    → d < nr_dirs
    → AllBuckets d bs
    → take_object bs ≡ some (a, cs)
    → Taken d a cs
unfolding take_object
take_object_lem d a [] cs lt all h = absurd (ground arith)
take_object_lem d a (b ∷ bs) cs lt all h = elim (List-cases b.free) [
  | inl e ↦ elim (Option-cases (take_object bs)) [
    | inl q ↦ absurd (ground arith)
    | inr (r, q) ↦
        let (rest, place) = take_object_lem d r.0 bs r.1 lt all.1 q in
        let same : (r.0 ≡ a) × (b ∷ r.1 ≡ cs) = ground arith in
        subst (Taken d a) same.1 (
          subst (λ x. Taken d x (b ∷ r.1)) same.0
            ((all.0, rest), HasRoom-behind (dir_size d) r.0 b r.1 place))
  ]
  | inr (x, xs, e) ↦
      let c : Bucket = record b { free = xs; refcnt = (b.refcnt + 1) % 65536 } in
      let same : (x ≡ a) × (c ∷ bs ≡ cs) = ground arith in
      subst (Taken d a) same.1
        (subst (λ y. Taken d y (c ∷ bs)) same.0 (Taken-bucket d x xs b bs lt all.0 all.1 e))
]

pub fresh_bucket-IsBucket :
    (d page : ℕ) → d < nr_dirs → page % page_size ≡ 0 → IsBucket d (fresh_bucket page (dir_size d))
fresh_bucket-IsBucket d page lt start =
    let (full, _) = capacity d lt in
    record {
      aligned = start;
      right_size = refl;
      fit =
          objects-AllFit (page_size / dir_size d) page (fresh_bucket page (dir_size d))
            (omega arith) (omega (arith, full));
      number = omega (arith, length-objects (page_size / dir_size d) page (dir_size d));
    }

pub set-IsHeap :
    (h : Heap) (d : ℕ) (bs : List Bucket) (n : ℕ) (m : Memory)
    → IsHeap h
    → AllBuckets d bs
    → IsHeap (record { chain = update h.chain d bs; spare = n; memory = m })
set-IsHeap h d bs n m v all e lt = elim (ℕ_discrete e d) [
  | yes q ↦
      subst (λ x. AllBuckets x (update h.chain d bs x)) (sym q)
        (subst (AllBuckets d) (sym (update_self h.chain d bs)) all)
  | no q ↦ subst (AllBuckets e) (sym (update_ne h.chain d e bs q)) (v e lt)
]
