-- ===== src/Block/Requests/Slots.antt =====
-- Which slots of kernel/blk_drv/ll_rw_blk.c are free, and which are on a device's queue.
use linux_0_11_notes.Prelude.{
  Bool, List, Option, Option-cases, [], arith, false, inl, inr, map, none, refl, some, suc, update,
  zero, ℕ, ℕ_discrete, ◌<◌, ◌==◌, ◌||◌, ◌∷◌, ◌≡◌,
}
use linux_0_11_notes.Block.Queue.{Request, in_order, insert_after}
use linux_0_11_notes.Block.Requests.{Disk, clean, free_slot, in_order_at, insert_slot, queue_slot}

pub free_slot-some :
    (n i : ℕ) (slot : ℕ → Option Request) → free_slot n slot ≡ some i → (i < n) × (slot i ≡ none)
unfolding free_slot
free_slot-some zero i slot e = absurd (ground arith)
free_slot-some (suc n) i slot e = elim (Option-cases (slot n)) [
  | inl q ↦ ground arith
  | inr (r, q) ↦ ground (arith, free_slot-some n i slot)
]

-- No slot below n is free.
pub free_slot-none :
    (n j : ℕ) (slot : ℕ → Option Request) → free_slot n slot ≡ none → j < n → ¬ (slot j ≡ none)
unfolding free_slot
free_slot-none zero j slot e lt q = absurd (omega arith)
free_slot-none (suc n) j slot e lt q = elim (ℕ_discrete j n) [
  | yes same ↦ absurd (ground arith)
  | no ne ↦ elim (Option-cases (slot n)) [
    | inl z ↦ absurd (ground arith)
    | inr (r, z) ↦ free_slot-none n j slot (ground arith) (omega arith) q
  ]
]

-- Whether a slot is on a queue.
unfoldable pub is_on : ℕ → List ℕ → Bool
is_on i [] = false
is_on i (x ∷ xs) = i == x || is_on i xs

insert_slot-is_on :
    (slot : ℕ → Option Request) (req tmp : ℕ) (rest : List ℕ) (j : ℕ)
    → is_on j (insert_slot slot req tmp rest) ≡ (j == req || is_on j (tmp ∷ rest))
unfolding insert_slot is_on
insert_slot-is_on slot req tmp [] j = ground arith
insert_slot-is_on slot req tmp (next ∷ rest) j =
    ground (arith, insert_slot-is_on slot req next rest j)

pub queue_slot-is_on :
    (dev i bh : ℕ) (d : Disk) (j : ℕ)
    → is_on j ((queue_slot dev i bh d).queue dev) ≡ (j == i || is_on j (d.queue dev))
unfolding queue_slot is_on
queue_slot-is_on dev i bh d j = go (d.queue dev) refl
  where
    go :
        (q : List ℕ)
        → d.queue dev ≡ q
        → is_on j ((queue_slot dev i bh d).queue dev) ≡ (j == i || is_on j (d.queue dev))
    go [] e = ground (arith, e)
    go (tmp ∷ rest) e = ground (arith, e, insert_slot-is_on d.slot i tmp rest j)

pub queue_slot-others :
    (dev i bh : ℕ) (d : Disk) (other : ℕ)
    → ¬ (other ≡ dev)
    → (queue_slot dev i bh d).queue other ≡ d.queue other
unfolding queue_slot
queue_slot-others dev i bh d other ne = go (d.queue dev) refl
  where
    go : (q : List ℕ) → d.queue dev ≡ q → (queue_slot dev i bh d).queue other ≡ d.queue other
    go [] e = ground (arith, e)
    go (tmp ∷ rest) e = ground (arith, e)

pub queue_slot-slot : (dev i bh : ℕ) (d : Disk) → (queue_slot dev i bh d).slot ≡ d.slot
unfolding queue_slot
queue_slot-slot dev i bh d = go (d.queue dev) refl
  where
    go : (q : List ℕ) → d.queue dev ≡ q → (queue_slot dev i bh d).slot ≡ d.slot
    go [] e = rw (e, queue_slot)
    go (j ∷ js) e = rw (e, queue_slot)

pub queue_slot-buffer :
    (dev i bh : ℕ) (d : Disk)
    → (queue_slot dev i bh d).buffer ≡ update d.buffer bh (clean (d.buffer bh))
unfolding queue_slot
queue_slot-buffer dev i bh d = go (d.queue dev) refl
  where
    go :
        (q : List ℕ)
        → d.queue dev ≡ q
        → (queue_slot dev i bh d).buffer ≡ update d.buffer bh (clean (d.buffer bh))
    go [] e = rw (e, queue_slot)
    go (j ∷ js) e = rw (e, queue_slot)

-- The slots of the list are in use, by the requests that `at` gives.
abbrev pub Held : (ℕ → Option Request) → (ℕ → Request) → List ℕ → Type 0
Held slot at [] = Unit
Held slot at (i ∷ is) = (slot i ≡ some (at i)) × Held slot at is

-- When every slot the queue names holds the request that `at` gives for it, inserting a slot number
-- by `insert_slot` and reading off the requests gives what `insert_after` gives on the requests.
insert_slot-insert_after :
    (slot : ℕ → Option Request) (at : ℕ → Request) (req tmp : ℕ) (rest : List ℕ)
    → Held slot at (req ∷ tmp ∷ rest)
    → map at (insert_slot slot req tmp rest) ≡ insert_after (at req) (at tmp) (map at rest)
unfolding insert_slot insert_after
insert_slot-insert_after slot at req tmp [] h = refl
insert_slot-insert_after slot at req tmp (next ∷ rest) h =
    let e : in_order_at slot tmp req ≡ in_order (at tmp) (at req) = ground arith in
    let f : in_order_at slot tmp next ≡ in_order (at tmp) (at next) = ground arith in
    let g : in_order_at slot req next ≡ in_order (at req) (at next) = ground arith in
    let ih : map at (insert_slot slot req next rest)
        ≡ insert_after (at req) (at next) (map at rest) =
      insert_slot-insert_after slot at req next rest (h.0, h.1.1) in
    ground (arith, e, f, g, ih)
