-- ===== src/Block/Elevator.antt =====
-- `add_request` keeps the request that is being served, loses none, and keeps the sweep of the disk
-- arm.
use mathlib.Core.List.{Perm}
use mathlib.Core.List.Perm
use linux_0_11_notes.Prelude.{
  Bool, Bool-cases, List, [], arith, dec_lt, false, if◌then◌else◌, inl, inr, max, not, refl, true,
  ℕ, ◌&&◌, ◌+◌, ◌<◌, ◌||◌, ◌∷◌, ◌≡◌, ◌≤◌,
}
use linux_0_11_notes.Block.Queue.{Request, add_request, in_order, insert_after}

-- Requests that follow a later one: the queue is made of one sweep more than this number.
unfoldable pub descents : Request → List Request → ℕ
descents tmp [] = 0
descents tmp (next ∷ rest) = (if in_order tmp next then 0 else 1) + descents next rest

-- No request of the list is for the place of r.
abbrev pub IsNew : Request → List Request → Type 0
IsNew r [] = Unit
IsNew r (s ∷ ss) = ((in_order r s || in_order s r) ≡ true) × IsNew r ss

in_order_trans : (a b c : Request) → in_order a b ≡ true → in_order b c ≡ true → in_order a c ≡ true
unfolding in_order
in_order_trans a b c p q = ground arith

last : Request → List Request → Request
last tmp [] = tmp
last tmp (next ∷ rest) = last next rest

-- Whether the loop runs to the end of the queue.
runs_through : Request → Request → List Request → Bool
runs_through req tmp [] = true
runs_through req tmp (next ∷ rest) =
    not ((in_order tmp req || not (in_order tmp next)) && in_order req next)
    && runs_through req next rest

-- Past one request that comes before the new one, all that follow do too.
through-ascends :
    (req tmp : Request) (rest : List Request)
    → IsNew req (tmp ∷ rest)
    → runs_through req tmp rest ≡ true
    → in_order tmp req ≡ true
    → in_order (last tmp rest) req ≡ true
unfolding runs_through last
through-ascends req tmp [] n t h = h
through-ascends req tmp (next ∷ rest) n t h =
    through-ascends req next rest n.1 (ground arith) (ground arith)

through-descends :
    (req tmp : Request) (rest : List Request)
    → IsNew req (tmp ∷ rest)
    → runs_through req tmp rest ≡ true
    → 0 < descents tmp rest
    → in_order (last tmp rest) req ≡ true
unfolding runs_through last descents
through-descends req tmp [] n t h = absurd (omega arith)
through-descends req tmp (next ∷ rest) n t h = elim (Bool-cases (in_order tmp next)) [
  | inl up ↦ through-descends req next rest n.1 (ground arith) (ground arith)
  | inr down ↦ through-ascends req next rest n.1 (ground arith) (ground arith)
]

inside-descents :
    (req tmp : Request) (rest : List Request)
    → runs_through req tmp rest ≡ false
    → (out : List Request) × (insert_after req tmp rest ≡ tmp ∷ out)
      × (descents tmp out ≡ descents tmp rest)
unfolding runs_through descents insert_after
inside-descents req tmp [] t = absurd (ground arith)
inside-descents req tmp (next ∷ rest) t =
    elim (Bool-cases ((in_order tmp req || not (in_order tmp next)) && in_order req next)) [
      | inl here ↦ (req ∷ next ∷ rest, rw here, ground (arith, in_order_trans tmp req next))
      | inr on ↦
          let (out, e, d) = inside-descents req next rest (ground arith) in
          (next ∷ out, rw (on, e), rw d)
    ]

through-descents :
    (req tmp : Request) (rest : List Request)
    → runs_through req tmp rest ≡ true
    → (out : List Request) × (insert_after req tmp rest ≡ tmp ∷ out)
      × (descents tmp out ≡ descents tmp rest + (if in_order (last tmp rest) req then 0 else 1))
unfolding runs_through descents insert_after last
through-descents req tmp [] t = (req ∷ [], refl, ground arith)
through-descents req tmp (next ∷ rest) t =
    let (out, e, d) = through-descents req next rest (ground arith) in
    (next ∷ out, ground (arith, e), rw d (omega arith))

-- The request that is being served stays first. If the new request is for another place than all
-- that wait, the queue has no more sweeps than before, or at most the one under way and the next.
pub add_request-descents :
    (req tmp : Request) (rest : List Request)
    → IsNew req (tmp ∷ rest)
    → (out : List Request) × (add_request req (tmp ∷ rest) ≡ tmp ∷ out)
      × (descents tmp out ≤ max 1 (descents tmp rest))
unfolding add_request
add_request-descents req tmp rest n = elim (Bool-cases (runs_through req tmp rest)) [
  | inr t ↦ let (out, e, d) = inside-descents req tmp rest t in (out, e, omega arith)
  | inl t ↦
      let (out, e, d) = through-descents req tmp rest t in
      (
        out,
        e,
        elim (dec_lt 0 (descents tmp rest)) [
          | yes h ↦ ground (arith, through-descends req tmp rest n t h)
          | no h ↦ ground arith
        ],
      )
]

insert_after-perm :
    (req tmp : Request) (rest : List Request) → Perm (insert_after req tmp rest) (req ∷ tmp ∷ rest)
unfolding insert_after
insert_after-perm req tmp [] = Perm.swap req tmp []
insert_after-perm req tmp (next ∷ rest) =
    elim (Bool-cases ((in_order tmp req || not (in_order tmp next)) && in_order req next)) [
      | inl here ↦ rw here (Perm.swap req tmp (next ∷ rest))
      | inr on ↦ rw on (
          Perm.trans (Perm.cons tmp (insert_after-perm req next rest))
            (Perm.swap req tmp (next ∷ rest)))
    ]

-- After `add_request` the queue is a permutation of the requests it held with the new one: the
-- elevator loses no request and serves none twice.
add_request-perm :
    (req : Request) (queue : List Request) → Perm (add_request req queue) (req ∷ queue)
unfolding add_request
add_request-perm req [] = Perm.refl (req ∷ [])
add_request-perm req (tmp ∷ rest) = insert_after-perm req tmp rest
