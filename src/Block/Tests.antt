-- ===== src/Block/Tests.antt =====
-- Inputs for the theorems on requests.
use linux_0_11_notes.Prelude.{List, [], false, none, refl, true, ℕ, ◌==◌, ◌∷◌, ◌≡◌, ◌≤◌}
use linux_0_11_notes.Block.Elevator.{add_request-descents, descents}
use linux_0_11_notes.Block.Queue.{Request, add_request, in_order, write}
use linux_0_11_notes.Block.Requests.{Buffer, Disk, Made, make_request, queued}
use linux_0_11_notes.Block.Requests.Calls.{IsMade, make_request-IsMade}

abbrev req : ℕ → Request
req s = record { dev = 0x301; cmd = 0; errors = 0; sector = s; nr_sectors = 2; bh = none }

abbrev dirty : Buffer
dirty = record { dev = 0x301; blocknr = 5; dirt = true; uptodate = true; lock = false }

abbrev disk : Disk
disk = record {
  buffer = λ _. dirty;
  slot = λ _. none;
  queue = λ _. [];
  has_fn = λ i. i == 3;
  started = [];
}

add_request-descents_example :
    (out : List Request) × (add_request (req 4) (req 10 ∷ req 20 ∷ []) ≡ req 10 ∷ out)
    × (descents (req 10) out ≤ 1)
unfolding descents in_order
add_request-descents_example =
    add_request-descents (req 4) (req 10) (req 20 ∷ []) (refl, (refl, tt))

make_request-IsMade_example : IsMade 3 write 7 disk (make_request 3 write 7 disk)
make_request-IsMade_example = make_request-IsMade 3 write 7 disk

-- The highest slot that a write can have.
slot_of : Made → ℕ
slot_of (queued i d) = i
slot_of _ = 0

gets_slot : slot_of (make_request 3 write 7 disk) ≡ 20
unfolding make_request slot_of
gets_slot = refl
