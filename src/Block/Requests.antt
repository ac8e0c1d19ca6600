-- ===== src/Block/Requests.antt =====
-- From a buffer to a request, and the end of a request.
pub mod Slots
pub mod Calls
use linux_0_11_notes.Prelude.{
  Bool, List, Option, Outcome, [], done, false, if◌then◌else◌, leb, ltb, none, not, panicked, some,
  suc, true, update, zero, ℕ, ◌&&◌, ◌*◌, ◌/◌, ◌==◌, ◌||◌, ◌∷◌,
}
use linux_0_11_notes.Block.Queue.{Request, Rw, cmd_code, in_order, read, reada, write, writea}

pub record Buffer : Type 0 where
  pub dev : ℕ
  pub blocknr : ℕ
  pub dirt : Bool
  pub uptodate : Bool
  pub lock : Bool

-- `slot` is the array `request[]`: the request in each slot, `none` where `dev` is -1. `queue` gives
-- the slots of a device's chain from `current_request` on, and `has_fn` the devices with a
-- `request_fn`. `started` lists the devices whose `request_fn` was called, the last first.
pub record Disk : Type 0 where
  pub buffer : ℕ → Buffer
  pub slot : ℕ → Option Request
  pub queue : ℕ → List ℕ
  pub has_fn : ℕ → Bool
  pub started : List ℕ

abbrev pub nr_request : ℕ
nr_request = 32

abbrev pub nr_blk_dev : ℕ
nr_blk_dev = 7

abbrev pub major : ℕ → ℕ
major dev = dev / 256

-- `while (--req >= request) if (req->dev < 0) break`: the highest free slot below n.
unfoldable pub free_slot : ℕ → (ℕ → Option Request) → Option ℕ
free_slot zero slot = none
free_slot (suc n) slot = elim (slot n) [ none ↦ some n | some _ ↦ free_slot n slot ]

-- The loop of `add_request` over slot numbers; an empty slot is on no queue, and is passed.
abbrev pub in_order_at : (ℕ → Option Request) → ℕ → ℕ → Bool
in_order_at slot i j = elim (slot i) [
  | none ↦ false
  | some r ↦ elim (slot j) [ none ↦ false | some s ↦ in_order r s ]
]

unfoldable pub insert_slot : (ℕ → Option Request) → ℕ → ℕ → List ℕ → List ℕ
insert_slot slot req tmp [] = tmp ∷ req ∷ []
insert_slot slot req tmp (next ∷ rest) =
    let later = insert_slot slot req next rest in
    if (in_order_at slot tmp req || not (in_order_at slot tmp next)) && in_order_at slot req next
    then tmp ∷ req ∷ next ∷ rest
    else tmp ∷ later

abbrev pub clean : Buffer → Buffer
clean b = record b { dirt = false }

-- `add_request(major + blk_dev, req)` for the request in slot `req`, whose buffer is `bh`.
unfoldable pub queue_slot : ℕ → ℕ → ℕ → Disk → Disk
unfolding insert_slot
queue_slot dev req bh d =
    let d' : Disk = record d { buffer = update d.buffer bh (clean (d.buffer bh)) } in
    elim (d.queue dev) [
      | [] ↦ record d' { queue = update d.queue dev (req ∷ []); started = dev ∷ d.started }
      | tmp ∷ rest ↦ record d' { queue = update d.queue dev (insert_slot d.slot req tmp rest) }
    ]

abbrev pub set_lock : Bool → ℕ → Disk → Disk
set_lock l bh d = record d { buffer = update d.buffer bh (record (d.buffer bh) { lock = l }) }

-- What a call of `make_request` comes to, up to the first time that it sleeps: it is forgotten or
-- was not needed, it has a slot, or it waits for the buffer or for a free slot.
pub data Made : Type 0 where
  forgotten : Disk → Made
  queued : ℕ → Disk → Made
  waits_for_buffer : Disk → Made
  waits_for_slot : Disk → Made

abbrev pub is_ahead : Rw → Bool
is_ahead reada = true
is_ahead writea = true
is_ahead _ = false

abbrev pub plain : Rw → Rw
plain reada = read
plain writea = write
plain rw = rw

abbrev pub is_read : Rw → Bool
is_read read = true
is_read _ = false

-- Writes get the lower two thirds of the slots.
abbrev pub slot_limit : Rw → ℕ
slot_limit rw = if is_read rw then nr_request else nr_request * 2 / 3

abbrev pub request_for : Rw → Buffer → ℕ → Request
request_for rw b bh = record {
  dev = b.dev;
  cmd = cmd_code rw;
  errors = 0;
  sector = b.blocknr * 2;
  nr_sectors = 2;
  bh = some bh;
}

-- From `repeat:` on. The buffer is locked by now.
unfoldable pub take_slot : ℕ → Rw → Bool → ℕ → Disk → Made
unfolding free_slot queue_slot
take_slot dev rw ahead bh d = elim (free_slot (slot_limit rw) d.slot) [
  | none ↦ if ahead then forgotten (set_lock false bh d) else waits_for_slot d
  | some i ↦ queued i (
      queue_slot dev i bh
        (record d { slot = update d.slot i (some (request_for rw (d.buffer bh) bh)) }))
]

-- `(rw == WRITE && !bh->b_dirt) || (rw == READ && bh->b_uptodate)`.
abbrev pub needless : Rw → Buffer → Bool
needless rw b = if is_read rw then b.uptodate else not b.dirt

unfoldable pub make_request : ℕ → Rw → ℕ → Disk → Made
unfolding take_slot
make_request dev rw bh d =
    let b : Buffer = d.buffer bh in
    if is_ahead rw && b.lock
    then forgotten d
    else if b.lock
    then waits_for_buffer d
    else if needless (plain rw) b
    then forgotten d
    else take_slot dev (plain rw) (is_ahead rw) bh (set_lock true bh d)

-- A device that is not there gets a message only.
unfoldable pub ll_rw_block : Rw → ℕ → Disk → Made
unfolding make_request
ll_rw_block rw bh d =
    let dev : ℕ = major (d.buffer bh).dev in
    if leb nr_blk_dev dev || not (d.has_fn dev) then forgotten d else make_request dev rw bh d

abbrev pub blk_dev_init : Disk → Disk
blk_dev_init d = record d { slot = λ i. if ltb i nr_request then none else d.slot i }

-- INIT_REQUEST: `true` means that there is a request to serve.
unfoldable pub init_request : ℕ → Disk → Outcome Bool
init_request dev d = elim (d.queue dev) [
  | [] ↦ done false
  | i ∷ _ ↦ elim (d.slot i) [
    | none ↦ panicked
    | some r ↦ if not (major r.dev == dev) then panicked else elim r.bh [
      | none ↦ done true
      | some bh ↦ if (d.buffer bh).lock then done true else panicked
    ]
  ]
]

-- `end_request`: the buffer is unlocked, the slot is free, and the next request is current.
unfoldable pub end_request : ℕ → Bool → Disk → Disk
end_request dev uptodate d = elim (d.queue dev) [
  | [] ↦ d
  | i ∷ rest ↦
      let d' : Disk = record d { slot = update d.slot i none; queue = update d.queue dev rest } in
      elim (d.slot i) [
        | none ↦ d'
        | some r ↦ elim r.bh [
          | none ↦ d'
          | some bh ↦ record d' {
            buffer =
                update d.buffer bh (record (d.buffer bh) { uptodate = uptodate; lock = false });
          }
        ]
      ]
]
