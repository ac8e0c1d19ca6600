-- ===== src/Block/Queue.antt =====
-- Requests and buffers, and the order of a device's queue.
use linux_0_11_notes.Prelude.{
  Bool, List, Option, [], if◌then◌else◌, ltb, not, ℕ, ◌&&◌, ◌==◌, ◌||◌, ◌∷◌,
}

-- READ, WRITE, READA and WRITEA.
pub data Rw : Type 0 where
  read write reada writea : Rw

-- `cmd` of a request, which is READ or WRITE.
abbrev pub cmd_code : Rw → ℕ
cmd_code read = 0
cmd_code write = 1
cmd_code reada = 2
cmd_code writea = 3

-- A request that is in use. `bh` is the number of its buffer.
pub record Request : Type 0 where
  pub dev : ℕ
  pub cmd : ℕ
  pub errors : ℕ
  pub sector : ℕ
  pub nr_sectors : ℕ
  pub bh : Option ℕ

-- IN_ORDER
unfoldable pub in_order : Request → Request → Bool
in_order s1 s2 =
    ltb s1.cmd s2.cmd
    || s1.cmd == s2.cmd && (ltb s1.dev s2.dev || (s1.dev == s2.dev && ltb s1.sector s2.sector))

-- The loop of `add_request` from entry `tmp`, with what follows it on the queue. The chain that the
-- fields `next` make is a list.
unfoldable pub insert_after : Request → Request → List Request → List Request
insert_after req tmp [] = tmp ∷ req ∷ []
insert_after req tmp (next ∷ rest) =
    let later = insert_after req next rest in
    if (in_order tmp req || not (in_order tmp next)) && in_order req next
    then tmp ∷ req ∷ next ∷ rest
    else tmp ∷ later

-- The queue after `add_request`. An idle device is started on the request at once.
unfoldable pub add_request : Request → List Request → List Request
unfolding insert_after
add_request req [] = req ∷ []
add_request req (tmp ∷ rest) = insert_after req tmp rest
