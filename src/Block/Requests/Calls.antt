-- ===== src/Block/Requests/Calls.antt =====
-- What a call of `make_request` of kernel/blk_drv/ll_rw_blk.c comes to.
use linux_0_11_notes.Prelude.{
  Bool, Bool-cases, Option, Option-cases, ap, arith, false, if-false, if-true, if◌then◌else◌, inl,
  inr, none, refl, some, subst, sym, true, update, update_ne, update_self, ℕ, ◌*◌, ◌<◌, ◌==◌, ◌||◌,
  ◌∙◌, ◌≡◌, ◌⊎◌,
}
use linux_0_11_notes.Block.Queue.{Request, Rw, cmd_code, read, reada, write, writea}
use linux_0_11_notes.Block.Requests.{
  Buffer, Disk, Made, clean, forgotten, free_slot, is_ahead, make_request, needless, plain,
  queue_slot, queued, request_for, set_lock, slot_limit, take_slot, waits_for_buffer,
  waits_for_slot,
}
use linux_0_11_notes.Block.Requests.Slots.{
  free_slot-none, free_slot-some, is_on, queue_slot-buffer, queue_slot-is_on, queue_slot-others,
  queue_slot-slot,
}
use linux_0_11_notes.Fs.Mounts.Fresh.{unlocked}

-- A read is needed if the buffer is not up to date, a write if it is dirty.
abbrev pub Needed : Rw → Buffer → Type 0
Needed read b = b.uptodate ≡ false
Needed reada b = b.uptodate ≡ false
Needed write b = b.dirt ≡ true
Needed writea b = b.dirt ≡ true

-- A read can have each of the 32 slots, a write the lower 21.
abbrev pub limit_of : Rw → ℕ
limit_of read = 32
limit_of reada = 32
limit_of write = 21
limit_of writea = 21

-- Commands are 0 to read and 1 to write.
abbrev pub command_of : Rw → ℕ
command_of read = 0
command_of reada = 0
command_of write = 1
command_of writea = 1

-- A request that is queued.
pub record IsQueued (dev : ℕ) (op : Rw) (bh : ℕ) (d : Disk) (i : ℕ) (d' : Disk) : Type 0 where
  pub was_unlocked : (d.buffer bh).lock ≡ false
  pub needed : Needed op (d.buffer bh)
  pub free : d.slot i ≡ none
  pub low : i < limit_of op
  pub holds :
      d'.slot i
      ≡ some (record {
        dev = (d.buffer bh).dev;
        cmd = command_of op;
        errors = 0;
        sector = (d.buffer bh).blocknr * 2;
        nr_sectors = 2;
        bh = some bh;
      })
  pub other_slots : (j : ℕ) → ¬ (j ≡ i) → d'.slot j ≡ d.slot j
  pub on_queue : (j : ℕ) → is_on j (d'.queue dev) ≡ (j == i || is_on j (d.queue dev))
  pub other_queues : (j : ℕ) → ¬ (j ≡ dev) → d'.queue j ≡ d.queue j
  pub buffer : d'.buffer bh ≡ record (d.buffer bh) { lock = true; dirt = false }
  pub other_buffers : (j : ℕ) → ¬ (j ≡ bh) → d'.buffer j ≡ d.buffer j

-- The buffer is free and the transfer is needed, but each slot that it may have is in use.
record IsFull (op : Rw) (bh : ℕ) (d : Disk) : Type 0 where
  not_locked : (d.buffer bh).lock ≡ false
  needed : Needed op (d.buffer bh)
  full : (j : ℕ) → j < limit_of op → ¬ (d.slot j ≡ none)

-- What a call comes to.
pub IsMade : ℕ → Rw → ℕ → Disk → Made → Type 0
IsMade dev op bh d (queued i d') = IsQueued dev op bh d i d'
IsMade dev op bh d (waits_for_buffer d') =
    (is_ahead op ≡ false) × ((d.buffer bh).lock ≡ true) × (d' ≡ d)
IsMade dev op bh d (waits_for_slot d') =
    (is_ahead op ≡ false) × IsFull op bh d × (d' ≡ set_lock true bh d)
IsMade dev op bh d (forgotten d') =
    ((is_ahead op ≡ true) × ((d.buffer bh).lock ≡ true) × (d' ≡ d))
    ⊎ ((((d.buffer bh).lock ≡ false) × ¬ Needed op (d.buffer bh) × (d' ≡ d))
        ⊎ ((is_ahead op ≡ true) × IsFull op bh d × (d' ≡ set_lock false bh (set_lock true bh d))))

needless-Needed : (op : Rw) (b : Buffer) → needless (plain op) b ≡ false → Needed op b
needless-Needed read b h = h
needless-Needed reada b h = h
needless-Needed write b h = ground arith
needless-Needed writea b h = ground arith

needless-not : (op : Rw) (b : Buffer) → needless (plain op) b ≡ true → ¬ Needed op b
needless-not read b h n = absurd (ground arith)
needless-not reada b h n = absurd (ground arith)
needless-not write b h n = absurd (ground arith)
needless-not writea b h n = absurd (ground arith)

limit_lem : (op : Rw) → slot_limit (plain op) ≡ limit_of op
limit_lem read = refl
limit_lem reada = refl
limit_lem write = refl
limit_lem writea = refl

command_lem : (op : Rw) → cmd_code (plain op) ≡ command_of op
command_lem read = refl
command_lem reada = refl
command_lem write = refl
command_lem writea = refl

-- The disk when `take_slot` has filled slot i.
abbrev filled : Rw → ℕ → ℕ → Disk → Disk
filled op i bh d = record d { slot = update d.slot i (some (request_for op (d.buffer bh) bh)) }

requested :
    (op : Rw) (bh : ℕ) (d : Disk)
    → request_for (plain op) (update d.buffer bh (record (d.buffer bh) { lock = true }) bh) bh
      ≡ record {
        dev = (d.buffer bh).dev;
        cmd = command_of op;
        errors = 0;
        sector = (d.buffer bh).blocknr * 2;
        nr_sectors = 2;
        bh = some bh;
      }
requested op bh d =
    let e : update d.buffer bh (record (d.buffer bh) { lock = true }) bh
        ≡ record (d.buffer bh) { lock = true } =
      update_self d.buffer bh _ in
    ap (λ (b : Buffer). request_for (plain op) b bh) e
    ∙ ap (λ (c : ℕ). record (request_for (plain op) (d.buffer bh) bh) { cmd = c }) (command_lem op)

locked_ahead :
    (dev : ℕ) (op : Rw) (bh : ℕ) (d : Disk)
    → (d.buffer bh).lock ≡ true
    → is_ahead op ≡ true
    → make_request dev op bh d ≡ forgotten d
unfolding make_request
locked_ahead dev op bh d l a = ground arith

locked_waits :
    (dev : ℕ) (op : Rw) (bh : ℕ) (d : Disk)
    → (d.buffer bh).lock ≡ true
    → is_ahead op ≡ false
    → make_request dev op bh d ≡ waits_for_buffer d
unfolding make_request
locked_waits dev op bh d l a = ground arith

unlocked_needless :
    (dev : ℕ) (op : Rw) (bh : ℕ) (d : Disk)
    → (d.buffer bh).lock ≡ false
    → needless (plain op) (d.buffer bh) ≡ true
    → make_request dev op bh d ≡ forgotten d
unfolding make_request
unlocked_needless dev op bh d l n = ground arith

unlocked_needed :
    (dev : ℕ) (op : Rw) (bh : ℕ) (d : Disk)
    → (d.buffer bh).lock ≡ false
    → needless (plain op) (d.buffer bh) ≡ false
    → make_request dev op bh d ≡ take_slot dev (plain op) (is_ahead op) bh (set_lock true bh d)
unfolding make_request
unlocked_needed dev op bh d l n = ground arith

filled-IsQueued :
    (dev : ℕ) (op : Rw) (bh : ℕ) (d : Disk) (i : ℕ)
    → (d.buffer bh).lock ≡ false
    → needless (plain op) (d.buffer bh) ≡ false
    → free_slot (slot_limit (plain op)) d.slot ≡ some i
    → IsQueued dev op bh d i (queue_slot dev i bh (filled (plain op) i bh (set_lock true bh d)))
filled-IsQueued dev op bh d i unlocked need found =
    let (low, free) = free_slot-some (slot_limit (plain op)) i d.slot found in
    let d1 : Disk = filled (plain op) i bh (set_lock true bh d) in
    let d' : Disk = queue_slot dev i bh d1 in
    let s : d'.slot ≡ d1.slot = queue_slot-slot dev i bh d1 in
    let b : d'.buffer ≡ update d1.buffer bh (clean (d1.buffer bh)) =
      queue_slot-buffer dev i bh d1 in
    record {
      was_unlocked = unlocked;
      needed = needless-Needed op (d.buffer bh) need;
      free = free;
      low = subst (λ (n : ℕ). i < n) (limit_lem op) low;
      holds =
          ap (λ (x : ℕ → Option Request). x i) s
          ∙ update_self d.slot i _
          ∙ ap some (requested op bh d);
      other_slots = λ j ne. ap (λ (x : ℕ → Option Request). x j) s ∙ update_ne d.slot i j _ ne;
      on_queue = λ j. queue_slot-is_on dev i bh d1 j;
      other_queues = λ j ne. queue_slot-others dev i bh d1 j ne;
      buffer =
          ap (λ (x : ℕ → Buffer). x bh) b
          ∙ update_self d1.buffer bh _
          ∙ ap clean (update_self d.buffer bh _);
      other_buffers = λ j ne.
          ap (λ (x : ℕ → Buffer). x j) b
          ∙ update_ne d1.buffer bh j _ ne
          ∙ update_ne d.buffer bh j _ ne;
    }

take_gets :
    (dev : ℕ) (op : Rw) (ahead : Bool) (bh : ℕ) (d : Disk) (i : ℕ)
    → free_slot (slot_limit op) d.slot ≡ some i
    → take_slot dev op ahead bh d ≡ queued i (queue_slot dev i bh (filled op i bh d))
unfolding take_slot
take_gets dev op ahead bh d i e = rw (take_slot, e) refl

take_fails :
    (dev : ℕ) (op : Rw) (ahead : Bool) (bh : ℕ) (d : Disk)
    → free_slot (slot_limit op) d.slot ≡ none
    → take_slot dev op ahead bh d
      ≡ (if ahead then forgotten (set_lock false bh d) else waits_for_slot d)
unfolding take_slot
take_fails dev op ahead bh d e = rw (take_slot, e) refl

take_slot-IsMade :
    (dev : ℕ) (op : Rw) (bh : ℕ) (d : Disk)
    → (d.buffer bh).lock ≡ false
    → needless (plain op) (d.buffer bh) ≡ false
    → IsMade dev op bh d (take_slot dev (plain op) (is_ahead op) bh (set_lock true bh d))
unfolding take_slot IsMade
take_slot-IsMade dev op bh d unlocked need =
    let full : free_slot (slot_limit (plain op)) d.slot ≡ none → IsFull op bh d = λ e. record {
      not_locked = unlocked;
      needed = needless-Needed op (d.buffer bh) need;
      full = λ j lt.
          free_slot-none (slot_limit (plain op)) j d.slot e
            (subst (λ (n : ℕ). j < n) (sym (limit_lem op)) lt);
    } in
    let d1 : Disk = set_lock true bh d in
    elim (Option-cases (free_slot (slot_limit (plain op)) d.slot)) [
      | inr (i, e) ↦
          subst (IsMade dev op bh d) (sym (take_gets dev (plain op) (is_ahead op) bh d1 i e))
            (filled-IsQueued dev op bh d i unlocked need e)
      | inl e ↦
          subst (IsMade dev op bh d) (sym (take_fails dev (plain op) (is_ahead op) bh d1 e))
            (elim (Bool-cases (is_ahead op)) [
              | inl a ↦
                  subst (IsMade dev op bh d) (sym (if-true (is_ahead op) _ (waits_for_slot d1) a))
                    (inr (inr (a, full e, refl)))
              | inr a ↦
                  subst (IsMade dev op bh d)
                    (sym (if-false (is_ahead op) (forgotten (set_lock false bh d1)) _ a))
                    (a, full e, refl)
            ])
    ]

-- What a call of `make_request` comes to, up to the first time that it sleeps. If the buffer is locked,
-- a read or write ahead is forgotten, and another one waits for the buffer. If it is not, and the
-- transfer is not needed (a read of a buffer that is up to date, a write of one that is not dirty), it
-- is forgotten, and nothing has changed. Otherwise a free slot, for a write one of the lower 21, gets a
-- request for the two sectors of the buffer's block; the slot joins those on the device's queue; the
-- buffer is locked and no longer dirty; and the other slots, queues and buffers stay. Where no such
-- slot is free, a read or write ahead unlocks the buffer and is forgotten, and another one waits for a
-- slot, the buffer locked.
pub make_request-IsMade :
    (dev : ℕ) (op : Rw) (bh : ℕ) (d : Disk) → IsMade dev op bh d (make_request dev op bh d)
unfolding make_request IsMade
make_request-IsMade dev op bh d = elim (Bool-cases ((d.buffer bh).lock)) [
  | inl l ↦ elim (Bool-cases (is_ahead op)) [
    | inl a ↦ subst (IsMade dev op bh d) (sym (locked_ahead dev op bh d l a)) (inl (a, l, refl))
    | inr a ↦ subst (IsMade dev op bh d) (sym (locked_waits dev op bh d l a)) (a, l, refl)
  ]
  | inr l ↦ elim (Bool-cases (needless (plain op) (d.buffer bh))) [
    | inl n ↦
        subst (IsMade dev op bh d) (sym (unlocked_needless dev op bh d l n))
          (inr (inl (l, needless-not op (d.buffer bh) n, refl)))
    | inr n ↦
        subst (IsMade dev op bh d) (sym (unlocked_needed dev op bh d l n))
          (take_slot-IsMade dev op bh d l n)
  ]
]
