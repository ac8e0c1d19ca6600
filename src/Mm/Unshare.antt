-- ===== src/Mm/Unshare.antt =====
-- A write to a shared page: the writer gets a copy of its own, and nobody else sees a change.
use linux_0_11_notes.Prelude.{
  Bool-cases, arith, dec_lt, done, exited, false, if◌then◌else◌, inl, inr, leb, le→leb,
  le→ltb_false, lt→leb_false, lt→ltb, ne→==_false, update, update_ne, update_self, ℕ, ◌%◌, ◌&&◌,
  ◌+◌, ◌-◌, ◌/◌, ◌<◌, ◌==◌, ◌∙◌, ◌≡◌, ◌≢◌, ◌≤◌, ◌⊎◌,
}
use linux_0_11_notes.Mm.{
  Memory, frame_of, get_free_page, low_mem, map_nr, or_7, page_size, paging_pages, writable,
}
use linux_0_11_notes.Mm.Alloc.{IsFresh, get_free_page_lem}
use linux_0_11_notes.Mm.Faults.{copy_page, drop_user, un_wp_page}

-- A page that somebody uses, or one below the pages that are counted.
abbrev pub InUse : Memory → ℕ → Type 0
InUse m a = (a < low_mem) ⊎ (m.mem_map (map_nr a) ≢ 0)

-- The address and the page at `base` do not meet.
abbrev pub Outside : ℕ → ℕ → Type 0
Outside a base = (a + 4 ≤ base) ⊎ (base + page_size ≤ a)

-- The page of the entry is the entry's own, holds what the old page held, and may be written;
-- what else has changed is a page that nobody used.
pub record IsPrivate (m m' : Memory) (entry : ℕ) : Type 0 where
  pub writes : m'.word entry / 2 % 2 ≡ 1
  pub same :
      (k : ℕ)
      → k < page_size
      → k % 4 ≡ 0
      → m'.word (frame_of (m'.word entry) + k) ≡ m.word (frame_of (m.word entry) + k)
  pub alone : m'.mem_map (map_nr (frame_of (m'.word entry))) ≡ 1
  pub counted : low_mem ≤ frame_of (m'.word entry)
  pub apart :
      m.mem_map (map_nr (frame_of (m.word entry))) ≢ 1
      → frame_of (m'.word entry) ≢ frame_of (m.word entry)
  pub others : (a : ℕ) → a ≢ entry → a % 4 ≡ 0 → InUse m a → m'.word a ≡ m.word a

-- A fresh page does not meet an address in use.
fresh-Outside :
    {m m' : Memory} {page : ℕ} (a : ℕ) → IsFresh m page m' → a % 4 ≡ 0 → InUse m a → Outside a page
fresh-Outside {m} {page} a f al (inl low) = omega (arith, f.here)
fresh-Outside {m} {page} a f al (inr busy) = elim (dec_lt a page) [
  | yes p ↦ omega (arith, f.here)
  | no p ↦ elim (dec_lt a (page + page_size)) [
    | no q ↦ inr (omega arith)
    | yes q ↦ let e : map_nr a ≡ f.nr = omega (arith, f.here) in absurd (busy (rw e f.highest.1))
  ]
]

writable_lem : (e : ℕ) → (writable e / 2 % 2 ≡ 1) × (frame_of (writable e) ≡ frame_of e)
writable_lem e = (omega arith, omega arith)

copy_page-inside :
    (from to k : ℕ) (w : ℕ → ℕ) → k < page_size → copy_page from to w (to + k) ≡ w (from + k)
unfolding copy_page
copy_page-inside from to k w h =
    let e : to + k - to ≡ k = omega arith in
    rw (le→leb to (to + k) (omega arith), lt→ltb (to + k) (to + page_size) (omega arith), e)

copy_page-Outside : (from to a : ℕ) (w : ℕ → ℕ) → Outside a to → copy_page from to w a ≡ w a
unfolding copy_page
copy_page-Outside from to a w (inl h) = rw (lt→leb_false to a (omega arith))
copy_page-Outside from to a w (inr h) = elim (Bool-cases (leb to a)) [
  | inl e ↦ rw (e, le→ltb_false a (to + page_size) h)
  | inr e ↦ rw e
]

-- The page has one user already: only the entry changes.
alone_lem :
    (entry : ℕ) (m : Memory)
    → Outside entry (frame_of (m.word entry))
    → low_mem ≤ frame_of (m.word entry)
    → m.mem_map (map_nr (frame_of (m.word entry))) ≡ 1
    → IsPrivate m (record m { word = update m.word entry (writable (m.word entry)) }) entry
alone_lem entry m out low one =
    let w : (writable (m.word entry) / 2 % 2 ≡ 1)
        × (frame_of (writable (m.word entry)) ≡ frame_of (m.word entry)) =
      writable_lem (m.word entry) in
    record {
      writes = rw (update_self m.word entry (writable (m.word entry))) w.0;
      same = λ k lt al.
          rw (update_self m.word entry (writable (m.word entry)), w.1)
            (update_ne m.word entry (frame_of (m.word entry) + k) (writable (m.word entry))
              (omega arith));
      alone = rw (update_self m.word entry (writable (m.word entry)), w.1) one;
      counted = rw (update_self m.word entry (writable (m.word entry)), w.1) low;
      apart = λ more. absurd (more one);
      others = λ a ne al busy. update_ne m.word entry a (writable (m.word entry)) ne;
    }

-- What `un_wp_page` leaves when it copies to the page `new`, which `m1` holds.
abbrev pub copied : ℕ → ℕ → Memory → Memory → Memory
copied entry new m m1 =
    let old : ℕ = frame_of (m.word entry) in
    record m1 {
      mem_map = if leb low_mem old then drop_user m1.mem_map (map_nr old) else m1.mem_map;
      word = copy_page old new (update m1.word entry (or_7 new));
    }

old-InUse : (m : Memory) (e k : ℕ) → InUse m (frame_of e) → k < page_size → InUse m (frame_of e + k)
old-InUse m e k (inl low) h = inl (omega arith)
old-InUse m e k (inr busy) h = elim (dec_lt (frame_of e + k) low_mem) [
  | yes p ↦ inl p
  | no p ↦ let q : map_nr (frame_of e + k) ≡ map_nr (frame_of e) = omega arith in inr (rw q busy)
]

module _ (entry new : ℕ) (m m1 : Memory) (f : IsFresh m new m1) (al : entry % 4 ≡ 0)
    (used : InUse m entry) where
  copied-entry : (copied entry new m m1).word entry ≡ or_7 new
  copied-entry =
      copy_page-Outside (frame_of (m.word entry)) new entry (update m1.word entry (or_7 new))
        (fresh-Outside entry f al used)
      ∙ update_self m1.word entry (or_7 new)

  new_frame : (frame_of (or_7 new) ≡ new) × (map_nr new ≡ f.nr) × (low_mem ≤ new)
  new_frame = (omega (arith, f.here), omega (arith, f.here), omega (arith, f.here))

  copied-same :
      (k : ℕ)
      → Outside entry (frame_of (m.word entry))
      → InUse m (frame_of (m.word entry))
      → k < page_size
      → k % 4 ≡ 0
      → (copied entry new m m1).word (new + k) ≡ m.word (frame_of (m.word entry) + k)
  copied-same k out old lt alk =
      let a : ℕ = frame_of (m.word entry) + k in
      copy_page-inside (frame_of (m.word entry)) new k (update m1.word entry (or_7 new)) lt
      ∙ update_ne m1.word entry a (or_7 new) (omega arith)
      ∙ f.kept a (fresh-Outside a f (omega arith) (old-InUse m (m.word entry) k old lt))

  copied-alone :
      InUse m (frame_of (m.word entry)) → (copied entry new m m1).mem_map (map_nr new) ≡ 1
  copied-alone old =
      ground (arith, new_frame.1, f.counted f.nr, f.highest.1, old-InUse m (m.word entry) 0 old)

  copied-others :
      (a : ℕ) → a ≢ entry → a % 4 ≡ 0 → InUse m a → (copied entry new m m1).word a ≡ m.word a
  copied-others a ne ala busy =
      copy_page-Outside (frame_of (m.word entry)) new a (update m1.word entry (or_7 new))
        (fresh-Outside a f ala busy)
      ∙ update_ne m1.word entry a (or_7 new) ne
      ∙ f.kept a (fresh-Outside a f ala busy)

  copied-IsPrivate :
      Outside entry (frame_of (m.word entry))
      → InUse m (frame_of (m.word entry))
      → IsPrivate m (copied entry new m m1) entry
  copied-IsPrivate out old = record {
    writes = rw copied-entry (omega arith);
    same = λ k lt alk. rw (copied-entry, new_frame.0) (copied-same k out old lt alk);
    alone = rw (copied-entry, new_frame.0) (copied-alone old);
    counted = rw (copied-entry, new_frame.0) new_frame.2;
    apart = λ more.
        rw (copied-entry, new_frame.0)
          (λ e.
            absurd (omega (arith, e, fresh-Outside (frame_of (m.word entry)) f (omega arith) old)));
    others = copied-others;
  }

-- The page is below the pages that are counted, or somebody else uses it or nobody does.
abbrev pub HasToBeCopied : Memory → ℕ → Type 0
HasToBeCopied m page = (page < low_mem) ⊎ (m.mem_map (map_nr page) ≢ 1)

has_to_be_copied :
    (m : Memory) (page : ℕ)
    → (leb low_mem page && m.mem_map (map_nr page) == 1) ≡ false
    → HasToBeCopied m page
has_to_be_copied m page b = elim (dec_lt page low_mem) [
  | yes low ↦ inl low
  | no high ↦ inr (λ one. absurd (ground arith))
]

-- After a write fault on an entry at a multiple of 4 that lies, like its page, in memory in use, and not
-- in that page itself, the entry's page may be written, has no other user, and holds what it held; every
-- other word in use is unchanged, and a page that did not have exactly one user is left to the others.
-- Only if the page has to be copied, since it does not have exactly one user or is not counted, and no
-- page is free, the task ends instead.
pub un_wp_page-IsPrivate :
    (entry : ℕ) (m : Memory)
    → entry % 4 ≡ 0
    → InUse m entry
    → InUse m (frame_of (m.word entry))
    → Outside entry (frame_of (m.word entry))
    → ((m' : Memory) × (un_wp_page entry m ≡ done m') × IsPrivate m m' entry)
      ⊎ ((un_wp_page entry m ≡ exited)
          × HasToBeCopied m (frame_of (m.word entry))
          × ((j : ℕ) → j < paging_pages → m.mem_map j ≢ 0))
unfolding un_wp_page
un_wp_page-IsPrivate entry m al used old out =
    elim (Bool-cases (
      leb low_mem (frame_of (m.word entry)) && m.mem_map (map_nr (frame_of (m.word entry))) == 1)) [
        | inl b ↦ inl (
          record m { word = update m.word entry (writable (m.word entry)) },
          rw b,
          alone_lem entry m out (ground arith) (ground arith),
        )
        | inr b ↦ elim (get_free_page_lem m) [
          | inr (z, _, full) ↦
              inr (ground arith, has_to_be_copied m (frame_of (m.word entry)) b, full)
          | inl f ↦
              let z : ((get_free_page m).0 == 0) ≡ false =
                ne→==_false (get_free_page m).0 0 (omega (arith, f.here)) in
              inl (
                copied entry (get_free_page m).0 m (get_free_page m).1,
                rw (b, z),
                copied-IsPrivate entry (get_free_page m).0 m (get_free_page m).1 f al used out old,
              )
        ]
      ]
