-- ===== src/Mm/Copy.antt =====
-- What `copy_page_tables` does to one page table, and to the counts.
use linux_0_11_notes.Prelude.{
  ==_iff, Bool, ap, ap₂, arith, false, if-false, if-true, if◌then◌else◌, ltb, ne→==_false, refl,
  suc, true, zero, ℕ, ◌%◌, ◌&&◌, ◌*◌, ◌+◌, ◌<◌, ◌==◌, ◌∙◌, ◌≡◌, ◌≢◌, ◌≤◌, ◌⊎◌,
}
use linux_0_11_notes.Mm.{Memory, is_present, low_mem, map_nr, read_only}
use linux_0_11_notes.Mm.Tables.{copy_entries, copy_entry}

-- How many of the n entries from `from` on share page number i.
unfoldable pub sharers : ℕ → ℕ → (ℕ → ℕ) → ℕ → ℕ
sharers zero from w i = 0
sharers (suc n) from w i =
    (if is_present (w from) && ltb low_mem (read_only (w from)) && map_nr (read_only (w from)) == i
      then 1
      else 0)
    + sharers n (from + 4) w i

-- The entry on either side after the copy.
abbrev pub child_entry : ℕ → ℕ → ℕ
child_entry e old = if is_present e then read_only e else old

abbrev pub parent_entry : ℕ → ℕ
parent_entry e = if is_present e && ltb low_mem (read_only e) then read_only e else e

-- The two ranges of n entries do not meet.
abbrev pub Apart : ℕ → ℕ → ℕ → Type 0
Apart n from to = (from + 4 * n ≤ to) ⊎ (to + 4 * n ≤ from)

sharers_local :
    (n from : ℕ) (w v : ℕ → ℕ) (i : ℕ)
    → ((a : ℕ) → from ≤ a → a < from + 4 * n → w a ≡ v a)
    → sharers n from w i ≡ sharers n from v i
unfolding sharers
sharers_local zero from w v i h = refl
sharers_local (suc n) from w v i h = ground (
  arith,
  h from (omega arith) (omega arith),
  sharers_local n (from + 4) w v i (λ a lo hi. h a (omega arith) (omega arith)),
)

copy_entry-word :
    (from to a : ℕ) (m : Memory)
    → from ≢ to
    → (copy_entry from to m).word a ≡ (
        if to == a
        then child_entry (m.word from) (m.word to)
        else if from == a
        then parent_entry (m.word from)
        else m.word a)
unfolding copy_entry
copy_entry-word from to a m ne = ground arith

copy_entry-map :
    (from to i : ℕ) (m : Memory)
    → (copy_entry from to m).mem_map i ≡ (
        if is_present (m.word from)
          && ltb low_mem (read_only (m.word from))
          && map_nr (read_only (m.word from)) == i
        then (m.mem_map i + 1) % 256
        else m.mem_map i)
unfolding copy_entry
copy_entry-map from to i m = ground arith

copy_entries-outside :
    (n from to a : ℕ) (m : Memory)
    → Apart n from to
    → (a < from) ⊎ (from + 4 * n ≤ a)
    → (a < to) ⊎ (to + 4 * n ≤ a)
    → (copy_entries n from to m).word a ≡ m.word a
unfolding copy_entries
copy_entries-outside zero from to a m apart p q = refl
copy_entries-outside (suc n) from to a m apart p q =
    copy_entries-outside n (from + 4) (to + 4) a (copy_entry from to m) (omega arith) (omega arith)
      (omega arith)
    ∙ copy_entry-word from to a m (omega arith)
    ∙ rw (ne→==_false to a (omega arith), ne→==_false from a (omega arith))

copy_entry-keep :
    (from to a : ℕ) (m : Memory)
    → from ≢ to
    → a ≢ from
    → a ≢ to
    → (copy_entry from to m).word a ≡ m.word a
copy_entry-keep from to a m ne f t =
    copy_entry-word from to a m ne
    ∙ if-false (to == a) _ _ (ne→==_false to a (omega arith))
    ∙ if-false (from == a) _ _ (ne→==_false from a (omega arith))

copy_entries-child :
    (n k from to : ℕ) (m : Memory)
    → Apart n from to
    → k < n
    → (copy_entries n from to m).word (to + 4 * k)
      ≡ child_entry (m.word (from + 4 * k)) (m.word (to + 4 * k))
unfolding copy_entries
copy_entries-child zero k from to m apart h = absurd (omega arith)
copy_entries-child (suc n) zero from to m apart h =
    let t : to + 0 ≡ to = omega arith in
    let f : from + 0 ≡ from = omega arith in
    rw (t, f)
      (copy_entries-outside n (from + 4) (to + 4) to (copy_entry from to m) (omega arith)
          (omega arith) (omega arith)
        ∙ copy_entry-word from to to m (omega arith)
        ∙ if-true (to == to) _ _ ((==_iff to to).1 refl))
copy_entries-child (suc n) (suc k) from to m apart h =
    let t : to + 4 * suc k ≡ to + 4 + 4 * k = omega arith in
    let f : from + 4 * suc k ≡ from + 4 + 4 * k = omega arith in
    rw (t, f)
      (copy_entries-child n k (from + 4) (to + 4) (copy_entry from to m) (omega arith) (omega arith)
        ∙ ap₂ child_entry
            (copy_entry-keep from to (from + 4 + 4 * k) m (omega arith) (omega arith) (omega arith))
            (copy_entry-keep from to (to + 4 + 4 * k) m (omega arith) (omega arith) (omega arith)))

copy_entries-parent :
    (n k from to : ℕ) (m : Memory)
    → Apart n from to
    → k < n
    → (copy_entries n from to m).word (from + 4 * k) ≡ parent_entry (m.word (from + 4 * k))
unfolding copy_entries
copy_entries-parent zero k from to m apart h = absurd (omega arith)
copy_entries-parent (suc n) zero from to m apart h =
    let f : from + 0 ≡ from = omega arith in
    rw f (
      copy_entries-outside n (from + 4) (to + 4) from (copy_entry from to m) (omega arith)
        (omega arith) (omega arith)
      ∙ copy_entry-word from to from m (omega arith)
      ∙ if-false (to == from) _ _ (ne→==_false to from (omega arith))
      ∙ if-true (from == from) _ _ ((==_iff from from).1 refl))
copy_entries-parent (suc n) (suc k) from to m apart h =
    let f : from + 4 * suc k ≡ from + 4 + 4 * k = omega arith in
    rw f (
      copy_entries-parent n k (from + 4) (to + 4) (copy_entry from to m) (omega arith) (omega arith)
      ∙ ap parent_entry
          (copy_entry-keep from to (from + 4 + 4 * k) m (omega arith) (omega arith) (omega arith)))

-- One more user, counted in a byte before or after the rest.
carry_lem :
    (b : Bool) (x s : ℕ)
    → x < 256
    → ((if b then (x + 1) % 256 else x) + s) % 256 ≡ (x + ((if b then 1 else 0) + s)) % 256
carry_lem true x s h = omega arith
carry_lem false x s h = omega arith

byte_lem : (b : Bool) (x : ℕ) → x < 256 → (if b then (x + 1) % 256 else x) < 256
byte_lem true x h = omega arith
byte_lem false x h = h

copy_entries-counts :
    (n from to i : ℕ) (m : Memory)
    → Apart n from to
    → m.mem_map i < 256
    → (copy_entries n from to m).mem_map i ≡ (m.mem_map i + sharers n from m.word i) % 256
unfolding copy_entries sharers
copy_entries-counts zero from to i m apart h = omega arith
copy_entries-counts (suc n) from to i m apart h =
    let b : Bool =
      is_present (m.word from)
      && ltb low_mem (read_only (m.word from))
      && map_nr (read_only (m.word from)) == i in
    let m1 : Memory = copy_entry from to m in
    copy_entries-counts n (from + 4) (to + 4) i m1 (omega arith)
      (rw (copy_entry-map from to i m) (byte_lem b (m.mem_map i) h))
    ∙ ap₂ (λ x y. (x + y) % 256) (copy_entry-map from to i m)
        (sharers_local n (from + 4) m1.word m.word i
          (λ a lo hi. copy_entry-keep from to a m (omega arith) (omega arith) (omega arith)))
    ∙ carry_lem b (m.mem_map i) (sharers n (from + 4) m.word i) h

-- A page table that is copied: every present entry is write-protected in the copy, and in the
-- original if its page lies above LOW_MEM; other entries of the copy stay. Each page has as many
-- users more as entries were shared, modulo 256.
pub copy_entries_lem :
    (n k from to i : ℕ) (m : Memory)
    → Apart n from to
    → k < n
    → m.mem_map i < 256
    → let m' = copy_entries n from to m in
      (m'.word (to + 4 * k) ≡ child_entry (m.word (from + 4 * k)) (m.word (to + 4 * k)))
      × (m'.word (from + 4 * k) ≡ parent_entry (m.word (from + 4 * k)))
      × (m'.mem_map i ≡ (m.mem_map i + sharers n from m.word i) % 256)
copy_entries_lem n k from to i m apart h byte = (
  copy_entries-child n k from to m apart h,
  copy_entries-parent n k from to m apart h,
  copy_entries-counts n from to i m apart byte,
)
