-- ===== src/Chr/Queue/Ring.antt =====
-- A queue as the list of its bytes.
use linux_0_11_notes.Prelude.{
  List, [], ap, ap₂, arith, false, length, refl, suc, true, update, update_ne, update_self, zero, ℕ,
  ◌%◌, ◌++◌, ◌+◌, ◌-◌, ◌<◌, ◌∙◌, ◌∷◌, ◌≡◌,
}
use linux_0_11_notes.Chr.Queue.{
  Queue, buf_size, chars, getch, is_empty, is_full, last, next_char, putch, unput,
}

unfoldable ring : (ℕ → ℕ) → ℕ → ℕ → List ℕ
ring buf t zero = []
ring buf t (suc n) = buf t ∷ ring buf ((t + 1) % buf_size) n

unfoldable pub bytes : Queue → List ℕ
unfolding ring
bytes q = ring q.buf q.tail (chars q)

pub record IsQueue (q : Queue) : Type 0 where
  pub head_in : q.head < buf_size
  pub tail_in : q.tail < buf_size

length-ring : (buf : ℕ → ℕ) (t n : ℕ) → length (ring buf t n) ≡ n
unfolding ring
length-ring buf t zero = refl
length-ring buf t (suc n) = ap suc (length-ring buf ((t + 1) % buf_size) n)

pub length-bytes : (q : Queue) → length (bytes q) ≡ chars q
unfolding bytes
length-bytes q = length-ring q.buf q.tail (chars q)

ring_last :
    (buf : ℕ → ℕ) (t n i : ℕ)
    → t < buf_size
    → i ≡ (t + n) % buf_size
    → ring buf t (suc n) ≡ ring buf t n ++ (buf i ∷ [])
unfolding ring
ring_last buf t zero i h e = let q : i ≡ t = omega arith in rw q
ring_last buf t (suc n) i h e =
    ap (λ r. buf t ∷ r) (ring_last buf ((t + 1) % buf_size) n i (omega arith) (omega arith))

ring-update :
    (buf : ℕ → ℕ) (x t n i : ℕ)
    → t < buf_size
    → n < buf_size
    → i ≡ (t + n) % buf_size
    → ring (update buf i x) t n ≡ ring buf t n
unfolding ring
ring-update buf x t zero i h l e = refl
ring-update buf x t (suc n) i h l e =
    let ne : ¬ (t ≡ i) = omega arith in
    ap₂ ◌∷◌ (update_ne buf i t x ne)
      (ring-update buf x ((t + 1) % buf_size) n i (omega arith) (omega arith) (omega arith))

-- A byte put into a queue that is not full is the last of its bytes.
pub bytes-putch :
    (c : ℕ) (q : Queue) → IsQueue q → is_full q ≡ false → bytes (putch c q) ≡ bytes q ++ (c ∷ [])
unfolding bytes
bytes-putch c q v h =
    let small : suc (chars q) < buf_size = ground arith in
    let e : chars (putch c q) ≡ suc (chars q) = omega arith in
    ap (ring (update q.buf q.head c) q.tail) e
    ∙ ring_last (update q.buf q.head c) q.tail (chars q) q.head v.tail_in (omega arith)
    ∙ ap₂ (λ xs x. xs ++ (x ∷ []))
        (ring-update q.buf c q.tail (chars q) q.head v.tail_in (omega arith) (omega arith))
        (update_self q.buf q.head c)

-- The first byte is the next that is taken.
pub bytes-getch :
    (q : Queue) → IsQueue q → is_empty q ≡ false → bytes q ≡ next_char q ∷ bytes (getch q)
unfolding bytes ring
bytes-getch q v h =
    let ne : ¬ (q.head ≡ q.tail) = ground arith in
    let e : chars q ≡ suc (chars (getch q)) = omega arith in ap (ring q.buf q.tail) e

-- The last byte is the one that the queue loses when its head goes back.
pub bytes-unput :
    (q : Queue) → IsQueue q → is_empty q ≡ false → bytes q ≡ bytes (unput q) ++ (last q ∷ [])
unfolding bytes
bytes-unput q v h =
    let ne : ¬ (q.head ≡ q.tail) = ground arith in
    let e : chars q ≡ suc (chars (unput q)) = omega arith in
    ap (ring q.buf q.tail) e
    ∙ ring_last q.buf q.tail (chars (unput q)) ((q.head + (buf_size - 1)) % buf_size) v.tail_in
        (omega arith)

pub putch-IsQueue : (c : ℕ) (q : Queue) → IsQueue q → IsQueue (putch c q)
putch-IsQueue c q v = record { head_in = omega arith; tail_in = v.tail_in }

pub getch-IsQueue : (q : Queue) → IsQueue q → IsQueue (getch q)
getch-IsQueue q v = record { head_in = v.head_in; tail_in = omega arith }

pub unput-IsQueue : (q : Queue) → IsQueue q → IsQueue (unput q)
unput-IsQueue q v = record { head_in = omega arith; tail_in = v.tail_in }

pub bytes_empty : (q : Queue) → is_empty q ≡ true → IsQueue q → bytes q ≡ []
unfolding bytes ring
bytes_empty q h v = let e : chars q ≡ 0 = ground arith in ap (ring q.buf q.tail) e
