-- ===== src/Fs/Pipe/Window.antt =====
-- The bytes of a page from an index on, going round at its end.
use mathlib.Core.List.{append-nil, append_assoc}
use linux_0_11_notes.Prelude.{
  List, [], ap, ap₂, arith, length, refl, suc, update, update_ne, zero, ℕ, ◌%◌, ◌++◌, ◌+◌, ◌<◌, ◌∙◌,
  ◌∷◌, ◌≡◌, ◌≤◌,
}
use linux_0_11_notes.Fs.Pipe.{page_bytes, read_bytes, write_bytes}

unfoldable pub window : (ℕ → ℕ) → ℕ → ℕ → List ℕ
window page t zero = []
window page t (suc n) = page t ∷ window page ((t + 1) % page_bytes) n

pub length-window : (page : ℕ → ℕ) (t n : ℕ) → length (window page t n) ≡ n
unfolding window
length-window page t zero = refl
length-window page t (suc n) = ap suc (length-window page ((t + 1) % page_bytes) n)

-- Up to the end of the page a window is read straight.
pub window-split :
    (page : ℕ → ℕ) (t c k u : ℕ)
    → t < page_bytes
    → t + c ≤ page_bytes
    → u ≡ (t + c) % page_bytes
    → window page t (c + k) ≡ read_bytes c t page ++ window page u k
unfolding window read_bytes
window-split page t zero k u h l e =
    let z : 0 + k ≡ k = omega arith in let q : u ≡ t = omega arith in rw (z, q)
window-split page t (suc zero) k u h l e =
    let z : suc 0 + k ≡ suc k = omega arith in
    let q : u ≡ (t + 1) % page_bytes = omega arith in rw (z, q)
window-split page t (suc (suc c)) k u h l e =
    let z : suc (suc c) + k ≡ suc (suc c + k) = omega arith in
    let q : (t + 1) % page_bytes ≡ t + 1 = omega arith in
    rw (z, q)
      (ap (λ r. page t ∷ r)
        (window-split page (t + 1) (suc c) k u (omega arith) (omega arith) (omega arith)))

-- A byte written just past a window extends it.
window-snoc :
    (page : ℕ → ℕ) (x t n i : ℕ)
    → t < page_bytes
    → suc n < page_bytes
    → i ≡ (t + n) % page_bytes
    → window (update page i x) t (suc n) ≡ window page t n ++ (x ∷ [])
unfolding window
window-snoc page x t zero i h l e = let q : i ≡ t = omega arith in ground (arith, q)
window-snoc page x t (suc n) i h l e =
    let ne : ¬ (t ≡ i) = omega arith in
    ap₂ ◌∷◌ (update_ne page i t x ne)
      (window-snoc page x ((t + 1) % page_bytes) n i (omega arith) (omega arith) (omega arith))

-- So do several, up to the end of the page.
pub window-write :
    (xs : List ℕ) (page : ℕ → ℕ) (t n i : ℕ)
    → t < page_bytes
    → n + length xs < page_bytes
    → i ≡ (t + n) % page_bytes
    → i + length xs ≤ page_bytes
    → window (write_bytes xs i page) t (n + length xs) ≡ window page t n ++ xs
unfolding write_bytes
window-write [] page t n i h l e f = let z : n + 0 ≡ n = omega arith in rw (z, append-nil)
window-write (x ∷ []) page t n i h l e f =
    let z : n + 1 ≡ suc n = omega arith in rw z (window-snoc page x t n i h (omega arith) e)
window-write (x ∷ y ∷ xs) page t n i h l e f =
    let z : n + suc (suc (length xs)) ≡ suc n + suc (length xs) = omega arith in
    rw z (
      window-write (y ∷ xs) (update page i x) t (suc n) (i + 1) h (omega arith) (omega arith)
        (omega arith)
      ∙ rw (window-snoc page x t n i h (omega arith) e, append_assoc))
