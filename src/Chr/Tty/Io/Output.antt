-- ===== src/Chr/Tty/Io/Output.antt =====
-- What goes to the write queue.
use linux_0_11_notes.Prelude.{
  Bool, Bool-cases, List, [], ap, append_assoc, arith, false, if◌then◌else◌, inl, inr, length, not,
  refl, suc, sym, true, zero, ℕ, ◌&&◌, ◌++◌, ◌∙◌, ◌∷◌, ◌≡◌, ◌≤◌, ◌⊎◌,
}
use linux_0_11_notes.Chr.Queue.{Queue, is_full, left, putch}
use linux_0_11_notes.Chr.Queue.Ring.{IsQueue, bytes, bytes-putch, putch-IsQueue}
use linux_0_11_notes.Chr.Tty.{Driver, Termios}
use linux_0_11_notes.Chr.Tty.Io.{fill, needs_return, post_case}

-- The bytes that the characters stand for; `cr` says that a return has gone out for the first.
unfoldable pub posted : Driver → Termios → Bool → List ℕ → List ℕ
posted drv o cr [] = []
posted drv o cr (c ∷ cs) =
    let rest = post_case drv o c ∷ posted drv o false cs in
    if needs_return o c && not cr then 13 ∷ rest else rest

-- What a run of the inner loop has done.
pub record IsFilled (drv : Driver) (o : Termios) (src : List ℕ) (cr : Bool) (q : Queue)
    (r : List ℕ × Bool × Queue) : Type 0 where
  pub order : bytes r.2 ++ posted drv o r.1 r.0 ≡ bytes q ++ posted drv o cr src
  pub valid : IsQueue r.2
  pub stop : (length r.0 ≡ 0) ⊎ (is_full r.2 ≡ true)

IsFilled-putch :
    (drv : Driver) (o : Termios) (src src' : List ℕ) (cr cr' : Bool) (x : ℕ) (q : Queue)
    (r : List ℕ × Bool × Queue)
    → IsQueue q
    → is_full q ≡ false
    → posted drv o cr src ≡ x ∷ posted drv o cr' src'
    → IsFilled drv o src' cr' (putch x q) r
    → IsFilled drv o src cr q r
IsFilled-putch drv o src src' cr cr' x q r v space e i = record {
  order =
      i.order
      ∙ ap (λ xs. xs ++ posted drv o cr' src') (bytes-putch x q v space)
      ∙ append_assoc (bytes q) (x ∷ []) (posted drv o cr' src')
      ∙ ap (λ xs. bytes q ++ xs) (sym e);
  valid = i.valid;
  stop = i.stop;
}

-- The inner loop of `tty_write` puts the bytes that its characters stand for into the queue, in
-- order: what is in the queue and what is still to come together stay the same, also where the loop
-- stops between a return and its newline. It stops only when there is no character left or the
-- queue is full.
fill-IsFilled :
    (n : ℕ) (drv : Driver) (o : Termios) (src : List ℕ) (cr : Bool) (q : Queue)
    → IsQueue q
    → left q ≤ n
    → IsFilled drv o src cr q (fill n drv o src cr q)
unfolding fill posted
fill-IsFilled zero drv o src cr q v h = record {
  order = refl;
  valid = v;
  stop = inr (ground arith);
}
fill-IsFilled (suc n) drv o [] cr q v h = record { order = refl; valid = v; stop = inl refl }
fill-IsFilled (suc n) drv o (c ∷ cs) cr q v h = elim (Bool-cases (is_full q)) [
  | inl e ↦ rw e (record { order = refl; valid = v; stop = inr e })
  | inr e ↦
      let small : left (putch 0 q) ≤ n = ground arith in
      elim (Bool-cases (needs_return o c && not cr)) [
        | inl k ↦
            rw (e, k)
              (IsFilled-putch drv o (c ∷ cs) (c ∷ cs) cr true 13 q _ v e (ground arith)
                (fill-IsFilled n drv o (c ∷ cs) true (putch 13 q) (putch-IsQueue 13 q v) small))
        | inr k ↦
            rw (e, k)
              (IsFilled-putch drv o (c ∷ cs) cs cr false (post_case drv o c) q _ v e (ground arith)
                (fill-IsFilled n drv o cs false (putch (post_case drv o c) q)
                  (putch-IsQueue (post_case drv o c) q v) small))
      ]
]
