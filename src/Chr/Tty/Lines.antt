-- ===== src/Chr/Tty/Lines.antt =====
-- `secondary.data` counts the finished lines of the queue.
use linux_0_11_notes.Prelude.{
  Bool, List, Option-cases, [], ap, ap₂, arith, false, if◌then◌else◌, inl, inr, length, refl, suc,
  sym, zero, ℕ, ◌++◌, ◌+◌, ◌∙◌, ◌∷◌, ◌≡◌, ◌≤◌,
}
use linux_0_11_notes.Chr.Queue.{Queue, chars, getch, is_full, next_char}
use linux_0_11_notes.Chr.Queue.Ring.{IsQueue, bytes, length-bytes}
use linux_0_11_notes.Chr.Tty.{
  Driver, Line, Termios, Tty, cook, ends_line, enter, erase_char, handle_char, kill_line, map_input,
  rub_out,
}
use linux_0_11_notes.Chr.Tty.Cooked.{edit, cook-IsEdited, edit_line, enter-keeps}
use linux_0_11_notes.Chr.Tty.Editing.{IsQuiet, erase_last, has_stop, kill_last, rub_out-keeps}

unfoldable pub number : (ℕ → Bool) → List ℕ → ℕ
number stops [] = 0
number stops (x ∷ xs) = (if stops x then 1 else 0) + number stops xs

number-append :
    (stops : ℕ → Bool) (xs ys : List ℕ)
    → number stops (xs ++ ys) ≡ number stops xs + number stops ys
unfolding number
number-append stops [] ys = omega arith
number-append stops (x ∷ xs) ys = omega (arith, number-append stops xs ys)

number-erase_last :
    (stops : ℕ → Bool) (xs : List ℕ) → number stops (erase_last stops xs) ≡ number stops xs
unfolding number erase_last
number-erase_last stops [] = refl
number-erase_last stops (x ∷ []) = ground arith
number-erase_last stops (x ∷ y ∷ xs) = ground (arith, number-erase_last stops (y ∷ xs))

number_no_stop : (stops : ℕ → Bool) (xs : List ℕ) → has_stop stops xs ≡ false → number stops xs ≡ 0
unfolding number has_stop
number_no_stop stops [] h = refl
number_no_stop stops (x ∷ xs) h = ground (arith, number_no_stop stops xs)

number-kill_last :
    (stops : ℕ → Bool) (xs : List ℕ) → number stops (kill_last stops xs) ≡ number stops xs
unfolding number kill_last has_stop
number-kill_last stops [] = refl
number-kill_last stops (x ∷ xs) =
    ground (arith, number-kill_last stops xs, number_no_stop stops (x ∷ xs))

pub number_le : (stops : ℕ → Bool) (xs : List ℕ) → number stops xs ≤ length xs
unfolding number
number_le stops [] = omega arith
number_le stops (x ∷ xs) = ground (arith, number_le stops xs)

abbrev pub IsLined : Tty → Type 0
IsLined t = t.secondary.data_count ≡ number (ends_line t.termios) (bytes t.secondary)

rub_out-count :
    (drv : Driver) (l : Line)
    → IsQuiet drv
    → (rub_out drv l).tty.secondary.data_count ≡ l.tty.secondary.data_count
rub_out-count drv l quiet = ap (λ (q : Queue). q.data_count) (rub_out-keeps drv l quiet).0

kill_line-count :
    (n : ℕ) (drv : Driver) (l : Line)
    → IsQuiet drv
    → (kill_line n drv l).tty.secondary.data_count ≡ l.tty.secondary.data_count
unfolding kill_line
kill_line-count zero drv l quiet = refl
kill_line-count (suc n) drv l quiet =
    ground (arith, kill_line-count n drv (rub_out drv l) quiet, rub_out-count drv l quiet)

erase_char-count :
    (drv : Driver) (l : Line)
    → IsQuiet drv
    → (erase_char drv l).tty.secondary.data_count ≡ l.tty.secondary.data_count
unfolding erase_char
erase_char-count drv l quiet = ground (arith, rub_out-count drv l quiet)

enter-IsLined :
    (drv : Driver) (c : ℕ) (l : Line)
    → IsQuiet drv
    → IsQueue l.tty.secondary
    → is_full l.tty.secondary ≡ false
    → IsLined l.tty
    → (enter drv c l).tty.secondary.data_count
      ≡ number (ends_line l.tty.termios) (bytes l.tty.secondary ++ (c ∷ []))
unfolding number
enter-IsLined drv c l quiet v space h = ground (
  arith,
  ap (λ (q : Queue). q.data_count) (enter-keeps drv c l quiet).0,
  number-append (ends_line l.tty.termios) (bytes l.tty.secondary) (c ∷ []),
  number_le (ends_line l.tty.termios) (bytes l.tty.secondary),
  length-bytes l.tty.secondary,
)

handle_char-count :
    (drv : Driver) (c : ℕ) (l : Line)
    → IsQuiet drv
    → IsQueue l.tty.secondary
    → is_full l.tty.secondary ≡ false
    → IsLined l.tty
    → (handle_char drv c l).tty.secondary.data_count
      ≡ number (ends_line l.tty.termios) (edit_line l.tty.termios c (bytes l.tty.secondary))
unfolding handle_char edit_line
handle_char-count drv c l quiet v space h = ground (
  arith,
  enter-IsLined drv c l quiet v space h,
  erase_char-count drv l quiet,
  kill_line-count (chars l.tty.secondary) drv l quiet,
  number-erase_last (ends_line l.tty.termios) (bytes l.tty.secondary),
  number-kill_last (ends_line l.tty.termios) (bytes l.tty.secondary),
)

-- While it has room, and the driver answers nothing, `secondary.data` is the number of finished lines in the queue, before a
-- character is handled and after it: editing never removes the end of a line.
pub cook-IsLined :
    (drv : Driver) (l : Line)
    → IsQuiet drv
    → IsQueue l.tty.secondary
    → is_full l.tty.secondary ≡ false
    → IsLined l.tty
    → IsLined (cook drv l).tty
unfolding cook edit
cook-IsLined drv l quiet v space h =
    let i = cook-IsEdited drv l quiet v space in
    let o : Termios = l.tty.termios in
    let t : Tty = record l.tty { read_q = getch l.tty.read_q } in
    let n : (cook drv l).tty.secondary.data_count
        ≡ number (ends_line o) (edit drv o (next_char l.tty.read_q) (bytes l.tty.secondary)) =
      elim (Option-cases (map_input drv o (next_char l.tty.read_q))) [
        | inl e ↦ rw (cook, edit, e) h
        | inr (c, e) ↦
            rw (cook, edit, e) (handle_char-count drv c (record l { tty = t }) quiet v space h)
      ] in
    n ∙ sym (ap₂ (λ o xs. number (ends_line o) xs) i.same_termios i.edited)
