-- ===== src/Chr/Tty/Editing.antt =====
-- Line editing: what the queue of finished input holds, as a list.
use linux_0_11_notes.Prelude.{
  Bool, Bool-cases, List, [], ap, ap₂, arith, false, if◌then◌else◌, inl, inr, refl, subst, suc, sym,
  true, zero, ℕ, ◌++◌, ◌||◌, ◌∙◌, ◌∷◌, ◌≡◌, ◌≤◌,
}
use linux_0_11_notes.Chr.Queue.{Queue, chars, is_empty, last, unput}
use linux_0_11_notes.Chr.Queue.Ring.{IsQueue, bytes, bytes-unput, bytes_empty, unput-IsQueue}
use linux_0_11_notes.Chr.Tty.{Driver, Line, Termios, ends_line, erase_char, kill_line, rub_out}

-- The line without its last character, and the queue without its last line.
unfoldable pub erase_last : (ℕ → Bool) → List ℕ → List ℕ
erase_last stops [] = []
erase_last stops (x ∷ []) = if stops x then x ∷ [] else []
erase_last stops (x ∷ y ∷ xs) = x ∷ erase_last stops (y ∷ xs)

unfoldable pub has_stop : (ℕ → Bool) → List ℕ → Bool
has_stop stops [] = false
has_stop stops (x ∷ xs) = stops x || has_stop stops xs

unfoldable pub kill_last : (ℕ → Bool) → List ℕ → List ℕ
unfolding has_stop
kill_last stops [] = []
kill_last stops (x ∷ xs) = if has_stop stops (x ∷ xs) then x ∷ kill_last stops xs else []

erase_last-snoc :
    (stops : ℕ → Bool) (xs : List ℕ) (l : ℕ)
    → erase_last stops (xs ++ (l ∷ [])) ≡ (if stops l then xs ++ (l ∷ []) else xs)
unfolding erase_last
erase_last-snoc stops [] l = refl
erase_last-snoc stops (x ∷ []) l = ground arith
erase_last-snoc stops (x ∷ y ∷ xs) l = ground (arith, erase_last-snoc stops (y ∷ xs) l)

has_stop-snoc :
    (stops : ℕ → Bool) (xs : List ℕ) (l : ℕ)
    → has_stop stops (xs ++ (l ∷ [])) ≡ (has_stop stops xs || stops l)
unfolding has_stop
has_stop-snoc stops [] l = ground arith
has_stop-snoc stops (x ∷ xs) l = ground (arith, has_stop-snoc stops xs l)

kill_last_no_stop :
    (stops : ℕ → Bool) (xs : List ℕ) → has_stop stops xs ≡ false → kill_last stops xs ≡ []
unfolding kill_last has_stop
kill_last_no_stop stops [] h = refl
kill_last_no_stop stops (x ∷ xs) h = ground arith

kill_last-snoc :
    (stops : ℕ → Bool) (xs : List ℕ) (l : ℕ)
    → kill_last stops (xs ++ (l ∷ [])) ≡ (if stops l then xs ++ (l ∷ []) else kill_last stops xs)
unfolding kill_last has_stop
kill_last-snoc stops [] l = ground arith
kill_last-snoc stops (x ∷ xs) l =
    ground (arith, has_stop-snoc stops xs l, kill_last-snoc stops xs l, kill_last_no_stop stops xs)

-- A driver that answers nothing: what it writes leaves the input and the flags as they are.
pub record IsQuiet (drv : Driver) : Type 0 where
  pub secondary : (l : Line) → (drv.write l).tty.secondary ≡ l.tty.secondary
  pub read_q : (l : Line) → (drv.write l).tty.read_q ≡ l.tty.read_q
  pub termios : (l : Line) → (drv.write l).tty.termios ≡ l.tty.termios

-- What one turn of the loops over the line leaves.
pub rub_out-keeps :
    (drv : Driver) (l : Line)
    → IsQuiet drv
    → ((rub_out drv l).tty.secondary ≡ unput l.tty.secondary)
      × ((rub_out drv l).tty.termios ≡ l.tty.termios)
      × ((rub_out drv l).tty.read_q ≡ l.tty.read_q)
unfolding rub_out
rub_out-keeps drv l q = elim (Bool-cases l.tty.termios.echo) [
  | inl e ↦ rw e (ap unput (q.secondary _), q.termios _, q.read_q _)
  | inr e ↦ rw e (refl, refl, refl)
]

pub erase_char-bytes :
    (drv : Driver) (l : Line)
    → IsQuiet drv
    → IsQueue l.tty.secondary
    → bytes (erase_char drv l).tty.secondary
      ≡ erase_last (ends_line l.tty.termios) (bytes l.tty.secondary)
unfolding erase_char erase_last
erase_char-bytes drv l quiet v =
    let s : Queue = l.tty.secondary in
    elim (Bool-cases (is_empty s)) [
      | inl e ↦ ground (arith, bytes_empty s e v)
      | inr e ↦ ground (
        arith,
        ap bytes (rub_out-keeps drv l quiet).0,
        bytes-unput s v e,
        erase_last-snoc (ends_line l.tty.termios) (bytes (unput s)) (last s),
      )
    ]

pub kill_line-bytes :
    (n : ℕ) (drv : Driver) (l : Line)
    → IsQuiet drv
    → IsQueue l.tty.secondary
    → chars l.tty.secondary ≤ n
    → bytes (kill_line n drv l).tty.secondary
      ≡ kill_last (ends_line l.tty.termios) (bytes l.tty.secondary)
unfolding kill_line kill_last
kill_line-bytes zero drv l quiet v h =
    let e : is_empty l.tty.secondary ≡ true = ground arith in
    ground (arith, bytes_empty l.tty.secondary e v)
kill_line-bytes (suc n) drv l quiet v h =
    let s : Queue = l.tty.secondary in
    let (k, o, _) = rub_out-keeps drv l quiet in
    elim (Bool-cases (is_empty s)) [
      | inl e ↦ ground (arith, bytes_empty s e v)
      | inr e ↦
          let ne : ¬ (s.head ≡ s.tail) = ground arith in
          let small : chars (unput s) ≤ n = omega arith in
          let rest : bytes (kill_line n drv (rub_out drv l)).tty.secondary
              ≡ kill_last (ends_line l.tty.termios) (bytes (unput s)) =
            kill_line-bytes n drv (rub_out drv l) quiet (subst IsQueue (sym k) (unput-IsQueue s v))
              (subst (λ (q : Queue). chars q ≤ n) (sym k) small)
            ∙ ap₂ (λ (x : Termios) (q : Queue). kill_last (ends_line x) (bytes q)) o k in
          ground (
            arith,
            bytes-unput s v e,
            kill_last-snoc (ends_line l.tty.termios) (bytes (unput s)) (last s),
            rest,
          )
    ]
