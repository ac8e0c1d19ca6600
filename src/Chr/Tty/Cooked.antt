-- ===== src/Chr/Tty/Cooked.antt =====
-- `copy_to_cooked` against an editor of lists.
use linux_0_11_notes.Prelude.{
  Bool-cases, List, Option-cases, [], ap, ap₂, arith, false, if◌then◌else◌, inl, inr, none, refl,
  some, subst, suc, sym, true, zero, ℕ, ◌%◌, ◌&&◌, ◌++◌, ◌+◌, ◌^◌, ◌||◌, ◌∙◌, ◌∷◌, ◌≡◌, ◌≤◌, ◌⊎◌,
}
use linux_0_11_notes.Chr.Queue.{Queue, chars, getch, is_empty, is_full, next_char, putch}
use linux_0_11_notes.Chr.Queue.Ring.{
  IsQueue, bytes, bytes-getch, bytes-putch, getch-IsQueue, putch-IsQueue, unput-IsQueue,
}
use linux_0_11_notes.Chr.Tty.{
  Driver, Line, Termios, Tty, cook, cook_all, copy_to_cooked, ends_line, enter, erase_char,
  handle_char, is_cc, kill_line, line_empty, map_input, rub_out, verase, vintr, vkill, vquit,
  vstart, vstop,
}
use linux_0_11_notes.Chr.Tty.Editing.{
  IsQuiet, erase_char-bytes, erase_last, kill_last, kill_line-bytes, rub_out-keeps,
}

-- What a character that is left does to the finished input.
unfoldable pub edit_line : Termios → ℕ → List ℕ → List ℕ
edit_line o c xs =
    if o.icanon && is_cc o vkill c
    then kill_last (ends_line o) xs
    else if o.icanon && is_cc o verase c
    then erase_last (ends_line o) xs
    else if o.icanon && (is_cc o vstop c || is_cc o vstart c)
    then xs
    else if o.isig && (is_cc o vintr c || is_cc o vquit c)
    then xs
    else xs ++ (c ∷ [])

unfoldable pub edit : Driver → Termios → ℕ → List ℕ → List ℕ
edit drv o c xs = elim (map_input drv o c) [ none ↦ xs | some d ↦ edit_line o d xs ]

unfoldable pub edit_all : Driver → Termios → List ℕ → List ℕ → List ℕ
edit_all drv o [] xs = xs
edit_all drv o (c ∷ cs) xs = edit_all drv o cs (edit drv o c xs)

-- What stays as it is while the input is edited, and how.
pub record IsEdited (l l' : Line) (xs : List ℕ) : Type 0 where
  pub edited : bytes l'.tty.secondary ≡ xs
  pub valid : IsQueue l'.tty.secondary
  pub same_termios : l'.tty.termios ≡ l.tty.termios
  pub same_input : l'.tty.read_q ≡ l.tty.read_q

kill_line-keeps :
    (n : ℕ) (drv : Driver) (l : Line)
    → IsQuiet drv
    → IsQueue l.tty.secondary
    → IsQueue (kill_line n drv l).tty.secondary
      × ((kill_line n drv l).tty.termios ≡ l.tty.termios)
      × ((kill_line n drv l).tty.read_q ≡ l.tty.read_q)
unfolding kill_line
kill_line-keeps zero drv l quiet v = (v, refl, refl)
kill_line-keeps (suc n) drv l quiet v = elim (Bool-cases (line_empty l.tty)) [
  | inl e ↦ rw e (v, refl, refl)
  | inr e ↦
      let (k, o, r) = rub_out-keeps drv l quiet in
      let (v', o', r') =
        kill_line-keeps n drv (rub_out drv l) quiet
          (subst IsQueue (sym k) (unput-IsQueue l.tty.secondary v)) in
      rw e (v', o' ∙ o, r' ∙ r)
]

erase_char-keeps :
    (drv : Driver) (l : Line)
    → IsQuiet drv
    → IsQueue l.tty.secondary
    → IsQueue (erase_char drv l).tty.secondary
      × ((erase_char drv l).tty.termios ≡ l.tty.termios)
      × ((erase_char drv l).tty.read_q ≡ l.tty.read_q)
unfolding erase_char
erase_char-keeps drv l quiet v = elim (Bool-cases (line_empty l.tty)) [
  | inl e ↦ rw e (v, refl, refl)
  | inr e ↦
      let (k, o, r) = rub_out-keeps drv l quiet in
      rw e (subst IsQueue (sym k) (unput-IsQueue l.tty.secondary v), o, r)
]

-- The finished input with its lines counted, before the character comes in.
abbrev pub counted_queue : ℕ → Tty → Queue
counted_queue c t = record t.secondary {
  data_count =
      if ends_line t.termios c
      then (t.secondary.data_count + 1) % 2 ^ 32
      else t.secondary.data_count;
}

pub enter-keeps :
    (drv : Driver) (c : ℕ) (l : Line)
    → IsQuiet drv
    → ((enter drv c l).tty.secondary ≡ putch c (counted_queue c l.tty))
      × ((enter drv c l).tty.termios ≡ l.tty.termios)
      × ((enter drv c l).tty.read_q ≡ l.tty.read_q)
unfolding enter
enter-keeps drv c l quiet = elim (Bool-cases l.tty.termios.echo) [
  | inl e ↦ rw e (ap (putch c) (quiet.secondary _), quiet.termios _, quiet.read_q _)
  | inr e ↦ rw e (refl, refl, refl)
]

putch-bytes :
    (c : ℕ) (t : Tty)
    → IsQueue t.secondary
    → is_full t.secondary ≡ false
    → bytes (putch c (counted_queue c t)) ≡ bytes t.secondary ++ (c ∷ [])
unfolding bytes
putch-bytes c t v space = bytes-putch c t.secondary v space

enter-bytes :
    (drv : Driver) (c : ℕ) (l : Line)
    → IsQuiet drv
    → IsQueue l.tty.secondary
    → is_full l.tty.secondary ≡ false
    → bytes (enter drv c l).tty.secondary ≡ bytes l.tty.secondary ++ (c ∷ [])
enter-bytes drv c l quiet v space =
    ap bytes (enter-keeps drv c l quiet).0 ∙ putch-bytes c l.tty v space

enter-IsQueue :
    (drv : Driver) (c : ℕ) (l : Line)
    → IsQuiet drv
    → IsQueue l.tty.secondary
    → IsQueue (enter drv c l).tty.secondary
enter-IsQueue drv c l quiet v =
    let w : IsQueue (putch c (counted_queue c l.tty)) = record {
      head_in = (putch-IsQueue c l.tty.secondary v).head_in;
      tail_in = v.tail_in;
    } in
    subst IsQueue (sym (enter-keeps drv c l quiet).0) w

-- The characters that are not editing.
handle_rest-IsEdited :
    (drv : Driver) (c : ℕ) (l : Line)
    → IsQuiet drv
    → IsQueue l.tty.secondary
    → is_full l.tty.secondary ≡ false
    → (l.tty.termios.icanon && is_cc l.tty.termios vkill c) ≡ false
    → (l.tty.termios.icanon && is_cc l.tty.termios verase c) ≡ false
    → IsEdited l (handle_char drv c l) (edit_line l.tty.termios c (bytes l.tty.secondary))
unfolding handle_char edit_line
handle_rest-IsEdited drv c l quiet v space e e1 = record {
  edited = ground (arith, enter-bytes drv c l quiet v space);
  valid = ground (arith, enter-IsQueue drv c l quiet v);
  same_termios = ground (arith, enter-keeps drv c l quiet);
  same_input = ground (arith, enter-keeps drv c l quiet);
}

handle_char-IsEdited :
    (drv : Driver) (c : ℕ) (l : Line)
    → IsQuiet drv
    → IsQueue l.tty.secondary
    → is_full l.tty.secondary ≡ false
    → IsEdited l (handle_char drv c l) (edit_line l.tty.termios c (bytes l.tty.secondary))
unfolding handle_char edit_line
handle_char-IsEdited drv c l quiet v space =
    let o : Termios = l.tty.termios in
    elim (Bool-cases (o.icanon && is_cc o vkill c)) [
      | inl e ↦
          let (k, t, r) = kill_line-keeps (chars l.tty.secondary) drv l quiet v in
          rw e (record {
            edited = kill_line-bytes (chars l.tty.secondary) drv l quiet v (omega arith);
            valid = k;
            same_termios = t;
            same_input = r;
          })
      | inr e ↦ elim (Bool-cases (o.icanon && is_cc o verase c)) [
        | inl e1 ↦
            let (k, t, r) = erase_char-keeps drv l quiet v in
            rw (e, e1)
              (record {
                edited = erase_char-bytes drv l quiet v;
                valid = k;
                same_termios = t;
                same_input = r;
              })
        | inr e1 ↦ handle_rest-IsEdited drv c l quiet v space e e1
      ]
    ]

pub cook-IsEdited :
    (drv : Driver) (l : Line)
    → IsQuiet drv
    → IsQueue l.tty.secondary
    → is_full l.tty.secondary ≡ false
    → IsEdited
        (record l { tty = record l.tty { read_q = getch l.tty.read_q } })
        (cook drv l)
        (edit drv l.tty.termios (next_char l.tty.read_q) (bytes l.tty.secondary))
unfolding cook edit
cook-IsEdited drv l quiet v space =
    let t : Tty = record l.tty { read_q = getch l.tty.read_q } in
    elim (Option-cases (map_input drv l.tty.termios (next_char l.tty.read_q))) [
      | inl e ↦
          rw (cook, edit, e)
            (record { edited = refl; valid = v; same_termios = refl; same_input = refl })
      | inr (c, e) ↦
          rw (cook, edit, e) (handle_char-IsEdited drv c (record l { tty = t }) quiet v space)
    ]

-- What a run of `copy_to_cooked` has done when it ends: the characters that it took, in order, have
-- edited the finished input, and it stopped only for want of input or of room.
pub record IsCooked (drv : Driver) (l l' : Line) : Type 0 where
  pub taken : List ℕ
  pub input : bytes l.tty.read_q ≡ taken ++ bytes l'.tty.read_q
  pub output : bytes l'.tty.secondary ≡ edit_all drv l.tty.termios taken (bytes l.tty.secondary)
  pub stop : (is_empty l'.tty.read_q ≡ true) ⊎ (is_full l'.tty.secondary ≡ true)

cook_all-IsCooked :
    (n : ℕ) (drv : Driver) (l : Line)
    → IsQuiet drv
    → IsQueue l.tty.read_q
    → IsQueue l.tty.secondary
    → chars l.tty.read_q ≤ n
    → IsCooked drv l (cook_all n drv l)
unfolding cook_all edit_all
cook_all-IsCooked zero drv l quiet r v h = record {
  taken = [];
  input = refl;
  output = refl;
  stop = inl (ground arith);
}
cook_all-IsCooked (suc n) drv l quiet r v h =
    elim (Bool-cases (is_empty l.tty.read_q || is_full l.tty.secondary)) [
      | inl e ↦ rw e (record { taken = []; input = refl; output = refl; stop = ground arith })
      | inr e ↦
          let i = cook-IsEdited drv l quiet v (ground arith) in
          let some_input : is_empty l.tty.read_q ≡ false = ground arith in
          let r' : IsQueue (cook drv l).tty.read_q =
            subst IsQueue (sym i.same_input) (getch-IsQueue l.tty.read_q r) in
          let small : chars (getch l.tty.read_q) ≤ n =
            (let ne : ¬ (l.tty.read_q.head ≡ l.tty.read_q.tail) = ground arith in omega arith) in
          let k =
            cook_all-IsCooked n drv (cook drv l) quiet r' i.valid
              (subst (λ q. chars q ≤ n) (sym i.same_input) small) in
          rw e (record {
            taken = next_char l.tty.read_q ∷ k.taken;
            input =
                bytes-getch l.tty.read_q r some_input
                ∙ ap (λ xs. next_char l.tty.read_q ∷ xs) (ap bytes (sym i.same_input) ∙ k.input);
            output = k.output ∙ ap₂ (λ o xs. edit_all drv o k.taken xs) i.same_termios i.edited;
            stop = k.stop;
          })
    ]

-- On a terminal whose driver answers nothing (what it writes leaves the read queue, the finished input
-- and the flags as they are, as the serial line does, and the console while no answer to ESC Z is due),
-- `copy_to_cooked` takes characters from the front of the read queue and edits the finished input with
-- each of them in turn; it ends when there is none left or the finished input is full.
pub copy_to_cooked-IsCooked :
    (drv : Driver) (l : Line)
    → IsQuiet drv
    → IsQueue l.tty.read_q
    → IsQueue l.tty.secondary
    → IsCooked drv l (copy_to_cooked drv l)
unfolding copy_to_cooked
copy_to_cooked-IsCooked drv l quiet r v =
    cook_all-IsCooked (chars l.tty.read_q) drv l quiet r v (omega arith)
