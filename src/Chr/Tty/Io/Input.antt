-- ===== src/Chr/Tty/Io/Input.antt =====
-- What comes from the finished input.
use linux_0_11_notes.Prelude.{
  Bool, Bool-cases, List, [], ap, append-nil, append_assoc, arith, false, inl, inr, length, refl,
  suc, sym, true, zero, ℕ, ◌&&◌, ◌++◌, ◌∙◌, ◌∷◌, ◌≡◌, ◌≤◌, ◌⊎◌,
}
use linux_0_11_notes.Chr.Queue.{Queue, is_empty, next_char}
use linux_0_11_notes.Chr.Queue.Ring.{IsQueue, bytes, bytes-getch, getch-IsQueue, length-bytes}
use linux_0_11_notes.Chr.Tty.{Termios, ends_line, is_cc, veof}
use linux_0_11_notes.Chr.Tty.Io.{get_line_char, take_bytes}
use linux_0_11_notes.Chr.Tty.Lines.{number, number_le}

-- What a run of the `do` loop has done: the bytes that it took off the queue are those that it
-- read, none of them EOF_CHAR in canonical mode, and EOF_CHAR if that ended it.
pub record IsTaken (n : ℕ) (o : Termios) (out : List ℕ) (q : Queue) (r : Bool × List ℕ × Queue)
    : Type 0 where
  pub taken : List ℕ
  pub eof : List ℕ
  pub reads : r.1 ≡ out ++ taken
  pub order : bytes q ≡ taken ++ (eof ++ bytes r.2)
  pub number_read : length taken ≤ n
  pub at_eof : r.0 ≡ true → (c : ℕ) × (o.icanon ≡ true) × (eof ≡ c ∷ []) × (is_cc o veof c ≡ true)
  pub no_eof : o.icanon ≡ true → number (is_cc o veof) taken ≡ 0
  pub else_none : r.0 ≡ false → (eof ≡ []) × ((length taken ≡ n) ⊎ (is_empty r.2 ≡ true))
  pub valid : IsQueue r.2
  pub lined : r.2.data_count ≡ number (ends_line o) (bytes r.2)

get_line_char-lined :
    (o : Termios) (q : Queue)
    → IsQueue q
    → is_empty q ≡ false
    → q.data_count ≡ number (ends_line o) (bytes q)
    → (get_line_char o q).data_count ≡ number (ends_line o) (bytes (get_line_char o q))
unfolding number bytes
get_line_char-lined o q v e h =
    ground (arith, bytes-getch q v e, number_le (ends_line o) (bytes q), length-bytes q)

IsTaken-turn :
    (n c : ℕ) (o : Termios) (out : List ℕ) (q q' : Queue) (r : Bool × List ℕ × Queue)
    → is_cc o veof c && o.icanon ≡ false
    → bytes q ≡ c ∷ bytes q'
    → IsTaken n o (out ++ (c ∷ [])) q' r
    → IsTaken (suc n) o out q r
unfolding number
IsTaken-turn n c o out q q' r k e i = record {
  taken = c ∷ i.taken;
  eof = i.eof;
  reads = i.reads ∙ append_assoc out (c ∷ []) i.taken;
  order = e ∙ ap (λ xs. c ∷ xs) i.order;
  number_read = omega (arith, i.number_read);
  at_eof = i.at_eof;
  no_eof = λ h. ground (arith, i.no_eof h);
  else_none = λ h. ground (arith, i.else_none h);
  valid = i.valid;
  lined = i.lined;
}

get_line_char-bytes :
    (o : Termios) (q : Queue)
    → IsQueue q
    → is_empty q ≡ false
    → bytes q ≡ next_char q ∷ bytes (get_line_char o q)
unfolding bytes
get_line_char-bytes o q v e = bytes-getch q v e

get_line_char-IsQueue : (o : Termios) (q : Queue) → IsQueue q → IsQueue (get_line_char o q)
get_line_char-IsQueue o q v = record { head_in = v.head_in; tail_in = (getch-IsQueue q v).tail_in }

-- The `do` loop of `tty_read` takes bytes from the front of the finished input, in order, at most as
-- many as were asked for. In canonical mode it ends at the first EOF_CHAR, which it takes too but does
-- not pass on; otherwise it ends when it has them all or the queue is empty. The count of finished lines stays right.
pub take_bytes-IsTaken :
    (n : ℕ) (o : Termios) (out : List ℕ) (q : Queue)
    → IsQueue q
    → is_empty q ≡ false
    → q.data_count ≡ number (ends_line o) (bytes q)
    → IsTaken n o out q (take_bytes n o out q)
unfolding take_bytes number
take_bytes-IsTaken zero o out q v e d = record {
  taken = [];
  eof = [];
  reads = sym (append-nil out);
  order = refl;
  number_read = omega arith;
  at_eof = λ h. absurd (ground arith);
  no_eof = λ h. refl;
  else_none = λ h. (refl, inl refl);
  valid = v;
  lined = d;
}
take_bytes-IsTaken (suc n) o out q v e d =
    let c : ℕ = next_char q in
    let q' : Queue = get_line_char o q in
    let b = get_line_char-bytes o q v e in
    let v' = get_line_char-IsQueue o q v in
    let d' = get_line_char-lined o q v e d in
    elim (Bool-cases (is_cc o veof c && o.icanon)) [
      | inl k ↦ rw k (record {
        taken = [];
        eof = c ∷ [];
        reads = sym (append-nil out);
        order = b;
        number_read = omega arith;
        at_eof = λ h. (c, ground arith, refl, ground arith);
        no_eof = λ h. refl;
        else_none = λ h. absurd (ground arith);
        valid = v';
        lined = d';
      })
      | inr k ↦ elim (Bool-cases (is_empty q')) [
        | inl m ↦
            rw (k, m)
              (record {
                taken = c ∷ [];
                eof = [];
                reads = refl;
                order = b;
                number_read = omega arith;
                at_eof = λ h. absurd (ground arith);
                no_eof = λ h. ground arith;
                else_none = λ h. (refl, inr m);
                valid = v';
                lined = d';
              })
        | inr m ↦
            rw (k, m)
              (IsTaken-turn n c o out q q' _ k b
                (take_bytes-IsTaken n o (out ++ (c ∷ [])) q' v' m d'))
      ]
    ]
