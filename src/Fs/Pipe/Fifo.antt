-- ===== src/Fs/Pipe/Fifo.antt =====
-- A pipe is a queue of at most 4095 bytes.
use linux_0_11_notes.Prelude.{
  Bool-cases, List, [], ap, append_assoc, arith, drop, inl, inr, length, length-append, length-drop,
  length-take, min, refl, suc, sym, take, take-append-drop, zero, ℕ, ◌%◌, ◌++◌, ◌+◌, ◌-◌, ◌<◌, ◌==◌,
  ◌||◌, ◌∙◌, ◌∷◌, ◌≡◌, ◌≢◌, ◌≤◌, ◌⊎◌,
}
use linux_0_11_notes.Fs.Pipe.{
  Pipe, advance_tail, got, page_bytes, pipe_size, put_chunk, read_bytes, read_chars, read_pipe,
  read_ready, room, write_bytes, write_chars, write_ready,
}
use linux_0_11_notes.Fs.Pipe.Window.{length-window, window, window-split, window-write}

pub record IsValid (p : Pipe) : Type 0 where
  pub head_in : p.head < page_bytes
  pub tail_in : p.tail < page_bytes

unfoldable pub contents : Pipe → List ℕ
unfolding window
contents p = window p.page p.tail (pipe_size p)

length-contents : (p : Pipe) → length (contents p) ≡ pipe_size p
unfolding contents
length-contents p = length-window p.page p.tail (pipe_size p)

advance-size :
    (n : ℕ) (p : Pipe)
    → IsValid p
    → n ≤ pipe_size p
    → pipe_size (advance_tail n p) ≡ pipe_size p - n
advance-size n p v h = omega arith

read_chunk :
    (n : ℕ) (p : Pipe)
    → IsValid p
    → n ≤ pipe_size p
    → p.tail + n ≤ page_bytes
    → contents p ≡ read_bytes n p.tail p.page ++ contents (advance_tail n p)
unfolding contents
read_chunk n p v h k =
    let e : pipe_size p ≡ n + pipe_size (advance_tail n p) = omega (arith, advance-size n p v h) in
    ap (window p.page p.tail) e
    ∙ window-split p.page p.tail n (pipe_size (advance_tail n p)) ((p.tail + n) % page_bytes)
        v.tail_in k refl

length-read_bytes : (n i : ℕ) (page : ℕ → ℕ) → length (read_bytes n i page) ≡ n
unfolding read_bytes
length-read_bytes zero i page = refl
length-read_bytes (suc n) i page = ap suc (length-read_bytes n (i + 1) page)

-- What a reader has when it has to stop, given what it had before.
pub record IsRead (count : ℕ) (p : Pipe) (out : List ℕ) (r : ℕ × Pipe × List ℕ) : Type 0 where
  pub order : r.2 ++ contents r.1 ≡ out ++ contents p
  pub number : length r.2 + r.0 ≡ length out + count
  pub valid : IsValid r.1
  pub users : r.1.users ≡ p.users

IsRead-stop : (count : ℕ) (p : Pipe) (out : List ℕ) → IsValid p → IsRead count p out (count, p, out)
IsRead-stop count p out v = record { order = refl; number = refl; valid = v; users = refl }

-- One turn and what follows.
IsRead-turn :
    (count n : ℕ) (p : Pipe) (out : List ℕ) (r : ℕ × Pipe × List ℕ)
    → IsValid p
    → n ≤ count
    → n ≤ pipe_size p
    → p.tail + n ≤ page_bytes
    → IsRead (count - n) (advance_tail n p) (out ++ read_bytes n p.tail p.page) r
    → IsRead count p out r
IsRead-turn count n p out r v c s t i = record {
  order =
      i.order
      ∙ append_assoc out (read_bytes n p.tail p.page) (contents (advance_tail n p))
      ∙ ap (λ x. out ++ x) (sym (read_chunk n p v s t));
  number = omega (
    arith,
    i.number,
    length-append out (read_bytes n p.tail p.page),
    length-read_bytes n p.tail p.page,
  );
  valid = i.valid;
  users = i.users;
}

-- A reader takes bytes from the front, in order, and no more than it asked for; with as many turns
-- as bytes it stops only when it has all of them or the pipe is empty.
pub read_ready-IsRead :
    (fuel count : ℕ) (p : Pipe) (out : List ℕ)
    → IsValid p
    → count ≤ fuel
    → IsRead count p out (read_ready fuel count p out)
      × (((read_ready fuel count p out).0 ≡ 0) ⊎ (pipe_size (read_ready fuel count p out).1 ≡ 0))
unfolding read_ready
read_ready-IsRead zero count p out v h = (IsRead-stop count p out v, inl (omega arith))
read_ready-IsRead (suc fuel) count p out v h = elim (Bool-cases (count == 0 || pipe_size p == 0)) [
  | inl e ↦ rw e (IsRead-stop count p out v, ground arith)
  | inr e ↦
      let n : ℕ = read_chars count p in
      let pos : 0 < n = ground arith in
      let (i, stop) =
        read_ready-IsRead fuel (count - n) (advance_tail n p) (out ++ read_bytes n p.tail p.page)
          (omega arith) (omega arith) in
      rw e (IsRead-turn count n p out _ v (omega arith) (omega arith) (omega arith) i, stop)
]

alone-got :
    (turns : List (Pipe → Pipe)) (count : ℕ) (p : Pipe)
    → (read_ready count count p []).1.users ≢ 2
    → read_pipe turns count p []
      ≡ got (read_ready count count p []).2 (read_ready count count p []).1
unfolding read_pipe
alone-got [] count p h = ground arith
alone-got (others ∷ rest) count p h = ground arith

-- On a valid pipe with no writer at the other end, a call of `read_pipe` returns without waiting,
-- with the first bytes of the pipe, as many as it asked for or all that there are, and leaves the
-- other bytes in the pipe.
pub read_pipe-returns :
    (turns : List (Pipe → Pipe)) (count : ℕ) (p : Pipe)
    → IsValid p
    → p.users ≢ 2
    → (out : List ℕ) × (q : Pipe) × (read_pipe turns count p [] ≡ got out q)
      × (out ++ contents q ≡ contents p)
      × (length out ≡ min count (pipe_size p))
read_pipe-returns turns count p v alone =
    let r = read_ready count count p [] in
    let (i, stop) = read_ready-IsRead count count p [] v (omega arith) in
    let l = length-append r.2 (contents r.1) in
    let m = ap length i.order in
    (
      r.2,
      r.1,
      alone-got turns count p (λ e. alone (sym i.users ∙ e)),
      i.order,
      ground (arith, l, m, stop, i.number, length-contents r.1, length-contents p),
    )

put-size :
    (xs : List ℕ) (p : Pipe)
    → IsValid p
    → length xs ≤ room p
    → pipe_size (put_chunk xs p) ≡ pipe_size p + length xs
put-size xs p v h = omega arith

write_chunk :
    (xs : List ℕ) (p : Pipe)
    → IsValid p
    → length xs ≤ room p
    → p.head + length xs ≤ page_bytes
    → contents (put_chunk xs p) ≡ contents p ++ xs
unfolding contents
write_chunk xs p v h k =
    ap (window (write_bytes xs p.head p.page) p.tail) (put-size xs p v h)
    ∙ window-write xs p.page p.tail (pipe_size p) p.head v.tail_in (omega arith) (omega arith) k

-- What a writer leaves when it has to stop: the bytes that did not go in, and the pipe.
pub record IsWritten (src : List ℕ) (p : Pipe) (r : List ℕ × Pipe) : Type 0 where
  pub order : contents r.1 ++ r.0 ≡ contents p ++ src
  pub number : pipe_size r.1 + length r.0 ≡ pipe_size p + length src
  pub valid : IsValid r.1
  pub users : r.1.users ≡ p.users

IsWritten-turn :
    (n : ℕ) (src : List ℕ) (p : Pipe) (r : List ℕ × Pipe)
    → IsValid p
    → n ≤ length src
    → n ≤ room p
    → p.head + n ≤ page_bytes
    → IsWritten (drop n src) (put_chunk (take n src) p) r
    → IsWritten src p r
IsWritten-turn n src p r v c s t i =
    let l : length (take n src) ≡ n = omega (arith, length-take n src) in
    record {
      order =
          i.order
          ∙ ap (λ x. x ++ drop n src) (write_chunk (take n src) p v (omega arith) (omega arith))
          ∙ append_assoc (contents p) (take n src) (drop n src)
          ∙ ap (λ x. contents p ++ x) (take-append-drop n src);
      number =
          omega (arith, i.number, l, length-drop n src, put-size (take n src) p v (omega arith));
      valid = i.valid;
      users = i.users;
    }

-- A writer appends its bytes in order and never more than fit; with as many turns as bytes it stops
-- only when all are in or the pipe is full.
pub write_ready-IsWritten :
    (fuel : ℕ) (src : List ℕ) (p : Pipe)
    → IsValid p
    → length src ≤ fuel
    → IsWritten src p (write_ready fuel src p)
      × ((length (write_ready fuel src p).0 ≡ 0) ⊎ (room (write_ready fuel src p).1 ≡ 0))
unfolding write_ready
write_ready-IsWritten zero src p v h =
    (record { order = refl; number = refl; valid = v; users = refl }, inl (omega arith))
write_ready-IsWritten (suc fuel) src p v h = elim (Bool-cases (length src == 0 || room p == 0)) [
  | inl e ↦ rw e (record { order = refl; number = refl; valid = v; users = refl }, ground arith)
  | inr e ↦
      let n : ℕ = write_chars (length src) p in
      let pos : 0 < n = ground arith in
      let l : length (take n src) ≡ n = omega (arith, length-take n src) in
      let (i, stop) =
        write_ready-IsWritten fuel (drop n src) (put_chunk (take n src) p)
          (record { head_in = omega arith; tail_in = v.tail_in })
          (omega (arith, length-drop n src)) in
      rw e (IsWritten-turn n src p _ v (omega arith) (omega arith) (omega arith) i, stop)
]
