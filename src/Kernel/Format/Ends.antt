-- ===== src/Kernel/Format/Ends.antt =====
-- `vsprintf` of kernel/vsprintf.c comes to the end of every format.
use linux_0_11_notes.Prelude.{
  Bool, Bool-cases, List, Option, [], ap, arith, false, if-false, if◌then◌else◌, inl, inr, length,
  ltb, none, refl, some, suc, true, zero, ℕ, ◌%◌, ◌*◌, ◌+◌, ◌-◌, ◌<◌, ◌==◌, ◌^◌, ◌||◌, ◌∷◌, ◌≡◌,
  ◌≤◌,
}
use linux_0_11_notes.Kernel.Format.{
  number, Flags, atoi_from, is_digit, no_flags, number_text, skip_atoi,
}
use linux_0_11_notes.Kernel.Format.Directive.{
  used, Field, Print, convert, directive, for_pointer, format_loop, head, is_flag, put, put_number,
  read_flags, read_number, read_precision, read_width, skip_qualifier, tail, vsprintf, with_flag,
  with_sign, with_small,
}
use linux_0_11_notes.Kernel.Task.{map_option}

length-atoi_from : (i : ℕ) (s : List ℕ) → length (atoi_from i s).1 ≤ length s
unfolding atoi_from
length-atoi_from i [] = omega arith
length-atoi_from i (c ∷ cs) = ground (arith, length-atoi_from ((i * 10 + (c - b'0')) % 2 ^ 32) cs)

length-read_flags : (s : List ℕ) (f : Flags) → length (read_flags s f).1 ≤ length s
unfolding read_flags
length-read_flags [] f = omega arith
length-read_flags (c ∷ cs) f = elim (Bool-cases (is_flag c)) [
  | inl e ↦ rw (read_flags, e) (omega (arith, length-read_flags cs (with_flag c f)))
  | inr e ↦ rw (read_flags, e) (omega arith)
]

length-tail : (s : List ℕ) → length (tail s) ≤ length s
length-tail [] = omega arith
length-tail (c ∷ cs) = omega arith

length-read_number :
    (args : ℕ → ℕ) (s : List ℕ) (p : Print) → length (read_number args s p).1 ≤ length s
unfolding read_number skip_atoi
length-read_number args s p = elim (Bool-cases (is_digit (head s))) [
  | inl e ↦ rw (read_number, e) (length-atoi_from 0 s)
  | inr e ↦ elim (Bool-cases (head s == b'*')) [
    | inl q ↦ rw (read_number, e, q) (omega arith)
    | inr q ↦ rw (read_number, e, q) (omega arith)
  ]
]

length-read_width :
    (args : ℕ → ℕ) (f : Flags) (s : List ℕ) (p : Print)
    → length (read_width args f s p).1 ≤ length s
unfolding read_width
length-read_width args f s p = length-read_number args s p

length-read_precision :
    (args : ℕ → ℕ) (d : Field) (s : List ℕ) (p : Print)
    → length (read_precision args d s p).1 ≤ length s
unfolding read_precision
length-read_precision args d s p = elim (Bool-cases (head s == b'.')) [
  | inl e ↦
      rw (read_precision, e) (omega (arith, length-read_number args (tail s) p, length-tail s))
  | inr e ↦ rw (read_precision, e) (omega arith)
]

length-skip_qualifier : (s : List ℕ) → length (skip_qualifier s) ≤ length s
length-skip_qualifier s =
    let b : Bool = head s == b'h' || head s == b'l' || head s == b'L' in
    elim (Bool-cases b) [ inl e ↦ rw e (length-tail s) | inr e ↦ rw e (omega arith) ]

-- Bases 8, 10 and 16 are taken.
put_number_puts :
    (args : ℕ → ℕ) (base : ℕ) (d : Field) (p : Print)
    → (ltb base 2 || ltb 36 base) ≡ false
    → (q : Print) × (put_number args base d p ≡ some q)
unfolding put_number number
put_number_puts args base d p h =
    let bytes : List ℕ = number_text (args p.next) base d.width d.precision d.flags in
    (
      put bytes (used p),
      ap (map_option (λ (xs : List ℕ). put xs (used p)))
          (if-false (ltb base 2 || ltb 36 base) none (some bytes) h),
    )

-- A choice between two results that are there is there.
either_puts :
    (b : Bool) (x y : Option Print)
    → (q : Print) × (x ≡ some q)
    → (q : Print) × (y ≡ some q)
    → (q : Print) × ((if b then x else y) ≡ some q)
either_puts true x y h g = h
either_puts false x y h g = g

convert_puts :
    (args : ℕ → ℕ) (text : ℕ → List ℕ) (c : ℕ) (d : Field) (p : Print)
    → (q : Print) × (convert args text c d p ≡ some q)
unfolding convert
convert_puts args text c d p =
    either_puts (c == b'c') _ _ (_, refl)
      (either_puts (c == b's') _ _ (_, refl)
        (either_puts (c == b'o') _ _ (put_number_puts args 8 d p refl) (
          either_puts (c == b'p') _ _ (put_number_puts args 16 (for_pointer d) p refl) (
            either_puts (c == b'x') _ _ (put_number_puts args 16 (with_small d) p refl) (
              either_puts (c == b'X') _ _ (put_number_puts args 16 d p refl) (
                either_puts (c == b'd' || c == b'i') _ _
                  (put_number_puts args 10 (with_sign d) p refl)
                  (either_puts (c == b'u') _ _ (put_number_puts args 10 d p refl)
                    (either_puts (c == b'n') _ _ (_, refl) (_, refl)))))))))

-- A directive takes nothing back.
directive_puts :
    (args : ℕ → ℕ) (text : ℕ → List ℕ) (s : List ℕ) (p : Print)
    → (q : Print) × (rest : List ℕ) × (directive args text s p ≡ some (q, rest))
      × (length rest ≤ length s)
unfolding directive
directive_puts args text s p =
    let (f, s1) = read_flags s no_flags in
    let (d1, s2, p1) = read_width args f s1 p in
    let (d2, s3, p2) = read_precision args d1 s2 p1 in
    let s4 : List ℕ = skip_qualifier s3 in
    let (q, e) = convert_puts args text (head s4) d2 p2 in
    (
      q,
      tail s4,
      ap (map_option (λ (p3 : Print). (p3, tail s4))) e,
      omega (
        arith,
        length-read_flags s no_flags,
        length-read_width args f s1 p,
        length-read_precision args d1 s2 p1,
        length-skip_qualifier s3,
        length-tail s4,
      ),
    )

format_loop_ends :
    (fuel : ℕ) (args : ℕ → ℕ) (text : ℕ → List ℕ) (s : List ℕ) (p : Print)
    → length s < fuel
    → (q : Print) × (format_loop fuel args text s p ≡ some q)
unfolding format_loop
format_loop_ends zero args text s p h = absurd (omega arith)
format_loop_ends (suc fuel) args text [] p h = (p, refl)
format_loop_ends (suc fuel) args text (c ∷ s) p h = elim (Bool-cases (c == b'%')) [
  | inl e ↦
      let (p', rest, g, le) = directive_puts args text s p in
      let (q, r) = format_loop_ends fuel args text rest p' (omega arith) in
      (q, rw (format_loop, e, g) r)
  | inr e ↦
      let (q, r) = format_loop_ends fuel args text s (put (c ∷ []) p) (omega arith) in
      (q, rw (format_loop, e) r)
]

-- Whatever the format, the arguments and the strings, `vsprintf` comes to the end of the format: its
-- fuel, a byte more than the format has, is enough, no directive is refused, and the value is the length
-- of the text.
pub vsprintf_returns :
    (fmt : List ℕ) (args : ℕ → ℕ) (text : ℕ → List ℕ)
    → (q : Print) × (vsprintf fmt args text ≡ some (length q.out, q))
unfolding vsprintf
vsprintf_returns fmt args text =
    let (q, e) =
      format_loop_ends (length fmt + 1) args text fmt (record { out = []; next = 0; stored = [] })
        (omega arith) in
    (q, ap (map_option (λ (p : Print). (length p.out, p))) e)
