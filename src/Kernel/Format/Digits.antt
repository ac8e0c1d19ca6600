-- ===== src/Kernel/Format/Digits.antt =====
-- What `number` of kernel/vsprintf.c puts is what `skip_atoi` reads.
use linux_0_11_notes.Prelude.{
  Bool, List, [], ap, append_assoc, arith, false, if-false, if-true, length, negsuc, pos, pos_part,
  refl, replicate, some, subst, suc, sym, true, zero, ℕ, ℕ_discrete, ℤ, ◌%◌, ◌*◌, ◌++◌, ◌+◌, ◌-ℤ◌,
  ◌-◌, ◌/◌, ◌<◌, ◌==◌, ◌^◌, ◌∙◌, ◌∷◌, ◌≡◌,
}
use linux_0_11_notes.Kernel.Format.{
  number, Flags, atoi_from, digit, digits_of, is_digit, max_ℤ, no_flags, number_text, put_digits,
  skip_atoi, spent, tmp_digits,
}
use linux_0_11_notes.Kernel.Format.Directive.{head}

-- The number of a list of digits, the lowest first.
pub value_of : ℕ → List ℕ → ℕ
value_of base [] = 0
value_of base (d ∷ ds) = d + base * value_of base ds

value_of-digits_of : (fuel n : ℕ) → n < 2 ^ fuel → value_of 10 (digits_of fuel 10 n) ≡ n
unfolding value_of digits_of
value_of-digits_of zero n h = omega arith
value_of-digits_of (suc fuel) n h = elim (ℕ_discrete n 0) [
  | yes e ↦ ground arith
  | no ne ↦
      let twice : 2 ^ suc fuel ≡ 2 * 2 ^ fuel = omega arith in
      let rest = value_of-digits_of fuel (n / 10) (omega arith) in ground (arith, rest)
]

-- Digits below 10.
pub Small : List ℕ → Type 0
Small [] = Unit
Small (d ∷ ds) = (d < 10) × Small ds

digits_of-Small : (fuel n : ℕ) → Small (digits_of fuel 10 n)
unfolding Small digits_of
digits_of-Small zero n = tt
digits_of-Small (suc fuel) n = elim (ℕ_discrete n 0) [
  | yes e ↦ rw (e, digits_of) tt
  | no ne ↦
      subst Small (sym (if-false (n == 0) [] (n % 10 ∷ digits_of fuel 10 (n / 10)) (ground arith)))
        (omega arith, digits_of-Small fuel (n / 10))
]

abbrev pub StopsAt : List ℕ → Type 0
StopsAt s = is_digit (head s) ≡ false

atoi_from-StopsAt : (i : ℕ) (s : List ℕ) → StopsAt s → atoi_from i s ≡ (i, s)
unfolding atoi_from
atoi_from-StopsAt i [] h = refl
atoi_from-StopsAt i (c ∷ cs) h = if-false (is_digit c) _ _ h

atoi_from-digit :
    (i d : ℕ) (s : List ℕ)
    → d < 10
    → i * 10 + d < 2 ^ 32
    → atoi_from i (digit false d ∷ s) ≡ atoi_from (i * 10 + d) s
unfolding atoi_from
atoi_from-digit i d s lt small =
    let e : digit false d ≡ b'0' + d = ground arith in
    let w : (i * 10 + (b'0' + d - b'0')) % 2 ^ 32 ≡ i * 10 + d = omega arith in
    rw (e, w) (if-true (is_digit (b'0' + d)) _ _ (ground arith))

atoi_from-put_digits :
    (ds s : List ℕ)
    → Small ds
    → value_of 10 ds < 2 ^ 32
    → atoi_from 0 (put_digits false ds s) ≡ atoi_from (value_of 10 ds) s
unfolding put_digits value_of Small
atoi_from-put_digits [] s h small = refl
atoi_from-put_digits (d ∷ ds) s (lt, h) small =
    atoi_from-put_digits ds (digit false d ∷ s) h (omega arith)
    ∙ atoi_from-digit (value_of 10 ds) d s lt (omega arith)
    ∙ ap (λ (i : ℕ). atoi_from i s) (omega arith)

put_digits-append :
    (small : Bool) (ds out s : List ℕ)
    → put_digits small ds out ++ s ≡ put_digits small ds (out ++ s)
unfolding put_digits
put_digits-append small [] out s = refl
put_digits-append small (d ∷ ds) out s = put_digits-append small ds (digit small d ∷ out) s

atoi_from-zeros : (n : ℕ) (s : List ℕ) → atoi_from 0 (replicate n b'0' ++ s) ≡ atoi_from 0 s
unfolding atoi_from
atoi_from-zeros zero s = refl
atoi_from-zeros (suc n) s = atoi_from-zeros n s

tmp_digits-Small : (n : ℕ) → Small (tmp_digits 10 n)
unfolding Small
tmp_digits-Small n = elim (ℕ_discrete n 0) [
  | yes e ↦ rw e (omega arith, tt)
  | no ne ↦
      subst Small (sym (if-false (n == 0) (0 ∷ []) (digits_of 32 10 n) (ground arith)))
        (digits_of-Small 32 n)
]

value_of-tmp_digits : (n : ℕ) → n < 2 ^ 32 → value_of 10 (tmp_digits 10 n) ≡ n
unfolding value_of
value_of-tmp_digits n h = elim (ℕ_discrete n 0) [
  | yes e ↦ rw e refl
  | no ne ↦
      ap (value_of 10) (if-false (n == 0) (0 ∷ []) (digits_of 32 10 n) (ground arith))
      ∙ value_of-digits_of 32 n (omega arith)
]

spent_nothing : (n : ℤ) → pos_part (spent n) ≡ 0
spent_nothing (pos n) = ground arith
spent_nothing (negsuc n) = ground arith

spaces-StopsAt : (j : ℕ) (s : List ℕ) → StopsAt s → StopsAt (replicate j b' ' ++ s)
spaces-StopsAt zero s h = h
spaces-StopsAt (suc j) s h = refl

-- Zeros, the digits of n, and spaces.
abbrev body : ℕ → ℕ → ℕ → ℕ → List ℕ
body z p n j =
    replicate z b'0'
    ++ (replicate p b'0' ++ (put_digits false (tmp_digits 10 n) [] ++ replicate j b' '))

skip_atoi-body :
    (z p n j : ℕ) (s : List ℕ)
    → n < 2 ^ 32
    → StopsAt s
    → skip_atoi (body z p n j ++ s) ≡ (n, replicate j b' ' ++ s)
unfolding skip_atoi
skip_atoi-body z p n j s small h =
    let t : List ℕ = replicate j b' ' ++ s in
    let ds : List ℕ = tmp_digits 10 n in
    let digits : List ℕ = put_digits false ds [] in
    let d1 : List ℕ = digits ++ replicate j b' ' in
    let d2 : List ℕ = replicate p b'0' ++ d1 in
    let e1 : d1 ++ s ≡ put_digits false ds t =
      append_assoc digits (replicate j b' ') s ∙ put_digits-append false ds [] t in
    let e2 : d2 ++ s ≡ replicate p b'0' ++ put_digits false ds t =
      append_assoc (replicate p b'0') d1 s ∙ ap (λ (xs : List ℕ). replicate p b'0' ++ xs) e1 in
    let e : body z p n j ++ s ≡ replicate z b'0' ++ (replicate p b'0' ++ put_digits false ds t) =
      append_assoc (replicate z b'0') d2 s ∙ ap (λ (xs : List ℕ). replicate z b'0' ++ xs) e2 in
    ap (atoi_from 0) e
    ∙ atoi_from-zeros z _
    ∙ atoi_from-zeros p _
    ∙ atoi_from-put_digits ds t (tmp_digits-Small n) (omega (arith, value_of-tmp_digits n small))
    ∙ ap (λ (i : ℕ). atoi_from i t) (value_of-tmp_digits n small)
    ∙ atoi_from-StopsAt n t (spaces-StopsAt j s h)

-- The flags that only place the number.
abbrev pub placed : Bool → Bool → Flags
placed left zeropad = record no_flags { left = left; zeropad = zeropad }

number_text-body :
    (left zeropad : Bool) (n : ℕ) (width precision : ℤ)
    → (a z p j : ℕ) × (number_text n 10 width precision (placed left zeropad)
        ≡ replicate a b' ' ++ body z p n j)
unfolding number_text
number_text-body true true n width precision =
    let i : ℕ = length (tmp_digits 10 n) in
    let digits : ℕ = max_ℤ i precision in
    (0, 0, digits - i, pos_part (width -ℤ pos 0 -ℤ pos 0 -ℤ pos digits), refl)
number_text-body true false n width precision =
    let i : ℕ = length (tmp_digits 10 n) in
    let digits : ℕ = max_ℤ i precision in
    (0, 0, digits - i, pos_part (width -ℤ pos 0 -ℤ pos 0 -ℤ pos digits), refl)
number_text-body false true n width precision =
    let i : ℕ = length (tmp_digits 10 n) in
    let digits : ℕ = max_ℤ i precision in
    let size : ℤ = width -ℤ pos 0 -ℤ pos 0 -ℤ pos digits in
    (0, pos_part size, digits - i, pos_part (spent size), refl)
number_text-body false false n width precision =
    let i : ℕ = length (tmp_digits 10 n) in
    let digits : ℕ = max_ℤ i precision in
    let size : ℤ = width -ℤ pos 0 -ℤ pos 0 -ℤ pos digits in
    let j : ℕ = pos_part (spent (spent size)) in
    (
      pos_part size,
      0,
      digits - i,
      j,
      ap
          (λ (k : ℕ).
            replicate (pos_part size) b' ' ++ (replicate k b' ' ++ body 0 (digits - i) n j))
          (spent_nothing size),
    )

-- For a word, base 10, any width and precision and the flags for left and for zeros, `number` puts
-- spaces and then a text that `skip_atoi` reads as that word, before whatever byte that is no digit
-- follows; what `skip_atoi` leaves is that, behind the spaces on the right.
pub skip_atoi-number :
    (left zeropad : Bool) (n : ℕ) (width precision : ℤ) (s : List ℕ)
    → n < 2 ^ 32
    → StopsAt s
    → (a : ℕ) × (j : ℕ) × (text : List ℕ) × (number n 10 width precision (placed left zeropad)
        ≡ some (replicate a b' ' ++ text))
      × (skip_atoi (text ++ s) ≡ (n, replicate j b' ' ++ s))
unfolding number
skip_atoi-number left zeropad n width precision s small h =
    let (a, z, p, j, e) = number_text-body left zeropad n width precision in
    (a, j, body z p n j, ap (λ (xs : List ℕ). some xs) e, skip_atoi-body z p n j s small h)
