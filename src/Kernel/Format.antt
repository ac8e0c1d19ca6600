-- ===== src/Kernel/Format.antt =====
-- kernel/vsprintf.c: formatted output. A text is the list of its bytes before the zero, and the arguments
-- are the words of the stack in their order.
pub mod Directive
pub mod Digits
pub mod Ends
pub mod Tests
use linux_0_11_notes.Prelude.{
  Bool, List, Option, [], false, if◌then◌else◌, leb, length, ltb, ltb_ℤ, negsuc, none, not, pos,
  pos_part, replicate, some, suc, zero, ℕ, ℤ, ◌%◌, ◌&&◌, ◌*◌, ◌++◌, ◌+◌, ◌-ℤ◌, ◌-◌, ◌/◌, ◌==◌, ◌^◌,
  ◌||◌, ◌∷◌,
}
use linux_0_11_notes.Chr.Queue.{left}

abbrev pub is_digit : ℕ → Bool
is_digit c = leb b'0' c && leb c b'9'

-- The loop of `skip_atoi`, on a word.
unfoldable pub atoi_from : ℕ → List ℕ → ℕ × List ℕ
atoi_from i [] = (i, [])
atoi_from i (c ∷ cs) =
    let rest = atoi_from ((i * 10 + (c - b'0')) % 2 ^ 32) cs in
    if is_digit c then rest else (i, c ∷ cs)

unfoldable pub skip_atoi : List ℕ → ℕ × List ℕ
unfolding atoi_from
skip_atoi s = atoi_from 0 s

-- The bits of the type of `number`.
pub record Flags : Type 0 where
  pub zeropad : Bool
  pub sign : Bool
  pub plus : Bool
  pub space : Bool
  pub left : Bool
  pub special : Bool
  pub small : Bool

abbrev pub no_flags : Flags
no_flags = record {
  zeropad = false;
  sign = false;
  plus = false;
  space = false;
  left = false;
  special = false;
  small = false;
}

-- A word as an int.
abbrev pub as_int : ℕ → ℤ
as_int w = if ltb w (2 ^ 31) then pos w else negsuc (2 ^ 32 - w - 1)

-- `digits[d]`.
abbrev pub digit : Bool → ℕ → ℕ
digit small d = if ltb d 10 then b'0' + d else (if small then b'a' else b'A') + (d - 10)

-- The digits of a word in `tmp`, the lowest first. There are 32 at most.
unfoldable pub digits_of : ℕ → ℕ → ℕ → List ℕ
digits_of zero base n = []
digits_of (suc fuel) base n =
    let rest = digits_of fuel base (n / base) in if n == 0 then [] else n % base ∷ rest

abbrev pub tmp_digits : ℕ → ℕ → List ℕ
tmp_digits base n = if n == 0 then 0 ∷ [] else digits_of 32 base n

-- `while (i-- > 0) *str++ = tmp[i]`.
unfoldable pub put_digits : Bool → List ℕ → List ℕ → List ℕ
put_digits small [] out = out
put_digits small (d ∷ ds) out = put_digits small ds (digit small d ∷ out)

-- `while (n-- > 0)` has this for n when it is over.
abbrev pub spent : ℤ → ℤ
spent n = if ltb_ℤ (pos 0) n then negsuc 0 else n -ℤ pos 1

-- The sign, 0 for none, and the number without it.
abbrev pub sign_of : ℕ → Flags → ℕ × ℕ
sign_of value f =
    if f.sign && leb (2 ^ 31) value
    then (b'-', 2 ^ 32 - value)
    else (if f.plus then b'+' else if f.space then b' ' else 0, value)

abbrev pub sign_size : ℕ → ℤ
sign_size sign = if sign == 0 then pos 0 else pos 1

abbrev pub prefix_size : ℕ → Flags → ℤ
prefix_size base f =
    if f.special then (if base == 16 then pos 2 else if base == 8 then pos 1 else pos 0) else pos 0

abbrev pub prefix : ℕ → Flags → List ℕ
prefix base f =
    if f.special
    then (if base == 8
        then b'0' ∷ []
        else if base == 16
        then b'0' ∷ (if f.small then b'x' else b'X') ∷ []
        else [])
    else []

abbrev pub max_ℤ : ℕ → ℤ → ℕ
max_ℤ i p = if ltb_ℤ p (pos i) then i else pos_part p

-- What `number` puts for a base that it takes: `size` is what is left of the width.
unfoldable pub number_text : ℕ → ℕ → ℤ → ℤ → Flags → List ℕ
unfolding digits_of put_digits
number_text value base width precision f =
    let zero_pad = f.zeropad && not f.left in
    let (sign, n) = sign_of value f in
    let tmp = tmp_digits base n in
    let i = length tmp in
    let digits = max_ℤ i precision in
    let size = width -ℤ sign_size sign -ℤ prefix_size base f -ℤ pos digits in
    let before = if zero_pad || f.left then [] else replicate (pos_part size) b' ' in
    let size1 = if zero_pad || f.left then size else spent size in
    let middle =
      if f.left then [] else replicate (pos_part size1) (if zero_pad then b'0' else b' ') in
    let size2 = if f.left then size1 else spent size1 in
    let text =
      replicate (digits - i) b'0'
      ++ (put_digits f.small tmp [] ++ replicate (pos_part size2) b' ') in
    before ++ ((if sign == 0 then [] else sign ∷ []) ++ (prefix base f ++ (middle ++ text)))

unfoldable pub number : ℕ → ℕ → ℤ → ℤ → Flags → Option (List ℕ)
unfolding number_text
number value base width precision f =
    if ltb base 2 || ltb 36 base then none else some (number_text value base width precision f)
