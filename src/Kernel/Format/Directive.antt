-- ===== src/Kernel/Format/Directive.antt =====
-- `vsprintf` of kernel/vsprintf.c: the directives of a format.
use linux_0_11_notes.Prelude.{
  Bool, List, Option, [], eq_ℤ, if◌then◌else◌, length, min, negsuc, none, not, pos, pos_part,
  replicate, some, suc, take, true, zero, ℕ, ℤ, ◌%◌, ◌&&◌, ◌++◌, ◌+◌, ◌-◌, ◌==◌, ◌^◌, ◌||◌, ◌∷◌,
}
use linux_0_11_notes.Kernel.Format.{number, Flags, as_int, is_digit, no_flags, skip_atoi}
use linux_0_11_notes.Kernel.Task.{map_option}

-- What is put so far, how many arguments are used, and what `%n` has stored, the last first.
pub record Print : Type 0 where
  pub out : List ℕ
  pub next : ℕ
  pub stored : List (ℕ × ℕ)

abbrev pub put : List ℕ → Print → Print
put bytes p = record p { out = p.out ++ bytes }

abbrev pub used : Print → Print
used p = record p { next = p.next + 1 }

-- The byte at the start, 0 at the end, and what follows it.
abbrev pub head : List ℕ → ℕ
head [] = 0
head (c ∷ _) = c

abbrev pub tail : List ℕ → List ℕ
tail [] = []
tail (_ ∷ cs) = cs

abbrev pub is_flag : ℕ → Bool
is_flag c = c == b'-' || c == b'+' || c == b' ' || c == b'#' || c == b'0'

abbrev pub with_flag : ℕ → Flags → Flags
with_flag c f =
    if c == b'-'
    then record f { left = true }
    else if c == b'+'
    then record f { plus = true }
    else if c == b' '
    then record f { space = true }
    else if c == b'#'
    then record f { special = true }
    else record f { zeropad = true }

-- From `repeat` on.
unfoldable pub read_flags : List ℕ → Flags → Flags × List ℕ
read_flags [] f = (f, [])
read_flags (c ∷ cs) f =
    let more = read_flags cs (with_flag c f) in if is_flag c then more else (f, c ∷ cs)

-- A directive after its numbers; -1 for a width or a precision that is not there.
pub record Field : Type 0 where
  pub flags : Flags
  pub width : ℤ
  pub precision : ℤ

-- A number, or a '*' that stands for the next argument and is not skipped; else -1.
unfoldable pub read_number : (ℕ → ℕ) → List ℕ → Print → ℤ × List ℕ × Print
unfolding skip_atoi
read_number args s p =
    let (n, rest) = skip_atoi s in
    if is_digit (head s)
    then (as_int n, rest, p)
    else if head s == b'*'
    then (as_int (args p.next), s, used p)
    else (negsuc 0, s, p)

-- A negative argument for the width means '-', too; a number in the format is never negative there.
abbrev pub left_for : ℤ → Bool → Field → Field
left_for (pos n) star d = record d { width = pos n }
left_for (negsuc n) star d =
    if star && not (n + 1 == 2 ^ 31)
    then record d { width = pos (n + 1); flags = record d.flags { left = true } }
    else record d { width = negsuc n; flags = record d.flags { left = star || d.flags.left } }

unfoldable pub read_width : (ℕ → ℕ) → Flags → List ℕ → Print → Field × List ℕ × Print
unfolding read_number
read_width args f s p =
    let (w, rest, p') = read_number args s p in
    (left_for w (head s == b'*') (record { flags = f; width = w; precision = negsuc 0 }), rest, p')

-- After a '.', what is no number or negative is 0.
unfoldable pub read_precision : (ℕ → ℕ) → Field → List ℕ → Print → Field × List ℕ × Print
unfolding read_number
read_precision args d s p =
    let (n, rest, p') = read_number args (tail s) p in
    if head s == b'.' then (record d { precision = pos (pos_part n) }, rest, p') else (d, s, p)

-- 'h', 'l' and 'L' are read and make no difference.
abbrev pub skip_qualifier : List ℕ → List ℕ
skip_qualifier s = if head s == b'h' || head s == b'l' || head s == b'L' then tail s else s

-- The next argument as a number.
unfoldable pub put_number : (ℕ → ℕ) → ℕ → Field → Print → Option Print
unfolding number
put_number args base d p =
    map_option (λ bytes. put bytes (used p)) (number (args p.next) base d.width d.precision d.flags)

-- `while (--field_width > 0)`, and `while (len < field_width--)`.
abbrev pub put_char : ℕ → Field → List ℕ
put_char c d =
    let spaces = replicate (pos_part d.width - 1) b' ' in
    if d.flags.left then c ∷ spaces else spaces ++ c ∷ []

abbrev pub string_length : ℤ → ℕ → ℕ
string_length (pos p) n = min p n
string_length (negsuc _) n = n

abbrev pub put_string : List ℕ → Field → List ℕ
put_string s d =
    let len = string_length d.precision (length s) in
    let spaces = replicate (pos_part d.width - len) b' ' in
    if d.flags.left then take len s ++ spaces else spaces ++ take len s

abbrev pub with_sign : Field → Field
with_sign d = record d { flags = record d.flags { sign = true } }

abbrev pub with_small : Field → Field
with_small d = record d { flags = record d.flags { small = true } }

-- Eight digits with zeros, unless a width is given.
abbrev pub for_pointer : Field → Field
for_pointer d =
    if eq_ℤ d.width (negsuc 0)
    then record d { width = pos 8; flags = record d.flags { zeropad = true } }
    else d

-- The `switch` on the byte after all that; `text` gives the string at an address.
unfoldable pub convert : (ℕ → ℕ) → (ℕ → List ℕ) → ℕ → Field → Print → Option Print
unfolding put_number
convert args text c d p =
    if c == b'c'
    then some (put (put_char (args p.next % 256) d) (used p))
    else if c == b's'
    then some (put (put_string (text (args p.next)) d) (used p))
    else if c == b'o'
    then put_number args 8 d p
    else if c == b'p'
    then put_number args 16 (for_pointer d) p
    else if c == b'x'
    then put_number args 16 (with_small d) p
    else if c == b'X'
    then put_number args 16 d p
    else if c == b'd' || c == b'i'
    then put_number args 10 (with_sign d) p
    else if c == b'u'
    then put_number args 10 d p
    else if c == b'n'
    then some (record (used p) { stored = (args p.next, length p.out) ∷ p.stored })
    else some (put ((if c == b'%' then [] else b'%' ∷ []) ++ (if c == 0 then [] else c ∷ [])) p)

-- The directive after a '%'.
unfoldable pub directive : (ℕ → ℕ) → (ℕ → List ℕ) → List ℕ → Print → Option (Print × List ℕ)
unfolding read_flags read_width read_precision convert
directive args text s p =
    let (f, s1) = read_flags s no_flags in
    let (d1, s2, p1) = read_width args f s1 p in
    let (d2, s3, p2) = read_precision args d1 s2 p1 in
    let s4 = skip_qualifier s3 in
    map_option (λ p3. (p3, tail s4)) (convert args text (head s4) d2 p2)

-- The loop of `vsprintf`. Each turn takes a byte of the format at least.
unfoldable pub format_loop : ℕ → (ℕ → ℕ) → (ℕ → List ℕ) → List ℕ → Print → Option Print
unfolding directive
format_loop zero args text s p = none
format_loop (suc fuel) args text [] p = some p
format_loop (suc fuel) args text (c ∷ s) p =
    let plain = format_loop fuel args text s (put (c ∷ []) p) in
    if not (c == b'%') then plain else elim (directive args text s p) [
      | none ↦ none
      | some (p', rest) ↦ format_loop fuel args text rest p'
    ]

-- The text, its length, and what `%n` stored.
unfoldable pub vsprintf : List ℕ → (ℕ → ℕ) → (ℕ → List ℕ) → Option (ℕ × Print)
unfolding format_loop
vsprintf fmt args text =
    map_option (λ p. (length p.out, p))
      (format_loop (length fmt + 1) args text fmt (record { out = []; next = 0; stored = [] }))
