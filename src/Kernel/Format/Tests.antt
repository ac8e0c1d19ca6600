-- ===== src/Kernel/Format/Tests.antt =====
-- Formats on concrete inputs.
use linux_0_11_notes.Prelude.{
  List, Option, [], arith, false, if◌then◌else◌, length, negsuc, none, pos, refl, replicate, some,
  ℕ, ◌++◌, ◌==◌, ◌∷◌, ◌≡◌,
}
use linux_0_11_notes.Kernel.Format.{number, skip_atoi}
use linux_0_11_notes.Kernel.Format.Digits.{placed, skip_atoi-number}
use linux_0_11_notes.Kernel.Format.Directive.{Print, vsprintf}
use linux_0_11_notes.Kernel.Format.Ends.{vsprintf_returns}

no_text : ℕ → List ℕ
no_text _ = b'a' ∷ b'b' ∷ []

abbrev text_of : Option (ℕ × Print) → List ℕ
text_of none = []
text_of (some (_, p)) = p.out

-- "%d %x" of 42 and 255.
two_numbers :
    text_of
      (vsprintf (b'%' ∷ b'd' ∷ b' ' ∷ b'%' ∷ b'x' ∷ []) (λ k. if k == 0 then 42 else 255) no_text)
    ≡ b'4' ∷ b'2' ∷ b' ' ∷ b'f' ∷ b'f' ∷ []
unfolding vsprintf
two_numbers = refl

-- "%-4s|" and "%#6x|".
left_string :
    text_of (vsprintf (b'%' ∷ b'-' ∷ b'4' ∷ b's' ∷ b'|' ∷ []) (λ _. 0) no_text)
    ≡ b'a' ∷ b'b' ∷ b' ' ∷ b' ' ∷ b'|' ∷ []
unfolding vsprintf no_text
left_string = refl

special_number :
    text_of (vsprintf (b'%' ∷ b'#' ∷ b'6' ∷ b'x' ∷ []) (λ _. 255) no_text)
    ≡ b' ' ∷ b' ' ∷ b'0' ∷ b'x' ∷ b'f' ∷ b'f' ∷ []
unfolding vsprintf
special_number = refl

-- The width of "%*d" is taken from the arguments, and the '*' is put out.
star_width : text_of (vsprintf (b'%' ∷ b'*' ∷ b'd' ∷ []) (λ _. 5) no_text) ≡ b'%' ∷ b'*' ∷ b'd' ∷ []
unfolding vsprintf
star_width = refl

-- 42 in five places.
skip_atoi-number_example :
    (a : ℕ) × (j : ℕ) × (text : List ℕ) × (number 42 10 (pos 5) (negsuc 0) (placed false false)
      ≡ some (replicate a b' ' ++ text))
    × (skip_atoi (text ++ (b'x' ∷ [])) ≡ (42, replicate j b' ' ++ (b'x' ∷ [])))
skip_atoi-number_example =
    skip_atoi-number false false 42 (pos 5) (negsuc 0) (b'x' ∷ []) (omega arith) refl

vsprintf_returns_example :
    (q : Print) × (vsprintf (b'%' ∷ b'*' ∷ b'd' ∷ []) (λ _. 5) no_text ≡ some (length q.out, q))
vsprintf_returns_example = vsprintf_returns (b'%' ∷ b'*' ∷ b'd' ∷ []) (λ _. 5) no_text
