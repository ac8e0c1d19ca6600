-- ===== src/Prelude/Tables.antt =====
-- Arrays and bit masks as functions of the index, the loops over them, and what a panic leaves.
use Prim.Native.Nat.{ℕ, zero, suc, ◌<◌}
use mathlib.Core.Path.{◌≡◌, refl, ap}
use mathlib.Core.Logic.{inl, inr}
use mathlib.Core.Bool.{Bool, true, false, ◌||◌}
use native.Mathlib.Omega.{arith}
use linux_0_11_notes.Prelude.Tests.{Bool-cases, ◌==◌, if◌then◌else◌}

-- `f[i] = a`.
abbrev pub update {ℓ} : {A : Type ℓ} → (ℕ → A) → ℕ → A → ℕ → A
update f i a j = if i == j then a else f j

pub update_self {ℓ} : {A : Type ℓ} (f : ℕ → A) (i : ℕ) (v : A) → update f i v i ≡ v
update_self f i v = ground arith

pub update_ne {ℓ} : {A : Type ℓ} (f : ℕ → A) (i j : ℕ) (v : A) → ¬ (j ≡ i) → update f i v j ≡ f j
update_ne f i j v h = ground arith

-- Bit k of a machine word.
abbrev pub Bits : Type 0
Bits = ℕ → Bool

-- `w | 1 << k` and `w & ~(1 << k)`.
abbrev pub with_bit : Bits → ℕ → Bits
with_bit w k = update w k true

abbrev pub without_bit : Bits → ℕ → Bits
without_bit w k = update w k false

abbrev pub no_bits : Bits
no_bits _ = false

-- Whether the test holds at some index below n.
unfoldable pub any_below : ℕ → (ℕ → Bool) → Bool
any_below zero p = false
any_below (suc n) p = p n || any_below n p

pub any_below-true :
    (n : ℕ) (p : ℕ → Bool) → any_below n p ≡ true → (k : ℕ) × (k < n) × (p k ≡ true)
unfolding any_below
any_below-true zero p h = absurd (ground arith)
any_below-true (suc n) p h = elim (Bool-cases (p n)) [
  | inl e ↦ (n, omega arith, e)
  | inr e ↦ let (k, lt, q) = any_below-true n p (ground arith) in (k, omega arith, q)
]

pub any_below-intro : (n : ℕ) (p : ℕ → Bool) (k : ℕ) → k < n → p k ≡ true → any_below n p ≡ true
unfolding any_below
any_below-intro zero p k h e = elim h [ ]
any_below-intro (suc n) p k h e = ground (arith, any_below-intro n p k)

-- A panic never returns, and neither does the end of the current task by `do_exit`.
pub data Outcome {ℓ} (A : Type ℓ) : Type ℓ where
  done : A → Outcome A
  panicked : Outcome A
  exited : Outcome A

infixl 5 ◌>>=◌ ◌>>◌
abbrev pub ◌>>=◌ {ℓ κ} : {A : Type ℓ} {B : Type κ} → Outcome A → (A → Outcome B) → Outcome B
done a >>= f = f a
panicked >>= f = panicked
exited >>= f = exited

abbrev pub ◌>>◌ {ℓ} : {B : Type ℓ} → Outcome (Unit {0}) → Outcome B → Outcome B
m >> k = m >>= λ _. k

-- Both parts of a sequence that is done were done.
pub bind-done {ℓ κ} :
    {A : Type ℓ} {B : Type κ} (m : Outcome A) (f : A → Outcome B) (b : B)
    → (m >>= f) ≡ done b
    → (a : A) × (m ≡ done a) × (f a ≡ done b)
bind-done (done a) f b h = (a, refl, h)
bind-done panicked f b h = absurd (ground arith)
bind-done exited f b h = absurd (ground arith)

value_or {ℓ} : {A : Type ℓ} → A → Outcome A → A
value_or d (done a) = a
value_or d panicked = d
value_or d exited = d

pub done-inj {ℓ} : {A : Type ℓ} (a b : A) → done a ≡ done b → a ≡ b
unfolding value_or
done-inj a b h = ap (value_or a) h
