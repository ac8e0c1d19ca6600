-- ===== src/Chr/Console/Window.antt =====
-- The screen of kernel/chr_drv/console.c is a window on video memory: what an operation must leave.
use linux_0_11_notes.Prelude.{
  arith, refl, suc, update, zero, ℕ, ◌*◌, ◌+◌, ◌-◌, ◌<◌, ◌∙◌, ◌≡◌, ◌≤◌, ◌⊎◌,
}
use linux_0_11_notes.Chr.Console.{
  Console, fill_down, fill_words, max_par, move_down, move_long, move_longs, shift_in, shift_out,
}

-- The cursor stands on the screen or after the end of a line, `pos` is its address, the scroll
-- region lies on the screen, and the window lies in video memory. A parameter has its place in `par`.
pub record IsScreen (s : Console) : Type 0 where
  pub wide : 8 ≤ s.num_columns
  pub row : s.size_row ≡ s.num_columns * 2
  pub x_in : s.x ≤ s.num_columns
  pub y_in : s.y < s.num_lines
  pub top_in : s.top < s.bottom
  pub bottom_in : s.bottom ≤ s.num_lines
  pub at : s.pos ≡ s.origin + s.y * s.size_row + s.x * 2
  pub end_at : s.scr_end ≡ s.origin + s.num_lines * s.size_row
  pub starts : s.mem_start ≤ s.origin
  pub ends : s.scr_end ≤ s.mem_end
  pub npar_in : s.npar < max_par

-- An address that is not in video memory.
abbrev pub IsOutside : Console → ℕ → Type 0
IsOutside s a = (a < s.mem_start) ⊎ (s.mem_end ≤ a)

-- The screen is in order after an operation, and only video memory was written.
pub record IsKept (s s' : Console) : Type 0 where
  pub screen : IsScreen s'
  pub same_start : s'.mem_start ≡ s.mem_start
  pub same_end : s'.mem_end ≡ s.mem_end
  pub outside : (a : ℕ) → IsOutside s a → s'.cell a ≡ s.cell a

pub IsKept-refl : (s : Console) → IsScreen s → IsKept s s
IsKept-refl s v = record { screen = v; same_start = refl; same_end = refl; outside = λ a o. refl }

pub IsKept-trans : (s t u : Console) → IsKept s t → IsKept t u → IsKept s u
IsKept-trans s t u p q = record {
  screen = q.screen;
  same_start = q.same_start ∙ p.same_start;
  same_end = q.same_end ∙ p.same_end;
  outside = λ a o. q.outside a (ground (arith, p.same_start, p.same_end)) ∙ p.outside a o;
}

pub mul_le : (a b c : ℕ) → a ≤ b → a * c ≤ b * c
mul_le a b c h = grind arith

pub mul_lt : (a b c : ℕ) → a < b → a * c + c ≤ b * c
mul_lt a b c h = grind (arith, mul_le (a + 1) b c)

-- What a loop leaves alone.
pub fill_words-out :
    (n a w : ℕ) (cell : ℕ → ℕ) (j : ℕ)
    → (j < a) ⊎ (a + 2 * n ≤ j)
    → fill_words n a w cell j ≡ cell j
unfolding fill_words
fill_words-out zero a w cell j h = refl
fill_words-out (suc n) a w cell j h = ground (arith, fill_words-out n (a + 2) w (update cell a w) j)

pub fill_down-out :
    (n a w : ℕ) (cell : ℕ → ℕ) (j : ℕ)
    → (j + 2 * n < a + 2) ⊎ (a < j)
    → fill_down n a w cell j ≡ cell j
unfolding fill_down
fill_down-out zero a w cell j h = refl
fill_down-out (suc n) a w cell j h = ground (arith, fill_down-out n (a - 2) w (update cell a w) j)

pub move_longs-out :
    (n d s : ℕ) (cell : ℕ → ℕ) (j : ℕ)
    → (j < d) ⊎ (d + 4 * n ≤ j)
    → move_longs n d s cell j ≡ cell j
unfolding move_longs
move_longs-out zero d s cell j h = refl
move_longs-out (suc n) d s cell j h =
    ground (arith, move_longs-out n (d + 4) (s + 4) (move_long d s cell) j)

pub move_down-out :
    (n d s : ℕ) (cell : ℕ → ℕ) (j : ℕ)
    → (j + 4 * n < d + 4) ⊎ (d + 2 < j)
    → move_down n d s cell j ≡ cell j
unfolding move_down
move_down-out zero d s cell j h = refl
move_down-out (suc n) d s cell j h =
    ground (arith, move_down-out n (d - 4) (s - 4) (move_long d s cell) j)

pub shift_in-out :
    (n p old : ℕ) (cell : ℕ → ℕ) (j : ℕ)
    → (j < p) ⊎ (p + 2 * n ≤ j)
    → shift_in n p old cell j ≡ cell j
unfolding shift_in
shift_in-out zero p old cell j h = refl
shift_in-out (suc n) p old cell j h =
    ground (arith, shift_in-out n (p + 2) (cell p) (update cell p old) j)

pub shift_out-out :
    (n p w : ℕ) (cell : ℕ → ℕ) (j : ℕ)
    → (j < p) ⊎ (p + 2 * n + 2 ≤ j)
    → shift_out n p w cell j ≡ cell j
unfolding shift_out
shift_out-out zero p w cell j h = ground arith
shift_out-out (suc n) p w cell j h =
    ground (arith, shift_out-out n (p + 2) w (update cell p (cell (p + 2))) j)
