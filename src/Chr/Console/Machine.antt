-- ===== src/Chr/Console/Machine.antt =====
-- The machine of `con_write` keeps the screen in order.
use linux_0_11_notes.Prelude.{
  Bool, Bool-cases, arith, if-false, if-true, if◌then◌else◌, inl, inr, leb, ltb, refl, subst, sym,
  update_ne, ℕ, ◌%◌, ◌*◌, ◌+◌, ◌-◌, ◌<◌, ◌==◌, ◌≡◌, ◌≤◌,
}
use linux_0_11_notes.Chr.Console.{
  Console, add_word, lf, max_par, restore_cur, rewind, save_cur, scroll_region, scroll_window,
  scrup,
}
use linux_0_11_notes.Chr.Console.Edit.{del-IsKept}
use linux_0_11_notes.Chr.Console.Scroll.{
  cell-IsKept, cr-IsKept, gotoxy-IsKept, if-IsKept, lf-IsKept, line_room, move-IsKept, ri-IsKept,
}
use linux_0_11_notes.Chr.Console.Window.{IsKept, IsKept-refl, IsKept-trans, IsScreen}
use linux_0_11_notes.Chr.Console.Write.{
  escape_char, plain_char, put_char, show_char, tab, tab_to, wrap,
}
use linux_0_11_notes.Fs.Pipe.{room}

-- An operation that changes neither the cursor, nor the region, nor the screen.
pub set_state-IsKept : (s : Console) (n : ℕ) → IsScreen s → IsKept s (record s { state = n })
set_state-IsKept s n v = record {
  screen = ground arith;
  same_start = refl;
  same_end = refl;
  outside = λ a o. refl;
}

pub set_pars-IsKept :
    (s : Console) (n k : ℕ) (par : ℕ → ℕ) (q : Bool)
    → IsScreen s
    → k < max_par
    → IsKept s (record s { state = n; npar = k; par = par; ques = q })
set_pars-IsKept s n k par q v lt = record {
  screen = ground arith;
  same_start = refl;
  same_end = refl;
  outside = λ a o. refl;
}

put_char-IsKept : (c : ℕ) (s : Console) → IsScreen s → s.x < s.num_columns → IsKept s (put_char c s)
unfolding put_char
put_char-IsKept c s v lt =
    let r = line_room s v in
    let m : Console = record s { pos = s.pos + 2; x = s.x + 1 } in
    let k : IsKept s m =
      move-IsKept s (s.x + 1) s.y (s.pos + 2) v (omega arith) v.y_in (omega arith) in
    IsKept-trans s m (put_char c s) k (
      cell-IsKept m (put_char c s).cell k.screen
        λ j o. update_ne s.cell s.pos j (s.attr * 256 + c) (λ e. omega arith))

-- After a wrap the cursor stands near the start of its line.
wrap-IsKept :
    (s : Console) (n : ℕ)
    → IsScreen s
    → s.num_columns ≤ s.x + n
    → n ≤ 8
    → IsKept s (wrap (tab_to n s)) × ((wrap (tab_to n s)).x ≤ n)
wrap-IsKept s n v le small = (
  move-IsKept s (s.x + n - s.num_columns) s.y (s.pos + n * 2 - s.size_row) v (omega arith) v.y_in
      (omega arith),
  omega arith,
)

tab-IsKept : (s : Console) → IsScreen s → IsKept s (tab s)
unfolding tab
tab-IsKept s v =
    let n : ℕ = 8 - s.x % 8 in
    elim (Bool-cases (ltb s.num_columns (s.x + n))) [
      | inl over ↦
          let (k, _) = wrap-IsKept s n v (ground arith) (omega arith) in
          subst (IsKept s) (sym (if-true _ _ _ over)) (
            IsKept-trans s (wrap (tab_to n s)) (lf (wrap (tab_to n s))) k
              (lf-IsKept (wrap (tab_to n s)) k.screen))
      | inr fits ↦
          subst (IsKept s) (sym (if-false _ _ _ fits))
            (move-IsKept s (s.x + n) s.y (s.pos + n * 2) v (ground arith) v.y_in (omega arith))
    ]

-- A line feed leaves the column.
lf_column : (s : Console) → ((lf s).x ≡ s.x) × ((lf s).num_columns ≡ s.num_columns)
unfolding lf scrup scroll_region scroll_window rewind
lf_column s = ground arith

show_char-IsKept : (c : ℕ) (s : Console) → IsScreen s → IsKept s (show_char c s)
unfolding show_char
show_char-IsKept c s v = elim (Bool-cases (leb s.num_columns s.x)) [
  | inl over ↦
      let k : IsKept s (wrap s) =
        move-IsKept s (s.x - s.num_columns) s.y (s.pos - s.size_row) v (omega arith) v.y_in
          (ground arith) in
      let l = lf-IsKept (wrap s) k.screen in
      let (e, f) = lf_column (wrap s) in
      subst (λ t. IsKept s (put_char c t)) (sym (if-true _ _ _ over))
        (IsKept-trans s (wrap s) (put_char c (lf (wrap s))) k (
          IsKept-trans (wrap s) (lf (wrap s)) (put_char c (lf (wrap s))) l
            (put_char-IsKept c (lf (wrap s)) l.screen (omega arith))))
  | inr room ↦
      subst (λ t. IsKept s (put_char c t)) (sym (if-false _ _ _ room))
        (put_char-IsKept c s v (ground arith))
]

back-IsKept :
    (s : Console)
    → IsScreen s
    → IsKept s (if s.x == 0 then s else record s { x = s.x - 1; pos = s.pos - 2 })
back-IsKept s v = elim (Bool-cases (s.x == 0)) [
  | inl first ↦ subst (IsKept s) (sym (if-true _ _ _ first)) (IsKept-refl s v)
  | inr later ↦
      let x : ¬ (s.x ≡ 0) = ground arith in
      subst (IsKept s) (sym (if-false _ _ _ later))
        (move-IsKept s (s.x - 1) s.y (s.pos - 2) v (omega arith) v.y_in (omega arith))
]

beep-IsKept : (s : Console) (n : ℕ) → IsScreen s → IsKept s (record s { beepcount = n })
beep-IsKept s n v = record {
  screen = ground arith;
  same_start = refl;
  same_end = refl;
  outside = λ a o. refl;
}

pub plain_char-IsKept : (e c : ℕ) (s : Console) → IsScreen s → IsKept s (plain_char e c s)
unfolding plain_char
plain_char-IsKept e c s v = if-IsKept _ s _ _ (show_char-IsKept c s v) (
    if-IsKept _ s _ _ (set_state-IsKept s 1 v) (
      if-IsKept _ s _ _ (lf-IsKept s v) (
        if-IsKept _ s _ _ (cr-IsKept s v) (
          if-IsKept _ s _ _ (del-IsKept s v) (
            if-IsKept _ s _ _ (back-IsKept s v) (
              if-IsKept _ s _ _ (tab-IsKept s v)
                (if-IsKept _ s _ _ (beep-IsKept s _ v) (IsKept-refl s v))))))))

pub save-IsKept : (s : Console) → IsScreen s → IsKept s (save_cur s)
unfolding save_cur
save-IsKept s v = record {
  screen = ground arith;
  same_start = refl;
  same_end = refl;
  outside = λ a o. refl;
}

pub restore-IsKept : (s : Console) → IsScreen s → IsKept s (restore_cur s)
unfolding restore_cur
restore-IsKept s v = gotoxy-IsKept s.saved_x s.saved_y s v

pub escape_char-IsKept : (c : ℕ) (s : Console) → IsScreen s → IsKept s (escape_char c s)
unfolding escape_char
escape_char-IsKept c s v =
    let t : Console = record s { state = 0 } in
    let k = set_state-IsKept s 0 v in
    let w = k.screen in
    IsKept-trans s t (escape_char c s) k (
      if-IsKept _ t _ _ (set_state-IsKept t 2 w) (
        if-IsKept _ t _ _ (gotoxy-IsKept 0 (add_word t.y 1) t w) (
          if-IsKept _ t _ _ (ri-IsKept t w) (
            if-IsKept _ t _ _ (lf-IsKept t w) (
              if-IsKept _ t _ _ (save-IsKept t w)
                (if-IsKept _ t _ _ (restore-IsKept t w) (IsKept-refl t w)))))))
