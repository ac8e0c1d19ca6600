-- ===== src/Chr/Console/Sequences.antt =====
-- The escape sequences and the loop of `con_write` keep the screen in order.
use linux_0_11_notes.Prelude.{
  Bool, Bool-cases, Option, arith, false, if-false, if-true, if◌then◌else◌, inl, inr, leb, ltb,
  none, refl, some, subst, suc, sym, true, zero, ℕ, ◌&&◌, ◌+◌, ◌-◌, ◌<◌, ◌==◌, ◌||◌, ◌≤◌,
}
use linux_0_11_notes.Chr.Console.{
  Console, add_word, csi_L, csi_M, csi_P, csi_at, delete_char, delete_line, gotoxy, insert_char,
  insert_line, max_par, sub_word,
}
use linux_0_11_notes.Chr.Console.Edit.{
  csi_J-IsKept, csi_K-IsKept, csi_m-IsKept, delete_char-IsKept, delete_line-IsKept,
  insert_char-IsKept, insert_line-IsKept, times-IsKept,
}
use linux_0_11_notes.Chr.Console.Machine.{
  escape_char-IsKept, plain_char-IsKept, restore-IsKept, save-IsKept, set_pars-IsKept,
  set_state-IsKept,
}
use linux_0_11_notes.Chr.Console.Scroll.{gotoxy-IsKept, if-IsKept}
use linux_0_11_notes.Chr.Console.Window.{IsKept, IsKept-refl, IsKept-trans, IsScreen}
use linux_0_11_notes.Chr.Console.Write.{
  con_char, con_loop, con_step, con_write, cursor_char, edit_char, final_char, lower_par, or_edit,
  param_char, raise_par, set_par, set_region, start_char,
}
use linux_0_11_notes.Chr.Queue.{chars, next_char}
use linux_0_11_notes.Chr.Tty.{Tty, verase}

-- What a step leaves, if it is one.
data MaybeKept (s : Console) : Option Console → Type 0 where
  no_step : MaybeKept s none
  step : {u : Console} → IsKept s u → MaybeKept s (some u)

if-MaybeKept :
    (b : Bool) (s : Console) (o p : Option Console)
    → MaybeKept s o
    → MaybeKept s p
    → MaybeKept s (if b then o else p)
if-MaybeKept true s o p x y = x
if-MaybeKept false s o p x y = y

or_edit-IsKept :
    (s t : Console) (o : Option Console) → MaybeKept s o → IsKept s t → IsKept s (or_edit o t)
or_edit-IsKept s t none no_step k = k
or_edit-IsKept s t (some u) (step h) k = h

-- Parameters do not matter to the screen.
par-IsKept : (s : Console) (par : ℕ → ℕ) → IsScreen s → IsKept s (record s { par = par })
par-IsKept s par v = record {
  screen = ground arith;
  same_start = refl;
  same_end = refl;
  outside = λ a o. refl;
}

lower_par-IsKept : (i : ℕ) (s : Console) → IsScreen s → IsKept s (lower_par i s)
lower_par-IsKept i s v = if-IsKept _ s _ _ (IsKept-refl s v) (par-IsKept s _ v)

raise_par-IsKept : (s : Console) → IsScreen s → IsKept s (raise_par s)
raise_par-IsKept s v = if-IsKept _ s _ _ (par-IsKept s _ v) (IsKept-refl s v)

-- To set the parameters and then the cursor.
goto_after : (s t : Console) (x y : ℕ) → IsKept s t → IsKept s (gotoxy x y t)
goto_after s t x y k = IsKept-trans s t (gotoxy x y t) k (gotoxy-IsKept x y t k.screen)

step_to : (s t : Console) (x y : ℕ) → IsKept s t → MaybeKept s (some (gotoxy x y t))
step_to s t x y k = step (goto_after s t x y k)

cursor_char-MaybeKept : (c : ℕ) (s : Console) → IsScreen s → MaybeKept s (cursor_char c s)
unfolding cursor_char
cursor_char-MaybeKept c s v =
    let r : Console = raise_par s in
    let u = raise_par-IsKept s v in
    let t : Console = lower_par 0 s in
    let l = lower_par-IsKept 0 s v in
    let w : Console = lower_par 1 t in
    let m = IsKept-trans s t w l (lower_par-IsKept 1 t l.screen) in
    if-MaybeKept (c == b'G' || c == b'`') s _ _ (step_to s t (t.par 0) t.y l) (
      if-MaybeKept (c == b'A') s _ _ (step_to s r r.x (sub_word r.y (r.par 0)) u) (
        if-MaybeKept (c == b'B' || c == b'e') s _ _ (step_to s r r.x (add_word r.y (r.par 0)) u) (
          if-MaybeKept (c == b'C' || c == b'a') s _ _ (step_to s r (add_word r.x (r.par 0)) r.y u) (
            if-MaybeKept (c == b'D') s _ _ (step_to s r (sub_word r.x (r.par 0)) r.y u) (
              if-MaybeKept (c == b'E') s _ _ (step_to s r 0 (add_word r.y (r.par 0)) u) (
                if-MaybeKept (c == b'F') s _ _ (step_to s r 0 (sub_word r.y (r.par 0)) u) (
                  if-MaybeKept (c == b'd') s _ _ (step_to s t t.x (t.par 0) l) (
                    if-MaybeKept (c == b'H' || c == b'f') s _ _ (step_to s w (w.par 1) (w.par 0) m)
                      no_step))))))))

region-IsKept :
    (s : Console) (top bottom : ℕ)
    → IsScreen s
    → top < bottom
    → bottom ≤ s.num_lines
    → IsKept s (record s { top = top; bottom = bottom })
region-IsKept s top bottom v lt le = record {
  screen = ground arith;
  same_start = refl;
  same_end = refl;
  outside = λ a o. refl;
}

accept_region-IsKept :
    (s : Console)
    → IsScreen s
    → IsKept s (
        if ltb (s.par 0) (s.par 1) && leb (s.par 1) s.num_lines
        then record s { top = s.par 0; bottom = s.par 1 }
        else s)
accept_region-IsKept s v =
    elim (Bool-cases (ltb (s.par 0) (s.par 1) && leb (s.par 1) s.num_lines)) [
      | inl fits ↦
          subst (IsKept s) (sym (if-true _ _ _ fits))
            (region-IsKept s (s.par 0) (s.par 1) v (ground arith) (ground arith))
      | inr off ↦ subst (IsKept s) (sym (if-false _ _ _ off)) (IsKept-refl s v)
    ]

set_region-IsKept : (s : Console) → IsScreen s → IsKept s (set_region s)
unfolding set_region
set_region-IsKept s v =
    let a : Console = lower_par 0 s in
    let k = lower_par-IsKept 0 s v in
    let b : Console = if a.par 1 == 0 then set_par 1 a.num_lines a else a in
    let l = if-IsKept (a.par 1 == 0) a _ _ (par-IsKept a _ k.screen) (IsKept-refl a k.screen) in
    IsKept-trans s a (set_region s) k
      (IsKept-trans a b (set_region s) l (accept_region-IsKept b l.screen))

csi_L-IsKept : (nr : ℕ) (s : Console) → IsScreen s → IsKept s (csi_L nr s)
unfolding csi_L
csi_L-IsKept nr s v = times-IsKept _ insert_line s insert_line-IsKept v

csi_M-IsKept : (nr : ℕ) (s : Console) → IsScreen s → IsKept s (csi_M nr s)
unfolding csi_M
csi_M-IsKept nr s v = times-IsKept _ delete_line s delete_line-IsKept v

csi_P-IsKept : (nr : ℕ) (s : Console) → IsScreen s → IsKept s (csi_P nr s)
unfolding csi_P
csi_P-IsKept nr s v = times-IsKept _ delete_char s delete_char-IsKept v

csi_at-IsKept : (nr : ℕ) (s : Console) → IsScreen s → IsKept s (csi_at nr s)
unfolding csi_at
csi_at-IsKept nr s v = times-IsKept _ insert_char s insert_char-IsKept v

edit_char-IsKept : (c : ℕ) (s : Console) → IsScreen s → IsKept s (edit_char c s)
unfolding edit_char
edit_char-IsKept c s v = if-IsKept _ s _ _ (csi_J-IsKept (s.par 0) s v) (
    if-IsKept _ s _ _ (csi_K-IsKept (s.par 0) s v) (
      if-IsKept _ s _ _ (csi_L-IsKept (s.par 0) s v) (
        if-IsKept _ s _ _ (csi_M-IsKept (s.par 0) s v) (
          if-IsKept _ s _ _ (csi_P-IsKept (s.par 0) s v) (
            if-IsKept _ s _ _ (csi_at-IsKept (s.par 0) s v) (
              if-IsKept _ s _ _ (csi_m-IsKept s v) (
                if-IsKept _ s _ _ (set_region-IsKept s v) (
                  if-IsKept _ s _ _ (save-IsKept s v)
                    (if-IsKept _ s _ _ (restore-IsKept s v) (IsKept-refl s v))))))))))

final_char-IsKept : (c : ℕ) (s : Console) → IsScreen s → IsKept s (final_char c s)
unfolding final_char
final_char-IsKept c s v =
    let t : Console = record s { state = 0 } in
    let k = set_state-IsKept s 0 v in
    IsKept-trans s t (final_char c s) k (
      or_edit-IsKept t (edit_char c t) (cursor_char c t) (cursor_char-MaybeKept c t k.screen)
        (edit_char-IsKept c t k.screen))

param_char-IsKept : (c : ℕ) (s : Console) → IsScreen s → IsKept s (param_char c s)
unfolding param_char
param_char-IsKept c s v = elim (Bool-cases (c == b';' && ltb s.npar (max_par - 1))) [
  | inl next ↦
      subst (IsKept s) (sym (if-true _ _ _ next))
        (set_pars-IsKept s s.state (s.npar + 1) s.par s.ques v (ground arith))
  | inr other ↦
      subst (IsKept s) (sym (if-false _ _ _ other))
        (if-IsKept _ s _ _ (par-IsKept s _ v) (final_char-IsKept c s v))
]

start_char-IsKept : (c : ℕ) (s : Console) → IsScreen s → IsKept s (start_char c s)
unfolding start_char
start_char-IsKept c s v =
    let par : ℕ → ℕ = λ i. if ltb i max_par then 0 else s.par i in
    let t : Console = record s { state = 3; npar = 0; par = par; ques = false } in
    let k = set_pars-IsKept s 3 0 par false v (omega arith) in
    if-IsKept _ s _ _ (set_pars-IsKept s 3 0 par true v (omega arith))
      (IsKept-trans s t (param_char c t) k (param_char-IsKept c t k.screen))

con_char-IsKept : (e c : ℕ) (s : Console) → IsScreen s → IsKept s (con_char e c s)
unfolding con_char
con_char-IsKept e c s v = if-IsKept _ s _ _ (plain_char-IsKept e c s v) (
    if-IsKept _ s _ _ (escape_char-IsKept c s v) (
      if-IsKept _ s _ _ (start_char-IsKept c s v) (
        if-IsKept _ s _ _ (param_char-IsKept c s v)
          (if-IsKept _ s _ _ (final_char-IsKept c s v) (IsKept-refl s v)))))

-- An echo that keeps the screen in order.
abbrev pub KeepsScreen : (Console × Tty → Console × Tty) → Type 0
KeepsScreen copy = (s : Console) (t : Tty) → IsScreen s → IsKept s (copy (s, t)).0

con_step-IsKept :
    (copy : Console × Tty → Console × Tty) (s : Console) (t : Tty)
    → KeepsScreen copy
    → IsScreen s
    → IsKept s (con_step copy s t).0
unfolding con_step
con_step-IsKept copy s t h v = elim (Bool-cases (s.state == 1 && next_char t.write_q == b'Z')) [
  | inl asks ↦
      let u : Console = record s { state = 0 } in
      let k = set_state-IsKept s 0 v in
      subst (λ (st : Console × Tty). IsKept s st.0) (sym (if-true _ _ _ asks))
        (IsKept-trans s u _ k (h u _ k.screen))
  | inr other ↦
      subst (λ (st : Console × Tty). IsKept s st.0) (sym (if-false _ _ _ other))
        (con_char-IsKept (t.termios.cc verase) (next_char t.write_q) s v)
]

con_loop-IsKept :
    (n : ℕ) (copy : Console × Tty → Console × Tty) (s : Console) (t : Tty)
    → KeepsScreen copy
    → IsScreen s
    → IsKept s (con_loop n copy (s, t)).0
unfolding con_loop
con_loop-IsKept zero copy s t h v = IsKept-refl s v
con_loop-IsKept (suc n) copy s t h v =
    let u : Console × Tty = con_step copy s t in
    let k = con_step-IsKept copy s t h v in
    IsKept-trans s u.0 _ k (con_loop-IsKept n copy u.0 u.1 h k.screen)

-- While the echo of an answer keeps the screen in order, `con_write` does, whatever bytes it is
-- given: the cursor stays on the screen or just after the end of a line, `pos` is its address, the
-- scroll region lies on the screen, `npar` stays within `par`, and the window stays in video memory,
-- also where the card scrolls by moving it. No word outside video memory changes.
pub con_write-IsKept :
    (copy : Console × Tty → Console × Tty) (s : Console) (t : Tty)
    → KeepsScreen copy
    → IsScreen s
    → IsKept s (con_write copy (s, t)).0
unfolding con_write
con_write-IsKept copy s t h v = con_loop-IsKept (chars t.write_q) copy s t h v
