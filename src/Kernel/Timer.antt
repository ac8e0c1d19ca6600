-- ===== src/Kernel/Timer.antt =====
-- kernel/sched.c: kernel timers and the timer interrupt.
pub mod Expiry
use linux_0_11_notes.Prelude.{
  List, Option, Outcome, [], done, if◌then◌else◌, leb, length, ltb, none, panicked, pos_part, some,
  ℕ, ℤ, ◌-◌, ◌==◌, ◌∷◌,
}

-- A used entry of `timer_list`. `fn` names the function; an entry whose `fn` is null is free, and
-- the used ones are those that `next_timer` leads to.
pub record Timer : Type 0 where
  pub jiffies : ℕ
  pub fn : ℕ

abbrev pub time_requests : ℕ
time_requests = 64

abbrev pub timer : ℕ → ℕ → Timer
timer j f = record { jiffies = j; fn = f }

-- The loop of `add_timer` that moves the new entry back by exchanging contents: `p` holds the new
-- entry, and the list is what follows it.
unfoldable pub sink : Timer → List Timer → List Timer
sink p [] = p ∷ []
sink p (q ∷ qs) =
    let rest = sink (timer (p.jiffies - q.jiffies) p.fn) qs in
    if ltb q.jiffies p.jiffies then q ∷ rest else p ∷ q ∷ qs

-- What `add_timer` does: the function that it calls at once, and the new list.
pub record Added : Type 0 where
  pub called : Option ℕ
  pub timers : List Timer

unfoldable pub add_timer : ℤ → Option ℕ → List Timer → Outcome Added
unfolding sink
add_timer jiffies none ts = done (record { called = none; timers = ts })
add_timer jiffies (some fn) ts =
    if pos_part jiffies == 0
    then done (record { called = some fn; timers = ts })
    else if leb time_requests (length ts)
    then panicked
    else done (record { called = none; timers = sink (timer (pos_part jiffies) fn) ts })

-- `while (next_timer && next_timer->jiffies <= 0)`: the functions called in order, and what is left.
unfoldable pub expire : List Timer → List ℕ × List Timer
expire [] = ([], [])
expire (t ∷ ts) =
    let rest = expire ts in if t.jiffies == 0 then (t.fn ∷ rest.0, rest.1) else ([], t ∷ ts)

-- The timer part of `do_timer`. An entry on the list has at least one tick left.
unfoldable pub tick_timers : List Timer → List ℕ × List Timer
unfolding expire
tick_timers [] = ([], [])
tick_timers (t ∷ ts) = expire (timer (t.jiffies - 1) t.fn ∷ ts)
