-- ===== src/Kernel/Timer/Expiry.antt =====
-- When the timers of a list go off, and what `add_timer` does to that.
use Prim.Native.Nat.add
use linux_0_11_notes.Prelude.{
  Bool-cases, List, [], ap, ap₂, arith, dec_lt, done, if◌then◌else◌, inl, inr, length, le→ltb_false,
  ltb, none, pos, refl, some, suc, sym, zero, ℕ, ◌+◌, ◌-◌, ◌<◌, ◌==◌, ◌∙◌, ◌∷◌, ◌≡◌, ◌≤◌,
}
use linux_0_11_notes.Kernel.Timer.{
  Timer, add_timer, expire, sink, tick_timers, time_requests, timer,
}

-- The functions that each of the next n ticks calls.
unfoldable pub run_ticks : ℕ → List Timer → List (List ℕ)
run_ticks zero ts = []
run_ticks (suc n) ts = let (called, rest) = tick_timers ts in called ∷ run_ticks n rest

abbrev pub Event : Type 0
Event = ℕ × ℕ

-- The tick, counted from `now`, at which each entry goes off, with its function.
unfoldable pub expiries : ℕ → List Timer → List Event
expiries now [] = []
expiries now (t ∷ ts) = (now + t.jiffies, t.fn) ∷ expiries (now + t.jiffies) ts

-- Events that are put off by d ticks.
unfoldable pub delay : ℕ → List Event → List Event
delay d [] = []
delay d ((when, g) ∷ es) = (when + d, g) ∷ delay d es

-- A new event among events in order of time, before those of the same time; the later ones are put
-- off by what is left of the new one's time at its place.
unfoldable pub insert_event : ℕ → ℕ → ℕ → List Event → List Event
unfolding delay
insert_event now at fn [] = (at, fn) ∷ []
insert_event now at fn ((when, g) ∷ es) =
    let rest = insert_event when at fn es in
    if ltb when at then (when, g) ∷ rest else (at, fn) ∷ delay (at - now) ((when, g) ∷ es)

expiries-shift : (d now : ℕ) (ts : List Timer) → expiries (now + d) ts ≡ delay d (expiries now ts)
unfolding expiries delay
expiries-shift d now [] = refl
expiries-shift d now (t ∷ ts) =
    let e : now + d + t.jiffies ≡ now + t.jiffies + d = omega arith in
    rw (e, expiries-shift d (now + t.jiffies) ts)

-- The new timer goes off at its time, and those due before it are not disturbed. Those due then or
-- later are put off by the time from the last earlier timer (or from now) to the new one.
expiries-sink :
    (now : ℕ) (p : Timer) (ts : List Timer)
    → expiries now (sink p ts) ≡ insert_event now (now + p.jiffies) p.fn (expiries now ts)
unfolding sink expiries insert_event delay
expiries-sink now p [] = refl
expiries-sink now p (q ∷ qs) = elim (dec_lt q.jiffies p.jiffies) [
  | yes h ↦
      let e : now + q.jiffies + (p.jiffies - q.jiffies) ≡ now + p.jiffies = omega arith in
      ground (arith, e, expiries-sink (now + q.jiffies) (timer (p.jiffies - q.jiffies) p.fn) qs)
  | no h ↦
      let e : now + p.jiffies - now ≡ p.jiffies = omega arith in
      let f : now + p.jiffies + q.jiffies ≡ now + q.jiffies + p.jiffies = omega arith in
      rw
        (
          le→ltb_false q.jiffies p.jiffies (omega arith),
          le→ltb_false (now + q.jiffies) (now + p.jiffies) (omega arith),
          f,
          expiries-shift p.jiffies (now + q.jiffies) qs,
        )
        (ap
          (λ d.
            (now + p.jiffies, p.fn)
            ∷ delay d ((now + q.jiffies, q.fn) ∷ expiries (now + q.jiffies) qs))
          (sym e))
]

-- The functions of the events of one tick, in order.
unfoldable pub due : ℕ → List Event → List ℕ
due k [] = []
due k ((when, g) ∷ es) = let rest = due k es in if when == k then g ∷ rest else rest

-- The same for the n ticks after `now`.
unfoldable pub due_from : ℕ → ℕ → List Event → List (List ℕ)
unfolding due
due_from now zero es = []
due_from now (suc n) es = due (now + 1) es ∷ due_from (now + 1) n es

due_later : (k now : ℕ) (ts : List Timer) → k < now → due k (expiries now ts) ≡ []
unfolding due expiries
due_later k now [] h = refl
due_later k now (t ∷ ts) h = ground (arith, due_later k (now + t.jiffies) ts)

expire-due : (now : ℕ) (ts : List Timer) → (expire ts).0 ≡ due now (expiries now ts)
unfolding expire due expiries
expire-due now [] = refl
expire-due now (t ∷ ts) =
    ground (arith, expire-due now ts, due_later now (now + t.jiffies) ts, zero_jiffies)
  where
    zero_jiffies : t.jiffies ≡ 0 → now + t.jiffies ≡ now
    zero_jiffies e = omega arith

expire-keeps :
    (k now : ℕ) (ts : List Timer)
    → now < k
    → due k (expiries now (expire ts).1) ≡ due k (expiries now ts)
unfolding expire due expiries
expire-keeps k now [] h = refl
expire-keeps k now (t ∷ ts) h = elim (Bool-cases (t.jiffies == 0)) [
  | inl e ↦
      let z : now + t.jiffies ≡ now = ground arith in ground (arith, z, expire-keeps k now ts h)
  | inr e ↦ ground arith
]

due_from-keeps :
    (now n : ℕ) (es fs : List Event)
    → ((k : ℕ) → now < k → due k es ≡ due k fs)
    → due_from now n es ≡ due_from now n fs
unfolding due_from
due_from-keeps now zero es fs h = refl
due_from-keeps now (suc n) es fs h =
    rw (h (now + 1) (omega arith), due_from-keeps (now + 1) n es fs (λ k lt. h k (omega arith)))

-- The first entry has a tick to go.
abbrev pub IsStarted : List Timer → Type 0
IsStarted [] = Unit
IsStarted (t ∷ ts) = 0 < t.jiffies

expire-IsStarted : (ts : List Timer) → IsStarted (expire ts).1
unfolding expire
expire-IsStarted [] = tt
expire-IsStarted (t ∷ ts) = ground (arith, expire-IsStarted ts)

-- Each tick of the timer interrupt calls, in the order of the list, the functions whose time has
-- come, and no others: the deltas that the list holds count as the times that they add up to.
pub run_ticks-due :
    (now n : ℕ) (ts : List Timer) → IsStarted ts → run_ticks n ts ≡ due_from now n (expiries now ts)
unfolding run_ticks due_from tick_timers expiries
run_ticks-due now zero ts h = refl
run_ticks-due now (suc n) [] h = ap (λ r. [] ∷ r) (run_ticks-due (now + 1) n [] tt)
run_ticks-due now (suc n) (t ∷ ts) h =
    let us : List Timer = timer (t.jiffies - 1) t.fn ∷ ts in
    let same : expiries now (t ∷ ts) ≡ expiries (now + 1) us =
      let e : now + 1 + (t.jiffies - 1) ≡ now + t.jiffies = omega arith in rw e in
    ap₂ ◌∷◌ (expire-due (now + 1) us ∙ ap (due (now + 1)) (sym same)) (
      run_ticks-due (now + 1) n (expire us).1 (expire-IsStarted us)
      ∙ due_from-keeps (now + 1) n (expiries (now + 1) (expire us).1) (expiries (now + 1) us)
          (λ k lt. expire-keeps k (now + 1) us lt)
      ∙ ap (due_from (now + 1) n) (sym same))

sink-IsStarted :
    (p : Timer) (ts : List Timer) → 0 < p.jiffies → IsStarted ts → IsStarted (sink p ts)
unfolding sink
sink-IsStarted p [] h v = h
sink-IsStarted p (t ∷ ts) h v = ground arith

-- After `add_timer` with a positive number of ticks, the following ticks call the functions that
-- were due before, and the new one at its time. The events that come at that time or later are put
-- off by what is left of the new one's time after the last event before it.
pub add_timer-due :
    (j fn : ℕ) (ts : List Timer) (n : ℕ)
    → 0 < j
    → IsStarted ts
    → length ts < time_requests
    → (us : List Timer) × (add_timer (pos j) (some fn) ts
        ≡ done (record { called = none; timers = us }))
      × (run_ticks n us ≡ due_from 0 n (insert_event 0 j fn (expiries 0 ts)))
unfolding add_timer
add_timer-due j fn ts n h v room = (
  sink (timer j fn) ts,
  ground arith,
  rw (run_ticks-due 0 n (sink (timer j fn) ts) (sink-IsStarted (timer j fn) ts h v))
      (rw (expiries-sink 0 (timer j fn) ts, add.zero)),
)

-- A timer that is due after the new one goes off late, by the whole of the new one's time.
later_timer_delayed :
    (j fn : ℕ) (t : Timer)
    → 0 < j
    → j ≤ t.jiffies
    → expiries 0 (sink (timer j fn) (t ∷ [])) ≡ (j, fn) ∷ (t.jiffies + j, t.fn) ∷ []
unfolding expiries sink
later_timer_delayed j fn t h k = ground arith
