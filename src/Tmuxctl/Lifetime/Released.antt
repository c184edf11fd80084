-- ===== src/Tmuxctl/Lifetime/Released.antt =====
-- What is left when the subscription's goroutine has returned.
use tmux_pane_control.Prelude.{
  ℕ, suc, ◌+◌, ◌-◌, ◌≡◌, refl, ap, false, List, [], ◌∷◌, Bytes, if◌then◌else◌, arith, Bool-cases,
  inl, inr,
}
use tmux_pane_control.Tmuxctl.Lifetime.{
  Tracker, StartCalls, start_pane_tracker, stop, Stops, stops, Ends, ends, Changes, here, there,
  teardown, Running, polls, awaits, returned, Life, one_if, Step, start_one, stop_one, end_one,
  cancelled, waited, Reach, subscribe, later,
}

-- A tracker without a goroutine holds no file and no directory.
abbrev pub Clean : Tracker → Type 0
Clean t = t.reading ≡ false → (t.dir_exists ≡ false) × (t.file_open ≡ false)

abbrev pub Unmapped : Tracker → Type 0
Unmapped t = t.mapped ≡ false

abbrev pub Every : (Tracker → Type 0) → List Tracker → Type 0
Every P [] = Unit
Every P (t ∷ ts) = P t × Every P ts

unfoldable pub count_reading : List Tracker → ℕ
count_reading [] = 0
count_reading (t ∷ ts) = one_if t.reading + count_reading ts

start_pane_tracker-Clean : (c : StartCalls) (p : Bytes) → Clean (start_pane_tracker c p)
unfolding start_pane_tracker
start_pane_tracker-Clean c p = ground arith

Changes-Every :
    (R : Tracker → Tracker → Type 0) (P : Tracker → Type 0) {ts us : List Tracker}
    → ((t u : Tracker) → R t u → P t → P u)
    → Changes R ts us
    → Every P ts
    → Every P us
Changes-Every R P keep (here r) (p, rest) = (keep _ _ r p, rest)
Changes-Every R P keep (there c) (p, rest) = (p, Changes-Every R P keep c rest)

Stops-Clean : (t u : Tracker) → Stops t u → Clean t → Clean u
Stops-Clean t u (stops m) c = λ r. ((c r).0, refl)

Ends-Clean : (t u : Tracker) → Ends t u → Clean t → Clean u
Ends-Clean t u (ends m) c = λ r. (refl, refl)

Ends-Unmapped : (t u : Tracker) → Ends t u → Unmapped t → Unmapped u
Ends-Unmapped t u (ends m) un = un

Stops-count_reading :
    {ts us : List Tracker} → Changes Stops ts us → count_reading us ≡ count_reading ts
unfolding count_reading
Stops-count_reading (here (stops m)) = refl
Stops-count_reading (there {t} c) = ap (λ n. one_if t.reading + n) (Stops-count_reading c)

Ends-count_reading :
    {ts us : List Tracker} → Changes Ends ts us → suc (count_reading us) ≡ count_reading ts
unfolding count_reading
Ends-count_reading (here (ends r)) = rw r (omega arith)
Ends-count_reading (there {t} c) = omega (arith, Ends-count_reading c)

stop_if-Clean : (t : Tracker) → Clean t → Clean (if t.mapped then stop t else t)
stop_if-Clean t c = elim (Bool-cases t.mapped) [
  | inl m ↦ rw m (λ r. ((c r).0, refl))
  | inr m ↦ rw m c
]

stop_if-Unmapped : (t : Tracker) → Unmapped (if t.mapped then stop t else t)
stop_if-Unmapped t = elim (Bool-cases t.mapped) [ inl m ↦ rw m refl | inr m ↦ rw m refl ]

stop_if-reading : (t : Tracker) → (if t.mapped then stop t else t).reading ≡ t.reading
stop_if-reading t = elim (Bool-cases t.mapped) [ inl m ↦ rw m refl | inr m ↦ rw m refl ]

teardown-Clean : (ts : List Tracker) → Every Clean ts → Every Clean (teardown ts)
unfolding teardown
teardown-Clean [] e = tt
teardown-Clean (t ∷ ts) (c, e) = (stop_if-Clean t c, teardown-Clean ts e)

teardown-Unmapped : (ts : List Tracker) → Every Unmapped (teardown ts)
unfolding teardown
teardown-Unmapped [] = tt
teardown-Unmapped (t ∷ ts) = (stop_if-Unmapped t, teardown-Unmapped ts)

teardown-count_reading : (ts : List Tracker) → count_reading (teardown ts) ≡ count_reading ts
unfolding teardown count_reading
teardown-count_reading [] = refl
teardown-count_reading (t ∷ ts) = rw (stop_if-reading t, teardown-count_reading ts) refl

-- No goroutine, no file, no directory, no entry in the map.
abbrev pub Released : Tracker → Type 0
Released t =
    (t.reading ≡ false) × (t.file_open ≡ false) × (t.dir_exists ≡ false) × (t.mapped ≡ false)

Every-Released :
    (ts : List Tracker)
    → Every Clean ts
    → Every Unmapped ts
    → count_reading ts ≡ 0
    → Every Released ts
unfolding count_reading
Every-Released [] c u n = tt
Every-Released (t ∷ ts) (c, cs) (u, us) n =
    let r : t.reading ≡ false = ground (arith, n) in
    ((r, (c r).1, (c r).0, u), Every-Released ts cs us (omega (arith, n)))

-- What holds at each point of `run`.
abbrev pub At : Running → Life → Type 0
At polls l = Unit
At awaits l = Every Unmapped l.trackers
At returned l = Every Unmapped l.trackers × (l.wait_group ≡ 0)

pub record Inv (l : Life) : Type 0 where
  pub clean : Every Clean l.trackers
  pub counted : l.wait_group ≡ count_reading l.trackers
  pub at : At l.running l

Ends-At :
    (g : Running) (l : Life) (ts : List Tracker)
    → Changes Ends l.trackers ts
    → At g l
    → At g (record l { trackers = ts; wait_group = l.wait_group - 1 })
Ends-At polls l ts c a = tt
Ends-At awaits l ts c a = Changes-Every Ends Unmapped Ends-Unmapped c a
Ends-At returned l ts c (a, n) = (Changes-Every Ends Unmapped Ends-Unmapped c a, omega (arith, n))

Step-Inv : {l k : Life} → Step l k → Inv l → Inv k
unfolding count_reading
Step-Inv (start_one c p g) i = record {
  clean = (start_pane_tracker-Clean c p, i.clean);
  counted = omega (arith, i.counted);
  at = rw g tt;
}
Step-Inv (stop_one ts g c) i = record {
  clean = Changes-Every Stops Clean Stops-Clean c i.clean;
  counted = rw (Stops-count_reading c) (i.counted);
  at = rw g tt;
}
Step-Inv {l} (end_one ts c) i = record {
  clean = Changes-Every Ends Clean Ends-Clean c i.clean;
  counted = omega (arith, i.counted, Ends-count_reading c);
  at = Ends-At l.running l ts c i.at;
}
Step-Inv {l} (cancelled g) i = record {
  clean = teardown-Clean l.trackers i.clean;
  counted = rw (teardown-count_reading l.trackers) (i.counted);
  at = teardown-Unmapped l.trackers;
}
Step-Inv (waited g n) i = record { clean = i.clean; counted = i.counted; at = (rw g at (i.at), n) }

Reach-Inv : {l : Life} → Reach l → Inv l
unfolding count_reading
Reach-Inv subscribe = record { clean = tt; counted = refl; at = tt }
Reach-Inv (later r p) = Step-Inv p (Reach-Inv r)

-- However the starts, the stops, the ends of the goroutines, the failures of any call of a start and the
-- end of the context interleave: when the subscription's goroutine has returned, and has closed the channel
-- of its events, no tracker that was ever started has a goroutine, which could send on that channel, an
-- open file, a temporary directory, or an entry in the map.
pub released : {l : Life} → Reach l → l.running ≡ returned → Every Released l.trackers
unfolding count_reading
released {l} r e =
    let i = Reach-Inv r in
    let (u, n) = rw e at (i.at) in Every-Released l.trackers i.clean u (omega (arith, i.counted, n))
