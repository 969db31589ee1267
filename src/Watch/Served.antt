-- ===== src/Watch/Served.antt =====
-- No hint is lost by the coordinator of src/watch/coordinator.rs.
use mathlib.Core.List.{[]}
use ramo.Watch.{
  event_hint, WatchCoordinator, manual_hint, tick, finish, is_early, is_in_flight, u64_max,
  with_safety_interval, is_due,
}
use ramo.Prelude.{
  ℕ, Option, List, ◌≡◌, ◌≤◌, some, none, ◌∷◌, true, ◌+◌, ◌⊎◌, arith, [], Option-cases, inr, inl,
  some_inj, refl, Bool-cases, min, false, ◌∙◌, ◌≢◌, Bool, not, ◌||◌, ◌&&◌, le→leb, ltb,
}

-- What reaches the coordinator, each with its time.
pub data Input : Type 0 where
  event manual timer : Input
  done : ℕ → Input

-- One call, with the generation that a tick asks for.
unfoldable pub handle : WatchCoordinator → ℕ → Input → WatchCoordinator × Option ℕ
unfolding event_hint manual_hint tick finish
handle c now event = (event_hint c now, none)
handle c now manual = (manual_hint c now, none)
handle c now timer = tick c now
handle c now (done generation) = (finish c generation now, none)

abbrev added : Option ℕ → List ℕ → List ℕ
added none fired = fired
added (some generation) fired = generation ∷ fired

unfoldable pub handle_all : WatchCoordinator → List (ℕ × Input) → WatchCoordinator × List ℕ
unfolding handle
handle_all c [] = (c, [])
handle_all c ((now, input) ∷ rest) =
    let (c', fired) = handle c now input in
    let (last, later) = handle_all c' rest in (last, added fired later)

-- The times do not go back, from a first one to a last one.
abbrev pub InOrder : ℕ → List (ℕ × Input) → ℕ → Type 0
InOrder first [] last = first ≤ last
InOrder first ((now, input) ∷ rest) last = (first ≤ now) × InOrder now rest last

-- A load is owed: either the one in flight is marked as outdated, or a deadline is set that is not
-- later than the given one, or than the time now.
abbrev pub Owes : WatchCoordinator → ℕ → ℕ → Type 0
Owes c deadline now =
    ((generation : ℕ) × (c.in_flight ≡ some generation) × (c.dirty ≡ true))
    ⊎ ((c.in_flight ≡ none)
        × ((m : ℕ) × (c.maximum_deadline ≡ some m) × ((m ≤ deadline) ⊎ (m ≤ now))))

-- No deadline is further away than the greatest delay.
abbrev pub IsPrompt : WatchCoordinator → ℕ → Type 0
IsPrompt c now = (m : ℕ) → c.maximum_deadline ≡ some m → m ≤ now + c.maximum_delay

-- A call keeps the delays, and after it no deadline is too far away.
handle-IsPrompt :
    (c : WatchCoordinator) (before now : ℕ) (input : Input)
    → before ≤ now
    → IsPrompt c before
    → ((handle c now input).0.maximum_delay ≡ c.maximum_delay) × IsPrompt (handle c now input).0 now
unfolding handle event_hint manual_hint tick finish
handle-IsPrompt c before now event l h = elim (Option-cases c.in_flight) [
  | inr (g, e) ↦ rw (e, event_hint) (refl, λ m k. omega (arith, h m k))
  | inl e ↦ elim (Option-cases c.maximum_deadline) [
    | inl f ↦ rw (e, f, event_hint) (refl, λ m k. omega (arith, some_inj k))
    | inr (n, f) ↦ rw (e, f, event_hint) (refl, λ m k. omega (arith, some_inj k, h n f))
  ]
]
handle-IsPrompt c before now manual l h = elim (Option-cases c.in_flight) [
  | inr (g, e) ↦ rw (e, manual_hint) (refl, λ m k. omega (arith, h m k))
  | inl e ↦ rw (e, manual_hint) (refl, λ m k. omega (arith, some_inj k))
]
handle-IsPrompt c before now timer l h = elim (Option-cases c.in_flight) [
  | inr (g, e) ↦ rw (e, tick) (refl, λ m k. omega (arith, h m k))
  | inl e ↦ elim (Bool-cases (is_early c now)) [
    | inl f ↦ rw (e, f, tick) (refl, λ m k. omega (arith, h m k))
    | inr f ↦ rw (e, f, tick) (refl, λ m k. cc)
  ]
]
handle-IsPrompt c before now (done g) l h = elim (Bool-cases (is_in_flight c g)) [
  | inr e ↦ rw (e, finish) (refl, λ m k. omega (arith, h m k))
  | inl e ↦ elim (Bool-cases c.dirty) [
    | inl f ↦ rw (e, f, finish) (refl, λ m k. omega (arith, some_inj k))
    | inr f ↦ rw (e, f, finish) (refl, λ m k. omega (arith, h m k))
  ]
]

fresh : (start q d s : ℕ) → IsPrompt (with_safety_interval start q d s) start
unfolding with_safety_interval
fresh start q d s m k = cc

delay_of : (start q d s : ℕ) → (with_safety_interval start q d s).maximum_delay ≡ d
unfolding with_safety_interval
delay_of start q d s = refl

hint-Owes :
    (c : WatchCoordinator) (before now : ℕ)
    → before ≤ now
    → IsPrompt c before
    → Owes (event_hint c now) (now + c.maximum_delay) now
unfolding event_hint
hint-Owes c before now l h = elim (Option-cases c.in_flight) [
  | inr (g, e) ↦ rw (e, event_hint) (inl (g, e, refl))
  | inl e ↦ elim (Option-cases c.maximum_deadline) [
    | inl f ↦ rw (e, f, event_hint) (inr (e, (now + c.maximum_delay, refl, inl (omega arith))))
    | inr (n, f) ↦ rw (e, f, event_hint) (inr (e, (n, refl, inl (omega (arith, h n f)))))
  ]
]

-- What is owed stays owed until a tick asks for a load.
handle-Owes :
    (c : WatchCoordinator) (deadline before now : ℕ) (input : Input)
    → before ≤ now
    → Owes c deadline before
    → ((generation : ℕ) × ((handle c now input).1 ≡ some generation))
      ⊎ Owes (handle c now input).0 deadline now
unfolding handle event_hint manual_hint tick finish
handle-Owes c deadline before now event l (inl (g, e, d)) =
    rw (e, event_hint) (inr (inl (g, e, refl)))
handle-Owes c deadline before now event l (inr (e, (m, f, h))) =
    rw (e, f, event_hint) (inr (inr (e, (m, refl, ground arith))))
handle-Owes c deadline before now manual l (inl (g, e, d)) =
    rw (e, manual_hint) (inr (inl (g, e, refl)))
handle-Owes c deadline before now manual l (inr (e, h)) =
    rw (e, manual_hint) (inr (inr (e, (now, refl, inr (omega arith)))))
handle-Owes c deadline before now timer l (inl (g, e, d)) = rw (e, tick) (inr (inl (g, e, d)))
handle-Owes c deadline before now timer l (inr (e, (m, f, h))) =
    elim (Bool-cases (is_early c now)) [
      | inl k ↦ rw (e, k, tick) (inr (inr (e, (m, f, ground arith))))
      | inr k ↦ rw (e, k, tick) (inl (min (c.next_generation + 1) u64_max, refl))
    ]
handle-Owes c deadline before now (done g) l (inl (k, e, d)) =
    elim (Bool-cases (is_in_flight c g)) [
      | inr f ↦ rw (f, finish) (inr (inl (k, e, d)))
      | inl f ↦ rw (f, d, finish) (inr (inr (refl, (now, refl, inr (omega arith)))))
    ]
handle-Owes c deadline before now (done g) l (inr (e, (m, k, h))) =
    let f : is_in_flight c g ≡ false = rw e refl in
    rw (f, finish) (inr (inr (e, (m, k, ground arith))))

handle_all-IsPrompt :
    (c : WatchCoordinator) (first last : ℕ) (inputs : List (ℕ × Input))
    → InOrder first inputs last
    → IsPrompt c first
    → ((handle_all c inputs).0.maximum_delay ≡ c.maximum_delay)
      × IsPrompt (handle_all c inputs).0 last
unfolding handle_all
handle_all-IsPrompt c first last [] o h = (refl, λ m k. omega (arith, h m k))
handle_all-IsPrompt c first last ((now, input) ∷ rest) o h =
    let (d, k) = handle-IsPrompt c first now input o.0 h in
    let (d', k') = handle_all-IsPrompt (handle c now input).0 now last rest o.1 k in (d' ∙ d, k')

handle_all-Owes :
    (c : WatchCoordinator) (deadline first last : ℕ) (inputs : List (ℕ × Input))
    → InOrder first inputs last
    → Owes c deadline first
    → ((handle_all c inputs).1 ≢ []) ⊎ Owes (handle_all c inputs).0 deadline last
unfolding handle_all
handle_all-Owes c deadline first last [] o (inl h) = inr (inl h)
handle_all-Owes c deadline first last [] o (inr (e, (m, k, h))) =
    inr (inr (e, (m, k, ground arith)))
handle_all-Owes c deadline first last ((now, input) ∷ rest) o h =
    elim (handle-Owes c deadline first now input o.0 h) [
      | inl (g, e) ↦ inl (rw e (λ k. cc))
      | inr k ↦ elim (handle_all-Owes (handle c now input).0 deadline now last rest o.1 k) [
        | inl more ↦ inl (grows (handle c now input).1 more)
        | inr owed ↦ inr owed
      ]
    ]
  where
    grows : {fired : List ℕ} (o : Option ℕ) → fired ≢ [] → added o fired ≢ []
    grows none h = h
    grows (some g) h = λ e. cc

-- A tick at the time when a load is owed asks for it, unless one is in flight.
tick_serves :
    (c : WatchCoordinator) (deadline now : ℕ)
    → deadline ≤ now
    → Owes c deadline now
    → ((generation : ℕ) × (c.in_flight ≡ some generation) × (c.dirty ≡ true))
      ⊎ ((generation : ℕ) × ((tick c now).1 ≡ some generation))
unfolding tick
tick_serves c deadline now l (inl h) = inl h
tick_serves c deadline now l (inr (e, (m, k, h))) =
    let due : is_due c.maximum_deadline now ≡ true = rw k (le→leb m now (ground arith)) in
    let f : is_early c now ≡ false =
      early (is_due c.quiet_deadline now) (is_due c.maximum_deadline now)
        (ltb now c.safety_deadline) due in
    inr (min (c.next_generation + 1) u64_max, rw (e, f, tick) refl)
  where
    early : (a b d : Bool) → b ≡ true → (not (a || b) && d) ≡ false
    early a b d h = ground arith

-- No change is lost: after an event at any time of any run, once the greatest delay has passed, a
-- load has been asked for since, or the next tick asks for one, or the load that is in flight is
-- marked as outdated and its end makes the next one due. This holds however many other events,
-- ticks and results come in between, if times do not go back.
pub event_hint-Owes :
    (start quiet_delay maximum_delay safety_interval : ℕ) (before after : List (ℕ × Input))
    (time now : ℕ)
    → InOrder start before time
    → InOrder time after now
    → time + maximum_delay ≤ now
    → let c =
        (handle_all
          (with_safety_interval start quiet_delay maximum_delay safety_interval)
          before).0 in
      let (last, fired) = handle_all (event_hint c time) after in
      (fired ≢ [])
      ⊎ ((generation : ℕ) × (last.in_flight ≡ some generation) × (last.dirty ≡ true))
      ⊎ ((generation : ℕ) × ((tick last now).1 ≡ some generation))
event_hint-Owes start quiet_delay maximum_delay safety_interval before after time now o p l =
    let first = with_safety_interval start quiet_delay maximum_delay safety_interval in
    let c = (handle_all first before).0 in
    let (d, prompt) =
      handle_all-IsPrompt first start time before o
        (fresh start quiet_delay maximum_delay safety_interval) in
    let owed = hint-Owes c time time (omega arith) prompt in
    elim (handle_all-Owes (event_hint c time) (time + c.maximum_delay) time now after p owed) [
      | inl h ↦ inl h
      | inr h ↦ inr (
          tick_serves (handle_all (event_hint c time) after).0 (time + c.maximum_delay) now
            (ground (arith, d, delay_of start quiet_delay maximum_delay safety_interval)) h)
    ]
