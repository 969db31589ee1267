-- ===== src/Watch.antt =====
-- src/watch/coordinator.rs: when a watched review is loaded again. Instants and durations are
-- numbers of nanoseconds; a sum beyond the range of `Instant` would panic and is not modelled.
pub mod Served
mod Tests
use ramo.Prelude.{
  ℕ, Option, ◌^◌, Bool, none, some, if◌then◌else◌, ◌-◌, false, true, not, ◌&&◌, ◌+◌, leb, ◌||◌,
  ◌==◌, ltb, min, ◌*◌,
}

abbrev pub u64_max : ℕ
u64_max = 2 ^ 64 - 1

pub record WatchCoordinator : Type 0 where
  pub next_generation : ℕ
  pub latest_requested : ℕ
  pub in_flight : Option ℕ
  pub dirty : Bool
  pub quiet_delay : ℕ
  pub maximum_delay : ℕ
  pub quiet_deadline : Option ℕ
  pub maximum_deadline : Option ℕ
  pub safety_deadline : ℕ
  pub safety_interval : ℕ

unfoldable pub with_safety_interval : ℕ → ℕ → ℕ → ℕ → WatchCoordinator
with_safety_interval start quiet_delay maximum_delay safety_interval = record {
  next_generation = 0;
  latest_requested = 0;
  in_flight = none;
  dirty = false;
  quiet_delay = quiet_delay;
  maximum_delay = maximum_delay;
  quiet_deadline = none;
  maximum_deadline = none;
  safety_deadline = start + safety_interval;
  safety_interval = safety_interval;
}

abbrev pub default_safety_interval : ℕ
default_safety_interval = 10 * 10 ^ 9

unfoldable pub new : ℕ → ℕ → ℕ → WatchCoordinator
unfolding with_safety_interval
new start quiet_delay maximum_delay =
    with_safety_interval start quiet_delay maximum_delay default_safety_interval

-- `get_or_insert`.
abbrev pub or_insert : Option ℕ → ℕ → ℕ
or_insert none deadline = deadline
or_insert (some earlier) deadline = earlier

unfoldable pub event_hint : WatchCoordinator → ℕ → WatchCoordinator
event_hint c now = elim c.in_flight [
  | some generation ↦ record c { dirty = true }
  | none ↦ record c {
    quiet_deadline = some (now + c.quiet_delay);
    maximum_deadline = some (or_insert c.maximum_deadline (now + c.maximum_delay));
  }
]

unfoldable pub manual_hint : WatchCoordinator → ℕ → WatchCoordinator
manual_hint c now = elim c.in_flight [
  | some generation ↦ record c { dirty = true }
  | none ↦ record c { quiet_deadline = some now; maximum_deadline = some now }
]

-- `is_some_and(|deadline| now >= deadline)`.
abbrev pub is_due : Option ℕ → ℕ → Bool
is_due none now = false
is_due (some deadline) now = leb deadline now

abbrev pub requested : WatchCoordinator → ℕ → WatchCoordinator
requested c generation = record c {
  next_generation = generation;
  latest_requested = generation;
  in_flight = some generation;
  quiet_deadline = none;
  maximum_deadline = none;
}

-- `!event_due && now < self.safety_deadline`.
abbrev pub is_early : WatchCoordinator → ℕ → Bool
is_early c now =
    not (is_due c.quiet_deadline now || is_due c.maximum_deadline now) && ltb now c.safety_deadline

unfoldable pub tick : WatchCoordinator → ℕ → WatchCoordinator × Option ℕ
tick c now = elim c.in_flight [
  | some generation ↦ (c, none)
  | none ↦
      if is_early c now
      then (c, none)
      else (let generation = min (c.next_generation + 1) u64_max in
          (requested c generation, some generation))
]

abbrev pub is_in_flight : WatchCoordinator → ℕ → Bool
is_in_flight c generation = elim c.in_flight [ none ↦ false | some g ↦ g == generation ]

unfoldable pub finish : WatchCoordinator → ℕ → ℕ → WatchCoordinator
finish c generation now =
    if not (is_in_flight c generation)
    then c
    else if c.dirty
    then record c {
      in_flight = none;
      safety_deadline = now + c.safety_interval;
      dirty = false;
      quiet_deadline = some now;
      maximum_deadline = some now;
    }
    else record c { in_flight = none; safety_deadline = now + c.safety_interval }

unfoldable pub accept_result : WatchCoordinator → ℕ → Bool
accept_result c generation = is_in_flight c generation && generation == c.latest_requested
