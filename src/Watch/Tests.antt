-- ===== src/Watch/Tests.antt =====
-- Runs of src/watch/coordinator.rs.
use ramo.Watch.Served.{handle_all, Input, manual, event, timer, done, event_hint-Owes}
use ramo.Prelude.{List, ℕ, ◌≡◌, [], some, ◌∷◌, ◌≢◌, true, ◌⊎◌, refl, false, arith}
use ramo.Watch.{
  WatchCoordinator, accept_result, with_safety_interval, tick, event_hint, finish, manual_hint,
}

abbrev started : WatchCoordinator
started = with_safety_interval 0 100 500 10000

-- Events that keep coming do not put the load off for more than the greatest delay.
abbrev stream : List (ℕ × Input)
stream = (90, event) ∷ (180, timer) ∷ (270, event) ∷ (360, event) ∷ (450, event) ∷ []

stream_test :
    ((handle_all (event_hint started 10) stream).1 ≡ [])
    × ((tick (handle_all (event_hint started 10) stream).0 510).1 ≡ some 1)
unfolding handle_all with_safety_interval event_hint tick
stream_test = (refl, refl)

-- An event during a load makes the next one due when it ends.
dirty_test :
    (handle_all started ((0, manual) ∷ (0, timer) ∷ (5, event) ∷ (9, done 1) ∷ (9, timer) ∷ [])).1
    ≡ 1 ∷ 2 ∷ []
unfolding handle_all with_safety_interval
dirty_test = refl

-- Only the load in flight is accepted.
accept_test :
    let c = (tick (manual_hint started 0) 0).0 in
    (accept_result c 1 ≡ true) × (accept_result (finish c 1 3) 1 ≡ false)
unfolding accept_result tick finish manual_hint with_safety_interval
accept_test = (refl, refl)

event_hint-Owes_example :
    ((handle_all (event_hint (handle_all started []).0 10) stream).1 ≢ [])
    ⊎ ((generation : ℕ) × ((handle_all (event_hint (handle_all started []).0 10) stream).0.in_flight
          ≡ some generation)
        × ((handle_all (event_hint (handle_all started []).0 10) stream).0.dirty ≡ true))
    ⊎ ((generation : ℕ) × ((tick
            (handle_all (event_hint (handle_all started []).0 10) stream).0
            510).1
          ≡ some generation))
event_hint-Owes_example =
    event_hint-Owes 0 100 500 10000 [] stream 10 510 (omega arith) (omega arith) (omega arith)
