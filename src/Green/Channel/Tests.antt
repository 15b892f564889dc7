-- ===== src/Green/Channel/Tests.antt =====
-- A channel of numbers, and the theorems at these runs.
use grenat.Prelude.{ℕ, ◌≡◌, ◌≢◌, refl, arith, true, false, List, [], ◌∷◌, ◌++◌, some, ◌==◌}
use grenat.Green.Channel.{
  Event, sends, drops, receives, moves, channel, start, step, run, send, drop_sender, recv, advance,
  starts_recv,
}
use grenat.Green.Channel.Sound.{sleeper, has_ended, is_dropped}
use grenat.Green.Channel.Order.{received_in_order, no_receiver_forgotten}

abbrev over : List (Event ℕ)
over = sends 7 ∷ sends 8 ∷ receives 0 ∷ moves ∷ drops ∷ receives 0 ∷ moves ∷ receives 0 ∷ moves ∷ []

over-got : (run start over).got ≡ 7 ∷ 8 ∷ []
unfolding run step start channel send drop_sender starts_recv advance recv
over-got = refl

over-ended : has_ended (run start over).phase ≡ true
unfolding run step start channel send drop_sender starts_recv advance recv
over-ended = refl

abbrev empty : List (Event ℕ)
empty = receives 5 ∷ moves ∷ []

empty-asleep : sleeper (run start empty).phase ≡ some 5
unfolding run step start channel starts_recv advance recv
empty-asleep = refl

-- A value wakes the receiver.
empty-woken : sleeper (step (run start empty) (sends 9)).phase ≢ some 5
unfolding run step start channel send starts_recv advance recv
empty-woken e = ground arith

received_in_order_example :
    (left : List ℕ) × ((run start over).sent ≡ (run start over).got ++ left)
    × (is_dropped (run start over).phase ≡ false → left ≡ (run start over).state.items)
    × (has_ended (run start over).phase ≡ true → (run start over).got ≡ (run start over).sent)
received_in_order_example = received_in_order over

no_receiver_forgotten_example :
    ((run start empty).state.items ≡ [])
    × (((run start empty).state.senders == 0) ≡ false)
    × ((run start empty).state.receiver ≡ some 5)
no_receiver_forgotten_example = no_receiver_forgotten empty 5 empty-asleep
