-- ===== src/Green/Channel/Order.antt =====
-- What a channel promises, whatever the senders and the receiver do and in whatever order.
use mathlib.Core.List.{append-nil}
use grenat.Prelude.{ℕ, ◌≡◌, refl, sym, ap, ◌∙◌, true, false, List, [], ◌++◌, some, ◌==◌, arith}
use grenat.Green.Channel.{Phase, away, in_recv, parked, dropped, System, Event, start, run}
use grenat.Green.Channel.Sound.{sleeper, has_ended, is_dropped, Sound, start-Sound, run-Sound}

module _ {ℓ} {A : Type ℓ} where
  -- After any steps, the values received are the first ones sent, in their order; while the receiver is there
  -- the others are in the channel; and once `recv` has given `None` all are received.
  pub received_in_order :
      (es : List (Event A))
      → let y = run start es in
        (left : List A) × (y.sent ≡ y.got ++ left)
        × (is_dropped y.phase ≡ false → left ≡ y.state.items)
        × (has_ended y.phase ≡ true → y.got ≡ y.sent)
  received_in_order es =
      let y = run start es in
      let v = run-Sound start es start-Sound in (v.left, v.in_order, v.kept, λ e. all_got y v e)
    where
      not_dropped : (p : Phase A) → has_ended p ≡ true → is_dropped p ≡ false
      not_dropped (away l) e = refl
      not_dropped (in_recv k) e = refl
      not_dropped (parked k n) e = refl
      not_dropped dropped e = absurd (ground arith)

      all_got : (y : System A) → Sound y → has_ended y.phase ≡ true → y.got ≡ y.sent
      all_got y v e =
          let none_left : v.left ≡ [] = v.kept (not_dropped y.phase e) ∙ (v.over e).1 in
          sym (v.in_order ∙ ap (λ xs. y.got ++ xs) none_left ∙ append-nil y.got)

  -- After any steps, where the receiver is parked and no wake-up has come to it, the channel is empty, a sender
  -- is left, and the channel knows the task to wake.
  pub no_receiver_forgotten :
      (es : List (Event A)) (k : ℕ)
      → let y = run start es in
        sleeper y.phase ≡ some k
        → (y.state.items ≡ []) × ((y.state.senders == 0) ≡ false) × (y.state.receiver ≡ some k)
  no_receiver_forgotten es k e =
      let v = run-Sound start es start-Sound in (v.no_items k e, v.has_senders k e, v.is_waiter k e)
