-- ===== src/Green/Channel/Sound.antt =====
-- What holds of a channel after any steps.
use mathlib.Core.List.{append_assoc, append-nil}
use grenat.Prelude.{
  ℕ, ◌-◌, ◌≡◌, ◌≢◌, refl, sym, ap, ◌∙◌, Bool, true, false, List, [], ◌∷◌, ◌++◌, Option, none, some,
  ◌==◌, arith, Bool-cases, inl, inr,
}
use grenat.Green.Channel.{
  Phase, away, in_recv, parked, dropped, System, Event, sends, clones, drops, receives, moves,
  drops_receiver, channel, wake, send, clone_sender, drop_sender, recv, start, advance, starts_recv,
  ends, step, run,
}

module _ {ℓ} {A : Type ℓ} where
  -- The task that is parked without a wake-up.
  abbrev pub sleeper : Phase A → Option ℕ
  sleeper (parked k false) = some k
  sleeper _ = none

  -- `recv` has given `None`.
  abbrev pub has_ended : Phase A → Bool
  has_ended (away (some none)) = true
  has_ended _ = false

  abbrev pub is_dropped : Phase A → Bool
  is_dropped dropped = true
  is_dropped _ = false

  pub record Sound (y : System A) : Type ℓ where
    pub left : List A
    pub in_order : y.sent ≡ y.got ++ left
    pub kept : is_dropped y.phase ≡ false → left ≡ y.state.items
    pub opened : is_dropped y.phase ≡ false → y.state.is_open ≡ true
    pub no_items : (k : ℕ) → sleeper y.phase ≡ some k → y.state.items ≡ []
    pub has_senders : (k : ℕ) → sleeper y.phase ≡ some k → (y.state.senders == 0) ≡ false
    pub is_waiter : (k : ℕ) → sleeper y.phase ≡ some k → y.state.receiver ≡ some k
    pub over : has_ended y.phase ≡ true → (y.state.senders ≡ 0) × (y.state.items ≡ [])

  is_dropped-wake : (o : Option ℕ) (p : Phase A) → is_dropped (wake o p) ≡ is_dropped p
  is_dropped-wake none p = refl
  is_dropped-wake (some j) (parked k n) = ground arith
  is_dropped-wake (some j) (away l) = refl
  is_dropped-wake (some j) (in_recv k) = refl
  is_dropped-wake (some j) dropped = refl

  has_ended-wake : (o : Option ℕ) (p : Phase A) → has_ended (wake o p) ≡ has_ended p
  has_ended-wake none p = refl
  has_ended-wake (some j) (parked k n) = ground arith
  has_ended-wake (some j) (away l) = refl
  has_ended-wake (some j) (in_recv k) = refl
  has_ended-wake (some j) dropped = refl

  -- A waiter that is the sleeper is woken.
  sleeper-wake : (k : ℕ) (p : Phase A) → sleeper p ≡ some k → sleeper (wake (some k) p) ≡ none
  sleeper-wake k (parked j false) e = elim (Bool-cases (k == j)) [
    | inl h ↦ rw h refl
    | inr h ↦ absurd (ground arith)
  ]
  sleeper-wake k (parked j true) e = absurd (ground arith)
  sleeper-wake k (away l) e = absurd (ground arith)
  sleeper-wake k (in_recv j) e = absurd (ground arith)
  sleeper-wake k dropped e = absurd (ground arith)

  -- A wake-up puts none to sleep.
  wake-sleeper :
      (o : Option ℕ) (p : Phase A) (k : ℕ) → sleeper (wake o p) ≡ some k → sleeper p ≡ some k
  wake-sleeper none p k e = e
  wake-sleeper (some j) (parked i false) k e = elim (Bool-cases (i == j)) [
    | inl h ↦ absurd (ground arith)
    | inr h ↦ ground arith
  ]
  wake-sleeper (some j) (parked i true) k e = absurd (ground arith)
  wake-sleeper (some j) (away l) k e = e
  wake-sleeper (some j) (in_recv i) k e = e
  wake-sleeper (some j) dropped k e = e

  -- Once the waiter that the channel has is woken, none sleeps.
  woken_all : (y : System A) → Sound y → (k : ℕ) → sleeper (wake y.state.receiver y.phase) ≢ some k
  woken_all y v k e =
      let was = wake-sleeper y.state.receiver y.phase k e in
      let now : sleeper (wake (some k) y.phase) ≡ some k =
        ap (λ o. sleeper (wake o y.phase)) (sym (v.is_waiter k was)) ∙ e in
      ground (arith, sleeper-wake k y.phase was, now)

  still_open :
      (y : System A) (o : Option ℕ)
      → is_dropped (wake o y.phase) ≡ false
      → is_dropped y.phase ≡ false
  still_open y o e = sym (is_dropped-wake o y.phase) ∙ e

  -- It has not ended while there is a sender.
  not_over : (y : System A) → Sound y → (y.state.senders == 0) ≡ false → has_ended y.phase ≢ true
  not_over y v some_left e = ground (arith, (v.over e).0)

  send-Sound : (y : System A) (value : A) → Sound y → Sound (step y (sends value))
  unfolding step send
  send-Sound y value v = elim (Bool-cases (y.state.senders == 0)) [
    | inl gone ↦ rw (gone, step) v
    | inr left ↦ elim (Bool-cases y.state.is_open) [
      | inl o ↦
          rw (left, o, step, send)
            (record {
              left = v.left ++ value ∷ [];
              in_order =
                  ap (λ xs. xs ++ value ∷ []) v.in_order ∙ append_assoc y.got v.left (value ∷ []);
              kept = λ e. ap (λ xs. xs ++ value ∷ []) (v.kept (still_open y y.state.receiver e));
              opened = λ e. refl;
              no_items = λ k e. absurd (woken_all y v k e);
              has_senders = λ k e. absurd (woken_all y v k e);
              is_waiter = λ k e. absurd (woken_all y v k e);
              over = λ e.
                  absurd (not_over y v left (sym (has_ended-wake y.state.receiver y.phase) ∙ e));
            })
      | inr c ↦ rw (left, c, step, send) v
    ]
  ]

  clone_sender-Sound : (y : System A) → Sound y → Sound (step y clones)
  unfolding step clone_sender
  clone_sender-Sound y v = elim (Bool-cases (y.state.senders == 0)) [
    | inl gone ↦ rw (gone, step) v
    | inr left ↦
        rw (left, step)
          (record {
            left = v.left;
            in_order = v.in_order;
            kept = v.kept;
            opened = v.opened;
            no_items = v.no_items;
            has_senders = λ k e. ground arith;
            is_waiter = v.is_waiter;
            over = λ e. absurd (not_over y v left e);
          })
  ]

  drop_sender-Sound : (y : System A) → Sound y → Sound (step y drops)
  unfolding step drop_sender
  drop_sender-Sound y v = elim (Bool-cases (y.state.senders == 0)) [
    | inl gone ↦ rw (gone, step) v
    | inr left ↦ elim (Bool-cases (y.state.senders - 1 == 0)) [
      | inl last ↦
          rw (left, last, step, drop_sender)
            (record {
              left = v.left;
              in_order = v.in_order;
              kept = λ e. v.kept (still_open y y.state.receiver e);
              opened = λ e. v.opened (still_open y y.state.receiver e);
              no_items = λ k e. absurd (woken_all y v k e);
              has_senders = λ k e. absurd (woken_all y v k e);
              is_waiter = λ k e. absurd (woken_all y v k e);
              over = λ e.
                  absurd (not_over y v left (sym (has_ended-wake y.state.receiver y.phase) ∙ e));
            })
      | inr more ↦
          rw (left, more, step, drop_sender)
            (record {
              left = v.left;
              in_order = v.in_order;
              kept = v.kept;
              opened = v.opened;
              no_items = v.no_items;
              has_senders = λ k e. more;
              is_waiter = v.is_waiter;
              over = λ e. absurd (not_over y v left e);
            })
    ]
  ]

  -- A move of the receiver to where it neither sleeps nor has ended.
  moved-Sound :
      (y : System A) (p : Phase A)
      → is_dropped p ≡ is_dropped y.phase
      → sleeper p ≡ none
      → has_ended p ≡ false
      → Sound y
      → Sound (record y { phase = p })
  moved-Sound y p d s h v = record {
    left = v.left;
    in_order = v.in_order;
    kept = λ e. v.kept (sym d ∙ e);
    opened = λ e. v.opened (sym d ∙ e);
    no_items = λ k e. absurd (ground (arith, s, e));
    has_senders = λ k e. absurd (ground (arith, s, e));
    is_waiter = λ k e. absurd (ground (arith, s, e));
    over = λ e. absurd (ground (arith, h, e));
  }

  recv-Sound :
      (y : System A) (k : ℕ) → y.phase ≡ in_recv k → Sound y → Sound (advance y (in_recv k))
  unfolding advance recv
  recv-Sound y k at v = go y.state.items refl
    where
      running : is_dropped y.phase ≡ false
      running = ap is_dropped at

      go : (items : List A) → y.state.items ≡ items → Sound (advance y (in_recv k))
      go (value ∷ rest) e =
          rw (e, recv)
            (record {
              left = rest;
              in_order =
                  v.in_order
                  ∙ ap (λ xs. y.got ++ xs) (v.kept running ∙ e)
                  ∙ sym (append_assoc y.got (value ∷ []) rest);
              kept = λ f. refl;
              opened = λ f. v.opened running;
              no_items = λ j f. absurd (ground arith);
              has_senders = λ j f. absurd (ground arith);
              is_waiter = λ j f. absurd (ground arith);
              over = λ f. absurd (ground arith);
            })
      go [] e = elim (Bool-cases (y.state.senders == 0)) [
        | inl gone ↦
            rw (e, gone, recv)
              (record {
                left = v.left;
                in_order = v.in_order ∙ ap (λ xs. xs ++ v.left) (sym (append-nil y.got));
                kept = λ f. v.kept running;
                opened = λ f. v.opened running;
                no_items = λ j f. absurd (ground arith);
                has_senders = λ j f. absurd (ground arith);
                is_waiter = λ j f. absurd (ground arith);
                over = λ f. (ground arith, e);
              })
        | inr left ↦
            rw (e, left, recv)
              (record {
                left = v.left;
                in_order = v.in_order ∙ ap (λ xs. xs ++ v.left) (sym (append-nil y.got));
                kept = λ f. v.kept running;
                opened = λ f. v.opened running;
                no_items = λ j f. e;
                has_senders = λ j f. left;
                is_waiter = λ j f. f;
                over = λ f. absurd (ground arith);
              })
      ]

  pub start-Sound : Sound start
  unfolding start channel
  start-Sound = record {
    left = [];
    in_order = refl;
    kept = λ e. refl;
    opened = λ e. refl;
    no_items = λ k e. absurd (ground arith);
    has_senders = λ k e. absurd (ground arith);
    is_waiter = λ k e. absurd (ground arith);
    over = λ e. absurd (ground arith);
  }

  advance-Sound : (y : System A) (p : Phase A) → y.phase ≡ p → Sound y → Sound (advance y p)
  unfolding advance
  advance-Sound y (in_recv k) at v = recv-Sound y k at v
  advance-Sound y (parked k n) at v = moved-Sound y (in_recv k) (ap is_dropped (sym at)) refl refl v
  advance-Sound y (away l) at v = v
  advance-Sound y dropped at v = v

  starts_recv-Sound :
      (y : System A) (k : ℕ) (p : Phase A) → y.phase ≡ p → Sound y → Sound (starts_recv y k p)
  unfolding starts_recv
  starts_recv-Sound y k (away l) at v =
      moved-Sound y (in_recv k) (ap is_dropped (sym at)) refl refl v
  starts_recv-Sound y k (in_recv j) at v = v
  starts_recv-Sound y k (parked j n) at v = v
  starts_recv-Sound y k dropped at v = v

  ends-Sound : (y : System A) (p : Phase A) → y.phase ≡ p → Sound y → Sound (ends y p)
  unfolding ends
  ends-Sound y (away l) at v = record {
    left = v.left;
    in_order = v.in_order;
    kept = λ e. absurd (ground arith);
    opened = λ e. absurd (ground arith);
    no_items = λ k e. absurd (ground arith);
    has_senders = λ k e. absurd (ground arith);
    is_waiter = λ k e. absurd (ground arith);
    over = λ e. absurd (ground arith);
  }
  ends-Sound y (in_recv j) at v = v
  ends-Sound y (parked j n) at v = v
  ends-Sound y dropped at v = v

  step-Sound : (y : System A) (e : Event A) → Sound y → Sound (step y e)
  unfolding step
  step-Sound y (sends value) v = send-Sound y value v
  step-Sound y clones v = clone_sender-Sound y v
  step-Sound y drops v = drop_sender-Sound y v
  step-Sound y (receives k) v = starts_recv-Sound y k y.phase refl v
  step-Sound y moves v = advance-Sound y y.phase refl v
  step-Sound y drops_receiver v = ends-Sound y y.phase refl v

  pub run-Sound : (y : System A) (es : List (Event A)) → Sound y → Sound (run y es)
  unfolding run
  run-Sound y [] v = v
  run-Sound y (e ∷ es) v = run-Sound (step y e) es (step-Sound y e v)
