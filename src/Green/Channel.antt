-- ===== src/Green/Channel.antt =====
-- crates/grenat_green/src/channel.rs: senders, and one receiver that parks. Each critical section of the code
-- is one step; the task that receives may go on without a wake-up, as `park` allows.
use grenat.Prelude.{
  ℕ, ◌+◌, ◌-◌, Bool, true, false, not, List, [], ◌∷◌, ◌++◌, Option, none, some, ltb, ◌==◌,
  if◌then◌else◌,
}
use grenat.Prelude.Results.{Result, ok, err}
pub mod Sound
pub mod Order
mod Tests

module _ {ℓ} where
  pub record State (A : Type ℓ) : Type ℓ where
    pub items : List A
    pub senders : ℕ
    pub is_open : Bool
    pub receiver : Option ℕ

  -- Where the receiver is: outside of `recv`, with what the last call gave, if any; in the loop, in the task
  -- `k`; parked, with or without a wake-up; dropped.
  pub data Phase (A : Type ℓ) : Type ℓ where
    away : Option (Option A) → Phase A
    in_recv : (k : ℕ) → Phase A
    parked : (k : ℕ) → (notified : Bool) → Phase A
    dropped : Phase A

  -- The channel, its receiver, and the values sent without refusal and received so far.
  pub record System (A : Type ℓ) : Type ℓ where
    pub state : State A
    pub phase : Phase A
    pub sent : List A
    pub got : List A

  -- What a sender or the receiver does.
  pub data Event (A : Type ℓ) : Type ℓ where
    sends : A → Event A
    clones drops : Event A
    receives : (k : ℕ) → Event A
    moves drops_receiver : Event A

module _ {ℓ} {A : Type ℓ} where
  unfoldable pub channel : State A
  channel = record { items = []; senders = 1; is_open = true; receiver = none }

  -- `waiter.wake()`, for the waiter that was taken.
  abbrev pub wake : Option ℕ → Phase A → Phase A
  wake (some j) (parked k n) = if j == k then parked k true else parked k n
  wake o phase = phase

  -- Whether the value was taken, and the waiter that is to be woken.
  unfoldable pub send : State A → A → Result A (State A × Option ℕ)
  send state value =
      if state.is_open
      then ok (record state { items = state.items ++ value ∷ []; receiver = none }, state.receiver)
      else err value

  unfoldable pub clone_sender : State A → State A
  clone_sender state = record state { senders = state.senders + 1 }

  unfoldable pub drop_sender : State A → State A × Option ℕ
  drop_sender state =
      let fewer = state.senders - 1 in
      if fewer == 0
      then (record state { senders = fewer; receiver = none }, state.receiver)
      else (record state { senders = fewer }, none)

  -- One round of the loop of `recv`, in the task `k`.
  unfoldable pub recv : State A → (k : ℕ) → State A × Phase A
  recv state k = elim state.items [
    | value ∷ rest ↦ (record state { items = rest }, away (some (some value)))
    | [] ↦
        if state.senders == 0
        then (state, away (some none))
        else (record state { receiver = some k }, parked k false)
  ]

  unfoldable pub drop_receiver : State A → State A
  drop_receiver state = record state { is_open = false; items = [] }

  abbrev received : Phase A → List A
  received (away (some (some value))) = value ∷ []
  received _ = []

  unfoldable pub start : System A
  unfolding channel
  start = record { state = channel; phase = away none; sent = []; got = [] }

  -- What the receiver does next.
  unfoldable pub advance : System A → Phase A → System A
  unfolding recv
  advance y (in_recv k) =
      let (state, phase) = recv y.state k in
      record y { state = state; phase = phase; got = y.got ++ received phase }
  advance y (parked k n) = record y { phase = in_recv k }
  advance y phase = y

  unfoldable pub starts_recv : System A → (k : ℕ) → Phase A → System A
  starts_recv y k (away last) = record y { phase = in_recv k }
  starts_recv y k phase = y

  unfoldable pub ends : System A → Phase A → System A
  unfolding drop_receiver
  ends y (away last) = record y { state = drop_receiver y.state; phase = dropped }
  ends y phase = y

  -- Only a sender sends, is cloned or is dropped.
  unfoldable pub step : System A → Event A → System A
  unfolding send clone_sender drop_sender advance starts_recv ends
  step y (sends value) = if y.state.senders == 0 then y else elim (send y.state value) [
    | err value' ↦ y
    | ok (state, task) ↦ record y {
      state = state;
      phase = wake task y.phase;
      sent = y.sent ++ value ∷ [];
    }
  ]
  step y clones = if y.state.senders == 0 then y else record y { state = clone_sender y.state }
  step y drops =
      if y.state.senders == 0
      then y
      else (let (state, task) = drop_sender y.state in
          record y { state = state; phase = wake task y.phase })
  step y (receives k) = starts_recv y k y.phase
  step y moves = advance y y.phase
  step y drops_receiver = ends y y.phase

  unfoldable pub run : System A → List (Event A) → System A
  run y [] = y
  run y (e ∷ es) = run (step y e) es
