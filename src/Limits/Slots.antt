-- ===== src/Limits/Slots.antt =====
-- crates/grenat_limits/src/slots.rs: at most so many calls in flight at once, the others queued.
use Prim.Native.Nat.{max as larger}
use grenat.Prelude.{
  ℕ, suc, ◌+◌, ◌-◌, Bool, true, false, ◌&&◌, not, List, [], ◌∷◌, ◌++◌, Option, none, some, ltb,
  ◌==◌, if◌then◌else◌,
}
pub mod Order
pub mod Queue

pub record Slots : Type 0 where
  pub max : ℕ
  pub in_flight : ℕ
  pub queue : List ℕ
  pub next_ticket : ℕ

unfoldable pub new : ℕ → Slots
new n = record { max = larger n 1; in_flight = 0; queue = []; next_ticket = 0 }

unfoldable pub enqueue : Slots → ℕ × Slots
enqueue s =
    let ticket = s.next_ticket in
    (ticket, record s { next_ticket = ticket + 1; queue = s.queue ++ ticket ∷ [] })

-- `self.queue.front() == Some(&ticket)`.
unfoldable pub is_front : List ℕ → ℕ → Bool
is_front [] ticket = false
is_front (t ∷ ts) ticket = t == ticket

unfoldable pub pop_front : List ℕ → List ℕ
pop_front [] = []
pop_front (t ∷ ts) = ts

unfoldable pub try_enter : Slots → ℕ → Bool × Slots
unfolding is_front pop_front
try_enter s ticket =
    if ltb s.in_flight s.max && is_front s.queue ticket
    then (true, record s { queue = pop_front s.queue; in_flight = s.in_flight + 1 })
    else (false, s)

-- `self.queue.retain(|t| *t != ticket)`.
unfoldable pub without : ℕ → List ℕ → List ℕ
without ticket [] = []
without ticket (t ∷ ts) = if t == ticket then without ticket ts else t ∷ without ticket ts

unfoldable pub leave : Slots → ℕ → Slots
unfolding without
leave s ticket = record s { queue = without ticket s.queue }

unfoldable pub release : Slots → Slots
release s = record s { in_flight = s.in_flight - 1 }
