-- ===== src/Limits/Bucket/Ledger.antt =====
-- Histories of a bucket: bookings and refunds in any order, and the turns still outstanding, whose
-- callers have not been cancelled.
use grenat.Prelude.{
  ℕ, zero, suc, ◌+◌, ◌-◌, ◌*◌, ◌≤◌, ◌≡◌, refl, max, none, some, List, [], ◌∷◌, get_elem?, inl, inr,
  Option-cases, arith,
}
use grenat.Limits.Rate
use grenat.Limits.Rate.{Rate}
use grenat.Limits.Bucket.{Bucket, Turn, new, reserve, refund, unwrap_or}

-- `book now` is a call asked at `now`; `cancel k` the caller of the `k`-th last outstanding turn.
pub data Event : Type 0 where
  book cancel : ℕ → Event

pub record Ledger : Type 0 where
  pub bucket : Bucket
  pub outstanding : List Turn

remove_at {ℓ} : {A : Type ℓ} → ℕ → List A → List A
remove_at k [] = []
remove_at zero (x ∷ xs) = xs
remove_at (suc k) (x ∷ xs) = x ∷ remove_at k xs

unfoldable pub step : Ledger → Event → Ledger
unfolding remove_at
step l (book now) =
    let (turn, bucket) = reserve l.bucket now in
    record { bucket = bucket; outstanding = turn ∷ l.outstanding }
step l (cancel k) = elim (get_elem? l.outstanding k) [
  | none ↦ l
  | some turn ↦ record { bucket = refund l.bucket turn; outstanding = remove_at k l.outstanding }
]

unfoldable pub run : Ledger → List Event → Ledger
unfolding step
run l [] = l
run l (e ∷ es) = run (step l e) es

unfoldable pub start : Rate → Ledger
start rate = record { bucket = new rate; outstanding = [] }

-- The turns, newest first, hold separate slots of an interval each, below `n`, and each call goes
-- no later than its slot and no earlier than `burst` before it.
abbrev Slotted : ℕ → ℕ → ℕ → List Turn → Type 0
Slotted i u n [] = Unit
Slotted i u n (t ∷ ts) =
    (t.after ≤ n)
    × (t.after ≡ t.before + i)
    × (t.at ≤ t.before)
    × (t.before ≤ t.at + u)
    × Slotted i u t.before ts

Slotted-mono : (i u m n : ℕ) (ts : List Turn) → m ≤ n → Slotted i u m ts → Slotted i u n ts
Slotted-mono i u m n [] h s = tt
Slotted-mono i u m n (t ∷ ts) h s = (omega arith, s.1, s.2, s.3, s.4)

Slotted-remove_at :
    (i u n k : ℕ) (ts : List Turn) → Slotted i u n ts → Slotted i u n (remove_at k ts)
unfolding remove_at
Slotted-remove_at i u n k [] s = tt
Slotted-remove_at i u n zero (t ∷ ts) s = Slotted-mono i u t.before n ts (omega arith) s.4
Slotted-remove_at i u n (suc k) (t ∷ ts) s =
    (s.0, s.1, s.2, s.3, Slotted-remove_at i u t.before k ts s.4)

Slotted-get_elem? :
    (i u n k : ℕ) (ts : List Turn) (t : Turn)
    → Slotted i u n ts
    → get_elem? ts k ≡ some t
    → (t.before + (k + 1) * i ≤ n) × (t.after ≡ t.before + i) × (t.at ≤ t.before)
Slotted-get_elem? i u n k [] t s e = ground arith
Slotted-get_elem? i u n zero (x ∷ ts) t s e = ground arith
Slotted-get_elem? i u n (suc k) (x ∷ ts) t s e =
    let (h, a, g) = Slotted-get_elem? i u x.before k ts t s.4 e in (omega arith, a, g)

-- What the refund of an outstanding turn rewinds to is above every other outstanding turn.
Slotted-rewind :
    (i u k : ℕ) (ts : List Turn) (t : Turn)
    → Slotted i u t.after ts
    → get_elem? ts k ≡ some t
    → Slotted i u t.before (remove_at k ts)
unfolding remove_at
Slotted-rewind i u k [] t s e = tt
Slotted-rewind i u zero (x ∷ ts) t s e = ground arith
Slotted-rewind i u (suc k) (x ∷ ts) t s e =
    let (h, a, g) = Slotted-get_elem? i u x.before k ts t s.4 e in
    let x_below : x.after ≤ t.before = ground arith in
    (x_below, s.1, s.2, s.3, Slotted-remove_at i u x.before k ts s.4)

pub record IsSound (i u : ℕ) (l : Ledger) : Type 0 where
  pub interval_kept : l.bucket.interval ≡ i
  pub burst_kept : l.bucket.burst ≡ u
  pub slotted : Slotted i u (unwrap_or l.bucket.next 0) l.outstanding

start-IsSound : (r : Rate) → IsSound (Rate.interval r) (Rate.interval r * (r.count - 1)) (start r)
unfolding start new
start-IsSound r = record { interval_kept = refl; burst_kept = refl; slotted = tt }

book-IsSound : (i u now : ℕ) (l : Ledger) → IsSound i u l → IsSound i u (step l (book now))
unfolding step reserve
book-IsSound i u now l v = record {
  interval_kept = v.interval_kept;
  burst_kept = v.burst_kept;
  slotted = ground (
    arith,
    v.slotted,
    Slotted-mono i u (unwrap_or l.bucket.next 0) (max (unwrap_or l.bucket.next now) now)
        l.outstanding,
  );
}

cancel-IsSound : (i u k : ℕ) (l : Ledger) → IsSound i u l → IsSound i u (step l (cancel k))
unfolding step refund
cancel-IsSound i u k l v = elim (Option-cases (get_elem? l.outstanding k)) [
  | inl e ↦ rw (e, step) v
  | inr (t, e) ↦
      rw (e, step)
        (record {
          interval_kept = ground arith;
          burst_kept = ground arith;
          slotted = ground (
            arith,
            v.slotted,
            Slotted-remove_at i u (unwrap_or l.bucket.next 0) k l.outstanding v.slotted,
            Slotted-rewind i u k l.outstanding t,
          );
        })
]

run-IsSound : (i u : ℕ) (l : Ledger) (es : List Event) → IsSound i u l → IsSound i u (run l es)
unfolding run
run-IsSound i u l [] v = v
run-IsSound i u l (book now ∷ es) v =
    run-IsSound i u (step l (book now)) es (book-IsSound i u now l v)
run-IsSound i u l (cancel k ∷ es) v =
    run-IsSound i u (step l (cancel k)) es (cancel-IsSound i u k l v)

-- Slots that lie `d` turns apart lie `d` intervals apart.
Slotted-apart :
    (i u n d j k : ℕ) (ts : List Turn) (later earlier : Turn)
    → Slotted i u n ts
    → d + j ≡ k
    → get_elem? ts j ≡ some later
    → get_elem? ts k ≡ some earlier
    → earlier.at + d * i ≤ later.at + u
Slotted-apart i u n d j k [] later earlier s e p q = ground arith
Slotted-apart i u n d zero zero (t ∷ ts) later earlier s e p q = ground arith
Slotted-apart i u n d zero (suc k) (t ∷ ts) later earlier s e p q =
    let (h, a, g) = Slotted-get_elem? i u t.before k ts earlier s.4 q in ground arith
Slotted-apart i u n d (suc j) zero (t ∷ ts) later earlier s e p q = absurd (omega arith)
Slotted-apart i u n d (suc j) (suc k) (t ∷ ts) later earlier s e p q =
    Slotted-apart i u t.before d j k ts later earlier s.4 (omega arith) p q

-- Over any history of calls and cancellations, a call goes at least `m` intervals after the call
-- that stands `count - 1 + m` places before it among those not cancelled: beside the `count - 1`
-- calls of a burst, calls go one to an interval.
pub rate_kept :
    (r : Rate) (es : List Event) (j m : ℕ) (later earlier : Turn)
    → get_elem? (run (start r) es).outstanding j ≡ some later
    → get_elem? (run (start r) es).outstanding (r.count - 1 + m + j) ≡ some earlier
    → earlier.at + m * Rate.interval r ≤ later.at
rate_kept r es j m later earlier p q =
    let i = Rate.interval r in
    let v = run-IsSound i (i * (r.count - 1)) (start r) es (start-IsSound r) in
    let h =
      Slotted-apart i (i * (r.count - 1)) _ (r.count - 1 + m) j _ _ later earlier v.slotted refl p
        q in
    omega (arith, h)
