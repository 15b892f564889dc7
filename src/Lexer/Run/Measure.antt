-- ===== src/Lexer/Run/Measure.antt =====
-- What falls with each round of the machine: first the rest of the source from where it goes on at the next
-- line's end, then, with a place to resume at, the rest from where it stands. A line's end may take the
-- machine back, to where a heredoc's body ends, while a string has read past that place.
use grenat.Prelude.{ℕ, ◌+◌, ◌-◌, ◌*◌, ◌≤◌, ◌<◌, ◌≡◌, Option, none, some, arith}
use grenat.Prelude.Text.{Text}
use grenat.Lexer.Source.{bytes}
use grenat.Lexer.Scan.Lines.{base}
use grenat.Lexer.Run.{rounds}

mul_mono : (a b k : ℕ) → a ≤ b → a * k ≤ b * k
mul_mono a b k h = grind arith

mul_step : (a b k : ℕ) → a < b → a * k + k ≤ b * k
mul_step a b k h = omega (arith, mul_mono (a + 1) b k (omega arith), more)
  where
    more : (a + 1) * k ≡ a * k + k
    more = grind arith

pending : ℕ → Option ℕ → ℕ → ℕ
pending n none pos = 0
pending n (some at) pos = n + 1 - pos

-- What falls with each round.
pub measure : ℕ → Option ℕ → ℕ → ℕ
unfolding pending
measure n r pos = (n - base r pos) * (n + 2) + pending n r pos

pub measure_down :
    (n : ℕ) (r : Option ℕ) (pos pos' : ℕ)
    → pos < pos'
    → pos' ≤ n
    → measure n r pos' < measure n r pos
unfolding measure
measure_down n none pos pos' h k =
    omega (arith, mul_step (n - pos') (n - pos) (n + 2) (omega arith))
measure_down n (some at) pos pos' h k = omega arith

pub measure_low :
    (n : ℕ) (r : Option ℕ) (pos pos' : ℕ) → pos ≤ pos' → measure n r pos' ≤ measure n r pos
unfolding measure
measure_low n none pos pos' h = omega (arith, mul_mono (n - pos') (n - pos) (n + 2) (omega arith))
measure_low n (some at) pos pos' h = omega arith

pub measure_heredoc :
    (n : ℕ) (r : Option ℕ) (at pos pos' : ℕ)
    → base r (pos + 1) ≤ at
    → at ≤ n
    → pos < pos'
    → pos' ≤ n
    → measure n (some at) pos' < measure n r pos
unfolding measure
measure_heredoc n none at pos pos' h k l m =
    omega (arith, mul_step (n - at) (n - pos) (n + 2) (omega arith))
measure_heredoc n (some old) at pos pos' h k l m =
    omega (arith, mul_mono (n - at) (n - old) (n + 2) (omega arith))

pub measure_newline :
    (n : ℕ) (r : Option ℕ) (pos pos' : ℕ)
    → base r (pos + 1) ≤ pos'
    → pos' ≤ n
    → pos < n
    → measure n none pos' < measure n r pos
unfolding measure
measure_newline n none pos pos' h k l =
    omega (arith, mul_step (n - pos') (n - pos) (n + 2) (omega arith))
measure_newline n (some at) pos pos' h k l =
    omega (arith, mul_mono (n - pos') (n - at) (n + 2) (omega arith))

pub measure_start : (src s : Text) (q : ℕ) → src ≡ s → measure (bytes s) none q < rounds (bytes src)
unfolding measure
measure_start src s q same =
    rw same (omega (arith, mul_step (bytes s - q) (bytes s + 1) (bytes s + 2) (omega arith)))
