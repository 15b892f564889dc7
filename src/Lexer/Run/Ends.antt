-- ===== src/Lexer/Run/Ends.antt =====
-- Lexing ends, for every source, with sound tokens.
use grenat.Prelude.{
  ℕ, zero, suc, ◌+◌, ◌^◌, ◌≤◌, ◌<◌, ◌≡◌, refl, Bool, true, Option, none, some, arith,
}
use grenat.Prelude.Options.{Returns, returns, Returns-map, Returns-value}
use grenat.Prelude.Text.{Text}
use grenat.Lexer.Source.{bytes}
use grenat.Lexer.Scan.{Unicode, Lexer, fresh}
use grenat.Lexer.Scan.Sound.{At}
use grenat.Lexer.Strings.Steps.{Stands}
use grenat.Lexer.Run.{Next, goes_on, is_done, run_loop, rounds, run}
use grenat.Lexer.Run.Measure.{measure, measure_start}
use grenat.Lexer.Run.Rounds.{Left, AfterStep, AfterStep-low, run_step-ends}

module _ (s : Text) (small : bytes s < 2 ^ 32) (q : ℕ) (u : Unicode) (sub : Lexer → Option Lexer)
    (sub_ends : (src : Text) (o : ℕ)
      → src ≡ s
      → q + 1 ≤ o
      → o ≤ bytes s
      → Returns (Stands s o) (sub (fresh src o true))) where
  run_loop-ends :
      (fuel : ℕ) (lx : Lexer)
      → Left s small q fuel lx
      → Returns (λ lx'. (r : Option ℕ) × At s r q lx') (run_loop u sub fuel lx)
  unfolding run_loop
  run_loop-ends zero lx l = absurd (omega (arith, l.less))
  run_loop-ends (suc fuel) lx l =
      let step = run_step-ends s small q l.resume l.past l.in_src u sub sub_ends lx l.at in
      let (next, e, after) = Returns-value step in
      rw (e, run_loop)
        (go next after (omega (arith, l.less)) (λ lx' left. run_loop-ends fuel lx' left))
    where
      go :
          (next : Next)
          → AfterStep s small q (measure (bytes s) l.resume lx.pos) next
          → measure (bytes s) l.resume lx.pos ≤ fuel
          → ((lx' : Lexer)
              → Left s small q fuel lx'
              → Returns (λ l'. (r : Option ℕ) × At s r q l') (run_loop u sub fuel lx'))
          → Returns
              (λ lx'. (r : Option ℕ) × At s r q lx')
              (elim next [ is_done lx' ↦ some lx' | goes_on lx' ↦ run_loop u sub fuel lx' ])
      go (is_done lx') a h again = returns a
      go (goes_on lx') a h again =
          again lx'
            (AfterStep-low s small q (goes_on lx') (measure (bytes s) l.resume lx.pos) fuel h a)

At-Stands : (s : Text) (q : ℕ) (lx : Lexer) → ((r : Option ℕ) × At s r q lx) → Stands s q lx
At-Stands s q lx (r, a) = record {
  same_src = a.same_src;
  from_start = a.from_start;
  in_src = a.in_src;
  errors_in = a.errors_in;
  tokens_sound = a.tokens_sound;
}

-- A run from a place in the source ends, where the depth allows for every interpolation below it.
pub run-ends :
    (u : Unicode) (s : Text) (small : bytes s < 2 ^ 32) (depth q : ℕ) (src : Text)
    (in_interp : Bool)
    → src ≡ s
    → q ≤ bytes s
    → bytes s < depth + q
    → Returns (λ lx. (r : Option ℕ) × At s r q lx) (run u depth (fresh src q in_interp))
unfolding run fresh
run-ends u s small zero q src in_interp same h k = absurd (omega arith)
run-ends u s small (suc depth) q src in_interp same h k =
    run_loop-ends s small q u (run u depth)
      (λ src' o same' l m.
        Returns-map (run-ends u s small depth o src' true same' m (omega arith)) (At-Stands s o))
      (rounds (bytes src)) (fresh src q in_interp)
      (record {
        resume = none;
        at = record {
          same_src = same;
          from_start = omega arith;
          in_src = h;
          same_resume = refl;
          tokens_sound = tt;
          errors_in = tt;
          comments_in = tt;
        };
        past = omega arith;
        in_src = omega arith;
        less = measure_start src s q same;
      })
