-- ===== src/Lexer/Strings/Escapes.antt =====
-- Where the escapes of a string leave the machine.
use grenat.Prelude.{
  ℕ, ◌+◌, ◌^◌, ◌≤◌, ◌<◌, ◌≡◌, ap, Bool, true, false, ◌&&◌, [], ◌∷◌, Option, some, ◌==◌, arith,
  Bool-cases, Option-cases, inl, inr,
}
use grenat.Prelude.Text.{Text}
use grenat.Lexer.Token.{unclosed_unicode, invalid_unicode}
use grenat.Lexer.Source.{bytes, slice}
use grenat.Lexer.Source.Bounds.{width_pos, bytes-from}
use grenat.Lexer.Scan.{Lexer, rest, peek, bump, eat}
use grenat.Lexer.Scan.Words.{hex_below}
use grenat.Lexer.Scan.Sound.{At, weaken, move, error-At, bump-past, bump-At, eat-At}
use grenat.Lexer.Scan.Moves.{At-if}
use grenat.Lexer.Strings.{hex_run, is_scalar, close_unicode, push_unicode, unicode_escape, escape}

hex_run-bytes :
    (braced : Bool) (taken : ℕ) (text : Text) → hex_run braced taken text ≤ taken + bytes text
unfolding hex_run bytes
hex_run-bytes braced taken [] = omega arith
hex_run-bytes braced taken (c ∷ text) =
    ground (arith, width_pos c, hex_run-bytes braced (taken + 1) text)

module _ (s : Text) (r : Option ℕ) (small : bytes s < 2 ^ 32) where
  close_unicode-At :
      (q start : ℕ) (braced : Bool) (lx : Lexer)
      → At s r q lx
      → start ≤ bytes s
      → At s r q (close_unicode lx braced start)
  unfolding close_unicode
  close_unicode-At q start false lx a o = a
  close_unicode-At q start true lx a o =
      let b = eat-At s r q b'}' lx a in
      At-if s r small q (eat lx b'}').1 (λ _. b)
        (λ _.
          error-At s r q start (eat lx b'}').0.pos unclosed_unicode (eat lx b'}').0 small b o
            b.in_src)

  push_unicode-At :
      (q start : ℕ) (lx : Lexer) (buf hex : Text)
      → At s r q lx
      → start ≤ bytes s
      → At s r q (push_unicode lx buf hex start).0
  unfolding push_unicode
  push_unicode-At q start lx buf hex a o =
      let failed = error-At s r q start lx.pos invalid_unicode lx small a o a.in_src in
      elim (Option-cases (hex_below (2 ^ 32) hex)) [
        | inl e ↦ rw (e, push_unicode) failed
        | inr (n, e) ↦ elim (Bool-cases (is_scalar n)) [
          | inl on ↦ rw (e, on, push_unicode) a
          | inr off ↦ rw (e, off, push_unicode) failed
        ]
      ]

  unicode_escape-At :
      (q start : ℕ) (lx : Lexer) (buf : Text)
      → At s r q lx
      → start ≤ bytes s
      → At s r q (unicode_escape lx buf start).0
  unfolding unicode_escape rest
  unicode_escape-At q start lx buf a o =
      let (opened, braced) = eat lx b'{' in
      let b = eat-At s r q b'{' lx a in
      let bound : opened.pos + hex_run braced 0 (rest opened) ≤ bytes s = omega (
        arith,
        hex_run-bytes braced 0 (rest opened),
        bytes-from opened.pos opened.src,
        ap bytes b.same_src,
        b.in_src,
      ) in
      let taken = weaken s r q _ _ (omega (arith, b.from_start)) (move s r q _ opened b bound) in
      let end = opened.pos + hex_run braced 0 (rest opened) in
      push_unicode-At q start (close_unicode (record opened { pos = end }) braced start) buf
        (slice lx.src opened.pos end)
        (close_unicode-At q start braced (record opened { pos = end }) taken o) o

  pub escape-past :
      (q : ℕ) (lx : Lexer) (buf : Text) (full : Bool) (c : ℕ)
      → At s r q lx
      → peek lx ≡ some c
      → At s r (lx.pos + 1) (escape lx buf full).0
  unfolding escape
  escape-past q lx buf full c a e =
      let opened = bump lx in
      let b = bump-past s r q lx c a e in
      elim (Option-cases (peek opened)) [
        | inl n ↦ rw (n, escape) b
        | inr (d, f) ↦
            let after = bump-At s r (lx.pos + 1) opened b in
            elim (Bool-cases (full && d == b'u')) [
              | inl on ↦
                  rw (f, on, escape)
                    (unicode_escape-At (lx.pos + 1) lx.pos (bump opened) buf after a.in_src)
              | inr off ↦ rw (f, off, escape) after
            ]
      ]
