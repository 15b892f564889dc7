-- ===== src/Lexer/Keywords/Readings.antt =====
-- A keyword and its text determine each other; the span that covers two others is the smallest.
use grenat.Prelude.{
  ◌≤◌, ◌≡◌, refl, ◌↔◌, ap, List, [], ◌∷◌, some, arith, Bool-cases, inl, inr, subst,
}
use grenat.Prelude.{sym, ◌∙◌}
use grenat.Prelude.Text.{Text, text_eq, text_eq_iff}
use grenat.Lexer.Keywords.{
  Span, to, Keyword, as_str, first_of, lookup, all, abstract_kw, agent_kw, and_kw, begin_kw,
  break_kw, case_kw, class_kw, def_kw, do_kw, else_kw, elsif_kw, end_kw, ensure_kw, enum_kw,
  false_kw, if_kw, in_kw, module_kw, next_kw, nil_kw, not_kw, or_kw, prompt_kw, rescue_kw,
  return_kw, self_kw, struct_kw, supervisor_kw, then_kw, tool_kw, true_kw, unless_kw, until_kw,
  when_kw, while_kw, workflow_kw,
}

lookup-as_str : (k : Keyword) → lookup (as_str k) ≡ some k
unfolding lookup first_of as_str text_eq
lookup-as_str abstract_kw = refl
lookup-as_str agent_kw = refl
lookup-as_str and_kw = refl
lookup-as_str begin_kw = refl
lookup-as_str break_kw = refl
lookup-as_str case_kw = refl
lookup-as_str class_kw = refl
lookup-as_str def_kw = refl
lookup-as_str do_kw = refl
lookup-as_str else_kw = refl
lookup-as_str elsif_kw = refl
lookup-as_str end_kw = refl
lookup-as_str ensure_kw = refl
lookup-as_str enum_kw = refl
lookup-as_str false_kw = refl
lookup-as_str if_kw = refl
lookup-as_str in_kw = refl
lookup-as_str module_kw = refl
lookup-as_str next_kw = refl
lookup-as_str nil_kw = refl
lookup-as_str not_kw = refl
lookup-as_str or_kw = refl
lookup-as_str prompt_kw = refl
lookup-as_str rescue_kw = refl
lookup-as_str return_kw = refl
lookup-as_str self_kw = refl
lookup-as_str struct_kw = refl
lookup-as_str supervisor_kw = refl
lookup-as_str then_kw = refl
lookup-as_str tool_kw = refl
lookup-as_str true_kw = refl
lookup-as_str unless_kw = refl
lookup-as_str until_kw = refl
lookup-as_str when_kw = refl
lookup-as_str while_kw = refl
lookup-as_str workflow_kw = refl

first_of-reads :
    (ks : List Keyword) (s : Text) (k : Keyword) → first_of ks s ≡ some k → as_str k ≡ s
unfolding first_of
first_of-reads [] s k e = absurd (ground arith)
first_of-reads (j ∷ ks) s k e = elim (Bool-cases (text_eq (as_str j) s)) [
  | inl hit ↦
      let same : j ≡ k = ground arith in ap as_str (sym same) ∙ (text_eq_iff (as_str j) s).0 hit
  | inr miss ↦ first_of-reads ks s k (ground arith)
]

-- A text is looked up as a keyword exactly where it is that keyword's own text.
pub lookup_iff : (s : Text) (k : Keyword) → (lookup s ≡ some k) ↔ (as_str k ≡ s)
unfolding lookup
lookup_iff s k = (first_of-reads all s k, λ e. subst (λ t. lookup t ≡ some k) e (lookup-as_str k))

-- `t` covers `s`.
abbrev pub Covers : Span → Span → Type 0
Covers t s = (t.start ≤ s.start) × (s.end ≤ t.end)

-- The span from one to another covers both, and every span that covers both covers it.
to-Covers :
    (s t : Span)
    → Covers (to s t) s
      × Covers (to s t) t
      × ((u : Span) → Covers u s → Covers u t → Covers u (to s t))
unfolding to
to-Covers s t = (
  (omega arith, omega arith),
  (omega arith, omega arith),
  λ u (a, b) (c, d). (omega arith, omega arith),
)
