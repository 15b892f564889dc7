-- ===== src/Lexer/Keywords.antt =====
-- `Span` and `Keyword` of crates/grenat_lexer/src/token.rs.
use grenat.Prelude.{
  ℕ, ◌%◌, ◌^◌, Bool, true, false, List, [], ◌∷◌, Option, none, some, min, max, if◌then◌else◌,
}
use grenat.Prelude.Text.{Text, codes, text_eq}
pub mod Readings

pub record Span : Type 0 where
  pub start : ℕ
  pub end : ℕ

-- `as u32`.
unfoldable pub new : (start end : ℕ) → Span
new start end = record { start = start % 2 ^ 32; end = end % 2 ^ 32 }

unfoldable pub to : Span → Span → Span
to s t = record { start = min s.start t.start; end = max s.end t.end }

-- Each constructor is the source's variant, with `_kw`.
pub data Keyword : Type 0 where
  abstract_kw agent_kw and_kw begin_kw break_kw case_kw class_kw def_kw do_kw else_kw elsif_kw :
      Keyword
  end_kw ensure_kw enum_kw false_kw if_kw in_kw module_kw next_kw nil_kw not_kw or_kw : Keyword
  prompt_kw rescue_kw return_kw self_kw struct_kw supervisor_kw then_kw tool_kw true_kw : Keyword
  unless_kw until_kw when_kw while_kw workflow_kw : Keyword

unfoldable pub as_str : Keyword → Text
as_str abstract_kw = codes "abstract"
as_str agent_kw = codes "agent"
as_str and_kw = codes "and"
as_str begin_kw = codes "begin"
as_str break_kw = codes "break"
as_str case_kw = codes "case"
as_str class_kw = codes "class"
as_str def_kw = codes "def"
as_str do_kw = codes "do"
as_str else_kw = codes "else"
as_str elsif_kw = codes "elsif"
as_str end_kw = codes "end"
as_str ensure_kw = codes "ensure"
as_str enum_kw = codes "enum"
as_str false_kw = codes "false"
as_str if_kw = codes "if"
as_str in_kw = codes "in"
as_str module_kw = codes "module"
as_str next_kw = codes "next"
as_str nil_kw = codes "nil"
as_str not_kw = codes "not"
as_str or_kw = codes "or"
as_str prompt_kw = codes "prompt"
as_str rescue_kw = codes "rescue"
as_str return_kw = codes "return"
as_str self_kw = codes "self"
as_str struct_kw = codes "struct"
as_str supervisor_kw = codes "supervisor"
as_str then_kw = codes "then"
as_str tool_kw = codes "tool"
as_str true_kw = codes "true"
as_str unless_kw = codes "unless"
as_str until_kw = codes "until"
as_str when_kw = codes "when"
as_str while_kw = codes "while"
as_str workflow_kw = codes "workflow"

-- `Keyword::ALL`.
abbrev pub all : List Keyword
all =
    abstract_kw ∷ agent_kw ∷ and_kw ∷ begin_kw ∷ break_kw ∷ case_kw ∷ class_kw ∷ def_kw ∷ do_kw
    ∷ else_kw ∷ elsif_kw ∷ end_kw ∷ ensure_kw ∷ enum_kw ∷ false_kw ∷ if_kw ∷ in_kw ∷ module_kw
    ∷ next_kw ∷ nil_kw ∷ not_kw ∷ or_kw ∷ prompt_kw ∷ rescue_kw ∷ return_kw ∷ self_kw ∷ struct_kw
    ∷ supervisor_kw ∷ then_kw ∷ tool_kw ∷ true_kw ∷ unless_kw ∷ until_kw ∷ when_kw ∷ while_kw
    ∷ workflow_kw ∷ []

-- The arms of a `match` on a text, in their order.
unfoldable pub first_of : List Keyword → Text → Option Keyword
unfolding as_str text_eq
first_of [] s = none
first_of (k ∷ ks) s = if text_eq (as_str k) s then some k else first_of ks s

unfoldable pub lookup : Text → Option Keyword
unfolding first_of
lookup s = first_of all s
