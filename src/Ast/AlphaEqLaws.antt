-- ===== src/Ast/AlphaEqLaws.antt =====
-- crates/izel_parser/src/ast.rs: `alpha_eq` on expressions is an equivalence, namely equality of the
-- trees without their spans.
use izel.Prelude.{true, ◌≡◌, ◌↔◌, sym, ap, ◌∙◌}
use izel.Ast.{Expr}
use izel.Ast.AlphaEq.{alpha_eq}
use izel.Ast.Spans.{erase_spans}
use izel.Ast.Self.{alpha_eq_erase}
use izel.Ast.Sound.{alpha_eq_sound}
use izel.Ast.Right.{alpha_eq_right}

-- `alpha_eq` holds of two expressions exactly when they are the same tree once every span, at any
-- depth, is replaced by the dummy span.
pub alpha_eq-erase_spans : (a b : Expr) → (alpha_eq a b ≡ true) ↔ (erase_spans a ≡ erase_spans b)
alpha_eq-erase_spans a b =
    (alpha_eq_sound a b, λ e. sym (alpha_eq_right a b) ∙ ap (alpha_eq a) (sym e) ∙ alpha_eq_erase a)
