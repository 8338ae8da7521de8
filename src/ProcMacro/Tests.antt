-- ===== src/ProcMacro/Tests.antt =====
-- Runs of the macro programs, and their theorems at concrete inputs.
use security_audits.Base.{ℕ, List, [], ◌∷◌, ◌≡◌, refl, done}
use security_audits.ProcMacro.MetaVars.{helper, after_dollar, stream, collect_meta_vars_buggy}
use security_audits.ProcMacro.Literal.{main}

main_literal : main ≡ done tt
unfolding main
main_literal = refl

-- `main` of 065 asserts that its list is this one.
main_meta_vars : collect_meta_vars_buggy stream ≡ (120 ∷ []) ∷ (118 ∷ 97 ∷ 114 ∷ []) ∷ []
unfolding collect_meta_vars_buggy helper after_dollar
main_meta_vars = refl

abbrev var : List ℕ
var = 118 ∷ 97 ∷ 114 ∷ []
