-- ===== src/Tests/Stars.antt =====
-- Patterns that end in a star, for the examples.
use Prim.Native.String.{[], ◌∷◌}
use text.Mathlib.TextLemmas.{cons-append}
use yunxiao_workflow_agent.Base.{String, ◌++◌, refl, ◌≡◌, false, if◌then◌else◌}
use yunxiao_workflow_agent.Base.Text.{is_empty}

-- All but the last character.
abbrev pub drop_star : String → String
drop_star [] = []
drop_star (c ∷ s) = let rest = drop_star s in if is_empty s then [] else c ∷ rest

more : (w : String) → is_empty (w ++ ".*") ≡ false
more [] = refl
more (c ∷ w) = rw cons-append refl

pub drop_star_lem : (w : String) → drop_star (w ++ ".*") ≡ w ++ "."
drop_star_lem [] = refl
drop_star_lem (c ∷ w) = rw (cons-append, more w, drop_star_lem w, cons-append) refl
