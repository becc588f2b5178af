-- ===== src/Codeup/Refs.antt =====
-- `refName` of ingress-service/internal/yunxiao/codeup/normalizer.go.
use text.Mathlib.TextLemmas.{nil-append, cons-append, append_assoc}
use Prim.Native.Char.{code}
use Prim.Native.String.{String, [], ◌∷◌, ◌++◌}
use yunxiao_workflow_agent.Base.{◌≡◌, refl, some, none, arith, nat_beq, true, ◌∙◌}
use yunxiao_workflow_agent.Base.Text.{cut_prefix, trim_prefix}
use yunxiao_workflow_agent.Codeup.Fields.{ref_name}

-- A common beginning does not matter.
cut_prefix-append : (a p s : String) → cut_prefix (a ++ p) (a ++ s) ≡ cut_prefix p s
unfolding cut_prefix
cut_prefix-append [] p s = rw (nil-append p, nil-append s) refl
cut_prefix-append (c ∷ a) p s =
    rw (cons-append c a p, cons-append c a s, same) (cut_prefix-append a p s)
  where
    same : nat_beq (code c) (code c) ≡ true
    same = ground arith

cut_own_prefix : (p s : String) → cut_prefix p (p ++ s) ≡ some s
unfolding cut_prefix
cut_own_prefix [] s = rw (nil-append s) refl
cut_own_prefix (c ∷ p) s = rw (cons-append c p s, same) (cut_own_prefix p s)
  where
    same : nat_beq (code c) (code c) ≡ true
    same = ground arith

no_head : (t : String) → cut_prefix "refs/heads/" ("refs/tags/" ++ t) ≡ none
unfolding cut_prefix
no_head t =
    rw (append_assoc "refs/" "tags/" t)
      (cut_prefix-append "refs/" "heads/" ("tags/" ++ t) ∙ rw (cons-append) refl)

trimmed : (s prefix rest : String) → cut_prefix prefix s ≡ some rest → trim_prefix s prefix ≡ rest
unfolding trim_prefix
trimmed s prefix rest h = rw (trim_prefix, h) refl

untrimmed : (s prefix : String) → cut_prefix prefix s ≡ none → trim_prefix s prefix ≡ s
unfolding trim_prefix
untrimmed s prefix h = rw (trim_prefix, h) refl

-- `refName` gives the name of a tag back from its full name, and the name of a branch too, if that does
-- not itself begin with `refs/tags/`.
pub ref_name_lem :
    (branch tag : String)
    → cut_prefix "refs/tags/" branch ≡ none
    → (ref_name ("refs/heads/" ++ branch) ≡ branch) × (ref_name ("refs/tags/" ++ tag) ≡ tag)
unfolding ref_name
ref_name_lem branch tag h = (
  rw (trimmed ("refs/heads/" ++ branch) "refs/heads/" branch (cut_own_prefix "refs/heads/" branch))
      (untrimmed branch "refs/tags/" h),
  rw (untrimmed ("refs/tags/" ++ tag) "refs/heads/" (no_head tag))
      (trimmed ("refs/tags/" ++ tag) "refs/tags/" tag (cut_own_prefix "refs/tags/" tag)),
)
