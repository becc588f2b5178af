-- ===== src/Base/Dict.antt =====
-- Go maps with string keys, as association lists without repeated keys; `m[k] = v` and `v, ok := m[k]`.
use Prim.Native.String.{String}
use mathlib.Core.Path.{◌≡◌, refl}
use mathlib.Core.Bool.{Bool}
use mathlib.Core.Option.{Option, none, some}
use text.Mathlib.TextEquality.{eq_iff}
use text.Mathlib.Text.{◌==◌}
use native.Mathlib.Omega.{arith}
use mathlib.Core.List.{List, [], ◌∷◌}
use yunxiao_workflow_agent.Base.Tests.{if◌then◌else◌}

abbrev pub Dict {ℓ} : Type ℓ → Type ℓ
Dict V = List (String × V)

module _ {ℓ} {V : Type ℓ} where
  abbrev pub names : String → String × V → Bool
  names key entry = entry.0 == key

  unfoldable pub lookup : String → Dict V → Option V
  lookup key [] = none
  lookup key (entry ∷ rest) = if names key entry then some entry.1 else lookup key rest

  unfoldable pub insert : String → V → Dict V → Dict V
  insert key value [] = (key, value) ∷ []
  insert key value (entry ∷ rest) =
      let kept = entry ∷ insert key value rest in
      if names key entry then (key, value) ∷ rest else kept

  pub lookup-insert :
      (dict : Dict V) (asked key : String) (value : V)
      → lookup asked (insert key value dict)
        ≡ (if key == asked then some value else lookup asked dict)
  unfolding lookup insert
  lookup-insert [] asked key value = refl
  lookup-insert (entry ∷ rest) asked key value =
      let earlier = lookup-insert rest asked key value in
      ground (arith, eq_iff entry.0 asked, eq_iff key asked, eq_iff entry.0 key, earlier)
