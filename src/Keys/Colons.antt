-- ===== src/Keys/Colons.antt =====
-- Texts of fields with a colon between them, and the digits of numbers, which have none.
use Prim.Native.Char.{Char, code}
use text.Mathlib.TextLemmas.{nil-append, cons-append}
use Prim.Native.String.{String, [], ◌∷◌, ◌++◌}
use yunxiao_workflow_agent.Base.{
  arith, Bool, false, nat_beq, ◌≡◌, if◌then◌else◌, true, sym, Bool-cases, inl, ◌∙◌, ap, inr, refl,
}

abbrev pub is_colon : Char → Bool
is_colon c = nat_beq (code c) b':'

-- The text before the first colon, and the text after it.
unfoldable pub before_colon : String → String
before_colon [] = []
before_colon (c ∷ s) = if is_colon c then [] else c ∷ before_colon s

unfoldable pub after_colon : String → String
after_colon [] = []
after_colon (c ∷ s) = if is_colon c then s else after_colon s

abbrev pub has_colon : String → Bool
has_colon [] = false
has_colon (c ∷ s) = if is_colon c then true else has_colon s

before_colon_lem : (s t : String) → has_colon s ≡ false → before_colon (s ++ ":" ++ t) ≡ s
unfolding before_colon
before_colon_lem [] t h = rw (nil-append, cons-append) refl
before_colon_lem (c ∷ s) t h = elim (Bool-cases (is_colon c)) [
  | inl e ↦ absurd (ground (arith, e, h))
  | inr e ↦ rw (cons-append c s (":" ++ t), e) (ap (λ u. c ∷ u) (before_colon_lem s t (rw e at h)))
]

after_colon_lem : (s t : String) → has_colon s ≡ false → after_colon (s ++ ":" ++ t) ≡ t
unfolding after_colon
after_colon_lem [] t h = rw (nil-append, cons-append, nil-append) refl
after_colon_lem (c ∷ s) t h = elim (Bool-cases (is_colon c)) [
  | inl e ↦ absurd (ground (arith, e, h))
  | inr e ↦ rw (cons-append c s (":" ++ t), e) (after_colon_lem s t (rw e at h))
]

-- A first field without a colon can be told from what follows it.
pub fields_split :
    (a b s t : String)
    → has_colon a ≡ false
    → has_colon b ≡ false
    → a ++ ":" ++ s ≡ b ++ ":" ++ t
    → (a ≡ b) × (s ≡ t)
fields_split a b s t ha hb e = (
  sym (before_colon_lem a s ha) ∙ ap before_colon e ∙ before_colon_lem b t hb,
  sym (after_colon_lem a s ha) ∙ ap after_colon e ∙ after_colon_lem b t hb,
)
