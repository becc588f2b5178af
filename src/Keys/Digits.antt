-- ===== src/Keys/Digits.antt =====
-- Decimal digits: what `format_nat` prints is read back, and has no colon.
use Prim.Native.Nat.{ℕ, zero, suc, ◌+◌, ◌*◌, ◌/◌, ◌%◌, ◌<◌}
use Prim.Native.Char.{code}
use Prim.Native.String.{String, [], ◌∷◌}
use yunxiao_workflow_agent.Base.{
  ◌≡◌, ◌&&◌, ap, ◌∙◌, sym, ◌≤◌, ◌<◌, arith, refl, some, true, false, ltb, leb, Bool-cases, inl, inr,
  nat_beq,
}
use yunxiao_workflow_agent.Base.Text.{digit, format_from, format_nat, parse_digits}
use yunxiao_workflow_agent.Keys.Colons.{has_colon}

digit-code : (n : ℕ) → n < 10 → code (digit n) ≡ 48 + n
digit-code zero h = refl
digit-code (suc zero) h = refl
digit-code (suc (suc zero)) h = refl
digit-code (suc (suc (suc zero))) h = refl
digit-code (suc (suc (suc (suc zero)))) h = refl
digit-code (suc (suc (suc (suc (suc zero))))) h = refl
digit-code (suc (suc (suc (suc (suc (suc zero)))))) h = refl
digit-code (suc (suc (suc (suc (suc (suc (suc zero))))))) h = refl
digit-code (suc (suc (suc (suc (suc (suc (suc (suc zero)))))))) h = refl
digit-code (suc (suc (suc (suc (suc (suc (suc (suc (suc zero))))))))) h = refl
digit-code (suc (suc (suc (suc (suc (suc (suc (suc (suc (suc n)))))))))) h =
    absurd (omega (arith, h))

-- Reading one digit.
parse_digits-digit :
    (m n : ℕ) (s : String) → n < 10 → parse_digits m (digit n ∷ s) ≡ parse_digits (m * 10 + n) s
unfolding parse_digits
parse_digits-digit m n s h =
    rw (digit-code n h) (rw (is_digit) (ap (λ k. parse_digits k s) (omega arith)))
  where
    is_digit : (leb 48 (48 + n) && leb (48 + n) 57) ≡ true
    is_digit = ground (arith, h)

format_from-parse :
    (fuel n : ℕ) (acc : String)
    → n < fuel
    → parse_digits 0 (format_from fuel n acc) ≡ parse_digits n acc
unfolding format_from
format_from-parse zero n acc h = absurd (omega (arith, h))
format_from-parse (suc fuel) n acc h = elim (Bool-cases (ltb n 10)) [
  | inl small ↦ rw small (
      parse_digits-digit 0 n acc (ground (arith, small))
      ∙ ap (λ k. parse_digits k acc) (omega arith))
  | inr large ↦ rw large (
      format_from-parse fuel (n / 10) (digit (n % 10) ∷ acc) (omega (arith, h, tens large))
      ∙ parse_digits-digit (n / 10) (n % 10) acc (omega arith)
      ∙ ap (λ k. parse_digits k acc) (omega arith))
]
  where
    tens : ltb n 10 ≡ false → 10 ≤ n
    tens large = ground (arith, large)

pub format_nat-parse : (n : ℕ) → parse_digits 0 (format_nat n) ≡ some n
unfolding format_nat parse_digits
format_nat-parse n = format_from-parse (suc n) n [] (omega arith)

digit_no_colon :
    (n : ℕ) (acc : String) → n < 10 → has_colon acc ≡ false → has_colon (digit n ∷ acc) ≡ false
digit_no_colon n acc small h = rw (digit-code n small) (rw (other) h)
  where
    other : nat_beq (48 + n) 58 ≡ false
    other = ground (arith, small)

format_from_no_colon :
    (fuel n : ℕ) (acc : String) → has_colon acc ≡ false → has_colon (format_from fuel n acc) ≡ false
unfolding format_from
format_from_no_colon zero n acc h = h
format_from_no_colon (suc fuel) n acc h = elim (Bool-cases (ltb n 10)) [
  | inl small ↦ rw small (digit_no_colon n acc (ground (arith, small)) h)
  | inr large ↦ rw large (
      format_from_no_colon fuel (n / 10) (digit (n % 10) ∷ acc)
        (digit_no_colon (n % 10) acc (omega arith) h))
]

pub format_nat_no_colon : (n : ℕ) → has_colon (format_nat n) ≡ false
unfolding format_nat
format_nat_no_colon n = format_from_no_colon (suc n) n [] refl

pub format_nat_inj : (m n : ℕ) → format_nat m ≡ format_nat n → m ≡ n
format_nat_inj m n e =
    some_inj (sym (format_nat-parse m) ∙ ap (parse_digits 0) e ∙ format_nat-parse n)
  where
    some_inj : some m ≡ some n → m ≡ n
    some_inj h = cc h
