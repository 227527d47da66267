-- ===== src/Rainfall/Doubles.antt =====
-- The `double` values and their comparisons, which the C implementation provides. The laws hold for
-- all values but NaN.
use study_in_tezpur_universi.Common.{◌≡◌, Bool, true, false, not, Bool-cases, inl, inr, arith}

pub record Doubles (V : Type 0) : Type 0 where
  pub le : V → V → Bool
  pub lt : V → V → Bool
  pub zero_value : V
  pub lt_lem : (a b : V) → lt a b ≡ not (le b a)
  pub total : (a b : V) → le a b ≡ false → le b a ≡ true
  pub trans : (a b c : V) → le a b ≡ true → le b c ≡ true → le a c ≡ true

-- The same values in the opposite order.
abbrev pub dual : {V : Type 0} → Doubles V → Doubles V
dual d = record {
  le = λ a b. d.le b a;
  lt = λ a b. d.lt b a;
  zero_value = d.zero_value;
  lt_lem = λ a b. d.lt_lem b a;
  total = λ a b. d.total b a;
  trans = λ a b c p q. d.trans c b a q p;
}

module _ {V : Type 0} ⦃d : Doubles V⦄ where
  pub le_refl : (a : V) → d.le a a ≡ true
  le_refl a = elim (Bool-cases (d.le a a)) [ inl h ↦ h | inr h ↦ d.total a a h ]

  pub lt→le : (a b : V) → d.lt a b ≡ true → d.le a b ≡ true
  lt→le a b h = let e = d.lt_lem a b in d.total b a (ground arith)

  pub lt-false→le : (a b : V) → d.lt a b ≡ false → d.le b a ≡ true
  lt-false→le a b h = let e = d.lt_lem a b in ground arith
