-- ===== src/Rainfall/Extremes/Least.antt =====
-- The least value of a segment of an array: the first of the least values, as a search from the
-- left finds it, or the last of them, as joining halves finds it.
use study_in_tezpur_universi.Common.{
  ℕ, suc, ◌+◌, ◌≤◌, ◌<◌, ◌≡◌, refl, ◌∙◌, true, ◌==◌, ltb, leb, if◌then◌else◌, arith, Bool-cases,
  inl, inr,
}
use study_in_tezpur_universi.Common.Int.{ℤ}
use study_in_tezpur_universi.Rainfall.Doubles.{Doubles, le_refl, lt→le, lt-false→le}

module _ {V : Type 0} (d : Doubles V) where
  -- A value `v` of a year, at a place of the segment from `left` to `right`: the least there, and
  -- less than each before it.
  pub record FirstLeast (value : ℕ → V) (year : ℕ → ℤ) (left right : ℕ) (v : V) (y : ℤ)
      : Type 0 where
    pub place : ℕ
    pub from : left ≤ place
    pub to : place ≤ right
    pub value_e : v ≡ value place
    pub year_e : y ≡ year place
    pub before : (k : ℕ) → left ≤ k → k < place → d.lt v (value k) ≡ true
    pub behind : (k : ℕ) → place ≤ k → k ≤ right → d.le v (value k) ≡ true

  -- The least, and less than each behind it.
  pub record LastLeast (value : ℕ → V) (year : ℕ → ℤ) (left right : ℕ) (v : V) (y : ℤ)
      : Type 0 where
    pub place : ℕ
    pub from : left ≤ place
    pub to : place ≤ right
    pub value_e : v ≡ value place
    pub year_e : y ≡ year place
    pub before : (k : ℕ) → left ≤ k → k ≤ place → d.le v (value k) ≡ true
    pub behind : (k : ℕ) → place < k → k ≤ right → d.lt v (value k) ≡ true

  lt_trans_le : (a b c : V) → d.lt a b ≡ true → d.le b c ≡ true → d.lt a c ≡ true
  lt_trans_le a b c p q = elim (Bool-cases (d.le c a)) [
    | inr apart ↦ d.lt_lem a c ∙ rw apart
    | inl back ↦ let t = d.trans b c a q back in let e = d.lt_lem a b in absurd (ground arith)
  ]

  le_trans_lt : (a b c : V) → d.le a b ≡ true → d.lt b c ≡ true → d.lt a c ≡ true
  le_trans_lt a b c p q = elim (Bool-cases (d.le c a)) [
    | inr apart ↦ d.lt_lem a c ∙ rw apart
    | inl back ↦ let t = d.trans c a b back p in let e = d.lt_lem b c in absurd (ground arith)
  ]

  module _ (value : ℕ → V) (year : ℕ → ℤ) where
    -- One more value at the right end.
    pub FirstLeast-next :
        (left right : ℕ) (v : V) (y : ℤ)
        → FirstLeast value year left right v y
        → FirstLeast value year left
            (suc right)
            (if d.lt (value (suc right)) v then value (suc right) else v)
            (if d.lt (value (suc right)) v then year (suc right) else y)
    FirstLeast-next left right v y f = elim (Bool-cases (d.lt (value (suc right)) v)) [
      | inl less ↦ rw less (record {
        place = suc right;
        from = omega (arith, f.from, f.to);
        to = omega arith;
        value_e = refl;
        year_e = refl;
        before = λ k a b. elim (Bool-cases (ltb k f.place)) [
          | inl early ↦
              lt_trans_le (value (suc right)) v (value k) less
                (lt→le ⦃d = d⦄ v (value k) (f.before k a (ground arith)))
          | inr late ↦
              lt_trans_le (value (suc right)) v (value k) less
                (f.behind k (ground arith) (omega arith))
        ];
        behind = λ k a b.
            let e : k ≡ suc right = omega arith in rw e (le_refl ⦃d = d⦄ (value (suc right)));
      })
      | inr not_less ↦ rw not_less (record {
        place = f.place;
        from = f.from;
        to = omega (arith, f.to);
        value_e = f.value_e;
        year_e = f.year_e;
        before = f.before;
        behind = λ k a b. elim (Bool-cases (k == suc right)) [
          | inl new ↦
              let e : k ≡ suc right = ground arith in
              rw e (lt-false→le ⦃d = d⦄ (value (suc right)) v not_less)
          | inr old ↦ f.behind k a (ground arith)
        ];
      })
    ]

    -- Both halves of a segment.
    module _ (left mid right : ℕ) (u v : V) (x y : ℤ) (l : LastLeast value year left mid u x)
        (r : LastLeast value year (mid + 1) right v y) where
      right_least : (k : ℕ) → mid + 1 ≤ k → k ≤ right → d.le v (value k) ≡ true
      right_least k a b = elim (Bool-cases (leb k r.place)) [
        | inl early ↦ r.before k a (ground arith)
        | inr late ↦ lt→le ⦃d = d⦄ v (value k) (r.behind k (ground arith) b)
      ]

      left_least : (k : ℕ) → left ≤ k → k ≤ mid → d.le u (value k) ≡ true
      left_least k a b = elim (Bool-cases (leb k l.place)) [
        | inl early ↦ l.before k a (ground arith)
        | inr late ↦ lt→le ⦃d = d⦄ u (value k) (l.behind k (ground arith) b)
      ]

      pub LastLeast-join :
          LastLeast value year left right (if d.lt u v then u else v) (if d.lt u v then x else y)
      LastLeast-join = elim (Bool-cases (d.lt u v)) [
        | inl less ↦ rw less (record {
          place = l.place;
          from = l.from;
          to = omega (arith, l.to, r.from, r.to);
          value_e = l.value_e;
          year_e = l.year_e;
          before = l.before;
          behind = λ k a b. elim (Bool-cases (leb k mid)) [
            | inl near ↦ l.behind k a (ground arith)
            | inr far ↦ lt_trans_le u v (value k) less (right_least k (ground arith) b)
          ];
        })
        | inr not_less ↦ rw not_less (record {
          place = r.place;
          from = omega (arith, l.from, l.to, r.from);
          to = r.to;
          value_e = r.value_e;
          year_e = r.year_e;
          before = λ k a b. elim (Bool-cases (leb k mid)) [
            | inl near ↦
                d.trans v u (value k) (lt-false→le ⦃d = d⦄ u v not_less)
                  (left_least k a (ground arith))
            | inr far ↦ r.before k (ground arith) b
          ];
          behind = r.behind;
        })
      ]

    pub LastLeast-single : (k : ℕ) → LastLeast value year k k (value k) (year k)
    LastLeast-single k = record {
      place = k;
      from = omega arith;
      to = omega arith;
      value_e = refl;
      year_e = refl;
      before = λ j a b. let e : j ≡ k = omega arith in rw e (le_refl ⦃d = d⦄ (value k));
      behind = λ j a b. absurd (omega arith);
    }

    pub FirstLeast-single : (k : ℕ) → FirstLeast value year k k (value k) (year k)
    FirstLeast-single k = record {
      place = k;
      from = omega arith;
      to = omega arith;
      value_e = refl;
      year_e = refl;
      before = λ j a b. absurd (omega arith);
      behind = λ j a b. let e : j ≡ k = omega arith in rw e (le_refl ⦃d = d⦄ (value k));
    }

    pub first_lower :
        (left right : ℕ) (u : V) (x : ℤ)
        → FirstLeast value year left right u x
        → (k : ℕ) → left ≤ k
        → k ≤ right
        → d.le u (value k) ≡ true
    first_lower left right u x f k a b = elim (Bool-cases (ltb k f.place)) [
      | inl early ↦ lt→le ⦃d = d⦄ u (value k) (f.before k a (ground arith))
      | inr late ↦ f.behind k (ground arith) b
    ]

    -- Two least values of a segment are equally small.
    pub least-least :
        (left right : ℕ) (u v : V) (x y : ℤ)
        → FirstLeast value year left right u x
        → LastLeast value year left right v y
        → (d.le u v ≡ true) × (d.le v u ≡ true)
    least-least left right u v x y f l = (
      rw l.value_e (first_lower left right u x f l.place l.from l.to),
      rw f.value_e (last_lower f.place f.from f.to),
    )
      where
        last_lower : (k : ℕ) → left ≤ k → k ≤ right → d.le v (value k) ≡ true
        last_lower k a b = elim (Bool-cases (leb k l.place)) [
          | inl early ↦ l.before k a (ground arith)
          | inr late ↦ lt→le ⦃d = d⦄ v (value k) (l.behind k (ground arith) b)
        ]
