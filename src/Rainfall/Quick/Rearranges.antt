-- ===== src/Rainfall/Quick/Rearranges.antt =====
-- What swaps within a segment do to an array.
use study_in_tezpur_universi.Common.{
  ℕ, ◌≤◌, ◌<◌, ◌≡◌, ◌⊎◌, refl, ap, ◌∙◌, List, Bool, true, ◌==◌, ltb, if◌then◌else◌, length,
  length-set, get_or, get_or-set, set, arith, Bool-cases, inl, inr,
}
use study_in_tezpur_universi.Rainfall.Doubles.{Doubles}
use study_in_tezpur_universi.Rainfall.Record.{RainfallRecord, blank}
use study_in_tezpur_universi.Rainfall.Segment.{weigh-set, SameItems}
use study_in_tezpur_universi.Rainfall.Quick.{swapped}

module _ {V : Type 0} ⦃d : Doubles V⦄ where
  -- Each record of the segment from `low` to `high` meets a test.
  abbrev pub AllWithin : (RainfallRecord V → Bool) → List (RainfallRecord V) → ℕ → ℕ → Type 0
  AllWithin test arr low high = (k : ℕ) → low ≤ k → k ≤ high → test (get_or arr k blank) ≡ true

  -- The records stay, those outside the segment at their places, and what all of the segment meet
  -- they meet afterwards.
  pub record Rearranges (low high : ℕ) (arr arr' : List (RainfallRecord V)) : Type 0 where
    pub size : length arr' ≡ length arr
    pub same : SameItems arr arr'
    pub outside : (k : ℕ) → k < low ⊎ (high < k) → get_or arr' k blank ≡ get_or arr k blank
    pub keeps :
        (test : RainfallRecord V → Bool)
        → AllWithin test arr low high
        → AllWithin test arr' low high

  pub Rearranges-refl : (low high : ℕ) (arr : List (RainfallRecord V)) → Rearranges low high arr arr
  Rearranges-refl low high arr = record {
    size = refl;
    same = λ weight. refl;
    outside = λ k out. refl;
    keeps = λ test all. all;
  }

  pub Rearranges-trans :
      {low high : ℕ} {arr arr' arr'' : List (RainfallRecord V)}
      → Rearranges low high arr arr'
      → Rearranges low high arr' arr''
      → Rearranges low high arr arr''
  Rearranges-trans p q = record {
    size = q.size ∙ p.size;
    same = λ weight. p.same weight ∙ q.same weight;
    outside = λ k out. q.outside k out ∙ p.outside k out;
    keeps = λ test all. q.keeps test (p.keeps test all);
  }

  -- Rearranging a part rearranges the whole.
  pub Rearranges-wider :
      {low high low' high' : ℕ} {arr arr' : List (RainfallRecord V)}
      → low' ≤ low
      → high ≤ high'
      → Rearranges low high arr arr'
      → Rearranges low' high' arr arr'
  Rearranges-wider {low} {high} {low'} {high'} {arr} {arr'} p q r = record {
    size = r.size;
    same = r.same;
    outside = λ k out. elim out [
      | inl before ↦ r.outside k (inl (omega arith))
      | inr behind ↦ r.outside k (inr (omega arith))
    ];
    keeps = λ test all k from to. elim (Bool-cases (ltb k low)) [
      | inl before ↦ rw (r.outside k (inl (ground arith))) (all k from to)
      | inr not_before ↦ elim (Bool-cases (ltb high k)) [
        | inl behind ↦ rw (r.outside k (inr (ground arith))) (all k from to)
        | inr within ↦
            r.keeps test (λ j p' q'. all j (omega arith) (omega arith)) k (ground arith)
              (ground arith)
      ]
    ];
  }

  pub get_or-swapped :
      (arr : List (RainfallRecord V)) (a b k : ℕ)
      → a < length arr
      → b < length arr
      → get_or (swapped arr a b) k blank ≡ (
          if b == k
          then get_or arr a blank
          else if a == k
          then get_or arr b blank
          else get_or arr k blank)
  unfolding swapped
  get_or-swapped arr a b k p q =
      get_or-set (set arr a (get_or arr b blank)) b k (get_or arr a blank) blank
        (omega (arith, length-set arr a (get_or arr b blank)))
      ∙ rw (get_or-set arr a k (get_or arr b blank) blank p)

  length-swapped : (arr : List (RainfallRecord V)) (a b : ℕ) → length (swapped arr a b) ≡ length arr
  unfolding swapped
  length-swapped arr a b =
      length-set (set arr a (get_or arr b blank)) b (get_or arr a blank)
      ∙ length-set arr a (get_or arr b blank)

  swapped-same :
      (arr : List (RainfallRecord V)) (a b : ℕ)
      → a < length arr
      → b < length arr
      → SameItems arr (swapped arr a b)
  unfolding swapped
  swapped-same arr a b p q weight =
      let first = weigh-set weight arr a (get_or arr b blank) blank p in
      let second =
        weigh-set weight (set arr a (get_or arr b blank)) b (get_or arr a blank) blank
          (omega (arith, length-set arr a (get_or arr b blank))) in
      let between : get_or (set arr a (get_or arr b blank)) b blank ≡ get_or arr b blank =
        get_or-set arr a b (get_or arr b blank) blank p ∙ ground arith in
      omega (arith, first, second, ap weight between)

  pub swapped-Rearranges :
      (arr : List (RainfallRecord V)) (low high a b : ℕ)
      → high < length arr
      → low ≤ a
      → a ≤ high
      → low ≤ b
      → b ≤ high
      → Rearranges low high arr (swapped arr a b)
  swapped-Rearranges arr low high a b fits la ah lb bh =
      let at = λ (k : ℕ). get_or-swapped arr a b k (omega arith) (omega arith) in
      record {
        size = length-swapped arr a b;
        same = swapped-same arr a b (omega arith) (omega arith);
        outside =
            λ k out. at k ∙ elim out [ inl before ↦ ground arith | inr behind ↦ ground arith ];
        keeps = λ test all k from to.
            let ha = all a la ah in
            let hb = all b lb bh in let hk = all k from to in rw (at k) (ground arith);
      }
