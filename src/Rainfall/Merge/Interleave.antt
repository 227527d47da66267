-- ===== src/Rainfall/Merge/Interleave.antt =====
-- One call of `merge` on two runs that stand side by side.
use study_in_tezpur_universi.Common.{
  ℕ, zero, suc, ◌+◌, ◌-◌, ◌≤◌, ◌<◌, ◌≡◌, refl, ap, ◌∙◌, List, [], ◌∷◌, ◌++◌, ◌⊎◌, true, false, ◌&&◌,
  leb, if◌then◌else◌, length, length-set, get_or, get_or-set, set, arith, Bool-cases, inl, inr,
  append_assoc, append-nil,
}
use study_in_tezpur_universi.Rainfall.Doubles.{Doubles}
use study_in_tezpur_universi.Rainfall.Record.{RainfallRecord, Counters, blank}
use study_in_tezpur_universi.Rainfall.Segment.{At}
use study_in_tezpur_universi.Rainfall.Merge.{
  Merging, merge_round, merge_loop, copy_run, write_back, merged, merge,
}

module _ {V : Type 0} ⦃d : Doubles V⦄ where
  -- The runs as lists: the smaller head first, the left one where they are equal.
  unfoldable pub interleave :
      List (RainfallRecord V) → List (RainfallRecord V) → List (RainfallRecord V)
  interleave [] ys = ys
  interleave (x ∷ xs) [] = x ∷ xs
  interleave (x ∷ xs) (y ∷ ys) =
      let at_left = x ∷ interleave xs (y ∷ ys) in
      let at_right = y ∷ interleave (x ∷ xs) ys in
      if d.le x.annual y.annual then at_left else at_right

  copy_run-At :
      (arr : List (RainfallRecord V)) (i n : ℕ) (xs : List (RainfallRecord V))
      → At blank arr i xs
      → n ≡ length xs
      → copy_run n arr i ≡ xs
  unfolding copy_run
  copy_run-At arr i zero [] h e = refl
  copy_run-At arr i (suc n) [] h e = absurd (omega arith)
  copy_run-At arr i zero (x ∷ xs) h e = absurd (omega arith)
  copy_run-At arr i (suc n) (x ∷ xs) h e = rw (h.0, copy_run-At arr (i + 1) n xs h.1 (omega arith))

  -- The runs that are left to merge: `xs` up to `mid` and `ys` up to `right`.
  record Runs (arr : List (RainfallRecord V)) (mid right : ℕ) (s : Merging V)
      (xs ys : List (RainfallRecord V)) : Type 0 where
    left_run : At blank arr s.i xs
    left_end : mid + 1 ≡ s.i + length xs
    right_run : At blank arr s.j ys
    right_end : right + 1 ≡ s.j + length ys

  merged-done :
      (arr : List (RainfallRecord V)) (mid right : ℕ) (s : Merging V)
      (xs ys : List (RainfallRecord V))
      → Runs arr mid right s xs ys
      → merged arr mid right s ≡ s.temp ++ (xs ++ ys)
  unfolding merged
  merged-done arr mid right s xs ys r = rw (
    copy_run-At arr s.i (mid + 1 - s.i) xs r.left_run (omega (arith, r.left_end)),
    copy_run-At arr s.j (right + 1 - s.j) ys r.right_run (omega (arith, r.right_end)),
  )

  round-left :
      (arr : List (RainfallRecord V)) (s : Merging V)
      → d.le (get_or arr s.i blank).annual (get_or arr s.j blank).annual ≡ true
      → ((merge_round arr s).i ≡ s.i + 1)
        × ((merge_round arr s).j ≡ s.j)
        × ((merge_round arr s).temp ≡ s.temp ++ get_or arr s.i blank ∷ [])
  unfolding merge_round
  round-left arr s h = rw h (refl, refl, refl)

  round-right :
      (arr : List (RainfallRecord V)) (s : Merging V)
      → d.le (get_or arr s.i blank).annual (get_or arr s.j blank).annual ≡ false
      → ((merge_round arr s).i ≡ s.i)
        × ((merge_round arr s).j ≡ s.j + 1)
        × ((merge_round arr s).temp ≡ s.temp ++ get_or arr s.j blank ∷ [])
  unfolding merge_round
  round-right arr s h = rw h (refl, refl, refl)

  -- What the loops put into `temp` behind what is there.
  merged-loop :
      (fuel : ℕ) (arr : List (RainfallRecord V)) (mid right : ℕ) (s : Merging V)
      (xs ys : List (RainfallRecord V))
      → Runs arr mid right s xs ys
      → length xs + length ys ≤ fuel
      → merged arr mid right (merge_loop fuel arr mid right s) ≡ s.temp ++ interleave xs ys
  unfolding merge_loop
  merged-loop zero arr mid right s [] [] r enough =
      unfold interleave in merged-done arr mid right s [] [] r
  merged-loop zero arr mid right s [] (y ∷ ys) r enough = absurd (omega arith)
  merged-loop zero arr mid right s (x ∷ xs) ys r enough = absurd (omega arith)
  merged-loop (suc fuel) arr mid right s [] ys r enough =
      let stop : (leb s.i mid && leb s.j right) ≡ false = ground (arith, r.left_end) in
      rw stop (unfold interleave in merged-done arr mid right s [] ys r)
  merged-loop (suc fuel) arr mid right s (x ∷ xs) [] r enough =
      let stop : (leb s.i mid && leb s.j right) ≡ false = ground (arith, r.right_end) in
      rw stop (
        unfold interleave in
        (merged-done arr mid right s (x ∷ xs) [] r
          ∙ ap (λ (l : List (RainfallRecord V)). s.temp ++ l) (append-nil (x ∷ xs))))
  merged-loop (suc fuel) arr mid right s (x ∷ xs) (y ∷ ys) r enough =
      let go : (leb s.i mid && leb s.j right) ≡ true = ground (arith, r.left_end, r.right_end) in
      let same_order : d.le (get_or arr s.i blank).annual (get_or arr s.j blank).annual
          ≡ d.le x.annual y.annual =
        rw (r.left_run.0, r.right_run.0) in
      rw go (elim (Bool-cases (d.le x.annual y.annual)) [
        | inl first ↦
            let (i', j', t') = round-left arr s (same_order ∙ first) in
            let r' : Runs arr mid right (merge_round arr s) xs (y ∷ ys) = record {
              left_run = rw i' r.left_run.1;
              left_end = omega (arith, i', r.left_end);
              right_run = rw j' r.right_run;
              right_end = omega (arith, j', r.right_end);
            } in
            merged-loop fuel arr mid right (merge_round arr s) xs (y ∷ ys) r' (omega arith)
            ∙ unfold interleave in
              rw (t', first, r.left_run.0) (append_assoc s.temp (x ∷ []) (interleave xs (y ∷ ys)))
        | inr second ↦
            let (i', j', t') = round-right arr s (same_order ∙ second) in
            let r' : Runs arr mid right (merge_round arr s) (x ∷ xs) ys = record {
              left_run = rw i' r.left_run;
              left_end = omega (arith, i', r.left_end);
              right_run = rw j' r.right_run.1;
              right_end = omega (arith, j', r.right_end);
            } in
            merged-loop fuel arr mid right (merge_round arr s) (x ∷ xs) ys r' (omega arith)
            ∙ unfold interleave in
              rw (t', second, r.right_run.0) (append_assoc s.temp (y ∷ []) (interleave (x ∷ xs) ys))
      ])

  -- Writing back changes the segment only.
  write_back_lem :
      (arr : List (RainfallRecord V)) (i : ℕ) (temp : List (RainfallRecord V))
      → i + length temp ≤ length arr
      → (length (write_back arr i temp) ≡ length arr)
        × At blank (write_back arr i temp) i temp
        × ((k : ℕ)
            → k < i ⊎ (i + length temp ≤ k)
            → get_or (write_back arr i temp) k blank ≡ get_or arr k blank)
  unfolding write_back
  write_back_lem arr i [] fits = (refl, tt, λ k out. refl)
  write_back_lem arr i (r ∷ temp) fits =
      let (size, at, kept) =
        write_back_lem (set arr i r) (i + 1) temp (omega (arith, length-set arr i r)) in
      (
        size ∙ length-set arr i r,
        (kept i (inl (omega arith)) ∙ get_or-set arr i i r blank (omega arith) ∙ ground arith, at),
        λ k out. elim out [
          | inl below ↦
              kept k (inl (omega arith)) ∙ get_or-set arr i k r blank (omega arith) ∙ ground arith
          | inr above ↦
              kept k (inr (omega arith)) ∙ get_or-set arr i k r blank (omega arith) ∙ ground arith
        ],
      )

  pub length-interleave :
      (xs ys : List (RainfallRecord V)) → length (interleave xs ys) ≡ length xs + length ys
  unfolding interleave
  length-interleave [] ys = omega arith
  length-interleave (x ∷ xs) [] = omega arith
  length-interleave (x ∷ xs) (y ∷ ys) =
      ground (arith, length-interleave xs (y ∷ ys), length-interleave (x ∷ xs) ys)

  -- What a call of `merge` does to an array with two runs.
  pub record Merged (arr arr' : List (RainfallRecord V)) (left : ℕ)
      (xs ys : List (RainfallRecord V)) : Type 0 where
    pub size : length arr' ≡ length arr
    pub within : At blank arr' left (interleave xs ys)
    pub outside :
        (k : ℕ)
        → k < left ⊎ (left + (length xs + length ys) ≤ k)
        → get_or arr' k blank ≡ get_or arr k blank

  pub merge-Merged :
      (arr : List (RainfallRecord V)) (counters : Counters) (left mid right : ℕ)
      (xs ys : List (RainfallRecord V))
      → At blank arr left xs
      → At blank arr (mid + 1) ys
      → mid + 1 ≡ left + length xs
      → right + 1 ≡ mid + 1 + length ys
      → right < length arr
      → Merged arr (merge (arr, counters) left mid right).0 left xs ys
  unfolding merge
  merge-Merged arr counters left mid right xs ys l r split stop fits =
      let start : Merging V = record { i = left; j = mid + 1; temp = []; counters = counters } in
      let runs : Runs arr mid right start xs ys = record {
        left_run = l;
        left_end = split;
        right_run = r;
        right_end = stop;
      } in
      let whole = merged-loop (right + 1 - left) arr mid right start xs ys runs (omega arith) in
      let size = length-interleave xs ys in
      let (size', at, kept) = write_back_lem arr left (interleave xs ys) (omega arith) in
      rw whole (record { size = size'; within = at; outside = λ k out. kept k (rw size out) })
