-- ===== src/Routing/Dijkstra/Fresh.antt =====
-- The number of nodes that are not visited.
use study_in_tezpur_universi.Common.{
  ℕ, zero, suc, ◌+◌, ◌≤◌, ◌<◌, ◌≡◌, refl, ap, ◌∙◌, List, [], ◌∷◌, Bool, true, false, ◌==◌, get_or,
  set, replicate, length, length-set, get_or-set, arith,
}

-- How many nodes are not visited.
pub fresh_count : List Bool → ℕ
fresh_count [] = 0
fresh_count (true ∷ l) = fresh_count l
fresh_count (false ∷ l) = suc (fresh_count l)

pub fresh_count-set :
    (l : List Bool) (u : ℕ)
    → u < length l
    → get_or l u true ≡ false
    → fresh_count (set l u true) + 1 ≡ fresh_count l
unfolding fresh_count
fresh_count-set [] u inside fresh = absurd (omega arith)
fresh_count-set (true ∷ l) zero inside fresh = absurd (ground arith)
fresh_count-set (false ∷ l) zero inside fresh = omega arith
fresh_count-set (true ∷ l) (suc u) inside fresh = fresh_count-set l u (omega arith) fresh
fresh_count-set (false ∷ l) (suc u) inside fresh =
    omega (arith, fresh_count-set l u (omega arith) fresh)

fresh_count_one :
    (l : List Bool) (u : ℕ) → u < length l → get_or l u true ≡ false → 1 ≤ fresh_count l
fresh_count_one l u inside fresh = omega (arith, fresh_count-set l u inside fresh)

-- Two nodes that are not visited.
pub fresh_count_two :
    (l : List Bool) (u v : ℕ)
    → u < length l
    → v < length l
    → ¬ (u ≡ v)
    → get_or l u true ≡ false
    → get_or l v true ≡ false
    → 2 ≤ fresh_count l
fresh_count_two l u v u_inside v_inside apart u_fresh v_fresh =
    let other : (u == v) ≡ false = ground arith in
    let still : get_or (set l u true) v true ≡ false =
      get_or-set l u v true true u_inside ∙ rw other v_fresh in
    let one = fresh_count_one (set l u true) v (omega (arith, length-set l u true)) still in
    omega (arith, fresh_count-set l u u_inside u_fresh, one)

pub fresh_count-replicate : (n : ℕ) → fresh_count (replicate n false) ≡ n
unfolding fresh_count
fresh_count-replicate zero = refl
fresh_count-replicate (suc n) = ap suc (fresh_count-replicate n)

pub get_or-replicate_inside : (n i : ℕ) → i < n → get_or (replicate n false) i true ≡ false
get_or-replicate_inside zero i h = absurd (omega arith)
get_or-replicate_inside (suc n) zero h = refl
get_or-replicate_inside (suc n) (suc i) h = get_or-replicate_inside n i (omega arith)
