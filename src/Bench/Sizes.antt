-- ===== src/Bench/Sizes.antt =====
-- The sizes that benchmark.py measures, and the rows of its table.
use talyn.Base.{
  ◌∙◌, leb, ap, List, refl, none, some, true, [], ◌∷◌, ℕ, suc, zero, ◌≡◌, ◌++◌, arith, append_assoc,
  append-nil, ◌*◌, ◌^◌, ◌<◌, ◌≤◌,
}
use talyn.Base.Exec.{Result, ok, raised}
use talyn.Bench.{
  m_initial, n_sizes, Run, finished, exited, expired, broken, Exn, broken_run, Measured, Times,
  sweep,
}

-- `k` sizes from `m` on, each twice the one before
pub sizes : ℕ → ℕ → List ℕ
sizes zero m = []
sizes (suc k) m = m ∷ sizes k (m * 2)

-- The times of a size before those of later ones.
put_first : ℕ → Times → Result Exn Measured → Result Exn Measured
put_first m times (raised e) = raised e
put_first m times (ok none) = ok none
put_first m times (ok (some later)) = ok (some ((m, times) ∷ later))

measured_first : ℕ → Result Exn Measured → Run → Result Exn Measured
measured_first m rest (finished times) = put_first m times rest
measured_first m rest exited = ok none
measured_first m rest expired = ok none
measured_first m rest broken = raised broken_run

-- The runs of some sizes, in order, up to the first that fails.
pub measure_all : (ℕ → Run) → List ℕ → Result Exn Measured
measure_all run [] = ok (some [])
measure_all run (m ∷ ms) = measured_first m (measure_all run ms) (run m)

-- A result with what was measured before.
after : List (ℕ × Times) → Result Exn Measured → Result Exn Measured
after acc (raised e) = raised e
after acc (ok none) = ok none
after acc (ok (some later)) = ok (some (acc ++ later))

after-after :
    (acc : List (ℕ × Times)) (m : ℕ) (times : Times) (r : Result Exn Measured)
    → after (acc ++ (m, times) ∷ []) r ≡ after acc (put_first m times r)
unfolding after put_first
after-after acc m times (raised e) = refl
after-after acc m times (ok none) = refl
after-after acc m times (ok (some later)) =
    ap (λ l. ok (some l)) (append_assoc acc ((m, times) ∷ []) later)

after_nothing : (r : Result Exn Measured) → after [] r ≡ r
unfolding after
after_nothing (raised e) = refl
after_nothing (ok none) = refl
after_nothing (ok (some later)) = refl

pow_pos : (k : ℕ) → 0 < 2 ^ k
pow_pos zero = omega arith
pow_pos (suc k) = grind (arith, pow_pos k)

abbrev limit : ℕ
limit = 65536

fits_le : (k m : ℕ) → m * 2 ^ suc k ≡ 2 * limit → m ≤ limit
fits_le k m h = grind (arith, pow_pos k)

fits : (k m : ℕ) → m * 2 ^ suc k ≡ 2 * limit → leb m limit ≡ true
fits k m h = ground (arith, fits_le k m h)

halves : (k m : ℕ) → m * 2 ^ suc k ≡ 2 * limit → (m * 2) * 2 ^ k ≡ 2 * limit
halves k m h = grind arith

-- A round of the loop, for what the run comes to.
abbrev round : (ℕ → Run) → ℕ → ℕ → List (ℕ × Times) → Run → Result Exn Measured
round run fuel m acc (finished times) = sweep run fuel (m * 2) (acc ++ (m, times) ∷ [])
round run fuel m acc exited = ok none
round run fuel m acc expired = ok none
round run fuel m acc broken = raised broken_run

sweep-round :
    (run : ℕ → Run) (fuel m : ℕ) (acc : List (ℕ × Times))
    → leb m limit ≡ true
    → sweep run (suc fuel) m acc ≡ round run fuel m acc (run m)
unfolding sweep
sweep-round run fuel m acc h = rw h refl

round-after :
    (run : ℕ → Run) (fuel m : ℕ) (acc : List (ℕ × Times)) (rest : Result Exn Measured) (r : Run)
    → ((acc' : List (ℕ × Times)) → sweep run fuel (m * 2) acc' ≡ after acc' rest)
    → round run fuel m acc r ≡ after acc (measured_first m rest r)
unfolding after measured_first
round-after run fuel m acc rest (finished times) h =
    h (acc ++ (m, times) ∷ []) ∙ after-after acc m times rest
round-after run fuel m acc rest exited h = refl
round-after run fuel m acc rest expired h = refl
round-after run fuel m acc rest broken h = refl

sweep-after :
    (run : ℕ → Run) (k m : ℕ) (acc : List (ℕ × Times))
    → m * 2 ^ k ≡ 2 * limit
    → sweep run (suc k) m acc ≡ after acc (measure_all run (sizes k m))
unfolding measure_all sizes sweep after
sweep-after run zero m acc h = ground (arith, append-nil acc)
sweep-after run (suc k) m acc h =
    sweep-round run (suc k) m acc (fits k m h)
    ∙ round-after run (suc k) m acc (measure_all run (sizes k (m * 2))) (run m)
        (λ acc'. sweep-after run k (m * 2) acc' (halves k m h))

-- The loop over the sizes comes to an end: it measures seven sizes, 1024 and its doubles up to 65536,
-- in this order and up to the first that fails, and keeps all times if none does.
pub sweep-sizes :
    (run : ℕ → Run)
    → sweep run (suc n_sizes) m_initial [] ≡ measure_all run (sizes n_sizes m_initial)
sweep-sizes run =
    sweep-after run n_sizes m_initial [] refl
    ∙ after_nothing (measure_all run (sizes n_sizes m_initial))
