-- ===== src/Bench/Names.antt =====
-- The choice of benchmarks on the command line of benchmark.py.
use talyn.Base.{
  ◌==◌, ap, ◌∙◌, ◌&&◌, not, map, List, Bool, refl, none, some, true, [], ◌∷◌, ◌≡◌, ◌++◌, arith,
}
use talyn.Base.Text.{Text, codes}
use talyn.Bench.{split_commas, selected_names}

-- Names with commas between them.
pub join_commas : Text → List Text → Text
join_commas name [] = name
join_commas name (next ∷ names) = name ++ b',' ∷ join_commas next names

unfoldable pub no_comma : Text → Bool
no_comma [] = true
no_comma (c ∷ s) = not (c == b',') && no_comma s

unfoldable pub no_commas : List Text → Bool
no_commas [] = true
no_commas (s ∷ ss) = no_comma s && no_commas ss

split_commas-plain : (s : Text) → no_comma s ≡ true → split_commas s ≡ s ∷ []
unfolding split_commas no_comma
split_commas-plain [] h = refl
split_commas-plain (c ∷ s) h = ground (arith, h, split_commas-plain s)

split_commas-comma :
    (s rest : Text) → no_comma s ≡ true → split_commas (s ++ b',' ∷ rest) ≡ s ∷ split_commas rest
unfolding split_commas no_comma
split_commas-comma [] rest h = refl
split_commas-comma (c ∷ s) rest h = ground (arith, h, split_commas-comma s rest)

split_commas-join :
    (name : Text) (names : List Text)
    → no_commas (name ∷ names) ≡ true
    → split_commas (join_commas name names) ≡ name ∷ names
unfolding join_commas no_commas
split_commas-join name [] h = split_commas-plain name (ground (arith, h))
split_commas-join name (next ∷ names) h =
    split_commas-comma name (join_commas next names) (ground (arith, h))
    ∙ ap (λ l. name ∷ l) (split_commas-join next names (ground (arith, h)))

module _ (strip lower : Text → Text) where
  -- Names without commas that are joined by commas in the argument `--bench=` are found again, each
  -- stripped and in lower case, if no earlier argument starts with `--bench=`; whatever follows.
  pub selected_names-join :
      (before after : List Text) (name : Text) (names : List Text)
      → no_commas (name ∷ names) ≡ true
      → selected_names strip lower before ≡ none
      → selected_names strip lower (before ++ (codes "--bench=" ++ join_commas name names) ∷ after)
        ≡ some (map (λ s. lower (strip s)) (name ∷ names))
  unfolding selected_names
  selected_names-join [] after name names h e =
      ap (λ l. some (map (λ s. lower (strip s)) l)) (split_commas-join name names h)
  selected_names-join (arg ∷ before) after name names h e =
      ground (arith, e, selected_names-join before after name names h)
