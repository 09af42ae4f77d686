-- ===== src/Cves/Table.antt =====
-- The summaries in the rows that scripts/monitor_io_uring_cves.py prints.
use talyn.Base.{
  inr, inl, ltb, Bool-cases, length-append, if◌then◌else◌, ◌&&◌, ◌==◌, zero, suc, not, take, length,
  List, Bool, refl, true, false, [], ◌∷◌, ℕ, ◌≡◌, ◌++◌, arith, ◌≤◌,
}
use talyn.Base.Text.{Text, codes}
use talyn.Cves.{shorten, one_line, lstrip, rstrip, summary, Row}

-- No line break in a text.
abbrev pub is_line : Text → Bool
is_line [] = true
is_line (c ∷ text) = not (c == 10) && is_line text

is_line-one_line : (text : Text) → is_line (one_line text) ≡ true
unfolding one_line
is_line-one_line [] = refl
is_line-one_line (c ∷ text) = ground (arith, is_line-one_line text)

is_line-append : (a b : Text) → is_line a ≡ true → is_line b ≡ true → is_line (a ++ b) ≡ true
is_line-append [] b h g = g
is_line-append (c ∷ a) b h g = ground (arith, is_line-append a b)

is_line-take : (n : ℕ) (text : Text) → is_line text ≡ true → is_line (take n text) ≡ true
is_line-take zero text h = refl
is_line-take (suc n) [] h = refl
is_line-take (suc n) (c ∷ text) h = ground (arith, is_line-take n text)

length-take : (n : ℕ) (text : Text) → length (take n text) ≤ n
length-take zero text = omega arith
length-take (suc n) [] = omega arith
length-take (suc n) (c ∷ text) = omega (arith, length-take n text)

shorten_fits :
    (t : Text) → is_line t ≡ true → (is_line (shorten t) ≡ true) × (length (shorten t) ≤ 100)
unfolding shorten
shorten_fits t h = elim (Bool-cases (ltb 100 (length t))) [
  | inl e ↦ rw e (
    is_line-append (take 97 t) (codes "...") (is_line-take 97 t h) refl,
    omega (arith, length-append (take 97 t) (codes "..."), length-take 97 t),
  )
  | inr e ↦ rw e (h, ground (arith, e))
]

module _ (is_space : ℕ → Bool) where
  is_line-lstrip : (text : Text) → is_line text ≡ true → is_line (lstrip is_space text) ≡ true
  unfolding lstrip
  is_line-lstrip [] h = refl
  is_line-lstrip (c ∷ text) h = ground (arith, is_line-lstrip text)

  is_line-rstrip : (text : Text) → is_line text ≡ true → is_line (rstrip is_space text) ≡ true
  unfolding rstrip
  is_line-rstrip [] h = refl
  is_line-rstrip (c ∷ text) h = ground (arith, is_line-rstrip text)

  -- A summary has no line break and at most 100 characters.
  pub summary_fits :
      (text : Text)
      → (is_line (summary is_space text) ≡ true) × (length (summary is_space text) ≤ 100)
  unfolding summary
  summary_fits text =
      let t = rstrip is_space (lstrip is_space (one_line text)) in
      let line =
        is_line-rstrip (lstrip is_space (one_line text))
          (is_line-lstrip (one_line text) (is_line-one_line text)) in
      shorten_fits t line

abbrev pub Fits : Row → Type 0
Fits r = (is_line r.shown ≡ true) × (length r.shown ≤ 100)

abbrev pub All {ℓ} : {A : Type ℓ} → (A → Type 0) → List A → Type 0
All P [] = Unit
All P (x ∷ xs) = P x × All P xs

pub All-if :
    (P : Row → Type 0) (skip : Bool) (r : Row) (rs : List Row)
    → P r
    → All P rs
    → All P (if skip then rs else r ∷ rs)
All-if P true r rs h g = g
All-if P false r rs h g = (h, g)
