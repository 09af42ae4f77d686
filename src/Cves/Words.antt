-- ===== src/Cves/Words.antt =====
-- The search for whole words in scripts/monitor_io_uring_cves.py, against a description of where a
-- word stands.
use talyn.Base.{
  Option-cases, ◌∙◌, sym, if◌then◌else◌, none, is_some, ◌||◌, ◌&&◌, ap, List, length, drop, Bool,
  refl, some, true, false, [], ◌∷◌, ℕ, ◌≡◌, ◌++◌, arith, ◌↔◌, Option, ◌⊎◌, inl, inr,
}
use talyn.Base.Text.{Text, is_prefix}
use talyn.Cves.{
  search_words, exclusions, first_exclusion, analyze_cve, Feature, search_from, matches_at,
  is_boundary, last_of, head,
}

and3_iff : (a b c : Bool) → ((a && b && c) ≡ true) ↔ ((a ≡ true) × (b ≡ true) × (c ≡ true))
and3_iff a b c = ground arith

or_iff : (a b : Bool) → ((a || b) ≡ true) ↔ ((a ≡ true) ⊎ (b ≡ true))
or_iff true b = (λ h. inl refl, λ h. refl)
or_iff false b = (λ h. inr h, λ h. elim h [ inl e ↦ absurd (cc) | inr e ↦ e ])

cons_inj {ℓ} : {A : Type ℓ} (x y : A) (l m : List A) → x ∷ l ≡ y ∷ m → (x ≡ y) × (l ≡ m)
cons_inj x y l m h = (cc, cc)

-- A prefix, and what follows it.
is_prefix_iff : (w t : Text) → (is_prefix w t ≡ true) ↔ ((rest : Text) × (t ≡ w ++ rest))
is_prefix_iff [] t = (λ h. (t, refl), λ h. refl)
is_prefix_iff (c ∷ w) [] = (λ h. absurd (cc), λ (rest, e). absurd (cc))
is_prefix_iff (c ∷ w) (d ∷ t) =
    let more = is_prefix_iff w t in
    (
      λ h. let (rest, e) = more.0 (ground (arith, h)) in (rest, ground (arith, h, e)),
      λ (rest, e). ground (arith, more.1 (rest, ground (arith, e)), e),
    )

drop-length : (w t : Text) → drop (length w) (w ++ t) ≡ t
drop-length [] t = refl
drop-length (c ∷ w) t = drop-length w t

module _ (is_word : ℕ → Bool) where
  -- In `text`, which follows the character `before`, `word` stands after `front` with a boundary on
  -- either side.
  abbrev pub StandsAt : Text → Option ℕ → Text → Text → Text → Type 0
  StandsAt word before text front rest =
      (text ≡ front ++ (word ++ rest))
      × (is_boundary is_word (last_of before front) (head (word ++ rest)) ≡ true)
      × (is_boundary is_word (last_of (last_of before front) word) (head rest) ≡ true)

  abbrev pub Stands : Text → Option ℕ → Text → Type 0
  Stands word before text = (front : Text) × (rest : Text) × StandsAt word before text front rest

  matches_at_iff :
      (word : Text) (before : Option ℕ) (text : Text)
      → (matches_at is_word word before text ≡ true)
        ↔ ((rest : Text) × StandsAt word before text [] rest)
  matches_at_iff word before text =
      let all =
        and3_iff (is_boundary is_word before (head text)) (is_prefix word text)
          (is_boundary is_word (last_of before word) (head (drop (length word) text))) in
      let at_front = is_prefix_iff word text in
      (
        λ h.
            let (a, p, b) = all.0 h in
            let (rest, e) = at_front.0 p in
            (rest, (e, rw e at a, rw (e, drop-length word rest) at b)),
        λ (rest, (e, a, b)). all.1 (rw e a, at_front.1 (rest, e), rw (e, drop-length word rest) b),
      )

  -- A word in a text that is not empty stands at its front or later.
  Stands-cases :
      (word : Text) (before : Option ℕ) (c : ℕ) (text front rest : Text)
      → StandsAt word before (c ∷ text) front rest
      → StandsAt word before (c ∷ text) [] rest ⊎ Stands word (some c) text
  Stands-cases word before c text [] rest h = inl h
  Stands-cases word before c text (d ∷ front) rest (e, a, b) =
      let same_char = cons_inj c d text (front ++ (word ++ rest)) e in
      inr (front, rest, (same_char.1, rw (same_char.0) a, rw (same_char.0) b))

  Stands-nil :
      (word : Text) (before : Option ℕ) (front rest : Text)
      → StandsAt word before [] front rest
      → StandsAt word before [] [] rest
  Stands-nil word before [] rest h = h
  Stands-nil word before (d ∷ front) rest (e, a, b) = absurd (cc)

  pub search_from_iff :
      (word : Text) (before : Option ℕ) (text : Text)
      → (search_from is_word word before text ≡ true) ↔ Stands word before text
  unfolding search_from
  search_from_iff word before [] =
      let here = matches_at_iff word before [] in
      (
        λ h. let (rest, at) = here.0 h in ([], rest, at),
        λ (front, rest, at). here.1 (rest, Stands-nil word before front rest at),
      )
  search_from_iff word before (c ∷ text) =
      let here = matches_at_iff word before (c ∷ text) in
      let later = search_from_iff word (some c) text in
      let either =
        or_iff (matches_at is_word word before (c ∷ text))
          (search_from is_word word (some c) text) in
      (
        λ h. elim (either.0 h) [
          | inl m ↦ (let (rest, at) = here.0 m in ([], rest, at))
          | inr l ↦
              (let (front, rest, (e, a, b)) = later.0 l in
                (c ∷ front, rest, (ap (λ t. c ∷ t) e, a, b)))
        ],
        λ (front, rest, at). elim (Stands-cases word before c text front rest at) [
          | inl m ↦ either.1 (inl (here.1 (rest, m)))
          | inr l ↦ either.1 (inr (later.1 l))
        ],
      )

-- One of the items of a list.
abbrev pub Some {ℓ} : {A : Type ℓ} → (A → Type 0) → List A → Type 0
Some P [] = ⊥
Some P (x ∷ xs) = P x ⊎ Some P xs

module _ (is_word : ℕ → Bool) where
  -- One of the words of an exclusion stands in a text, with a boundary on either side.
  abbrev pub Mentions : Text → List Text × Feature → Type 0
  Mentions text (words, feature) = Some (λ word. Stands is_word word none text) words

  search_iff :
      (words : List Text) (text : Text)
      → (search_words is_word words text ≡ true)
        ↔ Some (λ word. Stands is_word word none text) words
  unfolding search_words
  search_iff [] text = (λ h. absurd (cc), λ h. absurd h)
  search_iff (word ∷ words) text =
      let here = search_from_iff is_word word none text in
      let rest = search_iff words text in
      let either = or_iff (search_from is_word word none text) (search_words is_word words text) in
      (
        λ h. elim (either.0 h) [ inl a ↦ inl (here.0 a) | inr b ↦ inr (rest.0 b) ],
        λ h. elim h [ inl a ↦ either.1 (inl (here.1 a)) | inr b ↦ either.1 (inr (rest.1 b)) ],
      )

  is_some-if :
      (b : Bool) (f : Feature) (o : Option Feature)
      → is_some (if b then some f else o) ≡ (b || is_some o)
  is_some-if true f o = refl
  is_some-if false f o = refl

  first_exclusion_iff :
      (excluded : List (List Text × Feature)) (text : Text)
      → (is_some (first_exclusion is_word excluded text) ≡ true) ↔ Some (Mentions text) excluded
  unfolding first_exclusion
  first_exclusion_iff [] text = (λ h. absurd (cc), λ h. absurd h)
  first_exclusion_iff ((words, feature) ∷ excluded) text =
      let here = search_iff words text in
      let rest = first_exclusion_iff excluded text in
      let later = first_exclusion is_word excluded text in
      let split = is_some-if (search_words is_word words text) feature later in
      let either = or_iff (search_words is_word words text) (is_some later) in
      (
        λ h. elim (either.0 (sym split ∙ h)) [ inl a ↦ inl (here.0 a) | inr b ↦ inr (rest.0 b) ],
        λ h.
            split
            ∙ elim h [ inl a ↦ either.1 (inl (here.1 a)) | inr b ↦ either.1 (inr (rest.1 b)) ],
      )

module _ (lower : Text → Text) (is_word : ℕ → Bool) where
  analyze_excluded :
      (description : Text)
      → ((analyze_cve lower is_word description).0 ≡ false)
        ↔ (is_some (first_exclusion is_word exclusions (lower description)) ≡ true)
  unfolding analyze_cve
  analyze_excluded description =
      elim (Option-cases (first_exclusion is_word exclusions (lower description))) [
        | inl e ↦ (λ h. absurd (ground (arith, e, h)), λ h. absurd (ground (arith, e, h)))
        | inr (f, e) ↦ (λ h. ground (arith, e), λ h. ground (arith, e))
      ]

  -- A report is found not to apply exactly if one of the words of an exclusion stands in it, in the
  -- lower-case form, with a boundary of words on either side.
  pub analyze_cve_iff :
      (description : Text)
      → ((analyze_cve lower is_word description).0 ≡ false)
        ↔ Some (Mentions is_word (lower description)) exclusions
  analyze_cve_iff description =
      let found = first_exclusion_iff is_word exclusions (lower description) in
      let same = analyze_excluded description in (λ h. found.0 (same.0 h), λ h. same.1 (found.1 h))
