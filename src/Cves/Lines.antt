-- ===== src/Cves/Lines.antt =====
-- The lines that scripts/monitor_io_uring_cves.py prints: their columns.
use talyn.Ssl.Bio.{is_empty}
use talyn.Base.{
  none, some, none, some, Option, ◌≤◌, length, suc, ◌==◌, [], false, ◌∷◌, ◌+◌, if◌then◌else◌, arith,
  true, ◌≡◌, ◌++◌, ℕ, List, Bool, refl,
}
use talyn.Base.Text.{contains, Text, codes}
use talyn.Cves.{
  get_or, english, Vulnerability, rows, main, exclusions, first_exclusion, reason_of, Row, Feature,
  zcrx, napi, futex, waitid, msg_ring, pbuf_ring, ublk, sqe128, fuse, Reason, uses, matched,
  applicable_keywords, analyze_cve, row,
}
use talyn.Cves.Report.{line, feature_text, reason_text, status_text, join_words}
use talyn.Cves.Table.{summary_fits, All-if, All, Fits, is_line}

-- How often a character stands in a text.
abbrev pub count : ℕ → Text → ℕ
count a [] = 0
count a (c ∷ t) = let rest = count a t in if c == a then suc rest else rest

count-append : (a : ℕ) (s t : Text) → count a (s ++ t) ≡ count a s + count a t
count-append a [] t = omega arith
count-append a (c ∷ s) t = ground (arith, count-append a s t)

-- Neither a line break nor a separator of columns.
abbrev IsPlain : Text → Type 0
IsPlain t = (count 10 t ≡ 0) × (count b'|' t ≡ 0)

IsPlain-append : (s t : Text) → IsPlain s → IsPlain t → IsPlain (s ++ t)
IsPlain-append s t (h, h') (g, g') =
    (omega (arith, count-append 10 s t), omega (arith, count-append b'|' s t))

feature-IsPlain : (f : Feature) → IsPlain (feature_text f)
unfolding feature_text
feature-IsPlain zcrx = (refl, refl)
feature-IsPlain napi = (refl, refl)
feature-IsPlain futex = (refl, refl)
feature-IsPlain waitid = (refl, refl)
feature-IsPlain msg_ring = (refl, refl)
feature-IsPlain pbuf_ring = (refl, refl)
feature-IsPlain ublk = (refl, refl)
feature-IsPlain sqe128 = (refl, refl)
feature-IsPlain fuse = (refl, refl)

status-IsPlain : (b : Bool) → IsPlain (status_text b)
unfolding status_text
status-IsPlain true = (refl, refl)
status-IsPlain false = (refl, refl)

join_words-IsPlain : (ws : List Text) → All IsPlain ws → IsPlain (join_words ws)
unfolding join_words
join_words-IsPlain [] h = (refl, refl)
join_words-IsPlain (w ∷ []) h = h.0
join_words-IsPlain (w ∷ v ∷ ws) (h, g) =
    IsPlain-append w (codes ", " ++ join_words (v ∷ ws)) h (
      IsPlain-append (codes ", ") (join_words (v ∷ ws)) (refl, refl)
        (join_words-IsPlain (v ∷ ws) g))

All-keep :
    (keep : Bool) (w : Text) (ws : List Text)
    → IsPlain w
    → All IsPlain ws
    → All IsPlain (if keep then w ∷ ws else ws)
All-keep true w ws h g = (h, g)
All-keep false w ws h g = g

matched-IsPlain : (ws : List Text) (text : Text) → All IsPlain ws → All IsPlain (matched ws text)
unfolding matched
matched-IsPlain [] text h = tt
matched-IsPlain (w ∷ ws) text (h, g) =
    All-keep (contains w text) w (matched ws text) h (matched-IsPlain ws text g)

enclosed-IsPlain : (s t u : Text) → IsPlain s → IsPlain t → IsPlain u → IsPlain (s ++ (t ++ u))
enclosed-IsPlain s t u h g k = IsPlain-append s (t ++ u) h (IsPlain-append t u g k)

words_reason-IsPlain : (ws : List Text) → All IsPlain ws → IsPlain (reason_text (reason_of ws))
unfolding reason_text
words_reason-IsPlain [] h = (refl, refl)
words_reason-IsPlain (w ∷ ws) h =
    enclosed-IsPlain (codes "Potentially applicable (mentions: ") (join_words (w ∷ ws)) (codes ")")
      (refl, refl) (join_words-IsPlain (w ∷ ws) h) (refl, refl)

uses-IsPlain : (f : Feature) → IsPlain (reason_text (uses f))
unfolding reason_text
uses-IsPlain f =
    enclosed-IsPlain (codes "Not applicable (uses ") (feature_text f) (codes ")") (refl, refl)
      (feature-IsPlain f) (refl, refl)

keywords-IsPlain : All IsPlain applicable_keywords
keywords-IsPlain = (
  (refl, refl),
  (
    (refl, refl),
    (
      (refl, refl),
      (
        (refl, refl),
        (
          (refl, refl),
          (
            (refl, refl),
            ((refl, refl), ((refl, refl), ((refl, refl), ((refl, refl), ((refl, refl), tt))))),
          ),
        ),
      ),
    ),
  ),
)

-- What `analyze_cve` makes of a feature that is excluded, or of the words that it has matched.
picked-IsPlain :
    (o : Option Feature) (ws : List Text)
    → All IsPlain ws
    → let verdict : Bool × Reason = elim o [
      | some feature ↦ (false, uses feature)
      | none ↦ (true, reason_of ws)
    ] in
      IsPlain (reason_text verdict.1)
picked-IsPlain none ws h = words_reason-IsPlain ws h
picked-IsPlain (some f) ws h = uses-IsPlain f

module _ (lower : Text → Text) (is_word is_space : ℕ → Bool) where
  reason-IsPlain : (text : Text) → IsPlain (reason_text (analyze_cve lower is_word text).1)
  unfolding analyze_cve
  reason-IsPlain text =
      picked-IsPlain (first_exclusion is_word exclusions (lower text))
        (matched applicable_keywords (lower text))
        (matched-IsPlain applicable_keywords (lower text) keywords-IsPlain)

  -- A line of the table: five separators of columns, and those of the identifier and of the summary;
  -- the line breaks of the identifier only; and a summary of at most 100 characters.
  abbrev pub IsLine : Row → Type 0
  IsLine r =
      (count b'|' (line r) ≡ 5 + (count b'|' r.row_id + count b'|' r.shown))
      × (count 10 (line r) ≡ count 10 r.row_id)
      × (length r.shown ≤ 100)

  -- Two texts of which one is the summary and one the identifier, in five others.
  count-parts :
      (a : ℕ) (first id sep status reason shown last : Text)
      → count a
          (first ++ (id ++ (sep ++ (status ++ (sep ++ (reason ++ (sep ++ (shown ++ last))))))))
        ≡ (count a id + count a shown)
          + ((count a first + count a last)
              + ((count a status + count a reason) + (count a sep + count a sep + count a sep)))
  count-parts a first id sep status reason shown last =
      let s = shown ++ last in
      let r = reason ++ (sep ++ s) in
      let q = status ++ (sep ++ r) in
      omega (
        arith,
        count-append a first (id ++ (sep ++ q)),
        count-append a id (sep ++ q),
        count-append a sep q,
        count-append a status (sep ++ r),
        count-append a sep r,
        count-append a reason (sep ++ s),
        count-append a sep s,
        count-append a shown last,
      )

  count-line :
      (a : ℕ) (r : Row)
      → count a (line r)
        ≡ (count a r.row_id + count a r.shown)
          + ((count a (codes "| ") + count a (codes " |"))
              + ((count a (status_text r.applicable) + count a (reason_text r.reason))
                  + (count a (codes " | ") + count a (codes " | ") + count a (codes " | "))))
  unfolding line
  count-line a r =
      count-parts a (codes "| ") r.row_id (codes " | ") (status_text r.applicable)
        (reason_text r.reason) r.shown (codes " |")

  count-is_line : (t : Text) → is_line t ≡ true → count 10 t ≡ 0
  count-is_line [] h = refl
  count-is_line (c ∷ t) h = ground (arith, count-is_line t)

  row-IsLine :
      (cve_id text : Text)
      → Fits (row lower is_word is_space cve_id text)
      → IsLine (row lower is_word is_space cve_id text)
  row-IsLine cve_id text (h, g) =
      let r = row lower is_word is_space cve_id text in
      let (p, p') = reason-IsPlain text in
      let (q, q') = status-IsPlain r.applicable in
      (
        omega (arith, count-line b'|' r, p', q'),
        omega (arith, count-line 10 r, count-is_line r.shown h, p, q),
        g,
      )

  rows-IsLine : (vs : List Vulnerability) → All IsLine (rows lower is_word is_space vs)
  unfolding rows
  rows-IsLine [] = tt
  rows-IsLine (v ∷ vs) =
      let text = english (get_or v.descriptions []) in
      All-if IsLine (is_empty text) _ _ (row-IsLine _ text (summary_fits is_space text))
        (rows-IsLine vs)

  -- Whatever was fetched: each line of the table has five separators of columns, besides those that
  -- stand in the identifier of the report and in its summary; it has no line breaks but those of
  -- the identifier; and the summary has at most 100 characters.
  pub main-IsLine :
      (fetched : Option (Option (List Vulnerability)))
      → All IsLine (main lower is_word is_space fetched).1
  unfolding main
  main-IsLine none = tt
  main-IsLine (some none) = tt
  main-IsLine (some (some vs)) = rows-IsLine vs
