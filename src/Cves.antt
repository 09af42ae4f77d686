-- ===== src/Cves.antt =====
-- The monitor of vulnerabilities, scripts/monitor_io_uring_cves.py: which reports concern the
-- program, and the table that it prints. What is fetched is an argument, and so are the tables of
-- Unicode: `lower` is `str.lower`, `is_word` tells what `\w` matches, `is_space` what `strip` drops.
pub mod Words
pub mod Table
pub mod Report
pub mod Lines
mod Tests
use talyn.Ssl.Bio.{is_empty}
use talyn.Base.{
  ◌++◌, take, length, ◌==◌, not, ltb, drop, ◌||◌, ◌&&◌, if◌then◌else◌, Option, List, Bool, none,
  some, true, false, [], ◌∷◌, ℕ,
}
use talyn.Base.Text.{contains, Text, codes, same, is_prefix}

pub data Feature : Type 0 where
  zcrx napi futex waitid msg_ring pbuf_ring ublk sqe128 fuse : Feature

-- EXCLUSIONS: each pattern is `\bword\b`, or two such with `|` between
abbrev pub exclusions : List (List Text × Feature)
exclusions =
    (codes "zcrx" ∷ codes "zc_rx" ∷ [], zcrx)
    ∷ (codes "napi" ∷ [], napi)
    ∷ (codes "futex" ∷ [], futex)
    ∷ (codes "waitid" ∷ [], waitid)
    ∷ (codes "msg_ring" ∷ [], msg_ring)
    ∷ (codes "pbuf_ring" ∷ [], pbuf_ring)
    ∷ (codes "ublk" ∷ [], ublk)
    ∷ (codes "sqe128" ∷ [], sqe128)
    ∷ (codes "fuse" ∷ [], fuse)
    ∷ []

abbrev pub applicable_keywords : List Text
applicable_keywords =
    codes "read"
    ∷ codes "write"
    ∷ codes "poll"
    ∷ codes "connect"
    ∷ codes "accept"
    ∷ codes "recv"
    ∷ codes "send"
    ∷ codes "timeout"
    ∷ codes "cancel"
    ∷ codes "teardown"
    ∷ codes "setup"
    ∷ []

pub data Reason : Type 0 where
  uses : Feature → Reason
  mentions : List Text → Reason
  general : Reason

-- The parts of a fetched report that `main` reads; none where the key is missing.
pub record Description : Type 0 where
  pub lang : Option Text
  pub value : Option Text

pub record Vulnerability : Type 0 where
  pub cve_id : Option Text
  pub descriptions : Option (List Description)

pub record Row : Type 0 where
  pub row_id : Text
  pub applicable : Bool
  pub reason : Reason
  pub shown : Text

-- `d.get(key, default)`
abbrev pub get_or {ℓ} : {A : Type ℓ} → Option A → A → A
get_or none d = d
get_or (some a) _ = a

abbrev pub is_english : Option Text → Bool
is_english none = false
is_english (some l) = same l (codes "en")

-- The value of the first English description, or the empty text.
unfoldable pub english : List Description → Text
english [] = []
english (d ∷ ds) = let rest = english ds in if is_english d.lang then get_or d.value [] else rest

abbrev pub head : Text → Option ℕ
head [] = none
head (c ∷ _) = some c

-- The character before the rest of a text, after `word` has been read.
abbrev pub last_of : Option ℕ → Text → Option ℕ
last_of before [] = before
last_of before (c ∷ word) = last_of (some c) word

-- `[kw for kw in applicable_keywords if kw in desc_lower]`
unfoldable pub matched : List Text → Text → List Text
matched [] text = []
matched (kw ∷ kws) text =
    let rest = matched kws text in if contains kw text then kw ∷ rest else rest

abbrev pub reason_of : List Text → Reason
reason_of [] = general
reason_of (kw ∷ kws) = mentions (kw ∷ kws)

module _ (is_word : ℕ → Bool) where
  abbrev pub is_word_char : Option ℕ → Bool
  is_word_char none = false
  is_word_char (some c) = is_word c

  -- `\b` between two characters, or at an end of the text
  abbrev pub is_boundary : Option ℕ → Option ℕ → Bool
  is_boundary a b = if is_word_char a then not (is_word_char b) else is_word_char b

  -- `\bword\b` at the front of a text that follows the character `before`
  abbrev pub matches_at : Text → Option ℕ → Text → Bool
  matches_at word before text =
      is_boundary before (head text)
      && is_prefix word text
      && is_boundary (last_of before word) (head (drop (length word) text))

  unfoldable pub search_from : Text → Option ℕ → Text → Bool
  search_from word before [] = matches_at word before []
  search_from word before (c ∷ text) =
      let later = search_from word (some c) text in matches_at word before (c ∷ text) || later

  -- `re.search` for one of the words
  unfoldable pub search_words : List Text → Text → Bool
  search_words [] text = false
  search_words (word ∷ words) text = search_from word none text || search_words words text

  -- The loop over the exclusions.
  unfoldable pub first_exclusion : List (List Text × Feature) → Text → Option Feature
  first_exclusion [] text = none
  first_exclusion ((words, feature) ∷ rest) text =
      let later = first_exclusion rest text in
      if search_words words text then some feature else later

module _ (lower : Text → Text) (is_word : ℕ → Bool) where
  -- `analyze_cve` without the identifier, which it does not look at
  unfoldable pub analyze_cve : Text → Bool × Reason
  analyze_cve description =
      let desc_lower = lower description in
      elim (first_exclusion is_word exclusions desc_lower) [
        | some feature ↦ (false, uses feature)
        | none ↦ (true, reason_of (matched applicable_keywords desc_lower))
      ]

-- `.replace("\n", " ")`
unfoldable pub one_line : Text → Text
one_line [] = []
one_line (c ∷ text) = (if c == 10 then b' ' else c) ∷ one_line text

-- `text[:97] + "..."` for a text of more than 100 characters
unfoldable pub shorten : Text → Text
shorten text = if ltb 100 (length text) then take 97 text ++ codes "..." else text

module _ (is_space : ℕ → Bool) where
  unfoldable pub lstrip : Text → Text
  lstrip [] = []
  lstrip (c ∷ text) = let rest = lstrip text in if is_space c then rest else c ∷ text

  unfoldable pub rstrip : Text → Text
  rstrip [] = []
  rstrip (c ∷ text) = let rest = rstrip text in if is_space c && is_empty rest then [] else c ∷ rest

  unfoldable pub summary : Text → Text
  summary description = shorten (rstrip (lstrip (one_line description)))

module _ (lower : Text → Text) (is_word is_space : ℕ → Bool) where
  abbrev pub row : Text → Text → Row
  row cve_id text = record {
    row_id = cve_id;
    applicable = (analyze_cve lower is_word text).0;
    reason = (analyze_cve lower is_word text).1;
    shown = summary is_space text;
  }

  -- A report without an English description is left out.
  unfoldable pub rows : List Vulnerability → List Row
  rows [] = []
  rows (v ∷ vs) =
      let text = english (get_or v.descriptions []) in
      let rest = rows vs in
      if is_empty text then rest else row (get_or v.cve_id (codes "Unknown")) text ∷ rest

  -- `main`: the exit code and the rows of the table. `fetched` is none if nothing was fetched, and
  -- some none if what was fetched has no vulnerabilities in it.
  unfoldable pub main : Option (Option (List Vulnerability)) → ℕ × List Row
  main (some (some vulnerabilities)) = (0, rows vulnerabilities)
  main _ = (1, [])
