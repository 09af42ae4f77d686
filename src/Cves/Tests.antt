-- ===== src/Cves/Tests.antt =====
-- Runs of the monitor of vulnerabilities on short reports with the tables of ASCII, and the theorems
-- about it at concrete inputs.
use talyn.Base.Exec.{raised, ok}
use talyn.Base.{
  ◌||◌, ◌+◌, ◌&&◌, ◌==◌, leb, if◌then◌else◌, List, Bool, refl, none, some, true, false, [], ◌∷◌, ℕ,
  ◌≡◌, ◌↔◌, Option,
}
use talyn.Base.Text.{contains, Text, codes}
use talyn.Cves.{
  analyze_cve, search_words, search_from, first_exclusion, exclusions, main, Vulnerability, uses,
  mentions, fuse, matched,
}
use talyn.Cves.Words.{analyze_cve_iff, Some, Mentions}
use talyn.Cves.Table.{All}
use talyn.Cves.Lines.{IsLine, main-IsLine}
use talyn.Cves.Report.{report_of, fetch_cves, url_error, other_error}

abbrev lower : Text → Text
lower [] = []
lower (c ∷ s) = (if leb b'A' c && leb c b'Z' then c + 32 else c) ∷ lower s

abbrev is_word : ℕ → Bool
is_word c =
    leb b'a' c && leb c b'z' || leb b'A' c && leb c b'Z' || leb b'0' c && leb c b'9' || c == b'_'

abbrev is_space : ℕ → Bool
is_space c = c == b' '

abbrev report : Text
report = codes "a FUSE daemon"

finds_fuse : analyze_cve lower is_word report ≡ (false, uses fuse)
unfolding analyze_cve first_exclusion search_words search_from
finds_fuse = refl

-- A word inside another one does not count.
refused_fuse :
    analyze_cve lower is_word (codes "refused read") ≡ (true, mentions (codes "read" ∷ []))
unfolding analyze_cve first_exclusion search_words search_from matched contains
refused_fuse = refl

analyze_cve_iff_example :
    ((analyze_cve lower is_word report).0 ≡ false)
    ↔ Some (Mentions is_word (lower report)) exclusions
analyze_cve_iff_example = analyze_cve_iff lower is_word report

abbrev fetched : Option (Option (List Vulnerability))
fetched = some (
    some (
      record {
        cve_id = none;
        descriptions = some (record { lang = some (codes "en"); value = some report } ∷ []);
      }
      ∷ []))

main-IsLine_example : All (IsLine lower is_word is_space) (main lower is_word is_space fetched).1
main-IsLine_example = main-IsLine lower is_word is_space fetched

-- A URLError ends the monitor with 1, and any other exception goes on.
report_errors :
    (report_of lower is_word is_space url_error ≡ ok (1, []))
    × (report_of lower is_word is_space (other_error 3) ≡ raised 3)
unfolding report_of fetch_cves main
report_errors = (refl, refl)

nothing_fetched : (main lower is_word is_space none).0 ≡ 1
unfolding main
nothing_fetched = refl
