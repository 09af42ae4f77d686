-- ===== src/Cves/Report.antt =====
-- What scripts/monitor_io_uring_cves.py makes of the answer of the server, and the lines that it
-- prints.
use talyn.Base.{false, none, [], true, ◌∷◌, map, Option, ◌++◌, ℕ, List, Bool}
use talyn.Base.Text.{Text, codes}
use talyn.Base.Exec.{Result, ok, raised}
use talyn.Cves.{
  Vulnerability, Row, Feature, zcrx, napi, futex, waitid, msg_ring, pbuf_ring, ublk, sqe128, fuse,
  Reason, uses, mentions, general, main,
}

-- The request fails with a URLError, or with another exception, as when the answer is no JSON; or its
-- answer is false, or has no vulnerabilities in it, or has some.
pub data Response : Type 0 where
  url_error : Response
  other_error : ℕ → Response
  answered : Option (Option (List Vulnerability)) → Response

unfoldable pub fetch_cves : Response → Result ℕ (Option (Option (List Vulnerability)))
fetch_cves url_error = ok none
fetch_cves (other_error e) = raised e
fetch_cves (answered found) = ok found

-- The features of EXCLUSIONS
unfoldable pub feature_text : Feature → Text
feature_text zcrx = codes "zcrx (zero-copy RX)"
feature_text napi = codes "NAPI busy polling"
feature_text futex = codes "FUTEX operations"
feature_text waitid = codes "WAITID operations"
feature_text msg_ring = codes "MSG_RING operations"
feature_text pbuf_ring = codes "PBUF_RING incremental buffers"
feature_text ublk = codes "ublk driver"
feature_text sqe128 = codes "128-byte SQE (SQE128/SQE_MIXED)"
feature_text fuse = codes "libfuse / FUSE daemon integration"

-- `', '.join(matched)`
unfoldable pub join_words : List Text → Text
join_words [] = []
join_words (w ∷ []) = w
join_words (w ∷ v ∷ ws) = w ++ (codes ", " ++ join_words (v ∷ ws))

unfoldable pub reason_text : Reason → Text
unfolding feature_text join_words
reason_text (uses f) = codes "Not applicable (uses " ++ (feature_text f ++ codes ")")
reason_text (mentions ws) =
    codes "Potentially applicable (mentions: " ++ (join_words ws ++ codes ")")
reason_text general = codes "Potentially applicable (general io_uring context)"

-- The two states, after their signs.
unfoldable pub status_text : Bool → Text
status_text true = 9888 ∷ 65039 ∷ codes " POTENTIALLY APPLICABLE"
status_text false = 9989 ∷ codes " NOT APPLICABLE"

abbrev separator : Text
separator = codes " | "

-- `f"| {cve_id} | {status} | {reason} | {summary} |"`
unfoldable pub line : Row → Text
unfolding reason_text status_text
line r =
    codes "| "
    ++ (r.row_id
        ++ (separator
            ++ (status_text r.applicable
                ++ (separator
                    ++ (reason_text r.reason ++ (separator ++ (r.shown ++ codes " |")))))))

module _ (lower : Text → Text) (is_word is_space : ℕ → Bool) where
  -- `main` after the request: the exit code and the lines of the table, or the exception.
  unfoldable pub report_of : Response → Result ℕ (ℕ × List Text)
  unfolding fetch_cves line
  report_of response = elim (fetch_cves response) [
    | raised e ↦ raised e
    | ok fetched ↦
        let (code, found) = main lower is_word is_space fetched in ok (code, map line found)
  ]
