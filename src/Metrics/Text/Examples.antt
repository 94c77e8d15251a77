-- ===== src/Metrics/Text/Examples.antt =====
-- Tests of the text of the metrics.
use stackd.Base.{◌≡◌, refl, [], ◌∷◌, All, arith, Bytes, bytes, decimal, ℤ, text}
use stackd.Metrics.{no_metrics}
use stackd.Metrics.Labels.{escape_label}
use stackd.Metrics.Text.{status_lines, total_lines, handler}
use stackd.Metrics.Text.Laws.{IsLine, handler-All}

abbrev seconds : ℤ → Bytes
seconds d = bytes "0.0000"

two :
    total_lines
      (bytes "stackd_sync_total")
      (bytes "repo")
      ((bytes "a\"b", (bytes "success", 12) ∷ []) ∷ [])
    ≡ bytes "stackd_sync_total{repo=\"a\\\"b\",status=\"success\"} 12" ∷ []
unfolding total_lines status_lines escape_label decimal text
two = refl

seconds-IsLine : (d : ℤ) → IsLine (seconds d)
seconds-IsLine d = ground arith

handler-All_example : All IsLine (handler seconds 7 9 no_metrics)
handler-All_example = handler-All seconds seconds-IsLine 7 9 no_metrics
