-- ===== src/Metrics/Examples.antt =====
-- Tests of the metrics.
use stackd.Base.{bytes, pos}
use stackd.Metrics.{Metrics, no_metrics, record_sync}

abbrev m : Metrics
m = record_sync (bytes "infra") (bytes "success") (pos 5) (pos 100) no_metrics
