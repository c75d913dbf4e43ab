-- ===== src/Tests/Reports.antt =====
-- Runs of the metrics.
use delta_assignment.Common.{◌≡◌, refl, List, [], ◌∷◌, none, inl, length, arith}
use delta_assignment.Common.Int.{ℤ, pos, ◌*ℤ◌}
use delta_assignment.RingBuffer.{count_if}
use delta_assignment.RingBuffer.Window.{latest}
use delta_assignment.RingBuffer.Percentile.{IsIn, AllAbove, AllBelow}
use delta_assignment.Metrics.{make_metrics, make_distribution, min_sample, max_sample}
use delta_assignment.Metrics.Samples.{add_all, sum_of, extremes-add_all}
use delta_assignment.Metrics.Cycles.{completes, record_all, record_all-completed}
use delta_assignment.Tests.Thousandths.{thousandths}

abbrev latencies : List ℤ
latencies = pos 9 ∷ pos 4 ∷ pos 7 ∷ pos 5 ∷ []

-- The sample 9 has left the ring of three.
extremes-add_all_example :
    IsIn (min_sample thousandths (add_all latencies (make_distribution 3))) (latest 3 latencies)
    × AllAbove
        (min_sample thousandths (add_all latencies (make_distribution 3)))
        (latest 3 latencies)
    × IsIn (max_sample thousandths (add_all latencies (make_distribution 3))) (latest 3 latencies)
    × AllBelow
        (max_sample thousandths (add_all latencies (make_distribution 3)))
        (latest 3 latencies)
    × ((add_all latencies (make_distribution 3)).sum ≡ sum_of latencies)
unfolding ◌*ℤ◌
extremes-add_all_example =
    extremes-add_all thousandths 3 (pos 4) latencies (omega arith) (inl refl) refl refl refl

-- Three cycles: one completed, one partly filled, one without a target.
abbrev three_cycles : List (ℤ × ℤ)
three_cycles = (pos 10, pos 10) ∷ (pos 10, pos 4) ∷ (pos 0, pos 0) ∷ []

record_all-completed_example :
    ((record_all thousandths three_cycles (make_metrics none)).cycles ≡ length three_cycles)
    × ((record_all thousandths three_cycles (make_metrics none)).completed_cycles
        ≡ count_if completes three_cycles)
record_all-completed_example = record_all-completed thousandths none three_cycles (omega arith)
