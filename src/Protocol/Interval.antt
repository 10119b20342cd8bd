-- ===== src/Protocol/Interval.antt =====
-- internal/protocol/protocol.go: how often a client pushes metrics, by the size of the fleet.
-- Durations are nanoseconds. The source computes float64(n) / 100 * 1e9 and rounds to seconds. A
-- fleet that lies half-way between two seconds has n = 100 k + 50, where these floats are exact, and
-- elsewhere n / 100 lies a hundredth of a second at least from a half, so the rounding is that of
-- the exact product below.
use home_bench.Base.{ℕ, ◌+◌, ◌*◌, ◌/◌, ◌%◌, ◌≤◌, ◌≡◌, arith, ltb, if◌then◌else◌}

abbrev pub second : ℕ
second = 1000000000

-- MetricsInterval, MetricsTargetAggregateHz and MetricsIntervalMax.
abbrev pub metrics_interval : ℕ
metrics_interval = second

abbrev pub metrics_target_aggregate_hz : ℕ
metrics_target_aggregate_hz = 100

abbrev pub metrics_interval_max : ℕ
metrics_interval_max = 60 * second

-- Duration.Round(time.Second): to the nearest second, half-way up.
unfoldable pub round_to_second : ℕ → ℕ
round_to_second d = (d + second / 2) / second * second

-- MetricsIntervalForClients
unfoldable pub metrics_interval_for_clients : ℕ → ℕ
unfolding round_to_second
metrics_interval_for_clients n =
    let clients = if ltb n 1 then 1 else n in
    let d = clients * second / metrics_target_aggregate_hz in
    let low = if ltb d metrics_interval then metrics_interval else d in
    let high = if ltb metrics_interval_max low then metrics_interval_max else low in
    if ltb high second then second else round_to_second high

-- Whatever the size of the fleet, the interval is a whole number of seconds from 1 to 60.
pub metrics_interval_for_clients_bounds :
    (n : ℕ)
    → (second ≤ metrics_interval_for_clients n)
      × (metrics_interval_for_clients n ≤ 60 * second)
      × (metrics_interval_for_clients n % second ≡ 0)
unfolding metrics_interval_for_clients
metrics_interval_for_clients_bounds n = ground arith

-- From 100 to 6000 clients, the number of clients is within 50 of 100 times the interval in
-- seconds: all together they send about 100 reports in a second.
metrics_interval_for_clients_rate :
    (n : ℕ)
    → 100 ≤ n
    → n ≤ 6000
    → (100 * (metrics_interval_for_clients n / second) ≤ n + 50)
      × (n ≤ 100 * (metrics_interval_for_clients n / second) + 50)
unfolding metrics_interval_for_clients
metrics_interval_for_clients_rate n h k = ground arith

-- A larger fleet never reports more often.
metrics_interval_for_clients_mono :
    (m n : ℕ) → m ≤ n → metrics_interval_for_clients m ≤ metrics_interval_for_clients n
unfolding metrics_interval_for_clients
metrics_interval_for_clients_mono m n h = ground arith
