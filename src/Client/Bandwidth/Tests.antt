-- ===== src/Client/Bandwidth/Tests.antt =====
-- The bandwidth phases of internal/client/worker.go on concrete turns, with whole numbers for the
-- floating-point ones.
use home_bench.Base.{ℕ, true, false, whole_floats}
use home_bench.Client.Bandwidth.{read_ok}
use home_bench.Client.Bandwidth.Loop.{Turn}

-- A turn in which all goes well.
abbrev plain_turn : Turn ℕ
plain_turn = record {
  meanwhile = λ l. l;
  past_deadline = false;
  cancelled = false;
  elapsed = 1;
  sleep_cancelled = false;
  remain_short = false;
  parent_made = true;
  direct_opened = true;
  plain_opened = false;
  refreshed_at = 0;
  opened_at = 0;
  done_at = 0;
  seed_parent_made = true;
  seed_opened = true;
  seed_write = λ k n. (n, true);
  write = λ n. (n, true);
  read = λ n. (n, read_ok);
  late = false;
  late_cancelled = false;
}

-- The first call fails; a second file is written whole.
abbrev failing_turn : Turn ℕ
failing_turn = record plain_turn { write = λ n. (0, false) }
