-- ===== src/Client/Bandwidth/Written.antt =====
-- Which files the loop of internal/client/worker.go, runBandwidth, adds to the ledger.
use home_bench.Base.{nat_eq}
use home_bench.Client.Stats.{Stats}
