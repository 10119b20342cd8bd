-- ===== src/Client/Paths/Tests.antt =====
-- The paths of internal/client/paths.go on concrete indices.
use home_bench.Base.{◌≡◌, codes}
use home_bench.Client.Paths.{file_path}
use home_bench.Client.Paths.Distinct.{index_of, index_of-file_path}

index_of-file_path_example : index_of (file_path (codes "/data/test/host1") 1234567) ≡ 1234567
index_of-file_path_example = index_of-file_path (codes "/data/test/host1") 1234567
