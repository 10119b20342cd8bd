-- ===== src/Controller/Registry/Tests.antt =====
-- A registry of two clients, and the registry's theorems at it.
use home_bench.Base.{
  ℕ, ◌≡◌, refl, List, [], ◌∷◌, map, codes, nat_eq, list_eq, list_beq, insert, lookup, text_lt, leb,
  ltb, ◌+◌, is_some, keep_if, contains, length,
}
use home_bench.Controller.Registry.{
  Registry, new_registry, prune, ids_sorted, list_clients, sort_clients, upsert, snapshot,
  connection_span, touch,
}
use home_bench.Controller.Registry.Views.{prune_lem}
use home_bench.Controller.Registry.Invariant.{
  IsWellFormed, apply, apply_all, upserts, touches, Call, apply_all-IsWellFormed,
}

abbrev calls : List (ℕ × Call)
calls =
    (100, upserts (codes "b") (codes "host2") (codes "/a"))
    ∷ (160, upserts (codes "a") (codes "host1") (codes "/a"))
    ∷ (400, touches (codes "b"))
    ∷ []

abbrev fleet : Registry
fleet = apply_all calls new_registry

fleet_ids : ids_sorted fleet ≡ codes "a" ∷ codes "b" ∷ []
unfolding ids_sorted apply_all apply upsert touch insert lookup list_beq sort_clients list_clients
    text_lt
fleet_ids = refl

fleet_span : connection_span fleet ≡ 60
unfolding connection_span apply_all apply upsert touch insert lookup list_beq
fleet_span = refl

fleet-IsWellFormed : IsWellFormed fleet
fleet-IsWellFormed = apply_all-IsWellFormed calls

prune_lem_example :
    (lookup (codes "a") (prune 450 90 fleet).0
      ≡ keep_if (λ e. leb 450 (e.last_seen + 90)) (lookup (codes "a") fleet))
    × (contains (codes "a") (map (λ a. a.id) (prune 450 90 fleet).1)
        ≡ is_some (keep_if (λ e. ltb (e.last_seen + 90) 450) (lookup (codes "a") fleet)))
    × (length (prune 450 90 fleet).0 + length (prune 450 90 fleet).1 ≡ length fleet)
prune_lem_example = prune_lem 450 90 fleet (codes "a") fleet-IsWellFormed

prunes_one : map (λ a. a.id) (prune 450 90 fleet).1 ≡ codes "a" ∷ []
unfolding prune apply_all apply upsert touch insert lookup list_beq snapshot
prunes_one = refl
