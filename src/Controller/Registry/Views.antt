-- ===== src/Controller/Registry/Views.antt =====
-- internal/controller/registry.go: what the calls that read the registry, or prune it, give back.
use Prim.Native.Nat.{min}
use mathlib.Core.Option
use home_bench.Base.{
  ℕ, zero, suc, ◌<◌, length-take, take_all, take-append-drop, ◌+◌, ◌≡◌, refl, ap, ◌∙◌, inl, inr,
  Bool, not, List, [], ◌∷◌, ◌++◌, map, arith, Text, ◌==◌, nat_eq, list_eq, eq_iff, if◌then◌else◌,
  Option-cases, length, take, drop, select, All, contains, Distinct, lookup, keys, lookup-insert,
  is_some, leb, ltb, length-map, keep_if, keep_if_ext, lookup-select, contains-keys-select_if,
}
use home_bench.Protocol.Phase.{Phase}
use home_bench.Controller.Registry.{
  ClientInfo, RegEntry, Registry, set_status, lookup_client, prune, is_stale, snapshot, ids,
  ids_sorted, list_clients, list_capped, sort_clients, insert_client, count,
}
use home_bench.Controller.Registry.Invariant.{IsWellFormed, IdsMatch, select-IdsMatch}
use home_bench.Controller.Registry.Sorting.{IsSorted, sort_clients-IsSorted}

abbrev with_status : ℕ → Text → Phase → RegEntry → RegEntry
with_status now status phase e = record {
  info = record (e.info) { status = status; phase = phase; last_seen = now };
  last_seen = now;
}

-- Lookup after SetStatus: the client with that id, if it is registered, has the new status, phase
-- and time; every other client is as it was.
lookup_client-set_status :
    (now : ℕ) (id j status : Text) (phase : Phase) (r : Registry)
    → lookup_client j (set_status now id status phase r) ≡ (
        if id == j
        then Option.map {A = ClientInfo}
            (λ a. record a { status = status; phase = phase; last_seen = now })
            (lookup_client j r)
        else lookup_client j r)
unfolding lookup_client set_status
lookup_client-set_status now id j status phase r = elim (Option-cases (lookup id r)) [
  | inl h ↦ rw (h, set_status) (ground (arith, eq_iff id j, h))
  | inr (e, h) ↦
      rw (h, set_status)
        (ground (arith, eq_iff id j, lookup-insert id j (with_status now status phase e) r, h))
]

not-is_stale : (now ttl : ℕ) (e : RegEntry) → not (is_stale now ttl e) ≡ leb now (e.last_seen + ttl)
unfolding is_stale
not-is_stale now ttl e = ground arith

is_stale_lem : (now ttl : ℕ) (e : RegEntry) → is_stale now ttl e ≡ ltb (e.last_seen + ttl) now
unfolding is_stale
is_stale_lem now ttl e = ground arith

keys-snapshots : (r : Registry) → IdsMatch r → map (λ a. a.id) (map (λ p. snapshot p.1) r) ≡ keys r
unfolding snapshot
keys-snapshots [] m = refl
keys-snapshots ((id, e) ∷ r) m = rw (m.0, keys-snapshots r m.1)

select_partition {ℓ} :
    {A : Type ℓ} (p : A → Bool) (xs : List A)
    → length (select (λ x. not (p x)) xs) + length (select p xs) ≡ length xs
select_partition p [] = omega arith
select_partition p (x ∷ xs) = ground (arith, select_partition p xs)

contains-insert_client :
    (x : Text) (a : ClientInfo) (cs : List ClientInfo)
    → contains x (map (λ c. c.id) (insert_client a cs)) ≡ contains x (map (λ c. c.id) (a ∷ cs))
unfolding insert_client contains
contains-insert_client x a [] = refl
contains-insert_client x a (c ∷ cs) = ground (arith, contains-insert_client x a cs)

contains-sort_clients :
    (x : Text) (cs : List ClientInfo)
    → contains x (map (λ c. c.id) (sort_clients cs)) ≡ contains x (map (λ c. c.id) cs)
unfolding sort_clients contains
contains-sort_clients x [] = refl
contains-sort_clients x (c ∷ cs) =
    contains-insert_client x c (sort_clients cs) ∙ ground (arith, contains-sort_clients x cs)

insert_client-Distinct :
    (a : ClientInfo) (cs : List ClientInfo)
    → Distinct (map (λ c. c.id) (a ∷ cs))
    → Distinct (map (λ c. c.id) (insert_client a cs))
unfolding insert_client contains
insert_client-Distinct a [] d = d
insert_client-Distinct a (c ∷ cs) d = ground (
  arith,
  contains-insert_client c.id a cs,
  insert_client-Distinct a cs,
  eq_iff c.id a.id,
  eq_iff a.id c.id,
)

sort_clients-Distinct :
    (cs : List ClientInfo)
    → Distinct (map (λ c. c.id) cs)
    → Distinct (map (λ c. c.id) (sort_clients cs))
unfolding sort_clients
sort_clients-Distinct [] d = d
sort_clients-Distinct (c ∷ cs) d =
    insert_client-Distinct c (sort_clients cs)
      (contains-sort_clients c.id cs ∙ d.0, sort_clients-Distinct cs d.1)

length-insert_client :
    (a : ClientInfo) (cs : List ClientInfo) → length (insert_client a cs) ≡ suc (length cs)
unfolding insert_client
length-insert_client a [] = refl
length-insert_client a (c ∷ cs) = ground (arith, length-insert_client a cs)

length-sort_clients : (cs : List ClientInfo) → length (sort_clients cs) ≡ length cs
unfolding sort_clients
length-sort_clients [] = refl
length-sort_clients (c ∷ cs) =
    length-insert_client c (sort_clients cs) ∙ ap suc (length-sort_clients cs)

-- IDsSorted names every registered client once, in the order of hostname and id.
ids_sorted_lem :
    (r : Registry) (id : Text)
    → IsWellFormed r
    → (contains id (ids_sorted r) ≡ contains id (ids r))
      × Distinct (ids_sorted r)
      × (length (ids_sorted r) ≡ count r)
      × IsSorted (sort_clients (list_clients r))
unfolding ids_sorted ids list_clients count
ids_sorted_lem r id w = (
  contains-sort_clients id (list_clients r) ∙ ap (contains id) (keys-snapshots r w.own_id),
  sort_clients-Distinct (list_clients r) (rw (keys-snapshots r w.own_id) w.distinct),
  length-map _ (sort_clients (list_clients r))
      ∙ length-sort_clients (list_clients r)
      ∙ length-map _ r,
  sort_clients-IsSorted (list_clients r),
)

All-take : (P : ClientInfo → Type 0) (n : ℕ) (cs : List ClientInfo) → All P cs → All P (take n cs)
All-take P zero cs h = tt
All-take P (suc n) [] h = tt
All-take P (suc n) (c ∷ cs) h = (h.0, All-take P n cs h.1)

take-IsSorted : (n : ℕ) (cs : List ClientInfo) → IsSorted cs → IsSorted (take n cs)
take-IsSorted zero cs s = tt
take-IsSorted (suc n) [] s = tt
take-IsSorted (suc n) (c ∷ cs) s = (All-take _ n cs s.0, take-IsSorted n cs s.1)

list_capped-eq-take :
    (limit : ℕ) (r : Registry)
    → 0 < limit
    → list_capped limit r ≡ take limit (sort_clients (list_clients r))
unfolding list_capped
list_capped-eq-take limit r h = ground (arith, take_all limit (sort_clients (list_clients r)))

-- With a limit above 0, ListCapped gives the first clients in the order of hostname and id, as
-- many as the limit or all if they are fewer; the others follow these in that order.
pub list_capped_lem :
    (limit : ℕ) (r : Registry)
    → 0 < limit
    → IsSorted (list_capped limit r)
      × (length (list_capped limit r) ≡ min limit (count r))
      × (list_capped limit r ++ drop limit (sort_clients (list_clients r))
          ≡ sort_clients (list_clients r))
unfolding count list_clients
list_capped_lem limit r h = rw (list_capped-eq-take limit r h) (
  take-IsSorted limit all (sort_clients-IsSorted (list_clients r)),
  omega (
    arith,
    length-take limit all,
    length-sort_clients (list_clients r),
    length-map (λ p. snapshot p.1) r,
  ),
  take-append-drop limit all,
)
  where
    all : List ClientInfo
    all = sort_clients (list_clients r)

-- On a registry in which each client stands under its own id and no id twice, Prune keeps exactly the
-- clients that were seen in the last `ttl`, as they are; its result names exactly the others; together
-- they are as many as before.
pub prune_lem :
    (now ttl : ℕ) (r : Registry) (id : Text)
    → IsWellFormed r
    → (lookup id (prune now ttl r).0 ≡ keep_if (λ e. leb now (e.last_seen + ttl)) (lookup id r))
      × (contains id (map (λ a. a.id) (prune now ttl r).1)
          ≡ is_some (keep_if (λ e. ltb (e.last_seen + ttl) now) (lookup id r)))
      × (length (prune now ttl r).0 + length (prune now ttl r).1 ≡ length r)
unfolding prune
prune_lem now ttl r id w = (
  lookup-select _ id r w.distinct ∙ keep_if_ext _ _ (lookup id r) (not-is_stale now ttl),
  rw (keys-snapshots (select _ r) (select-IdsMatch _ r w.own_id)) (
      contains-keys-select_if _ id r w.distinct
      ∙ ap is_some (keep_if_ext _ _ (lookup id r) (is_stale_lem now ttl))),
  rw (length-map _ (select (λ p. is_stale now ttl p.1) r)) (select_partition _ r),
)
