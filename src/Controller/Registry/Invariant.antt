-- ===== src/Controller/Registry/Invariant.antt =====
-- internal/controller/registry.go: what holds of the registry between two calls.
use home_bench.Base.{
  ℕ, ◌≡◌, refl, inl, inr, Bool, List, [], ◌∷◌, some, arith, Text, ◌==◌, nat_eq, list_eq, eq_iff,
  Bool-cases, Option-cases, select, All, Distinct, lookup, insert, delete, keys, insert-Distinct,
  keys-select-Distinct,
}
use home_bench.Protocol.Phase.{Phase}
use home_bench.Controller.Registry.{
  RegEntry, Registry, new_registry, upsert, touch, set_status, remove_client, reassign_prefixes,
  prune,
}

-- The calls that change the registry, with their arguments.
pub data Call : Type 0 where
  upserts : Text → Text → Text → Call
  touches : Text → Call
  sets_status : Text → Text → Phase → Call
  removes : Text → Call
  reassigns : List Text → Call
  prunes : ℕ → Call

unfoldable pub apply : ℕ → Call → Registry → Registry
apply now (upserts id hostname prefix) r = (upsert now id hostname prefix r).0
apply now (touches id) r = touch now id r
apply now (sets_status id status phase) r = set_status now id status phase r
apply now (removes id) r = remove_client id r
apply now (reassigns prefixes) r = reassign_prefixes prefixes r
apply now (prunes ttl) r = (prune now ttl r).0

-- Each client stands under its own id.
abbrev pub IdsMatch : Registry → Type 0
IdsMatch = All λ p. p.1.info.id ≡ p.0

-- No id is registered twice, and each client stands under its own id.
pub record IsWellFormed (r : Registry) : Type 0 where
  pub distinct : Distinct (keys r)
  pub own_id : IdsMatch r

insert-IdsMatch :
    (id : Text) (e : RegEntry) (r : Registry)
    → e.info.id ≡ id
    → IdsMatch r
    → IdsMatch (insert id e r)
unfolding insert
insert-IdsMatch id e [] h m = (h, tt)
insert-IdsMatch id e ((j, w) ∷ r) h m = elim (Bool-cases (j == id)) [
  | inl k ↦ rw k (h, m.1)
  | inr k ↦ rw k (m.0, insert-IdsMatch id e r h m.1)
]

lookup-IdsMatch :
    (id : Text) (e : RegEntry) (r : Registry) → IdsMatch r → lookup id r ≡ some e → e.info.id ≡ id
unfolding lookup
lookup-IdsMatch id e [] m h = cc
lookup-IdsMatch id e ((j, w) ∷ r) m h = ground (arith, eq_iff j id, lookup-IdsMatch id e r m.1)

pub select-IdsMatch :
    (p : Text × RegEntry → Bool) (r : Registry) → IdsMatch r → IdsMatch (select p r)
select-IdsMatch p [] m = tt
select-IdsMatch p (x ∷ r) m = elim (Bool-cases (p x)) [
  | inl k ↦ rw k (m.0, select-IdsMatch p r m.1)
  | inr k ↦ rw k (select-IdsMatch p r m.1)
]

reassign-IdsMatch : (ps : List Text) (r : Registry) → IdsMatch r → IdsMatch (reassign_prefixes ps r)
unfolding reassign_prefixes
reassign-IdsMatch ps [] m = tt
reassign-IdsMatch ps (x ∷ r) m = (m.0, reassign-IdsMatch ps r m.1)

keys-reassign_prefixes : (ps : List Text) (r : Registry) → keys (reassign_prefixes ps r) ≡ keys r
unfolding reassign_prefixes
keys-reassign_prefixes ps [] = refl
keys-reassign_prefixes ps (x ∷ r) = rw (keys-reassign_prefixes ps r)

insert-IsWellFormed :
    (id : Text) (e : RegEntry) (r : Registry)
    → e.info.id ≡ id
    → IsWellFormed r
    → IsWellFormed (insert id e r)
insert-IsWellFormed id e r h w = record {
  distinct = insert-Distinct id e r w.distinct;
  own_id = insert-IdsMatch id e r h w.own_id;
}

select-IsWellFormed :
    (p : Text × RegEntry → Bool) (r : Registry) → IsWellFormed r → IsWellFormed (select p r)
select-IsWellFormed p r w = record {
  distinct = keys-select-Distinct p r w.distinct;
  own_id = select-IdsMatch p r w.own_id;
}

-- Every call that changes the registry keeps its ids distinct and each client under its own id.
pub apply-IsWellFormed :
    (now : ℕ) (c : Call) (r : Registry) → IsWellFormed r → IsWellFormed (apply now c r)
unfolding apply upsert touch set_status remove_client prune delete
apply-IsWellFormed now (upserts id hostname prefix) r w = insert-IsWellFormed id _ r refl w
apply-IsWellFormed now (touches id) r w = elim (Option-cases (lookup id r)) [
  | inl h ↦ rw (h, touch) w
  | inr (e, h) ↦ rw (h, touch) (insert-IsWellFormed id _ r (lookup-IdsMatch id e r w.own_id h) w)
]
apply-IsWellFormed now (sets_status id status phase) r w = elim (Option-cases (lookup id r)) [
  | inl h ↦ rw (h, set_status) w
  | inr (e, h) ↦
      rw (h, set_status) (insert-IsWellFormed id _ r (lookup-IdsMatch id e r w.own_id h) w)
]
apply-IsWellFormed now (removes id) r w = select-IsWellFormed _ r w
apply-IsWellFormed now (reassigns prefixes) r w = record {
  distinct = rw (keys-reassign_prefixes prefixes r) w.distinct;
  own_id = reassign-IdsMatch prefixes r w.own_id;
}
apply-IsWellFormed now (prunes ttl) r w = select-IsWellFormed _ r w

-- A sequence of calls, each at its own time.
unfoldable pub apply_all : List (ℕ × Call) → Registry → Registry
apply_all [] r = r
apply_all ((now, c) ∷ cs) r = apply_all cs (apply now c r)

apply_all-from :
    (cs : List (ℕ × Call)) (r : Registry) → IsWellFormed r → IsWellFormed (apply_all cs r)
unfolding apply_all
apply_all-from [] r w = w
apply_all-from ((now, c) ∷ cs) r w =
    apply_all-from cs (apply now c r) (apply-IsWellFormed now c r w)

-- After any sequence of calls on a new registry, each at its own time, no id is registered twice and
-- each client stands under its own id.
pub apply_all-IsWellFormed : (cs : List (ℕ × Call)) → IsWellFormed (apply_all cs new_registry)
apply_all-IsWellFormed cs = apply_all-from cs [] (record { distinct = tt; own_id = tt })
