-- ===== src/Controller/Registry.antt =====
-- internal/controller/registry.go. The map `clients` is an association list; the clock is an
-- argument, in nanoseconds, and 0 is Go's zero time. The entry's atomic `lastSeen` is a field.
pub mod Sorting
pub mod Invariant
pub mod Views
mod Tests
use home_bench.Base.{
  ℕ, ◌+◌, ◌-◌, ◌≡◌, Bool, true, false, not, ◌&&◌, ◌||◌, List, [], ◌∷◌, ◌++◌, map, Option, none,
  some, Text, codes, ◌==◌, nat_eq, list_eq, if◌then◌else◌, ltb, leb, length, take, select, lookup,
  insert, delete, text_lt, keys,
}
use home_bench.Protocol.Phase.{Phase}
use home_bench.Protocol.Prefix.{select_prefix}

pub record ClientInfo : Type 0 where
  pub id : Text
  pub hostname : Text
  pub prefix : Text
  pub connected_at : ℕ
  pub last_seen : ℕ
  pub status : Text
  pub phase : Phase
  pub selected : Bool

pub record RegEntry : Type 0 where
  pub info : ClientInfo
  pub last_seen : ℕ

abbrev pub Registry : Type 0
Registry = List (Text × RegEntry)

abbrev pub new_registry : Registry
new_registry = []

-- Upsert
unfoldable pub upsert : ℕ → Text → Text → Text → Registry → Registry × ClientInfo
upsert now id hostname prefix r =
    let info : ClientInfo = record {
      id = id;
      hostname = hostname;
      prefix = prefix;
      connected_at = now;
      last_seen = now;
      status = codes "registered";
      phase = Phase.idle;
      selected = false;
    } in
    (insert id (record { info = info; last_seen = now }) r, info)

-- The loop of ConnectionSpan: the earliest and the latest connection so far.
span_loop : List (Text × RegEntry) → ℕ → ℕ → ℕ × ℕ
span_loop [] first last = (first, last)
span_loop ((id, e) ∷ r) first last =
    let t = e.info.connected_at in
    let first' = if t == 0 then first else if first == 0 || ltb t first then t else first in
    let last' = if t == 0 then last else if last == 0 || ltb last t then t else last in
    span_loop r first' last'

-- ConnectionSpan
unfoldable pub connection_span : Registry → ℕ
unfolding span_loop
connection_span r =
    let (first, last) = span_loop r 0 0 in
    if first == 0 || last == 0 || not (ltb first last) then 0 else last - first

-- Touch
unfoldable pub touch : ℕ → Text → Registry → Registry
touch now id r = elim (lookup id r) [
  | none ↦ r
  | some e ↦ insert id (record e { last_seen = now }) r
]

-- SetStatus
unfoldable pub set_status : ℕ → Text → Text → Phase → Registry → Registry
set_status now id status phase r = elim (lookup id r) [
  | none ↦ r
  | some e ↦
      insert id
        (record {
          info = record (e.info) { status = status; phase = phase; last_seen = now };
          last_seen = now;
        })
        r
]

-- The copy that Lookup, List and Prune hand out, with the time of the last touch.
unfoldable pub snapshot : RegEntry → ClientInfo
snapshot e = record (e.info) { last_seen = e.last_seen }

-- Lookup
unfoldable pub lookup_client : Text → Registry → Option ClientInfo
unfolding snapshot
lookup_client id r = elim (lookup id r) [ none ↦ none | some e ↦ some (snapshot e) ]

-- Remove
unfoldable pub remove_client : Text → Registry → Registry
remove_client = delete

-- Count
unfoldable pub count : Registry → ℕ
count r = length r

-- List
unfoldable pub list_clients : Registry → List ClientInfo
unfolding snapshot
list_clients = map λ p. snapshot p.1

-- The `less` of the two sort.Slice calls: by hostname, then by id.
unfoldable pub client_less : ClientInfo → ClientInfo → Bool
client_less a b =
    if not (a.hostname == b.hostname) then text_lt a.hostname b.hostname else text_lt a.id b.id

-- sort.Slice. No two clients of a registry are equal in this order, so every sort gives this list.
insert_client : ClientInfo → List ClientInfo → List ClientInfo
insert_client a [] = a ∷ []
insert_client a (b ∷ bs) = if client_less b a then b ∷ insert_client a bs else a ∷ b ∷ bs

unfoldable pub sort_clients : List ClientInfo → List ClientInfo
unfolding insert_client client_less
sort_clients [] = []
sort_clients (a ∷ bs) = insert_client a (sort_clients bs)

-- ListCapped
unfoldable pub list_capped : ℕ → Registry → List ClientInfo
list_capped limit r =
    let all = sort_clients (list_clients r) in
    if ltb 0 limit && ltb limit (length all) then take limit all else all

-- Statuses: a map from the ids that are registered to their status.
unfoldable pub statuses : List Text → Registry → List (Text × Text)
statuses [] r = []
statuses (id ∷ ids) r = elim (lookup id r) [
  | none ↦ statuses ids r
  | some e ↦ insert id e.info.status (statuses ids r)
]

-- IDs
unfoldable pub ids : Registry → List Text
ids = keys

-- IDsSorted
unfoldable pub ids_sorted : Registry → List Text
ids_sorted r = map (λ a. a.id) (sort_clients (list_clients r))

-- ReassignPrefixes
unfoldable pub reassign_prefixes : List Text → Registry → Registry
reassign_prefixes prefixes = map λ p. (
  p.0,
  record (p.1) { info = record (p.1.info) { prefix = select_prefix p.1.info.hostname prefixes } },
)

is_stale : ℕ → ℕ → RegEntry → Bool
is_stale now ttl e = ltb e.last_seen (now - ttl)

-- Prune: the registry that is left, and the clients that are gone. Were now - ttl negative, nobody
-- would be stale, as with the difference cut at 0.
unfoldable pub prune : ℕ → ℕ → Registry → Registry × List ClientInfo
unfolding is_stale
prune now ttl r = (
  select (λ p. not (is_stale now ttl p.1)) r,
  map (λ p. snapshot p.1) (select (λ p. is_stale now ttl p.1) r),
)
