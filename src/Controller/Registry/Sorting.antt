-- ===== src/Controller/Registry/Sorting.antt =====
-- The order in which ListCapped and IDsSorted show the clients (internal/controller/registry.go).
use home_bench.Base.{
  ◌≡◌, refl, inl, inr, true, false, List, [], ◌∷◌, arith, Text, nat_eq, list_eq, eq_iff, Bool-cases,
  All, text_lt,
}
use home_bench.Controller.Registry.{ClientInfo, client_less, insert_client, sort_clients}

text_lt_asym : (s t : Text) → text_lt s t ≡ true → text_lt t s ≡ false
unfolding text_lt
text_lt_asym [] [] h = refl
text_lt_asym [] (b ∷ t) h = refl
text_lt_asym (a ∷ s) [] h = ground arith
text_lt_asym (a ∷ s) (b ∷ t) h = ground (arith, text_lt_asym s t)

-- The order is negatively transitive, so `not less` is a total preorder.
text_ge_trans : (s t u : Text) → text_lt s t ≡ false → text_lt t u ≡ false → text_lt s u ≡ false
unfolding text_lt
text_ge_trans [] [] u h k = k
text_ge_trans [] (b ∷ t) u h k = cc
text_ge_trans (a ∷ s) t [] h k = refl
text_ge_trans (a ∷ s) [] (c ∷ u) h k = cc
text_ge_trans (a ∷ s) (b ∷ t) (c ∷ u) h k = ground (arith, text_ge_trans s t u)

-- Texts that are not less than one another are equal.
text_lt_connected : (s t : Text) → text_lt s t ≡ false → text_lt t s ≡ false → s ≡ t
unfolding text_lt
text_lt_connected [] [] h k = refl
text_lt_connected [] (b ∷ t) h k = cc
text_lt_connected (a ∷ s) [] h k = cc
text_lt_connected (a ∷ s) (b ∷ t) h k = ground (arith, text_lt_connected s t)

client_less_asym : (a b : ClientInfo) → client_less a b ≡ true → client_less b a ≡ false
unfolding client_less
client_less_asym a b h = ground (
  arith,
  text_lt_asym a.hostname b.hostname,
  text_lt_asym a.id b.id,
  eq_iff a.hostname b.hostname,
  eq_iff b.hostname a.hostname,
)

client_ge_trans :
    (a b c : ClientInfo)
    → client_less a b ≡ false
    → client_less b c ≡ false
    → client_less a c ≡ false
unfolding client_less
client_ge_trans a b c h k = ground (
  arith,
  text_ge_trans a.hostname b.hostname c.hostname,
  text_ge_trans a.id b.id c.id,
  text_lt_connected a.hostname b.hostname,
  text_lt_connected b.hostname c.hostname,
  text_ge_trans b.hostname c.hostname a.hostname,
  text_ge_trans c.hostname a.hostname b.hostname,
  text_lt_asym a.hostname b.hostname,
  text_lt_asym b.hostname c.hostname,
  text_lt_asym a.hostname c.hostname,
  eq_iff a.hostname b.hostname,
  eq_iff b.hostname c.hostname,
  eq_iff a.hostname c.hostname,
)

-- No client is less than one that stands before it.
abbrev pub IsSorted : List ClientInfo → Type 0
IsSorted [] = Unit
IsSorted (a ∷ bs) = All (λ b. client_less b a ≡ false) bs × IsSorted bs

All-ge_trans :
    (a b : ClientInfo) (cs : List ClientInfo)
    → client_less b a ≡ false
    → All (λ c. client_less c b ≡ false) cs
    → All (λ c. client_less c a ≡ false) cs
All-ge_trans a b [] h all = tt
All-ge_trans a b (c ∷ cs) h all = (client_ge_trans c b a all.0 h, All-ge_trans a b cs h all.1)

All-insert_client :
    (P : ClientInfo → Type 0) (a : ClientInfo) (bs : List ClientInfo)
    → P a
    → All P bs
    → All P (insert_client a bs)
unfolding insert_client
All-insert_client P a [] h all = (h, tt)
All-insert_client P a (b ∷ bs) h all = elim (Bool-cases (client_less b a)) [
  | inl e ↦ rw e (all.0, All-insert_client P a bs h all.1)
  | inr e ↦ rw e (h, all)
]

insert_client-IsSorted :
    (a : ClientInfo) (bs : List ClientInfo) → IsSorted bs → IsSorted (insert_client a bs)
unfolding insert_client
insert_client-IsSorted a [] s = (tt, tt)
insert_client-IsSorted a (b ∷ bs) s = elim (Bool-cases (client_less b a)) [
  | inl e ↦
      rw e (All-insert_client _ a bs (client_less_asym b a e) s.0, insert_client-IsSorted a bs s.1)
  | inr e ↦ rw e ((e, All-ge_trans a b bs e s.0), s)
]

pub sort_clients-IsSorted : (cs : List ClientInfo) → IsSorted (sort_clients cs)
unfolding sort_clients
sort_clients-IsSorted [] = tt
sort_clients-IsSorted (a ∷ bs) =
    insert_client-IsSorted a (sort_clients bs) (sort_clients-IsSorted bs)
