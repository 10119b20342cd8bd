-- ===== src/Controller/Server/Sessions/Takeover.antt =====
-- A connection of internal/controller/server.go and its successor, where the client registers again.
use home_bench.Base.{
  ℕ, ◌≡◌, refl, ◌∙◌, true, false, not, ◌&&◌, [], ◌∷◌, none, some, is_some, Text, ◌==◌, nat_eq,
  list_eq, eq_self, if◌then◌else◌, if_elim, lookup, delete, lookup-insert, lookup-delete, contains,
  arith,
}
use home_bench.Controller.Registry.{ClientInfo, upsert, remove_client, lookup_client}
use home_bench.Controller.Orchestrator.State.{Orchestrator}
use home_bench.Controller.Orchestrator.Selection.{on_client_registered}
use home_bench.Controller.Orchestrator.Lifecycle.{on_client_removed}
use home_bench.Controller.Server.Sessions.{
  Server, with_registry, host_of, enter, connect, register, forget, disconnect, drop_pruned,
}

module _ {F : Type 0} where
  forget-registry :
      (now : ℕ) (id host : Text) (s : Server F)
      → (forget now id host s).orch.registry ≡ s.orch.registry
  unfolding forget on_client_removed
  forget-registry now id host s = ground arith

  on_client_registered-registry :
      (id : Text) (o : Orchestrator F) → (on_client_registered id o).registry ≡ o.registry
  unfolding on_client_registered
  on_client_registered-registry id o = ground arith

  register-connects :
      (now conn : ℕ) (fresh asked host : Text) (s : Server F)
      → lookup
          (register now conn fresh asked host s).1
          (register now conn fresh asked host s).0.clients
        ≡ some conn
  unfolding register
  register-connects now conn fresh asked host s =
      let id = if asked == [] then fresh else asked in
      lookup-insert id id conn s.clients ∙ rw (eq_self id) refl

  -- A connection ends after its client has registered again over another connection: nothing happens,
  -- neither to the registry nor to the new connection nor to the run.
  disconnect-register :
      (now now' old conn : ℕ) (fresh asked host : Text) (s : Server F)
      → (conn == old) ≡ false
      → disconnect now' old
          (register now conn fresh asked host s).1
          (register now conn fresh asked host s).0
        ≡ (register now conn fresh asked host s).0
  unfolding disconnect
  disconnect-register now now' old conn fresh asked host s other =
      let r = register now conn fresh asked host s in
      rw (disconnect, register-connects now conn fresh asked host s)
        (if_elim (λ (x : Server F). x ≡ r.0) (not (r.1 == []) && (conn == old))
          (λ h. absurd (ground (arith, h, other))) (λ _. refl))

  register-registers :
      (now conn : ℕ) (fresh asked host : Text) (s : Server F)
      → is_some (
          lookup
            (register now conn fresh asked host s).1
            (register now conn fresh asked host s).0.orch.registry)
        ≡ true
  unfolding register upsert
  register-registers now conn fresh asked host s =
      let id = if asked == [] then fresh else asked in
      rw (on_client_registered-registry id _)
        (rw (lookup-insert id id _ s.orch.registry, eq_self id) refl)

  register-own_id :
      (now conn : ℕ) (fresh asked host : Text) (s : Server F)
      → (asked == []) ≡ false
      → (register now conn fresh asked host s).1 ≡ asked
  unfolding register
  register-own_id now conn fresh asked host s named = rw (named) refl

  -- A client that was found stale registers again before the ticker comes to drop it: its new connection
  -- is closed and gone from the map, but the client stays registered; and the end of the new connection
  -- does not change that.
  pub drop_pruned-register :
      (now now' now'' conn : ℕ) (fresh host : Text) (info : ClientInfo) (s : Server F)
      → (info.id == []) ≡ false
      → (lookup info.id (drop_pruned now' info (register now conn fresh info.id host s).0).clients
          ≡ none)
        × (contains conn (drop_pruned now' info (register now conn fresh info.id host s).0).closed
            ≡ true)
        × (is_some (
              lookup info.id
                (drop_pruned now' info (register now conn fresh info.id host s).0).orch.registry)
            ≡ true)
        × (disconnect now'' conn info.id
              (drop_pruned now' info (register now conn fresh info.id host s).0)
            ≡ drop_pruned now' info (register now conn fresh info.id host s).0)
  unfolding drop_pruned forget disconnect contains
  drop_pruned-register now now' now'' conn fresh host info s named =
      let r = (register now conn fresh info.id host s).0 in
      let own : (register now conn fresh info.id host s).1 ≡ info.id =
        register-own_id now conn fresh info.id host s named in
      let at : lookup info.id r.clients ≡ some conn =
        rw own at (register-connects now conn fresh info.id host s) in
      let known : is_some (lookup info.id r.orch.registry) ≡ true =
        rw own at (register-registers now conn fresh info.id host s) in
      let gone : lookup info.id (delete info.id r.clients) ≡ none =
        lookup-delete info.id info.id r.clients ∙ rw (eq_self info.id) refl in
      rw (drop_pruned, at)
        (
          gone,
          rw (eq_self conn) refl,
          rw
              (forget-registry now' info.id info.hostname
                (record r { clients = delete info.id r.clients; closed = conn ∷ r.closed }))
              known,
          rw (disconnect, gone) refl,
        )

  -- A connection ends between the two parts of its client's registration over another connection: the
  -- new connection is in the map, and the client is not registered.
  connect-disconnect :
      (now now' old conn : ℕ) (id host : Text) (s : Server F)
      → (id == []) ≡ false
      → lookup id s.clients ≡ some old
      → (lookup id (connect conn id (disconnect now' old id (enter now id host s))).clients
          ≡ some conn)
        × (lookup id (connect conn id (disconnect now' old id (enter now id host s))).orch.registry
            ≡ none)
  unfolding connect enter disconnect remove_client
  connect-disconnect now now' old conn id host s named at =
      let known = enter now id host s in
      let left = record (with_registry (remove_client id known.orch.registry) known) {
        clients = delete id s.clients;
      } in
      let lost = forget now' id (host_of (lookup_client id known.orch.registry)) left in
      let ended : disconnect now' old id known ≡ lost =
        rw (disconnect, at) (ground (arith, named, eq_self old)) in
      let gone : lookup id lost.orch.registry ≡ none =
        rw (forget-registry now' id (host_of (lookup_client id known.orch.registry)) left)
          (lookup-delete id id known.orch.registry ∙ rw (eq_self id) refl) in
      rw ended (lookup-insert id id conn lost.clients ∙ rw (eq_self id) refl, gone)
