-- ===== src/Node/Accounts.antt =====
-- An account in the pool of a worker, before TDLib has authorized it.
use tgplane.Common.{
  string_key, ℕ, String, none, some, Result, ok, err, ◌≡◌, refl, arith, same?_refl,
}
use mathlib.Core.Option
use tgplane.Common.Map.{lookup, insert, lookup-insert}
use tgplane.Session.Model.{Session, ready, authorizing, new_session, set_status, account}
use tgplane.Session.Pool as Pools
use tgplane.Session.Pool.{Entry, Pool, add, add_session, start, get}
use tgplane.Tdlib.{
  Parameters, Client, ClientError, not_authorized, new, new_account, auth_state_string, get_me,
}
use tgplane.Tdlib as Tdlib
use tgplane.Node.{TdlibConfig, session_config, factory}

module _ {T E : Type 0} (join : String → String → String)
    (authorize : Parameters → String → Result E T) (cfg : TdlibConfig) where
  factory-account :
      (id phone : String)
      → factory join authorize cfg id phone "" ≡ ok (new_account (session_config cfg id phone ""))
  unfolding factory new
  factory-account id phone = ground (arith, same?_refl {K = String} "")

  -- On a free id, `Add` of an account always succeeds, and at once: the pool then shows the session as
  -- ready, while its client waits for TDLib to take the phone number, and refuses every `GetMe`.
  pub shown_ready_early :
      {H : Type 0} (now : ℕ → ℕ) (id phone : String) (p : Pool (Client T E) H)
      → lookup id p.sessions ≡ none
      → let o = add (factory join authorize cfg) now id phone p in
        (o.result ≡ ok tt)
        × ((s : Session) × (get id o.pool ≡ some s) × (s.status ≡ ready))
        × (Pools.get_auth_state {E = ClientError E} Tdlib.get_auth_state id o.pool
            ≡ ok "waiting_phone")
        × ((c : Client T E) × (Option.map Entry.client (lookup id o.pool.sessions) ≡ some c)
            × ((U : Type 0) (ask : T → Result E U) → get_me ask c ≡ err not_authorized))
  unfolding add add_session start get Pools.get_auth_state Tdlib.get_auth_state new_account
      auth_state_string get_me new_session set_status
  shown_ready_early now id phone p free =
      let c : Client T E = new_account (session_config cfg id phone "") in
      let entry : Entry (Client T E) = record {
        handle = p.next_handle;
        session =
            set_status (set_status (new_session id account (now 0) (now 1)) authorizing (now 2))
              ready (now 3);
        client = c;
      } in
      let made = factory-account id phone in
      let found : lookup id (insert id entry p.sessions) ≡ some entry =
        ground (arith, lookup-insert id id entry p.sessions) in
      rw (free, add, add_session, made, start)
        (
          refl,
          (entry.session, ground (arith, found), refl),
          ground (arith, found),
          (c, ground (arith, found), λ U ask. refl),
        )
