-- ===== src/Postgres/Bots.antt =====
-- internal/bot/postgres.go: the repository of Postgres/Rows over the table of bots, with the errors
-- that this one wraps.
use tgplane.Common.{ℕ, String, List, Result}
use tgplane.Session.Model.{Status}
use tgplane.Bot.{Bot, Profile, no_profile}
use tgplane.Postgres.{Schema, Sql}
use tgplane.Postgres.Rows as Rows
use tgplane.Postgres.Rows.{row_table, ListFilter, StoreError, bot_error}

-- The table `bots`; the profile of a bot has no names of a person.
abbrev pub bot_table : Schema
bot_table = row_table Profile no_profile

module _ {W E : Type 0} (sql : Sql bot_table W E) where
  unfoldable pub create : Bot → W → Result (StoreError E) Bot × W
  create b w = Rows.create sql bot_error b w

  unfoldable pub get_by_id : ℕ → W → Result (StoreError E) Bot
  get_by_id id w = Rows.get_by_id sql bot_error id w

  unfoldable pub get_by_session_id : String → W → Result (StoreError E) Bot
  get_by_session_id session_id w = Rows.get_by_session_id sql bot_error session_id w

  unfoldable pub list : ListFilter → W → Result (StoreError E) (List Bot)
  list f w = Rows.list sql bot_error f w

  unfoldable pub update_profile : ℕ → Profile → Status → W → Result (StoreError E) (Unit {0}) × W
  update_profile id profile status w = Rows.update_profile sql bot_error id profile status w

  unfoldable pub update_status : ℕ → Status → W → Result (StoreError E) (Unit {0}) × W
  update_status id status w = Rows.update_status sql bot_error id status w

  unfoldable pub update_worker_id : String → String → W → Result (StoreError E) (Unit {0}) × W
  update_worker_id session_id worker_id w =
      Rows.update_worker_id sql bot_error session_id worker_id w

  unfoldable pub list_by_worker_id : String → W → Result (StoreError E) (List Bot)
  list_by_worker_id worker_id w = Rows.list_by_worker_id sql bot_error worker_id w

  -- `Delete`.
  unfoldable pub remove : ℕ → W → Result (StoreError E) (Unit {0}) × W
  remove id w = Rows.remove sql bot_error id w
