-- ===== src/Webhook/Store.antt =====
-- internal/webhook/memory_repo.go and service.go, whose methods pass the calls on. The memory
-- repository writes no time.
use tgplane.Common.{nat_key, ℕ, ◌+◌, ◌%◌, ◌^◌, String, List, [], none, some, Result, ok, err}
use tgplane.Common.Map.{lookup, insert, delete, values}
use tgplane.Webhook.{Webhook}

-- `seq` is an int64 as a bit pattern.
pub record WebhookRepository : Type 0 where
  pub hooks : List (ℕ × Webhook)
  pub seq : ℕ

pub data WebhookError : Type 0 where
  no_webhook : WebhookError

unfoldable pub new_webhook_repository : WebhookRepository
new_webhook_repository = record { hooks = []; seq = 0 }

unfoldable pub create :
    String → String → List String → WebhookRepository → Webhook × WebhookRepository
create url secret events r =
    let id = (r.seq + 1) % 2 ^ 64 in
    let w : Webhook = record { id = id; url = url; secret = secret; events = events } in
    (w, record { hooks = insert id w r.hooks; seq = id })

unfoldable pub list : WebhookRepository → List Webhook
list r = values r.hooks

unfoldable pub delete_webhook : ℕ → WebhookRepository → Result WebhookError WebhookRepository
delete_webhook id r = elim (lookup id r.hooks) [
  | none ↦ err no_webhook
  | some _ ↦ ok (record r { hooks = delete id r.hooks })
]
