-- ===== src/Relay/Order.antt =====
-- The way of an update from a worker's pool to the stream of the main node.
use tgplane.Common.{String, List, map}
use tgplane.Worker.Wire.{TelegramUpdate}
use tgplane.Worker.Client.{Client}

-- Updates with the id of their worker.
abbrev pub tagged : Client → List (TelegramUpdate String) → List (String × TelegramUpdate String)
tagged c us = map (λ u. (c.id, u)) us
