-- ===== src/Example/Unmanaged.antt =====
-- A server that an event has started in front of the example's own start.
use ota_ws_update.Base.{ℕ, Bytes}
use ota_ws_update.Server.{HttpdApi, HttpdLaws}
use ota_ws_update.Example.{App}
use ota_ws_update.Example.Managed.{IsManaged, NewServer}

module _ (api : HttpdApi) (laws : HttpdLaws api) (ota_default_uri ota_default_ws_uri : Bytes) where
  abbrev Managed : App api.Web → Type 0
  Managed = IsManaged api laws ota_default_uri ota_default_ws_uri

  abbrev New : api.Web → ℕ → api.Web → Type 0
  New = NewServer api laws ota_default_uri ota_default_ws_uri
