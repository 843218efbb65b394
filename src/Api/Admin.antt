-- ===== src/Api/Admin.antt =====
-- src/api.rs: `health`, `stats` and `metrics`, which change nothing.
use tinkiva_sqllite_server.Prelude.{ℕ, String, [], ◌∷◌}
use tinkiva_sqllite_server.Config.{DatabaseSettings}
use tinkiva_sqllite_server.Metrics.Render.{Text, render}
use tinkiva_sqllite_server.Db.State.{DatabaseManager}
use tinkiva_sqllite_server.Db.Maintenance.{ManagerStats}
use tinkiva_sqllite_server.Db.Maintenance
use tinkiva_sqllite_server.Api.Json.{Value, string, object, members}

-- The status and the body.
unfoldable pub health : ℕ × Value
health = (200, object (members (("status", string "ok") ∷ [])))

unfoldable pub admin_stats : DatabaseSettings → DatabaseManager → ManagerStats
admin_stats settings m = Maintenance.stats settings m

-- The content type and the text.
unfoldable pub admin_metrics : (ℕ → Text) → DatabaseSettings → DatabaseManager → String × Text
admin_metrics seconds settings m = (
  "text/plain; version=0.0.4; charset=utf-8",
  render seconds m.metrics (Maintenance.stats settings m),
)
