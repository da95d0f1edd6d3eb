-- ===== src/Api/Auth/Examples.antt =====
-- A request with a padded token.
use indexer_rs.Base.{◌≡◌, ◌↔◌, some}
use indexer_rs.Api.Auth.{Request, runs, require_bearer}
use indexer_rs.Api.Auth.Decides.{Admitted, require_bearer_iff}

abbrev padded : Request
padded = record { path = "/blocks"; authorization = some "Bearer  abc " }

require_bearer_iff_example :
    (require_bearer (some "abc") padded ≡ runs) ↔ Admitted (some "abc") padded
require_bearer_iff_example = require_bearer_iff (some "abc") padded
