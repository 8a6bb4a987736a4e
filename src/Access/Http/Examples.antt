-- ===== src/Access/Http/Examples.antt =====
-- A handler that counts its runs, and an empty registry.
use magiclaw.Common.{ℕ, ◌+◌, none, []}
use magiclaw.Common.Int.{pos}
use magiclaw.Common.Text.{text}
use magiclaw.Access.Clients.Examples.{plain}
use magiclaw.Access.Http.{require_bearer_auth}
use magiclaw.Access.Http.Policy.{Gated, require_bearer_auth-Gated}

abbrev counter : ℕ → ℕ × ℕ
counter n = (n, n + 1)

require_bearer_auth-Gated_example :
    Gated plain counter
      (text "/api/send")
      none
      (pos 0)
      []
      7
      (require_bearer_auth plain counter (text "/api/send") none (pos 0) [] 7)
require_bearer_auth-Gated_example =
    require_bearer_auth-Gated plain counter (text "/api/send") none (pos 0) [] 7
