-- ===== src/Tests/Connecting.antt =====
-- Two hosts, of which the second accepts.
use may_postgres.Base.{ℕ, [], ◌∷◌, List, codes, ok, err, returns, ◌==◌, if◌then◌else◌}
use may_postgres.Error.{closed_error}
use may_postgres.Config.{Config, tcp, new}
use may_postgres.Connect.{Opener, connect}
use may_postgres.Connect.Hosts.{ports_of, Expected, connect-Expected}

-- The state is the ports tried, the last one first; a client is its port.
abbrev second_only : Opener ℕ
second_only = record {
  State = List ℕ;
  connect_once =
      λ host port s. (returns (if port == 5433 then ok port else err closed_error), port ∷ s);
}

abbrev config : Config
config = record new { host = tcp (codes "a") ∷ tcp (codes "b") ∷ []; port = 5432 ∷ 5433 ∷ [] }

connect-Expected_example :
    Expected second_only config.host
      (ports_of config.host config.port)
      []
      (connect second_only config [])
connect-Expected_example = connect-Expected second_only config []
