-- ===== src/Startup/Tests.antt =====
-- A start with the valid configuration of Config/Tests.
use komodor_security_reporte.Prelude.{some, none, [], true}
use komodor_security_reporte.Prelude.Int.{pos}
use komodor_security_reporte.Prelude.Text.{codes}
use komodor_security_reporte.Config.Tests.{tenths, config}
use komodor_security_reporte.Startup.{Host, start}
use komodor_security_reporte.Startup.Checked.{IsSound, start-IsSound}

abbrev host : Host
host = record {
  pod_namespace = codes "security";
  api_key = codes "key";
  settings = record {
    config_map_name = some ([], []);
    max_entries = some (pos 0);
    redis_address = none;
    memcache_address = some [];
  };
  state_namespace = [];
  scanners_created = true;
  clientset_created = true;
  validate_key = λ client. none;
}

-- The mode of the command line replaces the one of the file.
start-IsSound_example : IsSound tenths (start tenths host (some config) (some (codes "events")))
start-IsSound_example = start-IsSound tenths host (some config) (some (codes "events"))
