-- ===== src/Pages/Factories.antt =====
-- packages/shared/src/lib/factories.ts, without overrides.
use nginx_admin.Common.{ℕ, true, false, none, some, [], Text, text}
use nginx_admin.Entities.{LocationConfig, AdvancedConfig, Route, info, system, stopped}
use nginx_admin.Logs.Entries.{LogEntry, instant}
use nginx_admin.Server.{ServerState}

abbrev pub create_location_config : LocationConfig
create_location_config = record {
  path = text "/";
  proxy_pass = none;
  try_files = none;
  index = none;
  extra_directives = none;
}

abbrev pub create_advanced_config : AdvancedConfig
create_advanced_config = record {
  client_max_body_size = text "1m";
  keepalive_timeout = text "65s";
  gzip = false;
  gzip_types = none;
  caching = false;
  cache_valid = none;
}

-- The random id and the time are arguments.
abbrev pub create_route : Text → ℕ → Route
create_route uuid now = record {
  id = uuid;
  domain = text "sh.ru";
  port = 80;
  root = text "/";
  enabled = true;
  ssl = false;
  ssl_certificate = some (text "");
  ssl_certificate_key = some (text "");
  proxy_pass = none;
  locations = [];
  advanced = some create_advanced_config;
  metadata =
      some (record { created_at = now; updated_at = now; created_by = text "system"; tags = [] });
}

abbrev pub create_log_entry : Text → ℕ → LogEntry
create_log_entry uuid now = record {
  id = uuid;
  timestamp = instant now;
  level = info;
  message = [];
  source = system;
  ip = none;
  route_id = none;
  context = none;
}

-- Over the numbers N of the language.
abbrev pub create_server_state : {N : Type 0} → N → ℕ → ServerState N
create_server_state zero_number now = record {
  status = stopped;
  stats = record {
    requests = zero_number;
    traffic = text "0b";
    active_connections = zero_number;
    uptime = zero_number;
    cpu_usage = zero_number;
    memory_usage = zero_number;
  };
  version = text "0.0.0";
  last_updated = now;
}
