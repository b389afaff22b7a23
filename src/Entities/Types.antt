-- ===== src/Entities/Types.antt =====
-- packages/core/src/entities/types.ts: the records and enumerations.
use nginx_admin.Common.{ℕ, Bool, Option, List, Text}

pub record LocationConfig : Type 0 where
  pub path : Text
  pub proxy_pass : Option Text
  pub try_files : Option Text
  pub index : Option Text
  pub extra_directives : Option Text

pub record AdvancedConfig : Type 0 where
  pub client_max_body_size : Text
  pub keepalive_timeout : Text
  pub gzip : Bool
  pub gzip_types : Option Text
  pub caching : Bool
  pub cache_valid : Option Text

-- Instants are milliseconds since 1970.
pub record Metadata : Type 0 where
  pub created_at : ℕ
  pub updated_at : ℕ
  pub created_by : Text
  pub tags : List Text

pub record Route : Type 0 where
  pub id : Text
  pub domain : Text
  pub port : ℕ
  pub root : Text
  pub enabled : Bool
  pub ssl : Bool
  pub ssl_certificate : Option Text
  pub ssl_certificate_key : Option Text
  pub proxy_pass : Option Text
  pub locations : List LocationConfig
  pub advanced : Option AdvancedConfig
  pub metadata : Option Metadata

pub data LogLevel : Type 0 where
  info warning error debug : LogLevel

pub data LogSource : Type 0 where
  nginx system user : LogSource

pub data ServerStatus : Type 0 where
  running stopped restarting : ServerStatus
