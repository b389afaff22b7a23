-- ===== src/Logs/Entries.antt =====
-- packages/core/src/entities/types.ts: log entries and filters.
use nginx_admin.Common.{ℕ, Option, List, Text}
use nginx_admin.Secrets.{Value}
use nginx_admin.Entities.{LogLevel, LogSource}

-- `timestamp`: a date, or the text that a date has become in a JSON text.
pub data Timestamp : Type 0 where
  instant : ℕ → Timestamp
  iso : Text → Timestamp

pub record LogEntry : Type 0 where
  pub id : Text
  pub timestamp : Timestamp
  pub level : LogLevel
  pub message : Text
  pub source : LogSource
  pub ip : Option Text
  pub route_id : Option Text
  pub context : Option (List (Text × Value))

pub data LevelFilter : Type 0 where
  every : LevelFilter
  only : LogLevel → LevelFilter

pub record DateRange : Type 0 where
  pub start : ℕ
  pub finish : ℕ

pub record LogFilters : Type 0 where
  pub level : Option LevelFilter
  pub search : Text
  pub source : Option LogSource
  pub route_id : Option Text
  pub date_range : Option DateRange
