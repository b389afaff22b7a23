-- ===== src/Desktop/Files.antt =====
-- The files and the environment of the process, as far as apps/desktop/src/main uses them: `fs` and
-- `process.env`.
use nginx_admin.Common.{Bool, true, Option, none, some, List, ◌++◌, Text, text, if◌then◌else◌}
use nginx_admin.Common.Keyed.{find_key, has_key, upsert_key}
use nginx_admin.Desktop.Faults.{Fault, other_error, Result, ok, fail}

-- A file with what the permissions let the process do.
pub record File : Type 0 where
  pub path : Text
  pub content : Text
  pub readable : Bool
  pub writable : Bool

-- A variable of `process.env`.
pub record Variable : Type 0 where
  pub name : Text
  pub value : Text

abbrev pub Files : Type 0
Files = List File

abbrev pub Env : Type 0
Env = List Variable

abbrev pub path_of : File → Text
path_of f = f.path

abbrev pub name_of : Variable → Text
name_of v = v.name

abbrev pub value_in : Option Variable → Option Text
value_in none = none
value_in (some v) = some v.value

-- `process.env[key]`
abbrev pub variable : Text → Env → Option Text
variable key env = value_in (find_key name_of key env)

-- `fs.existsSync(path)`
abbrev pub exists_file : Text → Files → Bool
exists_file path files = has_key path_of path files

abbrev no_access : Text → Fault
no_access path = other_error (text "EACCES: permission denied, open '" ++ (path ++ text "'"))

abbrev no_entry : Text → Fault
no_entry path = other_error (text "ENOENT: no such file or directory, open '" ++ (path ++ text "'"))

abbrev content_of : Text → Option File → Result Text
content_of path none = fail (no_entry path)
content_of path (some f) = if f.readable then ok f.content else fail (no_access path)

-- `fs.readFileSync(path, "utf8")`
unfoldable pub read_file : Text → Files → Result Text
read_file path files = content_of path (find_key path_of path files)

abbrev written : Text → Text → Option File → Files → Result (Unit {0}) × Files
written path content none files = (
  ok tt,
  upsert_key path_of path
      (record { path = path; content = content; readable = true; writable = true }) files,
)
written path content (some f) files =
    if f.writable
    then (ok tt, upsert_key path_of path (record f { content = content }) files)
    else (fail (no_access path), files)

-- `fs.writeFileSync(path, content)`
unfoldable pub write_file : Text → Text → Files → Result (Unit {0}) × Files
write_file path content files = written path content (find_key path_of path files) files
