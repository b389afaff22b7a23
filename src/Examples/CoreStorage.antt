-- ===== src/Examples/CoreStorage.antt =====
-- Examples on the repository of the core over the local storage.
use nginx_admin.Common.{◌≡◌, refl, none, some, [], ◌∷◌, text, ◌===◌, if◌then◌else◌, to_iso_string}
use nginx_admin.Common.Keyed.{upsert_key}
use nginx_admin.Secrets.{redact_potential_secrets}
use nginx_admin.Entities.{Route}
use nginx_admin.Forms.Drafts.{redact_all, redact_option, sanitize_locations, sanitize_metadata}
use nginx_admin.Routes.Sanitised.{sanitize_route, sanitize_settings}
use nginx_admin.CoreStorage.{
  ParsedRoute, Item, stored, map_of, load_all, as_json, written, write_entry, sanitize_parsed, save,
  find_by_id, delete,
}
use nginx_admin.CoreStorage.Lookup.{IsFixed, IsPlain, find_by_id-save-delete}
use nginx_admin.Examples.Samples.{site}

abbrev plain : Route
plain = record site {
  id = text "r-1";
  metadata =
      some (record { created_at = 1000; updated_at = 2000; created_by = text "system"; tags = [] });
}

abbrev other : ParsedRoute
other = record {
  route = record site { id = text "r-2"; metadata = none };
  metadata = some (record {
    created_at = text "1970-01-01T00:00:01.000Z";
    updated_at = text "1970-01-01T00:00:01.000Z";
    created_by = text "system";
    tags = [];
  });
}

-- Two entries of one id.
abbrev item : Item
item = stored ((text "r-2", as_json plain) ∷ (text "r-2", other) ∷ [])

plain-IsPlain : IsPlain plain
unfolding sanitize_route sanitize_settings redact_option sanitize_locations sanitize_metadata
    redact_potential_secrets
plain-IsPlain = record { id = refl; route = refl }

other-IsFixed : IsFixed (text "r-2", other)
unfolding IsFixed write_entry written sanitize_parsed sanitize_route sanitize_settings redact_all
    redact_option sanitize_locations redact_potential_secrets
other-IsFixed = refl

-- The dates of a route that was saved are texts.
plain_dates :
    (as_json plain).metadata
    ≡ some (record {
      created_at = text "1970-01-01T00:00:01.000Z";
      updated_at = text "1970-01-01T00:00:02.000Z";
      created_by = text "system";
      tags = [];
    })
unfolding as_json to_iso_string
plain_dates = refl

find_by_id-save-delete_example :
    (find_by_id (text "r-1") (save plain item)
      ≡ (if text "r-1" === text "r-1" then some (as_json plain) else find_by_id (text "r-1") item))
    × (find_by_id (text "r-1") (delete (text "r-2") item)
        ≡ (if text "r-2" === text "r-1" then none else find_by_id (text "r-1") item))
unfolding load_all map_of upsert_key ◌===◌
find_by_id-save-delete_example =
    find_by_id-save-delete item (other-IsFixed, tt) plain (text "r-1") (text "r-2") plain-IsPlain
