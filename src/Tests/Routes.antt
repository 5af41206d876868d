-- ===== src/Tests/Routes.antt =====
-- The endpoints on the tables of the deployment: a read, a write with its entity tag, and two reads of
-- a service.
use settings_api.Prelude.{
  List, eq_iff, ◌≡◌, ◌≤◌, arith, length, refl, false, none, some, [], ◌∷◌, ◌==◌, nat_eq, ok,
}
use settings_api.Prelude.Int.{pos}
use settings_api.Domain.Value.{int}
use settings_api.Domain.Catalogue.{Catalogue}
use settings_api.Domain.Resolution.{resolve_namespace, resolve, resolve_for_service}
use settings_api.Storage.{Db}
use settings_api.Settings.Rows.{revision_of}
use settings_api.Settings.Service.{keep_rows}
use settings_api.Settings.Service.Reads
use settings_api.Settings.Service.Writes.{etag}
use settings_api.Identity.{Identity}
use settings_api.Domain.Types.{OnUnavailable}
use settings_api.Domain.Values.Encode.{digits}
use settings_api.Api.{revision_from_if_match, max_int_digits}
use settings_api.Api.Routes.{
  Tagged, WriteCall, WriteResponse, SettingsResponse, get_namespace, write_route,
}
use settings_api.Api.Concurrency.{write_route-no_lost_update}
use settings_api.Api.Internal.{
  full, not_modified, ResolvedSettingsResponse, resolve_settings, matches, split_commas,
}
use settings_api.Api.Revalidate.{is_not_modified, resolve_settings-revalidates}
use settings_api.Tests.{machine}
use settings_api.Tests.Domain.{modules}
use settings_api.Tests.Store.{
  tables, tables-IsSound, write, change, volume_row, volume_named, runs_store,
}
use settings_api.Settings.SqlStore.Changes.{value_at}
use settings_api.Settings.SqlStore.Ideal.{Call, apply_write, forget_account, purge, run_all}
use settings_api.Tests.Service.{ada, narrowed, runs_service}

abbrev call : WriteCall
call = WriteCall.set_setting "voice" "volume" (int (pos 7)) none

abbrev seen : Tagged SettingsResponse
seen = record {
  etag = etag "ada" 1;
  body = record { revision = 1; settings = ("voice", ("volume", int (pos 3)) ∷ []) ∷ [] };
}

abbrev wrote : Tagged WriteResponse
wrote = record {
  etag = etag "ada" 2;
  body = record { revision = 2; changed = "voice.volume" ∷ []; unchanged = false };
}

-- Between the read and the write: a write of the value that is there, a purge and an erasure.
abbrev between : List Call
between =
    apply_write "ada" (record (write none) { changes = change "volume" (int (pos 3)) false ∷ [] })
    ∷ purge "voice" "speed" 30 500
    ∷ forget_account "bob"
    ∷ []

abbrev tables_found : Db
tables_found = (run_all between tables).1

abbrev tables_written : Db
tables_written =
    (write_route machine modules narrowed 1000 ada 20 500 (some seen.etag) call tables_found).1

read_answers : get_namespace machine modules narrowed 1000 ada "voice" none tables ≡ ok seen
unfolding runs_service get_namespace Reads.get_namespace resolve_namespace resolve keep_rows
read_answers = refl

write_answers :
    write_route machine modules narrowed 1000 ada 20 500 (some seen.etag) call tables_found
    ≡ (ok wrote, tables_written)
unfolding runs_service run_all write_route revision_from_if_match etag
write_answers = refl

short : length (digits (revision_of tables "ada")) ≤ max_int_digits machine
unfolding runs_service
short = omega arith

write_route-no_lost_update_example : value_at tables_found volume_row ≡ value_at tables volume_row
unfolding runs_store
write_route-no_lost_update_example =
    write_route-no_lost_update machine modules narrowed 1000 ada "voice" none tables seen between 20
      500 call tables_written wrote volume_row refl short tables-IsSound
      (((tt, tt), (volume_named, tt)), (tt, (tt, tt)))
      (tt, (refl, ((ground (arith, eq_iff "bob" "ada")), tt))) refl read_answers write_answers

-- A deployment with an empty common namespace, and a service that asks for `voice`.
abbrev with_common : Catalogue
with_common = ("common", []) ∷ modules

abbrev speaker : Identity
speaker = record ada { namespaces = "common" ∷ "voice" ∷ []; service = some "speaker" }

abbrev told : Tagged ResolvedSettingsResponse
told = record {
  etag = etag "ada" 1;
  body = record {
    namespace = "voice";
    revision = 1;
    settings = ("volume", int (pos 3)) ∷ [];
    fallbacks =
        ("volume", record { default = int (pos 5); on_unavailable = OnUnavailable.use_default })
        ∷ [];
  };
}

first_answer :
    resolve_settings machine with_common narrowed 1000 speaker "voice" none none tables
    ≡ ok (full told)
unfolding runs_service resolve_settings Reads.resolve_for resolve_for_service resolve_namespace
    matches resolve keep_rows
first_answer = refl

second_answer :
    resolve_settings machine with_common narrowed 1000 speaker "voice" (some told.etag) none tables
    ≡ ok (not_modified (etag "ada" 1))
unfolding runs_service resolve_settings Reads.resolve_for resolve_for_service resolve_namespace
    matches split_commas etag
second_answer = refl

resolve_settings-revalidates_example :
    is_not_modified (not_modified (etag "ada" 1))
    ≡ (revision_of tables "ada" == revision_of tables "ada")
resolve_settings-revalidates_example =
    resolve_settings-revalidates machine with_common narrowed 1000 speaker "voice" none tables
      tables told (not_modified (etag "ada" 1)) (refl, (refl, (refl, tt))) first_answer
      second_answer
