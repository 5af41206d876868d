-- ===== src/Tests/Store.antt =====
-- `apply` on an account that has chosen one setting before.
use settings_api.Prelude.{
  ◌≢◌, All, ◌↔◌, inl, map, eq_iff, take, arith, ℕ, ◌≡◌, refl, Bool, true, false, String, Option,
  none, some, [], ◌∷◌, string_eq, filter, dedup, contains, ok, err,
}
use settings_api.Prelude.Int.{pos}
use settings_api.Domain.Value.{Value, null, int, py_eq}
use settings_api.Domain.Types.Names.{HasNoDot, matches_key, matches_key-HasNoDot}
use settings_api.Domain.Errors.{revision_mismatch, invalid_value, too_many_profiles}
use settings_api.Storage.{Action, PrimaryKey, SettingRow, Db}
use settings_api.Prelude.Dict.{get, insert}
use settings_api.Prelude.Text.{partition_dot}
use settings_api.Storage.{key_beq, key_eq, key_beq_iff}
use settings_api.Storage.Exec.{transact}
use settings_api.Events.{
  Appended, events_of, event_row, append_in, trim_to_cap, delete_for_account_in, count_for_account,
}
use settings_api.Events.Cap.{append_in-events_of, append_in-events_of_other}
use settings_api.Settings.Store.{Applied, Write, Change}
use settings_api.Settings.Rows.{
  ensure_account, find_account, revision_of, read_state, collect_rows, exceeds_profile_cap,
  incoming_profiles, existing_profiles, upsert, upsert_row, delete_row,
}
use settings_api.Settings.Rows.Find.{find_row}
use settings_api.Settings.SqlStore.{
  apply, apply_work, event_of, forget, forget_work, purge_setting, append_purges, record_changes,
  bump, bump_rows, apply_changes, apply_change, common_namespace, common_key,
}
use settings_api.Settings.SqlStore.Changes.{key_of, Distinct, value_at, outcome_of, find_change}
use settings_api.Settings.SqlStore.Apply.{IsSound, apply-value}
use settings_api.Settings.SqlStore.{is_stale}
use settings_api.Settings.SqlStore.Apply.{start}
use settings_api.Settings.SqlStore.Sound.{HasName}
use settings_api.Settings.SqlStore.Returns.{apply-returns}
use settings_api.Settings.SqlStore.Cap.{TooMany, apply-stale_iff, apply-too_many_iff}
use settings_api.Settings.SqlStore.Logged.{Records, changing, apply-Records}

abbrev pub tables : Db
tables = record {
  accounts = record { account_id = "ada"; revision = 1; created_at = 10; updated_at = 10 } ∷ [];
  settings =
      record {
        account_id = "ada";
        profile = "*";
        namespace = "voice";
        key = "volume";
        value = int (pos 3);
        set_at = 10;
        set_by = "owner";
      }
      ∷ [];
  events = [];
  next_sequence = 1;
}

abbrev pub change : String → Value → Bool → Change
change key value reset = record {
  namespace = "voice";
  key = key;
  value = value;
  reset = reset;
  profile = "*";
}

abbrev pub write : Option ℕ → Write
write expected = record {
  changes = change "volume" (int (pos 7)) false ∷ change "speed" null true ∷ [];
  now = 20;
  action = Action.update;
  actor = "owner";
  service = none;
  event_cap = 500;
  if_revision = expected;
}

abbrev pub applied : Applied
applied = record { revision = 2; changed = "voice.volume" ∷ [] }

abbrev pub after : Db
after = (apply "ada" (write (some 1)) tables).1

-- Everything that a write runs.
unfoldable pub runs_store : Unit {0}
unfolding apply forget purge_setting transact apply_work forget_work append_purges record_changes
    bump bump_rows ensure_account find_account revision_of read_state collect_rows
    exceeds_profile_cap incoming_profiles existing_profiles apply_changes apply_change upsert
    upsert_row delete_row append_in trim_to_cap events_of delete_for_account_in common_namespace
    common_key partition_dot py_eq key_beq get insert filter dedup contains find_row
    count_for_account
runs_store = tt

pub volume_named : HasNoDot "voice" × HasNoDot "volume"
unfolding matches_key
volume_named = (matches_key-HasNoDot "voice" refl, matches_key-HasNoDot "volume" refl)

speed_named : HasNoDot "voice" × HasNoDot "speed"
unfolding matches_key
speed_named = (matches_key-HasNoDot "voice" refl, matches_key-HasNoDot "speed" refl)

pub writes_named : All HasName (write none).changes
writes_named = (volume_named, (speed_named, tt))

pub tables-IsSound : IsSound tables
unfolding runs_store
tables-IsSound = record { unique = (refl, tt); named = (volume_named, tt); ordered = tt }

pub returned : apply "ada" (write (some 1)) tables ≡ (ok applied, after)
unfolding runs_store
returned = refl

refused : apply "ada" (write (some 4)) tables ≡ (err (revision_mismatch 1 4), tables)
unfolding runs_store
refused = refl

abbrev pub volume_row : PrimaryKey
volume_row = record { account_id = "ada"; profile = "*"; namespace = "voice"; key = "volume" }

pub changes_apart : Distinct "ada" (write (some 1)).changes
unfolding runs_store
changes_apart = (
  (
    ground (
      arith,
      key_beq_iff (key_of "ada" (change "volume" (int (pos 7)) false))
          (key_of "ada" (change "speed" null true)),
    ),
    tt,
  ),
  (tt, tt),
)

apply-value_example :
    value_at after volume_row
    ≡ outcome_of
        (find_change "ada" volume_row (write (some 1)).changes)
        (value_at tables volume_row)
apply-value_example =
    apply-value "ada" (write (some 1)) tables applied after volume_row tables-IsSound changes_apart
      returned

apply-Records_example :
    (applied.changed ≡ changing "ada" (write (some 1)) tables)
    × (revision_of after "ada" ≡ applied.revision)
    × Records "ada" (write (some 1)) tables (changing "ada" (write (some 1)) tables) applied after
apply-Records_example =
    apply-Records "ada" (write (some 1)) tables applied after tables-IsSound returned

abbrev entry : Appended
entry = event_of "ada" (write none) 2 ("voice.volume" ∷ [])

append_in-events_of_example :
    events_of "ada" (append_in entry 500 tables).events
    ≡ take 500 (event_row 1 entry ∷ events_of "ada" tables.events)
append_in-events_of_example = append_in-events_of entry 500 tables tt

append_in-events_of_other_example :
    events_of "bob" (append_in entry 500 tables).events ≡ events_of "bob" tables.events
append_in-events_of_other_example =
    append_in-events_of_other entry 500 "bob" tables (ground (arith, eq_iff "ada" "bob"))

few_profiles :
    exceeds_profile_cap (write (some 1)).changes (start "ada" (write (some 1)) tables) ≡ false
unfolding runs_store
few_profiles = refl

fresh_write : is_stale (some 1) (start "ada" (write (some 1)) tables).revision ≡ false
unfolding runs_store
fresh_write = refl

apply-returns_example :
    (r : Applied) × (end : Db) × (apply "ada" (write (some 1)) tables ≡ (ok r, end))
apply-returns_example =
    apply-returns "ada" (write (some 1)) tables fresh_write few_profiles (refl, (refl, tt))

apply-stale_iff_example :
    (apply "ada" (write (some 4)) tables ≡ (err (revision_mismatch 1 4), tables)) ↔ (
      ((write (some 4)).if_revision ≡ some 4)
      × (4 ≢ revision_of tables "ada")
      × (1 ≡ revision_of tables "ada"))
apply-stale_iff_example = apply-stale_iff "ada" (write (some 4)) tables 1 4

-- As many profiles as an account may have, and a write to another one.
abbrev in_profile : String → SettingRow
in_profile profile = record {
  account_id = "ada";
  profile = profile;
  namespace = "voice";
  key = "volume";
  value = int (pos 3);
  set_at = 10;
  set_by = "owner";
}

abbrev crowded : Db
crowded = record tables {
  settings = map in_profile (
      "p1" ∷ "p2" ∷ "p3" ∷ "p4" ∷ "p5" ∷ "p6" ∷ "p7" ∷ "p8" ∷ "p9" ∷ "p10" ∷ "p11" ∷ "p12" ∷ "p13"
      ∷ "p14" ∷ "p15" ∷ "p16" ∷ "p17" ∷ "p18" ∷ "p19" ∷ "p20" ∷ "p21" ∷ "p22" ∷ "p23" ∷ "p24"
      ∷ "p25" ∷ "p26" ∷ "p27" ∷ "p28" ∷ "p29" ∷ "p30" ∷ "p31" ∷ "p32" ∷ []);
}

abbrev one_more : Write
one_more = record (write none) {
  changes = record (change "volume" (int (pos 7)) false) { profile = "p33" } ∷ [];
}

one_more_refused :
    (apply "ada" one_more crowded).0 ≡ err (invalid_value "profile" too_many_profiles)
unfolding runs_store
one_more_refused = refl

apply-too_many_iff_example :
    ((apply "ada" one_more crowded).0 ≡ err (invalid_value "profile" too_many_profiles))
    ↔ TooMany "ada" one_more crowded
apply-too_many_iff_example = apply-too_many_iff "ada" one_more crowded (inl refl)
