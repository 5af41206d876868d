-- ===== src/Tests/Sweeper.antt =====
-- A sweep over one entry that was retired, and a transaction on a connection in memory.
use settings_api.Prelude.{
  ℕ, ◌+◌, ◌≡◌, refl, arith, Bool, true, false, String, none, some, List, [], ◌∷◌, any, length,
  if◌then◌else◌, ok, string_eq,
}
use settings_api.Domain.Types.{SettingDef, AgentAccess}
use settings_api.Domain.Catalogue.{Catalogue, every_entry}
use settings_api.Domain.Registry.Lookup.{AllChecked}
use settings_api.Storage.{PrimaryKey, Db}
use settings_api.Storage.Exec.{transact}
use settings_api.Storage.Transaction.{
  Sqlite, IsSqlite, IsIdle, run_in_transaction, run_in_transaction-transact,
}
use settings_api.Settings.Rows.{revision_of}
use settings_api.Settings.SqlStore.{apply_work}
use settings_api.Settings.SqlStore.Changes.{value_at}
use settings_api.Settings.Sweeper.{due, due_of, cutoff_of, sweep}
use settings_api.Settings.Sweeper.Due.{Selects, HasPassed, due-Selects}
use settings_api.Settings.Sweeper.Swept.{names, sweep-value}
use settings_api.Tests.{machine, volume}
use settings_api.Tests.Domain.{runs_domain}
use settings_api.Tests.Store.{tables, write}

-- The entry that left the catalogue, and one that is still in it.
abbrev left : SettingDef
left = record volume {
  key = "pitch";
  retired_at = some "2024-01-01";
  agent_writable = AgentAccess.never;
}

abbrev with_retired : Catalogue
with_retired = ("voice", volume ∷ left ∷ []) ∷ []

with_retired_checked : AllChecked machine with_retired
unfolding runs_domain
with_retired_checked = (refl, (refl, tt))

left_is_due : due machine 90 1000 with_retired ≡ some (left ∷ [])
unfolding runs_domain due due_of cutoff_of
left_is_due = refl

due-Selects_example :
    (found : List SettingDef) × (due machine 90 1000 with_retired ≡ some found)
    × Selects (HasPassed machine 90 1000) (every_entry with_retired) found
due-Selects_example = due-Selects machine 90 1000 with_retired (omega arith) with_retired_checked

sweep-value_example :
    let (answer, end) = sweep (volume ∷ []) 30 500 tables in
    (removed : ℕ) × (answer ≡ ok removed)
    × (removed + length end.settings ≡ length tables.settings)
    × ((k : PrimaryKey)
        → value_at end k ≡ (if any (names k) (volume ∷ []) then none else value_at tables k))
    × ((account_id : String) → revision_of end account_id ≡ revision_of tables account_id)
sweep-value_example = sweep-value 30 500 (volume ∷ []) tables

-- What statements see, what is on disk, and whether a transaction is open.
abbrev in_memory : Sqlite
in_memory = record {
  Connection = Db × Db × Bool;
  in_transaction = λ c. c.2;
  seen = λ c. c.0;
  on_disk = λ c. c.1;
  begin_immediate = λ (inside, outside, b). if b then none else some (inside, outside, true);
  put = λ after (inside, outside, b). (after, if b then outside else after, b);
  commit = λ (inside, outside, b). (inside, inside, false);
  rollback = λ (inside, outside, b). (outside, outside, false);
}

in_memory-IsSqlite : IsSqlite in_memory
in_memory-IsSqlite = record {
  begins = λ c db idle. (
    (c.0, c.1, true),
    rw idle.closed refl,
    record { opened = refl; sees = idle.sees; holds = idle.holds },
  );
  puts = λ c inside outside after open_now. record {
    opened = open_now.opened;
    sees = refl;
    holds = rw open_now.opened open_now.holds;
  };
  commits = λ c inside outside open_now. record {
    closed = refl;
    sees = open_now.sees;
    holds = open_now.sees;
  };
  rolls_back = λ c inside outside open_now. record {
    closed = refl;
    sees = open_now.holds;
    holds = open_now.holds;
  };
}

-- A stale write, in the transaction that the store runs it in.
run_in_transaction-transact_example :
    (c' : Db × Db × Bool) × (run_in_transaction in_memory
        (apply_work "ada" (write (some 4)))
        (tables, tables, false)
      ≡ some ((transact (apply_work "ada" (write (some 4))) tables).0, c'))
    × IsIdle in_memory c' (transact (apply_work "ada" (write (some 4))) tables).1
run_in_transaction-transact_example =
    run_in_transaction-transact in_memory (apply_work "ada" (write (some 4)))
      (tables, tables, false) tables in_memory-IsSqlite
      (record { closed = refl; sees = refl; holds = refl })
