-- ===== src/Tests/Ideal.antt =====
-- Five calls in a row to a store that has no tables yet: two writes, a stale one, a purge, an erasure.
use settings_api.Prelude.{◌≡◌, refl, All, none, some, [], ◌∷◌, List, string_eq}
use settings_api.Storage.{Db}
use settings_api.Settings.Rows.{revision_of}
use settings_api.Settings.SqlStore.Apply.{IsSound}
use settings_api.Settings.SqlStore.Changes.{value_at}
use settings_api.Settings.SqlStore.Ideal.{
  Ideal, Call, apply_write, forget_account, purge, IdealSteps, run_all, Refines, IsProper,
}
use settings_api.Settings.SqlStore.Refinement.{run_all-Refines}
use settings_api.Tests.Store.{write, runs_store, changes_apart, writes_named}

abbrev no_tables : Db
no_tables = record { accounts = []; settings = []; events = []; next_sequence = 1 }

abbrev blank : Ideal
blank = record { value = λ k. none; revision = λ b. 0 }

abbrev calls : List Call
calls =
    apply_write "ada" (write none)
    ∷ apply_write "ada" (write (some 1))
    ∷ apply_write "ada" (write (some 4))
    ∷ purge "voice" "volume" 30 500
    ∷ forget_account "ada"
    ∷ []

calls-IsProper : All IsProper calls
calls-IsProper = (
  (changes_apart, writes_named),
  ((changes_apart, writes_named), ((changes_apart, writes_named), (tt, (tt, tt)))),
)

no_tables-IsSound : IsSound no_tables
no_tables-IsSound = record { unique = tt; named = tt; ordered = tt }

no_tables-Refines : Refines no_tables blank
unfolding runs_store value_at
no_tables-Refines = (λ k. refl, λ b. refl)

run_all-Refines_example :
    let (log, end) = run_all calls no_tables in
    (t : Ideal) × IdealSteps log blank t × Refines end t × IsSound end
run_all-Refines_example =
    run_all-Refines calls no_tables blank calls-IsProper no_tables-IsSound no_tables-Refines

-- After an erasure the revisions begin anew, and the entity tag of an earlier read is current again.
revision_returns :
    revision_of (run_all (apply_write "ada" (write none) ∷ []) no_tables).1 "ada"
    ≡ revision_of
        (run_all
          (apply_write "ada" (write none)
            ∷ forget_account "ada"
            ∷ apply_write "ada" (write none)
            ∷ [])
          no_tables).1
        "ada"
unfolding runs_store run_all
revision_returns = refl
