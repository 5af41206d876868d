-- ===== src/Storage/Transaction.antt =====
-- `_in_transaction` of storage/database.py, over a connection of sqlite3, which is a parameter. It does
-- what `transact` of Storage/Exec does to the tables; the store is written with that.
use settings_api.Prelude.{◌≡◌, refl, ap, Bool, true, false, Option, none, some, Result, ok, err}
use settings_api.Domain.Errors.{Error}
use settings_api.Storage.{Db}
use settings_api.Storage.Exec.{Exec, transact, settle}

-- What is used of `sqlite3.Connection` with `isolation_level=None`. `begin_immediate` is
-- `execute("BEGIN IMMEDIATE")`, and `none` where that raises; `put` is what statements that are run on the
-- connection leave the tables as.
pub record Sqlite : Type 1 where
  pub Connection : Type 0
  pub in_transaction : Connection → Bool
  pub seen : Connection → Db
  pub on_disk : Connection → Db
  pub begin_immediate : Connection → Option Connection
  pub put : Db → Connection → Connection
  pub commit : Connection → Connection
  pub rollback : Connection → Connection

module _ (sqlite : Sqlite) where
  open sqlite use {
    Connection, in_transaction, seen, on_disk, begin_immediate, put, commit, rollback,
  }

  -- No transaction is open, and the connection sees what is on disk.
  pub record IsIdle (c : Connection) (db : Db) : Type 0 where
    pub closed : in_transaction c ≡ false
    pub sees : seen c ≡ db
    pub holds : on_disk c ≡ db

  -- A transaction is open: statements see one version of the tables, and another is on disk.
  pub record IsOpen (c : Connection) (inside outside : Db) : Type 0 where
    pub opened : in_transaction c ≡ true
    pub sees : seen c ≡ inside
    pub holds : on_disk c ≡ outside

  -- What SQLite documents of its transactions, where no other connection holds the lock.
  pub record IsSqlite : Type 0 where
    pub begins :
        (c : Connection) (db : Db)
        → IsIdle c db
        → (c' : Connection) × (begin_immediate c ≡ some c') × IsOpen c' db db
    pub puts :
        (c : Connection) (inside outside after : Db)
        → IsOpen c inside outside
        → IsOpen (put after c) after outside
    pub commits :
        (c : Connection) (inside outside : Db) → IsOpen c inside outside → IsIdle (commit c) inside
    pub rolls_back :
        (c : Connection) (inside outside : Db)
        → IsOpen c inside outside
        → IsIdle (rollback c) outside

  module _ {A : Type 0} where
    -- Work of the store on the connection.
    abbrev pub work_on : Exec A → Connection → Result Error A × Connection
    work_on work c = let (r, after) = work (seen c) in (r, put after c)

    -- `except BaseException: rollback(); raise`, and the `commit` behind it.
    unfoldable pub finish : Result Error A → Connection → Result Error A × Connection
    finish (ok result) c = (ok result, commit c)
    finish (err e) c = (err e, rollback c)

    -- `_in_transaction`; `none` where the transaction cannot begin.
    abbrev pub begun : Exec A → Option Connection → Option (Result Error A × Connection)
    begun work none = none
    begun work (some c) = let (r, c') = work_on work c in some (finish r c')

    unfoldable pub run_in_transaction : Exec A → Connection → Option (Result Error A × Connection)
    unfolding finish
    run_in_transaction work c = begun work (begin_immediate c)

    finish-settle :
        (r : Result Error A) (c : Connection) (before after : Db)
        → IsSqlite
        → IsOpen c after before
        → ((finish r c).0 ≡ (settle before (r, after)).0)
          × IsIdle (finish r c).1 (settle before (r, after)).1
    unfolding finish
    finish-settle (ok result) c before after laws open_now =
        (refl, laws.commits c after before open_now)
    finish-settle (err e) c before after laws open_now =
        (refl, laws.rolls_back c after before open_now)

    -- Over a connection that does what SQLite documents, and that has no transaction open, work of any kind
    -- runs to its end: the caller gets what the work returned or raised, no transaction stays
    -- open, and on disk is all that the work wrote if it returned, and what was there before if it raised.
    -- This is what `transact` does to the tables.
    pub run_in_transaction-transact :
        (work : Exec A) (c : Connection) (db : Db)
        → IsSqlite
        → IsIdle c db
        → (c' : Connection) × (run_in_transaction work c ≡ some ((transact work db).0, c'))
          × IsIdle c' (transact work db).1
    unfolding run_in_transaction transact
    run_in_transaction-transact work c db laws idle =
        let (begun_at, began, fresh) = laws.begins c db idle in
        let ran = put (work db).1 begun_at in
        let (told, left) =
          finish-settle (work db).0 ran db (work db).1 laws
            (laws.puts begun_at db db (work db).1 fresh) in
        (
          (finish (work db).0 ran).1,
          rw (began, fresh.sees) (ap (λ r. some (r, (finish (work db).0 ran).1)) told),
          left,
        )
