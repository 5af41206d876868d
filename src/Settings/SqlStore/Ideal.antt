-- ===== src/Settings/SqlStore/Ideal.antt =====
-- What the store of settings/sql_store.py promises its callers: a map from primary keys to values and
-- a revision for each account, and the three calls that change them.
use settings_api.Prelude.{
  ℕ, ◌+◌, ◌≡◌, false, ◌&&◌, String, Option, none, List, [], ◌∷◌, All, Result, ok, err, is_nil,
  if◌then◌else◌, ◌==◌, string_eq,
}
use settings_api.Domain.Value.{Value}
use settings_api.Domain.Errors.{Error}
use settings_api.Storage.{Instant, PrimaryKey, Db}
use settings_api.Settings.Store.{Change, change_name, Applied, Write}
use settings_api.Settings.Rows.{revision_of}
use settings_api.Settings.SqlStore.{is_stale, apply, forget, purge_setting}
use settings_api.Settings.SqlStore.Changes.{
  value_at, key_of, Distinct, find_change, outcome_of, changes_something,
}
use settings_api.Settings.SqlStore.Raises.{Raised}
use settings_api.Settings.SqlStore.Sound.{HasName}

pub record Ideal : Type 0 where
  pub value : PrimaryKey → Option Value
  pub revision : String → ℕ

pub data Call : Type 0 where
  apply_write : String → Write → Call
  forget_account : String → Call
  purge : String → String → Instant → ℕ → Call

pub data Reply : Type 0 where
  refused : Error → Reply
  applied : Applied → Reply
  removed : ℕ → Reply

-- The names of the changes that change something, by comparison with the values there are.
unfoldable pub ideal_changed : String → (PrimaryKey → Option Value) → List Change → List String
ideal_changed a value [] = []
ideal_changed a value (c ∷ cs) =
    let rest = ideal_changed a value cs in
    if changes_something c (value (key_of a c)) then change_name c ∷ rest else rest

abbrev pub next_revision : ℕ → List String → ℕ
next_revision n names = if is_nil names then n else n + 1

abbrev pub ideal_applied : String → Write → Ideal → Applied
ideal_applied a w s = record {
  revision = next_revision (s.revision a) (ideal_changed a s.value w.changes);
  changed = ideal_changed a s.value w.changes;
}

abbrev pub ideal_write : String → Write → Ideal → Ideal
ideal_write a w s = record {
  value = λ k. outcome_of (find_change a k w.changes) (s.value k);
  revision = λ b. if a == b then (ideal_applied a w s).revision else s.revision b;
}

abbrev pub ideal_forget : String → Ideal → Ideal
ideal_forget a s = record {
  value = λ k. if a == k.account_id then none else s.value k;
  revision = λ b. if a == b then 0 else s.revision b;
}

abbrev pub ideal_purge : String → String → Ideal → Ideal
ideal_purge namespace key s = record {
  value = λ k. if k.namespace == namespace && k.key == key then none else s.value k;
  revision = s.revision;
}

-- A write is refused, with a reason that holds, and changes nothing; or it is done, at a revision that is
-- not stale. An erasure and a purge are always done. The ideal store does not count rows, so the number
-- that they reply is left open.
pub data IdealStep : Call → Reply → Ideal → Ideal → Type 0 where
  refuses :
      (a : String) (w : Write) (e : Error) (s : Ideal)
      → Raised w (s.revision a) e
      → IdealStep (apply_write a w) (refused e) s s
  writes :
      (a : String) (w : Write) (s : Ideal)
      → is_stale w.if_revision (s.revision a) ≡ false
      → IdealStep (apply_write a w) (applied (ideal_applied a w s)) s (ideal_write a w s)
  forgets :
      (a : String) (n : ℕ) (s : Ideal)
      → IdealStep (forget_account a) (removed n) s (ideal_forget a s)
  purges :
      (namespace key : String) (now : Instant) (event_cap n : ℕ) (s : Ideal)
      → IdealStep (purge namespace key now event_cap) (removed n) s (ideal_purge namespace key s)

-- Calls in a row, each with its reply.
pub data IdealSteps : List (Call × Reply) → Ideal → Ideal → Type 0 where
  stop : (s : Ideal) → IdealSteps [] s s
  step :
      (c : Call) (r : Reply) (rest : List (Call × Reply)) (s t u : Ideal)
      → IdealStep c r s t
      → IdealSteps rest t u
      → IdealSteps ((c, r) ∷ rest) s u

abbrev pub answer_write : Result Error Applied → Reply
answer_write (ok r) = applied r
answer_write (err e) = refused e

abbrev pub answer_count : Result Error ℕ → Reply
answer_count (ok n) = removed n
answer_count (err e) = refused e

-- The call as the store runs it.
abbrev pub run : Call → Db → Reply × Db
run (apply_write a w) db = let (r, end) = apply a w db in (answer_write r, end)
run (forget_account a) db = let (r, end) = forget a db in (answer_count r, end)
run (purge namespace key now event_cap) db =
    let (r, end) = purge_setting namespace key now event_cap db in (answer_count r, end)

unfoldable pub run_all : List Call → Db → List (Call × Reply) × Db
run_all [] db = ([], db)
run_all (c ∷ cs) db =
    let (r, mid) = run c db in let (rest, end) = run_all cs mid in ((c, r) ∷ rest, end)

-- The tables hold what the ideal store holds.
abbrev pub Refines : Db → Ideal → Type 0
Refines db s =
    ((k : PrimaryKey) → value_at db k ≡ s.value k)
    × ((b : String) → revision_of db b ≡ s.revision b)

-- What the service sees to: no two changes of one write address one row, and their names hold no dot.
abbrev pub IsProper : Call → Type 0
IsProper (apply_write a w) = Distinct a w.changes × All HasName w.changes
IsProper (forget_account a) = Unit
IsProper (purge namespace key now event_cap) = Unit
