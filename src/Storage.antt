-- ===== src/Storage.antt =====
-- storage/database.py and storage/migrations: the three tables, and work on them that may raise. Every
-- statement runs on the one thread that owns the connection, so a callable is one function here.
pub mod Exec
pub mod Transaction
use settings_api.Prelude.{
  ℕ, ◌≡◌, ◌↔◌, Bool, true, ◌&&◌, String, Option, List, arith, eq_iff, Eq, ◌==◌, string_eq,
}
use settings_api.Domain.Value.{Value}

-- A moment, in microseconds; `to_column` of storage/times.py writes it in a fixed width.
abbrev pub Instant : Type 0
Instant = ℕ

-- events/log.py: what happened.
pub data Action : Type 0 where
  set reset reset_namespace update import forget purge_retired : Action

-- `{"changed": [...], "count": n}`: names and a count, and no value.
pub record Detail : Type 0 where
  pub changed : List String
  pub count : ℕ

pub record AccountRow : Type 0 where
  pub account_id : String
  pub revision : ℕ
  pub created_at : Instant
  pub updated_at : Instant

-- `value` is what the column `value_json` decodes to.
pub record SettingRow : Type 0 where
  pub account_id : String
  pub profile : String
  pub namespace : String
  pub key : String
  pub value : Value
  pub set_at : Instant
  pub set_by : String

-- `PRIMARY KEY (account_id, profile, namespace, key)`
pub record PrimaryKey : Type 0 where
  pub account_id : String
  pub profile : String
  pub namespace : String
  pub key : String

unfoldable pub key_beq : PrimaryKey → PrimaryKey → Bool
key_beq a b =
    a.account_id == b.account_id
    && a.profile == b.profile
    && a.namespace == b.namespace
    && a.key == b.key

pub key_beq_iff : (a b : PrimaryKey) → (key_beq a b ≡ true) ↔ (a ≡ b)
unfolding key_beq
key_beq_iff a b = ground (
  arith,
  eq_iff a.account_id b.account_id,
  eq_iff a.profile b.profile,
  eq_iff a.namespace b.namespace,
  eq_iff a.key b.key,
)

instance abbrev pub key_eq : Eq PrimaryKey
key_eq = record { beq = key_beq; beq_iff = key_beq_iff }

abbrev pub primary_key : SettingRow → PrimaryKey
primary_key r = record {
  account_id = r.account_id;
  profile = r.profile;
  namespace = r.namespace;
  key = r.key;
}

pub record EventRow : Type 0 where
  pub sequence : ℕ
  pub account_id : String
  pub at : Instant
  pub action : Action
  pub namespace : Option String
  pub key : Option String
  pub revision : ℕ
  pub actor : String
  pub service : Option String
  pub detail : Option Detail

-- `events` holds the newest event first. `next_sequence` is what AUTOINCREMENT gives next: it never
-- falls, also when rows are deleted.
pub record Db : Type 0 where
  pub accounts : List AccountRow
  pub settings : List SettingRow
  pub events : List EventRow
  pub next_sequence : ℕ
