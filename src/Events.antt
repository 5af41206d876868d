-- ===== src/Events.antt =====
-- events/sql_log.py: the change log, as rows.
pub mod Cap
use settings_api.Prelude.{
  ℕ, ◌+◌, Bool, not, ◌&&◌, String, Option, none, some, List, [], ◌∷◌, length, filter, take,
  get_elem?, map, ◌==◌, string_eq, ltb, leb,
}
use settings_api.Storage.{Instant, Action, Detail, EventRow, Db}

-- `WHERE account_id = ?`
abbrev pub is_of : String → EventRow → Bool
is_of account_id e = e.account_id == account_id

unfoldable pub events_of : String → List EventRow → List EventRow
unfolding filter
events_of account_id = filter (is_of account_id)

-- The sequence that the subselect of `TRIM_TO_CAP` returns, if it returns a row.
abbrev pub cut : Option EventRow → Option ℕ
cut none = none
cut (some e) = some e.sequence

abbrev pub delete_through : String → Option ℕ → List EventRow → List EventRow
delete_through account_id none events = events
delete_through account_id (some s) events =
    filter (λ e. not (is_of account_id e && leb e.sequence s)) events

-- `TRIM_TO_CAP`
unfoldable pub trim_to_cap : String → ℕ → List EventRow → List EventRow
unfolding events_of
trim_to_cap account_id event_cap events =
    delete_through account_id (cut (get_elem? (events_of account_id events) event_cap)) events

-- The columns that an append writes; SQLite assigns the sequence.
pub record Appended : Type 0 where
  pub account_id : String
  pub at : Instant
  pub action : Action
  pub namespace : Option String
  pub key : Option String
  pub revision : ℕ
  pub actor : String
  pub service : Option String
  pub detail : Option Detail

abbrev pub event_row : ℕ → Appended → EventRow
event_row sequence a = record {
  sequence = sequence;
  account_id = a.account_id;
  at = a.at;
  action = a.action;
  namespace = a.namespace;
  key = a.key;
  revision = a.revision;
  actor = a.actor;
  service = a.service;
  detail = a.detail;
}

-- `append_in`: the row and the trim, in the transaction of the caller.
unfoldable pub append_in : Appended → ℕ → Db → Db
unfolding trim_to_cap
append_in a event_cap db = record db {
  events = trim_to_cap a.account_id event_cap (event_row db.next_sequence a ∷ db.events);
  next_sequence = db.next_sequence + 1;
}

-- `delete_for_account_in`
unfoldable pub delete_for_account_in : String → Db → Db
unfolding filter
delete_for_account_in account_id db = record db {
  events = filter (λ e. not (is_of account_id e)) db.events;
}

abbrev before_ok : Option ℕ → EventRow → Bool
before_ok none e = Bool.true
before_ok (some s) e = ltb e.sequence s

-- `read`: one page, newest first.
unfoldable pub read : String → ℕ → Option ℕ → Db → List EventRow
unfolding events_of filter
read account_id limit before db =
    take limit (filter (before_ok before) (events_of account_id db.events))

-- `count_for_account`
unfoldable pub count_for_account : String → Db → ℕ
unfolding events_of
count_for_account account_id db = length (events_of account_id db.events)
