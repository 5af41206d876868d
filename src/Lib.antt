-- ===== src/Lib.antt =====
-- settings-api: what each person has chosen, over a catalogue that says what may be chosen.
--
-- The catalogue lists every setting with its type, bounds and default; an operator's policy narrows
-- it for one deployment. A request comes with a token, which says whose settings and which namespaces
-- it may touch. A read resolves three layers: policy, the account's rows, the default. A write is
-- turned into changes, each of them checked, and then one transaction changes the rows, moves the
-- account's revision on and logs one event.
--
--   Domain/Types, Types/Validate, Types/Check    settings_api/domain/types.py: SettingDef, validate, check
--   Types/Legal, Types/Check/Sound               what a legal value and a sound entry are
--   Domain/Catalogue, Domain/Registry            settings_api/domain/catalogue/__init__.py (_assemble,
--                                                BY_QUALIFIED) and settings_api/domain/registry.py
--   Catalogue/BuiltIn, Entry and one module      settings_api/domain/catalogue: the ten namespaces and
--   for each namespace                           all of their entries
--   Catalogue/Assembled, Exact                   what an assembled catalogue holds
--   Domain/Policy, Policy/Narrow, Policy/Parse   settings_api/domain/policy.py: _narrow, parse
--   Policy/Narrower, Policy/Safe                 that a policy only narrows
--   Domain/Resolution                            settings_api/domain/resolution.py
--   Domain/Namespaces, Namespaces/Apart          settings_api/domain/namespaces.py
--   Domain/Secrets, Secrets/Entropy and Scan     settings_api/domain/secrets.py
--   Domain/Values, Values/Encode                 settings_api/domain/values.py
--   Domain/Json, Domain/Value, Domain/Errors     parsed JSON, values, settings_api/domain/errors.py
--   Identity                                     settings_api/auth/tokens.py and service_tokens.py
--   Storage, Storage/Exec                        settings_api/storage: the tables and work on them
--   Storage/Transaction                          settings_api/storage/database.py: _in_transaction
--   Events, Events/Cap                           settings_api/events/sql_log.py: the log and its cap
--   Settings/Store, Settings/Rows                settings_api/settings/store.py and the statements of
--   Settings/SqlStore                            settings_api/settings/sql_store.py: apply, forget, purge
--   SqlStore/Changes, Effects, Revision, Apply,  what a write, an erasure and a purge do to the rows,
--   Logged, Sound, Forget, Purge, Returns,       the revision and the log, and why a write raises
--   Others, Raises
--   SqlStore/Cap                                 the cap on profiles, and stale writes
--   SqlStore/Ideal, Refinement, Unmoved          what the store promises, apart from its tables, and
--                                                sequences of calls to both
--   Settings/Service, Service/Writes and Reads   settings_api/settings/service.py
--   Service/Guards, Kept, ReadBack,              which changes reach the store, and what is read back
--   Reset
--   Settings/Sweeper, Sweeper/Due and Swept      settings_api/settings/sweeper.py
--   Api, Api/RoundTrip                           settings_api/api/dependencies.py: If-Match
--   Api/Routes, Api/Concurrency                  settings_api/api/routers/settings.py
--   Api/Internal, Api/Revalidate                 settings_api/api/routers/internal.py and the identities
--                                                of dependencies.py
--   Api/Status                                   settings_api/api/errors.py
--   Client/Models, Client/Reply                  clients/python/settings_client/models.py and the
--                                                parsing of client.py
--   Client/Cache, Cache/Outage, Cache/Bounds     client.py: the cache, _fetch, _degrade, set, forget
--   Client/Flights and its children              client.py: resolve with callers at once, as steps; that
--                                                one request is out for a key, whose values a caller is
--                                                given, that none is stuck
--   Tests                                        every theorem at a concrete input
--
-- State is `Db`, the three tables as lists of rows. A callable that runs on the connection is an
-- `Exec`: from tables to a result and tables. `transact` rolls back where the result is an error, as
-- `_in_transaction` does on a connection. The connection is a parameter with the laws of BEGIN, COMMIT and
-- ROLLBACK as SQLite documents them, where no other process holds the lock. The
-- database runs every callable on one thread that owns the connection, so no two transactions
-- interleave. Loops are structural recursion on a list. The decimal digits of a number alone run on
-- fuel: the number itself, which is enough since each step divides it by ten.
--
-- Parameters: `Domain.Platform` holds what the program finds in its surroundings, which is
-- `re.fullmatch` for a pattern that an entry names, the time zones of the machine, ISO dates, and
-- Unicode letters and digits; `Identity.Keyring` is the package keyring_client, which verifies tokens. The
-- patterns of keys, profile names and credentials are translated themselves. A column `value_json`
-- holds the value that it decodes to, and an instant is a number.
--
-- The Python client is a step relation: every caller of `resolve` stands at one of its two awaits, the
-- lock and the request, any of them may go on next, with any reply, and callers may be cancelled. An
-- entry that a caller holds while it fetches is the one in the cache, if any stands there.
--
-- Not modelled: parsing and rendering in the HTTP layer, logging, configuration, threads and files, the migrations,
-- and the test doubles of the Python client.
pub mod Prelude
pub mod Domain
pub mod Storage
pub mod Events
pub mod Identity
pub mod Settings
pub mod Api
pub mod Client
pub mod Tests
