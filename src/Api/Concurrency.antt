-- ===== src/Api/Concurrency.antt =====
-- Optimistic concurrency over api/routers/settings.py: a write with the entity tag of a read.
use settings_api.Prelude.{
  ℕ, ◌≤◌, ◌≡◌, refl, sym, subst, All, ap, ◌∙◌, arith, String, Option, some, List, length, nat_eq,
  list_eq, beq_refl, Result, ok, err, ◌>>◌,
}
use settings_api.Prelude.Text.{codes}
use settings_api.Domain.Platform.{Platform}
use settings_api.Domain.Errors.{Error}
use settings_api.Domain.Catalogue.{Catalogue}
use settings_api.Domain.Policy.{Policy}
use settings_api.Domain.Values.Encode.{digits}
use settings_api.Identity.{Identity}
use settings_api.Storage.{Action, Instant, PrimaryKey, Db}
use settings_api.Storage.Exec
use settings_api.Storage.Exec.{Exec, pure, lift}
use settings_api.Settings.Store.{Change}
use settings_api.Settings.Rows.{revision_of, read_state}
use settings_api.Settings.SqlStore.{apply}
use settings_api.Settings.SqlStore.Returns.{apply-fresh}
use settings_api.Settings.SqlStore.Changes.{value_at}
use settings_api.Settings.SqlStore.Apply.{IsSound}
use settings_api.Settings.SqlStore.Ideal.{Call, run_all, IsProper}
use settings_api.Settings.SqlStore.Unmoved.{Spares, run_all-unmoved}
use settings_api.Settings.Service.Writes.{
  Request, Written, perform, write_of, apply_changes_of, etag, set_setting, update, import_document,
  reset_setting, reset_namespace,
}
use settings_api.Settings.Service.Reads
use settings_api.Api.{revision_from_if_match, max_int_digits}
use settings_api.Api.RoundTrip.{IsPlain, revision_from_if_match-etag}
use settings_api.Api.Routes.{
  Tagged, WriteCall, update_settings, import_settings, WriteResponse, SettingsResponse,
  get_namespace, serve, request_at, precondition, check_first, write_route,
}

-- A writing operation that expects a revision and returns found the account at that revision.
perform-fresh :
    (q : Request) (action : Action) (r : Result Error (List Change)) (db end : Db) (w : Written)
    (n : ℕ)
    → perform q action r db ≡ (ok w, end)
    → q.if_revision ≡ some n
    → revision_of db q.identity.account_id ≡ n
unfolding apply_changes_of
perform-fresh q action (err e) db end w n h expected = cc
perform-fresh q action (ok cs) db end w n h expected =
    let a = q.identity.account_id in
    let (r, here, later) = Exec.>>=-eq-ok (apply a (write_of q action cs)) _ db h in
    apply-fresh a (write_of q action cs) db r (apply a (write_of q action cs) db).1 n
      (ap (λ x. (x, (apply a (write_of q action cs) db).1)) here) expected

then-eq-ok :
    (first : Result Error (Unit {0})) (next : Result Error (Option ℕ)) {o : Option ℕ}
    → (first >> next) ≡ ok o
    → next ≡ ok o
then-eq-ok (ok u) next h = h
then-eq-ok (err e) next h = cc

same_value : {r : Result Error (Option ℕ)} {o p : Option ℕ} → r ≡ ok o → r ≡ ok p → o ≡ p
same_value h k = cc

module _ (py : Platform) (catalogue : Catalogue) (policy : Policy) (max_value_bytes : ℕ) where
  abbrev serve_it : WriteCall → Request → Exec Written
  serve_it = serve py catalogue policy max_value_bytes

  abbrev asking : Identity → Instant → ℕ → Option ℕ → Request
  asking = request_at py catalogue policy max_value_bytes

  serve-fresh :
      (call : WriteCall) (q : Request) (db end : Db) (w : Written) (n : ℕ)
      → serve_it call q db ≡ (ok w, end)
      → q.if_revision ≡ some n
      → revision_of db q.identity.account_id ≡ n
  unfolding set_setting update import_document reset_setting reset_namespace
  serve-fresh (WriteCall.set_setting namespace key v profile) q db end w n h =
      perform-fresh q Action.set _ db end w n h
  serve-fresh (update_settings document profile) q db end w n h =
      perform-fresh q Action.update _ db end w n h
  serve-fresh (import_settings document profiles version) q db end w n h =
      perform-fresh q Action.import _ db end w n h
  serve-fresh (WriteCall.reset_setting namespace key profile) q db end w n h =
      perform-fresh q Action.reset _ db end w n h
  serve-fresh (WriteCall.reset_namespace namespace profile) q db end w n h =
      perform-fresh q Action.reset_namespace _ db end w n h

  -- What a read answers with carries the entity tag of the account's revision.
  get_namespace-etag :
      (identity : Identity) (namespace : String) (profile : Option String) (db : Db)
      (answer : Tagged SettingsResponse)
      → get_namespace py catalogue policy max_value_bytes identity namespace profile db ≡ ok answer
      → answer.etag ≡ etag identity.account_id (revision_of db identity.account_id)
  unfolding get_namespace Reads.get_namespace read_state
  get_namespace-etag identity namespace profile db answer h = ground arith

  -- The entity tag of this account is read as its revision.
  tag_read :
      (a : String) (tag : List ℕ) (n : ℕ)
      → IsPlain (codes a)
      → length (digits n) ≤ max_int_digits py
      → tag ≡ etag a n
      → revision_from_if_match py (some tag) a ≡ ok (some n)
  tag_read a tag n plain short e =
      ap (λ t. revision_from_if_match py (some t) a) e
      ∙ (revision_from_if_match-etag py a a n plain short ∙ rw (beq_refl (codes a)) refl)

  -- A writing endpoint that is called with the entity tag of a read and that answers found the account at
  -- the revision of that read.
  write_route-fresh :
      (identity : Identity) (namespace : String) (profile : Option String) (seen : Db)
      (answer : Tagged SettingsResponse) (now : Instant) (event_cap : ℕ) (call : WriteCall)
      (db end : Db) (response : Tagged WriteResponse)
      → IsPlain (codes identity.account_id)
      → length (digits (revision_of seen identity.account_id)) ≤ max_int_digits py
      → get_namespace py catalogue policy max_value_bytes identity namespace profile seen
        ≡ ok answer
      → write_route py catalogue policy max_value_bytes identity now event_cap
          (some answer.etag)
          call
          db
        ≡ (ok response, end)
      → revision_of db identity.account_id ≡ revision_of seen identity.account_id
  unfolding write_route
  write_route-fresh identity namespace profile seen answer now event_cap call db end response plain
        short read h =
      let n = revision_of seen identity.account_id in
      let tag = get_namespace-etag identity namespace profile seen answer read in
      let (expected, found, served) =
        Exec.>>=-eq-ok
          (lift (precondition py catalogue policy max_value_bytes identity (some answer.etag) call))
          _ db h in
      let (w, wrote, rest) =
        Exec.>>=-eq-ok (serve_it call (asking identity now event_cap expected)) _ db served in
      let reads = tag_read identity.account_id answer.etag n plain short tag in
      let known = then-eq-ok (check_first call) _ found in
      serve-fresh call (asking identity now event_cap expected) db
        (serve_it call (asking identity now event_cap expected) db).1 w n
        (ap (λ x. (x, (serve_it call (asking identity now event_cap expected) db).1)) wrote)
        (same_value known reads)

  -- Of the five writing endpoints, one that is called with the entity tag of a read and that answers finds
  -- each row of the account with the value that it had at that read, whatever writes, erasures and purges
  -- there were between, no two changes of one write addressing one row and no name holding a dot.
  -- Excepted are a row whose setting was purged between, and all rows of an account that was erased
  -- between. The tables of the read are sound, the account's id does not begin with a quote, and the
  -- revision has at most the 4300 digits that Python converts.
  pub write_route-no_lost_update :
      (identity : Identity) (namespace : String) (profile : Option String) (seen : Db)
      (answer : Tagged SettingsResponse) (between : List Call) (now : Instant) (event_cap : ℕ)
      (call : WriteCall) (end : Db) (response : Tagged WriteResponse) (k : PrimaryKey)
      → IsPlain (codes identity.account_id)
      → length (digits (revision_of seen identity.account_id)) ≤ max_int_digits py
      → IsSound seen
      → All IsProper between
      → All (Spares k) between
      → k.account_id ≡ identity.account_id
      → get_namespace py catalogue policy max_value_bytes identity namespace profile seen
        ≡ ok answer
      → write_route py catalogue policy max_value_bytes identity now event_cap
          (some answer.etag)
          call
          (run_all between seen).1
        ≡ (ok response, end)
      → value_at (run_all between seen).1 k ≡ value_at seen k
  write_route-no_lost_update identity namespace profile seen answer between now event_cap call end
        response k plain short sound proper spares own read h =
      let same =
        write_route-fresh identity namespace profile seen answer now event_cap call
          (run_all between seen).1 end response plain short read h in
      run_all-unmoved k between seen proper spares sound
        (subst (λ a. revision_of (run_all between seen).1 a ≡ revision_of seen a) (sym own) same)
