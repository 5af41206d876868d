-- ===== src/Settings/Service/Guards.antt =====
-- What holds of every change that `SettingsService` hands to the store.
use settings_api.Prelude.{
  is_nil, map, ℕ, ◌≡◌, refl, sym, subst, arith, All, All-append, true, false, not, String, Option,
  none, some, List, [], ◌∷◌, contains, filter, Bool-cases, inl, inr, string_eq, ok, raise_if,
  >>=-eq-ok,
}
use settings_api.Prelude.Dict.{Dict, get, insert, insert-All, get-All}
use settings_api.Domain.Platform.{Platform}
use settings_api.Domain.Value.{Value}
use settings_api.Domain.Types.{qualify, SettingDef, account_profile, is_profile_scoped, retired}
use settings_api.Domain.Errors.{unknown_settings}
use settings_api.Domain.Catalogue.{Catalogue}
use settings_api.Domain.Catalogue.Assembled.{IsEntryOf, ModuleOk}
use settings_api.Domain.Namespaces.{require_granted}
use settings_api.Domain.Registry.{live_entries_in, entries_in}
use settings_api.Domain.Policy.{Policy, definition_of, is_pinned}
use settings_api.Domain.Values
use settings_api.Domain.Values.{Acceptable, validate-Acceptable}
use settings_api.Identity.{Identity}
use settings_api.Settings.Store.{Change}
use settings_api.Settings.Service.{
  Document, require_profile_for, Found, storage_profile, index_by_key, find_entries, found_or,
  permit, check_writable, change_for, find_all, pending_changes, changes_for,
}

-- An account-scoped entry is written to the account, and a profile-scoped one to the profile named.
abbrev pub GoesTo : SettingDef → Option String → String → Type 0
GoesTo d profile column =
    (is_profile_scoped d ≡ false → column ≡ account_profile)
    × (is_profile_scoped d ≡ true → profile ≡ some column)

module _ (py : Platform) (catalogue : Catalogue) (policy : Policy) (max_value_bytes : ℕ) where
  -- What a request may write of an entry.
  pub record IsAllowed (identity : Identity) (profile : Option String) (d : SettingDef) (c : Change)
      : Type 0 where
    pub namespace : c.namespace ≡ d.namespace
    pub key : c.key ≡ d.key
    pub not_pinned : is_pinned policy d ≡ false
    pub not_owner_only : d.owner_writable_only ≡ true → identity.service ≡ none
    pub value : Acceptable py (definition_of policy d) c.value max_value_bytes
    pub column : GoesTo d profile c.profile

  entries_in-get :
      (namespace : String) (es : List SettingDef)
      → entries_in catalogue namespace ≡ ok es
      → get catalogue namespace ≡ some es
  unfolding entries_in
  entries_in-get namespace es h = ground arith

  pub storage_profile-GoesTo :
      (d : SettingDef) (profile : Option String) (column : String)
      → storage_profile d profile ≡ ok column
      → GoesTo d profile column
  unfolding storage_profile
  storage_profile-GoesTo d profile column h = ground arith

  pub check_writable_ok :
      (identity : Identity) (d : SettingDef)
      → check_writable py catalogue policy max_value_bytes identity d ≡ ok tt
      → (is_pinned policy d ≡ false) × (d.owner_writable_only ≡ true → identity.service ≡ none)
  unfolding check_writable
  check_writable_ok identity d h = ground arith

  -- A change that `_change_for` returns has passed every guard.
  pub change_for-IsAllowed :
      (identity : Identity) (profile : Option String) (d : SettingDef) (v : Value) (c : Change)
      → change_for py catalogue policy max_value_bytes identity profile d v ≡ ok c
      → IsAllowed identity profile d c
  unfolding change_for
  change_for-IsAllowed identity profile d v c h =
      let (u, writable, h₁) =
        >>=-eq-ok (check_writable py catalogue policy max_value_bytes identity d) _ h in
      let (w, valid, h₂) =
        >>=-eq-ok (Values.validate py (definition_of policy d) v max_value_bytes) _ h₁ in
      let (p, goes, made) = >>=-eq-ok (storage_profile d profile) _ h₂ in
      let (pinned, owner) = check_writable_ok identity d writable in
      let change : Change = record {
        namespace = d.namespace;
        key = d.key;
        value = w;
        reset = false;
        profile = p;
      } in
      subst (IsAllowed identity profile d) {x = change} (cc) (record {
        namespace = refl;
        key = refl;
        not_pinned = pinned;
        not_owner_only = owner;
        value = validate-Acceptable py (definition_of policy d) v w max_value_bytes valid;
        column = storage_profile-GoesTo d profile p goes;
      })

  -- A live entry of a namespace that the request's token grants.
  abbrev pub IsOpen : Identity → SettingDef → Type 0
  IsOpen identity d = (contains identity.namespaces d.namespace ≡ true) × (retired d ≡ false)

  abbrev IsOpenPair : Identity → SettingDef × Value → Type 0
  IsOpenPair identity p = IsOpen identity p.0

  abbrev IsOpenItem : Identity → String × SettingDef → Type 0
  IsOpenItem identity p = IsOpen identity p.1

  filter_live-All :
      (namespace : String) (identity : Identity) (ds : List SettingDef)
      → contains identity.namespaces namespace ≡ true
      → All (IsEntryOf py namespace) ds
      → All (IsOpen identity) (filter (λ d. not (retired d)) ds)
  unfolding filter
  filter_live-All namespace identity [] granted h = tt
  filter_live-All namespace identity (d ∷ ds) granted ((here, sound), h) =
      let rest = filter_live-All namespace identity ds granted h in
      let held = subst (λ n. contains identity.namespaces n ≡ true) (sym here) granted in
      elim (Bool-cases (retired d)) [
        | inl gone ↦ rw gone rest
        | inr live ↦ rw live ((held, live), rest)
      ]

  permit-granted :
      (identity : Identity) (namespace : String)
      → permit py catalogue policy max_value_bytes identity namespace ≡ ok tt
      → contains identity.namespaces namespace ≡ true
  unfolding permit require_granted
  permit-granted identity namespace h = ground arith

  live_entries_in-IsOpen :
      (identity : Identity) (namespace : String) (live : List SettingDef)
      → All (ModuleOk py) catalogue
      → contains identity.namespaces namespace ≡ true
      → live_entries_in catalogue namespace ≡ ok live
      → All (IsOpen identity) live
  unfolding live_entries_in
  live_entries_in-IsOpen identity namespace live ok_ granted h =
      let (es, found, made) = >>=-eq-ok (entries_in catalogue namespace) _ h in
      let at = entries_in-get namespace es found in
      subst (All (IsOpen identity)) (cc) (
        filter_live-All namespace identity es granted
          (get-All (ModuleOk py) catalogue namespace es ok_ at))

  index_by_key-IsOpen :
      (identity : Identity) (index : Dict String SettingDef) (ds : List SettingDef)
      → All (IsOpenItem identity) index
      → All (IsOpen identity) ds
      → All (IsOpenItem identity) (index_by_key index ds)
  unfolding index_by_key
  index_by_key-IsOpen identity index [] hi h = hi
  index_by_key-IsOpen identity index (d ∷ ds) hi (h, hs) =
      index_by_key-IsOpen identity (insert index d.key d) ds
        (insert-All (IsOpenItem identity) index d.key d hi h) hs

  find_entries-IsOpen :
      (identity : Identity) (namespace : String) (known : Dict String SettingDef)
      (entries : Dict String Value) (found : Found)
      → All (IsOpenItem identity) known
      → All (IsOpenPair identity) found.pending
      → All (IsOpenPair identity) (find_entries namespace known entries found).pending
  unfolding find_entries
  find_entries-IsOpen identity namespace known [] found hk hf = hf
  find_entries-IsOpen identity namespace known ((key, v) ∷ entries) found hk hf =
      find_entries-IsOpen identity namespace known entries
        (found_or (get known key) (qualify namespace key) v found) hk (step (get known key) refl)
    where
      step :
          (o : Option SettingDef)
          → get known key ≡ o
          → All (IsOpenPair identity) (found_or o (qualify namespace key) v found).pending
      step none e = hf
      step (some d) e =
          All-append (IsOpenPair identity) found.pending ((d, v) ∷ []) hf
            (get-All (IsOpenItem identity) known key d hk e, tt)

  find_all-IsOpen :
      (identity : Identity) (document : Document) (found end : Found)
      → All (ModuleOk py) catalogue
      → All (IsOpenPair identity) found.pending
      → find_all py catalogue policy max_value_bytes identity document found ≡ ok end
      → All (IsOpenPair identity) end.pending
  unfolding find_all
  find_all-IsOpen identity [] found end ok_ hf h =
      subst {A = Found} (λ f. All (IsOpenPair identity) f.pending) {x = found} {y = end} (cc) hf
  find_all-IsOpen identity ((namespace, entries) ∷ document) found end ok_ hf h =
      let (u, permitted, h₁) =
        >>=-eq-ok (permit py catalogue policy max_value_bytes identity namespace) _ h in
      let (live, at, h₂) = >>=-eq-ok (live_entries_in catalogue namespace) _ h₁ in
      let granted = permit-granted identity namespace permitted in
      let open_ = live_entries_in-IsOpen identity namespace live ok_ granted at in
      find_all-IsOpen identity document _ end ok_
        (find_entries-IsOpen identity namespace (index_by_key [] live) entries found
          (index_by_key-IsOpen identity [] live tt open_) hf)
        h₂

  -- The change of an entry that the request may see and write.
  abbrev pub IsPermitted : Identity → Option String → Change → Type 0
  IsPermitted identity profile c =
      (d : SettingDef) × IsOpen identity d × IsAllowed identity profile d c

  pending_changes-IsPermitted :
      (identity : Identity) (profile : Option String) (pending : List (SettingDef × Value))
      (cs : List Change)
      → All (IsOpenPair identity) pending
      → pending_changes py catalogue policy max_value_bytes identity profile pending ≡ ok cs
      → All (IsPermitted identity profile) cs
  unfolding pending_changes
  pending_changes-IsPermitted identity profile [] cs hp h =
      subst (All (IsPermitted identity profile)) {x = []} (cc) tt
  pending_changes-IsPermitted identity profile ((d, v) ∷ pending) cs (hd, hp) h =
      let (c, made, h₁) =
        >>=-eq-ok (change_for py catalogue policy max_value_bytes identity profile d v) _ h in
      let (later, rest, same) =
        >>=-eq-ok (pending_changes py catalogue policy max_value_bytes identity profile pending) _
          h₁ in
      subst (All (IsPermitted identity profile)) {x = c ∷ later} (cc) (
        (d, hd, change_for-IsAllowed identity profile d v c made),
        pending_changes-IsPermitted identity profile pending later hp rest,
      )

  -- Over an assembled catalogue, every change that a document is turned into is one of a live entry, in
  -- a namespace that the token grants, that no policy pins and the caller may write; its value is
  -- acceptable to the entry as narrowed, and it goes to the column of the entry's scope.
  pub changes_for-IsPermitted :
      (identity : Identity) (profile : Option String) (document : Document) (cs : List Change)
      → All (ModuleOk py) catalogue
      → changes_for py catalogue policy max_value_bytes identity profile document ≡ ok cs
      → All (IsPermitted identity profile) cs
  unfolding changes_for
  changes_for-IsPermitted identity profile document cs ok_ h =
      let nothing : Found = record { unknown = []; pending = [] } in
      let (found, all_, h₁) =
        >>=-eq-ok (find_all py catalogue policy max_value_bytes identity document nothing) _ h in
      let (_, _, h₂) =
        >>=-eq-ok (raise_if (not (is_nil found.unknown)) (unknown_settings found.unknown)) _ h₁ in
      let (_, _, made) =
        >>=-eq-ok (require_profile_for (map (λ p. p.0) found.pending) profile) _ h₂ in
      pending_changes-IsPermitted identity profile found.pending cs
        (find_all-IsOpen identity document nothing found ok_ tt all_) made
