-- ===== src/Api/Revalidate.antt =====
-- Revalidation over api/routers/internal.py: a read with the entity tag of an earlier read.
use settings_api.Prelude.{
  ℕ, ◌≡◌, refl, sym, ap, ap₂, ◌∙◌, arith, All, All-append, All-map, Bool, true, false, String,
  Option, none, some, List, [], ◌∷◌, ◌++◌, contains, list_beq, if◌then◌else◌, ◌==◌, nat_eq, list_eq,
  Bool-cases, inl, inr, Result, ok, err, >>=-eq-ok,
}
use settings_api.Prelude.Text.{codes, strip}
use settings_api.Domain.Platform.{Platform}
use settings_api.Domain.Errors.{Error}
use settings_api.Domain.Catalogue.{Catalogue}
use settings_api.Domain.Policy.{Policy}
use settings_api.Domain.Values.Encode.{digits, read_digits, read_digits-digits}
use settings_api.Identity.{Identity}
use settings_api.Storage.{Db}
use settings_api.Settings.Rows.{revision_of, read_state}
use settings_api.Settings.Service.Writes.{etag}
use settings_api.Settings.Service.Reads.{Answer, resolve_for}
use settings_api.Api.{rpartition_dot}
use settings_api.Api.RoundTrip.{
  IsDigit, digits_within-IsDigit, quote, strip-quoted, etag-quoted, rpartition_dot-last,
}
use settings_api.Api.Routes.{Tagged}
use settings_api.Api.Internal.{
  split_commas, matches, Resolution, not_modified, full, full_response, ResolvedSettingsResponse,
  resolve_settings,
}

abbrev NoComma : ℕ → Type 0
NoComma c = (c == b',') ≡ false

-- An account's id has no comma.
abbrev pub HasNoComma : String → Type 0
HasNoComma s = All NoComma (codes s)

split_commas-none : (s : List ℕ) → All NoComma s → split_commas s ≡ s ∷ []
unfolding split_commas
split_commas-none [] h = refl
split_commas-none (c ∷ s) (h, hs) = rw (h, split_commas-none s hs) refl

IsDigit-NoComma : (c : ℕ) → IsDigit c → NoComma c
IsDigit-NoComma c h = ground arith

etag-NoComma : (a : String) (n : ℕ) → HasNoComma a → All NoComma (etag a n)
unfolding etag
etag-NoComma a n h =
    let last : All NoComma (quote ∷ []) = (refl, tt) in
    let number = All-map (digits n) IsDigit-NoComma (digits_within-IsDigit n n (omega arith)) in
    (
      refl,
      All-append NoComma (codes a) _ h
          (refl, All-append NoComma (digits n) (quote ∷ []) number last),
    )

drop_last : List ℕ → List ℕ
drop_last [] = []
drop_last (c ∷ []) = []
drop_last (c ∷ d ∷ s) = c ∷ drop_last (d ∷ s)

drop_last-snoc : (x : List ℕ) (q : ℕ) → drop_last (x ++ q ∷ []) ≡ x
unfolding drop_last
drop_last-snoc [] q = refl
drop_last-snoc (c ∷ []) q = refl
drop_last-snoc (c ∷ d ∷ x) q = ap (λ t. c ∷ t) (drop_last-snoc (d ∷ x) q)

abbrev unquoted : List ℕ → List ℕ
unquoted [] = []
unquoted (c ∷ s) = drop_last s

-- The number behind the last dot of a tag.
tag_number : List ℕ → ℕ
tag_number tag = read_digits 0 (rpartition_dot (unquoted tag)).2

tag_number-etag : (a : String) (n : ℕ) → tag_number (etag a n) ≡ n
unfolding tag_number
tag_number-etag a n =
    ap (λ t. read_digits 0 (rpartition_dot (unquoted t)).2) (etag-quoted a n)
    ∙ (ap (λ t. read_digits 0 (rpartition_dot t).2)
          (drop_last-snoc (codes a ++ b'.' ∷ digits n) quote)
        ∙ (ap (λ p. read_digits 0 p.2)
              (rpartition_dot-last (codes a) (digits n) (digits_within-IsDigit n n (omega arith)))
            ∙ read_digits-digits n))

-- A numbering that can be undone tells numbers apart.
beq-of_inverse :
    (f : ℕ → List ℕ) (g : List ℕ → ℕ)
    → ((n : ℕ) → g (f n) ≡ n)
    → (n m : ℕ) → (f n == f m) ≡ (n == m)
beq-of_inverse f g back n m = elim (Bool-cases (n == m)) [
  | inl same ↦ (list_eq.beq_iff (f n) (f m)).1 (ap f ((nat_eq.beq_iff n m).0 same)) ∙ sym same
  | inr other ↦ elim (Bool-cases (f n == f m)) [
    | inr apart ↦ apart ∙ sym other
    | inl one ↦
        let p : n ≡ m = sym (back n) ∙ (ap g ((list_eq.beq_iff (f n) (f m)).0 one) ∙ back m) in
        one ∙ sym ((nat_eq.beq_iff n m).1 p)
  ]
]

stripped : (a : String) (n : ℕ) → strip (etag a n) ≡ etag a n
stripped a n =
    ap strip (etag-quoted a n) ∙ (strip-quoted (codes a ++ b'.' ∷ digits n) ∙ sym (etag-quoted a n))

no_star : (a : String) (n : ℕ) → (etag a n == codes "*") ≡ false
unfolding etag list_beq
no_star a n = refl

matches-etag :
    (a : String) (n m : ℕ) → HasNoComma a → matches (some (etag a n)) (etag a m) ≡ (n == m)
unfolding matches contains
matches-etag a n m h =
    rw
      (
        split_commas-none (etag a n) (etag-NoComma a n h),
        stripped a n,
        no_star a n,
        beq-of_inverse (etag a) tag_number (tag_number-etag a) n m,
      )
      (ground arith)

abbrev pub is_not_modified : Resolution → Bool
is_not_modified (not_modified _) = true
is_not_modified (full _) = false

abbrev modified_in : Result Error Resolution → Bool
modified_in (ok r) = is_not_modified r
modified_in (err e) = false

abbrev tag_in : Result Error Resolution → List ℕ
tag_in (ok (full t)) = t.etag
tag_in _ = []

told_by :
    (namespace : String) (a : Answer) (b : Bool) (second : Resolution)
    → ◌≡◌ {A = Result Error Resolution}
        (if b then ok (not_modified a.etag) else ok (full_response namespace a))
        (ok second)
    → is_not_modified second ≡ b
told_by namespace a true second h = sym (ap modified_in h)
told_by namespace a false second h = sym (ap modified_in h)

module _ (py : Platform) (catalogue : Catalogue) (policy : Policy) (max_value_bytes : ℕ) where
  resolve_for-etag :
      (identity : Identity) (namespace : String) (profile : Option String) (db : Db) (a : Answer)
      → resolve_for py catalogue policy max_value_bytes identity namespace profile db ≡ ok a
      → a.etag ≡ etag identity.account_id (revision_of db identity.account_id)
  unfolding resolve_for read_state
  resolve_for-etag identity namespace profile db a h = ground arith

  first-etag :
      (identity : Identity) (namespace : String) (profile : Option String) (db : Db)
      (first : Tagged ResolvedSettingsResponse)
      → resolve_settings py catalogue policy max_value_bytes identity namespace none profile db
        ≡ ok (full first)
      → first.etag ≡ etag identity.account_id (revision_of db identity.account_id)
  unfolding resolve_settings matches
  first-etag identity namespace profile db first h =
      let (a, found, rest) =
        >>=-eq-ok (resolve_for py catalogue policy max_value_bytes identity namespace profile db) _
          h in
      sym (ap tag_in rest) ∙ resolve_for-etag identity namespace profile db a found

  -- A service that asks again with the entity tag of an earlier answer, and is answered, is told that
  -- nothing was modified exactly if the account is still at the revision of that answer. The account's
  -- id must have no comma.
  pub resolve_settings-revalidates :
      (identity : Identity) (namespace : String) (profile : Option String) (seen db : Db)
      (first : Tagged ResolvedSettingsResponse) (second : Resolution)
      → HasNoComma identity.account_id
      → resolve_settings py catalogue policy max_value_bytes identity namespace none profile seen
        ≡ ok (full first)
      → resolve_settings py catalogue policy max_value_bytes identity namespace
          (some first.etag)
          profile
          db
        ≡ ok second
      → is_not_modified second
        ≡ (revision_of seen identity.account_id == revision_of db identity.account_id)
  unfolding resolve_settings
  resolve_settings-revalidates identity namespace profile seen db first second plain before after =
      let (a, found, rest) =
        >>=-eq-ok (resolve_for py catalogue policy max_value_bytes identity namespace profile db) _
          after in
      let sent = first-etag identity namespace profile seen first before in
      let held = resolve_for-etag identity namespace profile db a found in
      told_by namespace a (matches (some first.etag) a.etag) second rest
      ∙ (ap₂ (λ t u. matches (some t) u) sent held
          ∙ matches-etag identity.account_id (revision_of seen identity.account_id)
              (revision_of db identity.account_id) plain)
