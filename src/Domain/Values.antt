-- ===== src/Domain/Values.antt =====
-- domain/values.py: shape, then credentials, then size.
pub mod Encode
use settings_api.Prelude.{
  ℕ, ◌≤◌, subst, sym, ◌≡◌, refl, ◌↔◌, arith, All, Bool, true, false, String, Option, none, some,
  List, [], ◌∷◌, length, if◌then◌else◌, ltb, Result, ok, err, raise_if, map_err, for_each, ◌>>=◌,
  ◌>>◌,
}
use settings_api.Domain.Platform.{Platform}
use settings_api.Domain.Value.{Value, null, bool, int, str, str_list}
use settings_api.Domain.Types.{SettingDef, qualified}
use settings_api.Domain.Types.Validate
use settings_api.Domain.Types.Legal.{Legal, validate_iff, validate_same}
use settings_api.Domain.Errors.{
  Error, Suspicion, invalid_value, broken_rule, too_large, credential_refused,
}
use settings_api.Domain.Secrets.Scan.{looks_like_a_credential}
use settings_api.Domain.Values.Encode.{encode, utf8_length}

-- `_strings_in`
abbrev pub strings_in : Value → List String
strings_in (str s) = s ∷ []
strings_in (str_list items) = items
strings_in _ = []

-- `_check_size`
unfoldable pub check_size : SettingDef → Value → ℕ → Result Error (Unit {0})
unfolding encode utf8_length
check_size d v max_bytes =
    raise_if (ltb max_bytes (utf8_length (encode v))) (invalid_value (qualified d) too_large)

module _ (py : Platform) where
  -- `_check_shape`
  abbrev pub check_shape : SettingDef → Value → Result Error Value
  check_shape d v =
      map_err (λ rule. invalid_value (qualified d) (broken_rule rule)) (Validate.validate py d v)

  abbrev pub refuse : SettingDef → Option Suspicion → Result Error (Unit {0})
  refuse d none = ok tt
  refuse d (some reason) = err (credential_refused (qualified d) reason)

  -- `refuse_credentials`
  unfoldable pub refuse_credentials : SettingDef → Value → Result Error (Unit {0})
  unfolding looks_like_a_credential for_each
  refuse_credentials d v =
      for_each (strings_in v) (λ text. refuse d (looks_like_a_credential py text))

  -- `validate`
  unfoldable pub validate : SettingDef → Value → ℕ → Result Error Value
  validate d v max_bytes = do
    shaped ← check_shape d v
    refuse_credentials d shaped
    check_size d shaped max_bytes
    ok shaped

  -- Shape, credentials and size, as one condition on the value.
  pub record Acceptable (d : SettingDef) (v : Value) (max_bytes : ℕ) : Type 0 where
    pub shape : Legal py d v
    pub no_credential : All (λ text. looks_like_a_credential py text ≡ none) (strings_in v)
    pub size : utf8_length (encode v) ≤ max_bytes

  refuse-All_iff :
      (d : SettingDef) (texts : List String)
      → (for_each texts (λ text. refuse d (looks_like_a_credential py text)) ≡ ok tt)
        ↔ All (λ text. looks_like_a_credential py text ≡ none) texts
  unfolding for_each
  refuse-All_iff d [] = ground arith
  refuse-All_iff d (t ∷ ts) = ground (arith, refuse-All_iff d ts)

  check_size_iff :
      (d : SettingDef) (v : Value) (max_bytes : ℕ)
      → (check_size d v max_bytes ≡ ok tt) ↔ (utf8_length (encode v) ≤ max_bytes)
  unfolding check_size
  check_size_iff d v max_bytes = ground arith

  validate-parts :
      (d : SettingDef) (v : Value) (max_bytes : ℕ)
      → (validate d v max_bytes ≡ ok v) ↔ (
          (Validate.validate py d v ≡ ok v)
          × (refuse_credentials d v ≡ ok tt)
          × (check_size d v max_bytes ≡ ok tt))
  unfolding validate
  validate-parts d v max_bytes = ground (arith, validate_same py d v)

  -- A value is accepted, unchanged, exactly if the entry declares it legal, no text in it looks like a
  -- credential, and its JSON text takes at most `max_bytes` bytes.
  pub validate_iff-Acceptable :
      (d : SettingDef) (v : Value) (max_bytes : ℕ)
      → (validate d v max_bytes ≡ ok v) ↔ Acceptable d v max_bytes
  unfolding refuse_credentials
  validate_iff-Acceptable d v max_bytes =
      let parts = validate-parts d v max_bytes in
      let shape = validate_iff py d v in
      let clean = refuse-All_iff d (strings_in v) in
      let small = check_size_iff d v max_bytes in
      (
        (λ h.
            let p = parts.0 h in
            record { shape = shape.0 p.0; no_credential = clean.0 p.1; size = small.0 p.2 }),
        λ a. parts.1 (shape.1 a.shape, clean.1 a.no_credential, small.1 a.size),
      )

  pub validate_same_value :
      (d : SettingDef) (v w : Value) (max_bytes : ℕ) → validate d v max_bytes ≡ ok w → w ≡ v
  unfolding validate
  validate_same_value d v w max_bytes h = ground (arith, validate_same py d v {w = w})

  pub validate-Acceptable :
      (d : SettingDef) (v w : Value) (max_bytes : ℕ)
      → validate d v max_bytes ≡ ok w
      → Acceptable d w max_bytes
  validate-Acceptable d v w max_bytes h =
      let same = validate_same_value d v w max_bytes h in
      subst (λ x. Acceptable d x max_bytes) (sym same)
        ((validate_iff-Acceptable d v max_bytes).0
          (subst (λ x. validate d v max_bytes ≡ ok x) same h))
