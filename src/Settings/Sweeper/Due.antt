-- ===== src/Settings/Sweeper/Due.antt =====
-- Which entries `due` of settings/sweeper.py finds.
use settings_api.Prelude.{
  ℕ, ◌+◌, ◌-◌, ◌<◌, ◌≡◌, refl, arith, All, Bool, true, false, String, Option, none, some, List, [],
  ◌∷◌, leb, ltb, ok, string_eq, inl, inr, Bool-cases, Option-cases, sym, ◌∙◌,
}
use settings_api.Domain.Platform.{Platform}
use settings_api.Domain.Types.{SettingDef}
use settings_api.Domain.Types.Check.{check, entry_lifecycle}
use settings_api.Domain.Catalogue.{Catalogue, every_entry}
use settings_api.Domain.Catalogue.Assembled.{IsChecked}
use settings_api.Domain.Registry.Lookup.{AllChecked}
use settings_api.Settings.Sweeper.{cutoff_of, is_due, due_of, due}

-- The second list is the part of the first, in its order, that the property holds of.
pub data Selects {A : Type 0} (P : A → Type 0) : List A → List A → Type 0 where
  done : Selects P [] []
  takes : {x : A} {xs ys : List A} → P x → Selects P xs ys → Selects P (x ∷ xs) (x ∷ ys)
  leaves : {x : A} {xs ys : List A} → (P x → ⊥) → Selects P xs ys → Selects P (x ∷ xs) ys

module _ (py : Platform) (retention_days today : ℕ) where
  -- The entry was retired on a day that lies more than the retention before today.
  abbrev pub HasPassed : SettingDef → Type 0
  HasPassed d =
      (text : String) × (day : ℕ) × (d.retired_at ≡ some text)
      × (py.from_iso_date text ≡ some day)
      × (day + retention_days < today)

  -- What `check` sees to: a date that is there parses.
  readable :
      (d : SettingDef) (text : String)
      → check py d ≡ ok tt
      → d.retired_at ≡ some text
      → (day : ℕ) × (py.from_iso_date text ≡ some day)
  unfolding check entry_lifecycle
  readable d text h there = elim (Option-cases (py.from_iso_date text)) [
    | inl unreadable ↦ ground (arith, there, unreadable)
    | inr (day, found) ↦ (day, found)
  ]

  -- The test of the comprehension, as the entry's date has it.
  abbrev Decides : SettingDef → Bool → Type 0
  Decides d b =
      (is_due py (today - retention_days) d.retired_at ≡ some b)
      × (b ≡ true → HasPassed d)
      × (b ≡ false → HasPassed d → ⊥)

  never-Decides : (d : SettingDef) → d.retired_at ≡ none → Decides d false
  never-Decides d never =
      (rw never refl, λ e. cc, λ _ (text, day, there, _, _). (let clash = sym never ∙ there in cc))

  same_date :
      {date : Option String} {day that : ℕ} (text other : String)
      → date ≡ some text
      → py.from_iso_date text ≡ some day
      → date ≡ some other
      → py.from_iso_date other ≡ some that
      → day ≡ that
  same_date text other there found there' found' = cc

  dated-Decides :
      (d : SettingDef) (text : String) (day : ℕ)
      → retention_days < today
      → d.retired_at ≡ some text
      → py.from_iso_date text ≡ some day
      → Decides d (ltb day (today - retention_days))
  dated-Decides d text day early there found = (
    rw (there, found) refl,
    λ e. (text, day, there, found, ground arith),
    λ e (other, that, there', found', passed).
        let same_day = same_date text other there found there' found' in ground arith,
  )

  is_due-Decides :
      (d : SettingDef) → retention_days < today → check py d ≡ ok tt → (b : Bool) × Decides d b
  is_due-Decides d early h = elim (Option-cases d.retired_at) [
    | inl never ↦ (false, never-Decides d never)
    | inr (text, there) ↦
        let (day, found) = readable d text h there in
        (ltb day (today - retention_days), dated-Decides d text day early there found)
  ]

  pub due_of-Selects :
      (ds : List SettingDef)
      → retention_days < today
      → All (IsChecked py) ds
      → (found : List SettingDef) × (due_of py (today - retention_days) ds ≡ some found)
        × Selects HasPassed ds found
  unfolding due_of
  due_of-Selects [] early h = ([], refl, done)
  due_of-Selects (d ∷ ds) early (h, hs) =
      let (rest, found, selected) = due_of-Selects ds early hs in
      let (b, decided) = is_due-Decides d early h in
      let (tested, passes, fails) = decided in
      elim (Bool-cases b) [
        | inl passed ↦ (d ∷ rest, rw (tested, found, passed) refl, takes (passes passed) selected)
        | inr kept ↦ (rest, rw (tested, found, kept) refl, leaves (fails kept) selected)
      ]

early_cutoff :
    (retention_days today : ℕ) → retention_days < today → leb today retention_days ≡ false
early_cutoff retention_days today early = ground arith

-- Over a checked catalogue, where the retention is fewer days than today's ordinal, the dates parse, and what
-- is due is exactly the entries, in the order of the catalogue, that have a date of retirement more days
-- than the retention before today.
pub due-Selects :
    (py : Platform) (retention_days today : ℕ) (catalogue : Catalogue)
    → retention_days < today
    → AllChecked py catalogue
    → (found : List SettingDef) × (due py retention_days today catalogue ≡ some found)
      × Selects (HasPassed py retention_days today) (every_entry catalogue) found
unfolding due cutoff_of
due-Selects py retention_days today catalogue early h =
    let early_leb = early_cutoff retention_days today early in
    let (found, here, selected) =
      due_of-Selects py retention_days today (every_entry catalogue) early h in
    (found, rw early_leb here, selected)
