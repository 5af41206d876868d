-- ===== src/Domain/Policy/Narrower.antt =====
-- `_narrow` of domain/policy.py narrows: what it lets through, the catalogue's entry lets through, and
-- only the bounds and the default may differ.
use settings_api.Prelude.{
  ◌≡◌, refl, ◌∙◌, ap, subst, true, false, String, Option, none, some, List, [], ◌∷◌, arith,
  contains, filter, string_eq, ok, ◌>>=◌, >>=-eq-ok,
}
use settings_api.Prelude.Int.{ℤ}
use settings_api.Prelude.Dict.{get}
use settings_api.Domain.Platform.{Platform}
use settings_api.Domain.Value.{Value, null, bool, int, str, str_list}
use settings_api.Domain.Json.{Json, arr, elements, all_strings}
use settings_api.Domain.Types.{SettingDef}
use settings_api.Domain.Types.Validate.{is_below, is_above}
use settings_api.Domain.Types.Legal.{Legal}
use settings_api.Domain.Policy.Narrow.{
  Checked, Clauses, when_given, raised, lowered, subset, fewer, checked, narrow_minimum,
  narrow_maximum, narrow_choices, narrow_max_items, narrow_default, narrow, default,
}

contains-filter :
    (wanted choices : List String) (s : String)
    → contains (filter (contains wanted) choices) s ≡ true
    → contains choices s ≡ true
unfolding contains filter
contains-filter wanted [] s h = ground arith
contains-filter wanted (c ∷ cs) s h = ground (arith, contains-filter wanted cs s)

module _ (py : Platform) where
  -- Only the bounds and the default differ, and every legal value of `e` is one of `d`.
  pub record Narrower (d e : SettingDef) : Type 0 where
    pub frame : e ≡ record d {
      default = e.default;
      minimum = e.minimum;
      maximum = e.maximum;
      choices = e.choices;
      max_items = e.max_items;
    }
    pub legal : (v : Value) → Legal py e v → Legal py d v

  pub Narrower-refl : (d : SettingDef) → Narrower d d
  Narrower-refl d = record { frame = refl; legal = λ v h. h }

  minimum-Legal :
      (d : SettingDef) (m : ℤ) (v : Value)
      → is_below d.minimum m ≡ false
      → Legal py (record d { minimum = some m }) v
      → Legal py d v
  minimum-Legal d m null b h = h
  minimum-Legal d m (bool x) b h = ground arith
  minimum-Legal d m (int n) b h = ground arith
  minimum-Legal d m (str s) b h = ground arith
  minimum-Legal d m (str_list l) b h = ground arith

  maximum-Legal :
      (d : SettingDef) (m : ℤ) (v : Value)
      → is_above d.maximum m ≡ false
      → Legal py (record d { maximum = some m }) v
      → Legal py d v
  maximum-Legal d m null b h = h
  maximum-Legal d m v b h = ground arith

  max_items-Legal :
      (d : SettingDef) (m : ℤ) (v : Value)
      → is_above d.max_items m ≡ false
      → Legal py (record d { max_items = some m }) v
      → Legal py d v
  max_items-Legal d m null b h = h
  max_items-Legal d m v b h = ground arith

  choices-Legal :
      (d : SettingDef) (wanted : List String) (v : Value)
      → Legal py (record d { choices = filter (contains wanted) d.choices }) v
      → Legal py d v
  choices-Legal d wanted null h = h
  choices-Legal d wanted (str s) h = ground (arith, contains-filter wanted d.choices s)
  choices-Legal d wanted v h = ground arith

  step-Narrower :
      {A : Type 0} (given : Option Json) (read : Json → Checked A) (put : A → SettingDef)
      (d e : SettingDef)
      → ((v : Json) (a : A) → read v ≡ ok a → Narrower d (put a))
      → when_given given (λ v. do a ← read v; ok (put a)) d ≡ ok e
      → Narrower d e
  step-Narrower none read put d e keep h = subst (Narrower d) (cc) (Narrower-refl d)
  step-Narrower (some v) read put d e keep h =
      let (a, got, same) = >>=-eq-ok (read v) (λ a. ok (put a)) h in
      subst (Narrower d) (cc) (keep v a got)

  raised_ok : (d : SettingDef) (v : Json) (m : ℤ) → raised d v ≡ ok m → is_below d.minimum m ≡ false
  unfolding raised
  raised_ok d v m h = ground arith

  lowered_ok :
      (d : SettingDef) (v : Json) (m : ℤ) → lowered d v ≡ ok m → is_above d.maximum m ≡ false
  unfolding lowered
  lowered_ok d v m h = ground arith

  fewer_ok : (d : SettingDef) (v : Json) (m : ℤ) → fewer d v ≡ ok m → is_above d.max_items m ≡ false
  unfolding fewer
  fewer_ok d v m h = ground arith

  abbrev wanted_of : Json → List String
  wanted_of (arr xs) = elim (all_strings (elements xs)) [ none ↦ [] | some ss ↦ ss ]
  wanted_of _ = []

  -- The choices that are left are some of the entry's own, in its order.
  subset_ok :
      (d : SettingDef) (v : Json) (cs : List String)
      → subset d v ≡ ok cs
      → filter (contains (wanted_of v)) d.choices ≡ cs
  unfolding subset
  subset_ok d (arr xs) cs h = ground arith
  subset_ok d v cs h = ground arith

  narrow_minimum-Narrower :
      (clauses : Clauses) (d e : SettingDef) → narrow_minimum clauses d ≡ ok e → Narrower d e
  unfolding narrow_minimum
  narrow_minimum-Narrower clauses d e =
      step-Narrower (get clauses "minimum") (raised d) (λ m. record d { minimum = some m }) d e
        λ v m got. record { frame = refl; legal = λ x. minimum-Legal d m x (raised_ok d v m got) }

  narrow_maximum-Narrower :
      (clauses : Clauses) (d e : SettingDef) → narrow_maximum clauses d ≡ ok e → Narrower d e
  unfolding narrow_maximum
  narrow_maximum-Narrower clauses d e =
      step-Narrower (get clauses "maximum") (lowered d) (λ m. record d { maximum = some m }) d e
        λ v m got. record { frame = refl; legal = λ x. maximum-Legal d m x (lowered_ok d v m got) }

  narrow_choices-Narrower :
      (clauses : Clauses) (d e : SettingDef) → narrow_choices clauses d ≡ ok e → Narrower d e
  unfolding narrow_choices
  narrow_choices-Narrower clauses d e =
      step-Narrower (get clauses "choices") (subset d) (λ cs. record d { choices = cs }) d e
        λ v cs got. record {
          frame = refl;
          legal = λ x h. choices-Legal d (wanted_of v) x (rw (subset_ok d v cs got) h);
        }

  narrow_max_items-Narrower :
      (clauses : Clauses) (d e : SettingDef) → narrow_max_items clauses d ≡ ok e → Narrower d e
  unfolding narrow_max_items
  narrow_max_items-Narrower clauses d e =
      step-Narrower (get clauses "max_items") (fewer d) (λ m. record d { max_items = some m }) d e
        λ v m got. record { frame = refl; legal = λ x. max_items-Legal d m x (fewer_ok d v m got) }

  default-Legal :
      (d : SettingDef) (w v : Value) → Legal py (record d { default = w }) v → Legal py d v
  default-Legal d w null h = h
  default-Legal d w v h = ground arith

  narrow_default-Narrower :
      (clauses : Clauses) (d e : SettingDef) → narrow_default py clauses d ≡ ok e → Narrower d e
  unfolding narrow_default
  narrow_default-Narrower clauses d e =
      step-Narrower (get clauses "default") (checked py d default) (λ w. record d { default = w }) d
        e λ v w got. record { frame = refl; legal = λ x. default-Legal d w x }

  Narrower-trans : (d e f : SettingDef) → Narrower d e → Narrower e f → Narrower d f
  Narrower-trans d e f h k = record {
    frame =
        k.frame
        ∙ ap {A = SettingDef}
            (λ x. record x {
              default = f.default;
              minimum = f.minimum;
              maximum = f.maximum;
              choices = f.choices;
              max_items = f.max_items;
            })
            h.frame;
    legal = λ v l. h.legal v (k.legal v l);
  }

  -- A policy may only narrow an entry.
  pub narrow-Narrower :
      (d e : SettingDef) (clauses : Clauses) → narrow py d clauses ≡ ok e → Narrower d e
  unfolding narrow
  narrow-Narrower d e clauses h =
      let (a, ha, h₁) = >>=-eq-ok (narrow_minimum clauses d) _ h in
      let (b, hb, h₂) = >>=-eq-ok (narrow_maximum clauses a) _ h₁ in
      let (c, hc, h₃) = >>=-eq-ok (narrow_choices clauses b) _ h₂ in
      let (f, hf, h₄) = >>=-eq-ok (narrow_max_items clauses c) _ h₃ in
      Narrower-trans d a e (narrow_minimum-Narrower clauses d a ha) (
        Narrower-trans a b e (narrow_maximum-Narrower clauses a b hb) (
          Narrower-trans b c e (narrow_choices-Narrower clauses b c hc) (
            Narrower-trans c f e (narrow_max_items-Narrower clauses c f hf)
              (narrow_default-Narrower clauses f e h₄))))
