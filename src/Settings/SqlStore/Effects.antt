-- ===== src/Settings/SqlStore/Effects.antt =====
-- Which names `_apply_changes` of settings/sql_store.py reports, and what it leaves alone.
use settings_api.Prelude.{
  ◌≡◌, ap, ◌∙◌, String, List, [], ◌∷◌, arith, if◌then◌else◌, string_eq, pair_eq, ok,
}
use settings_api.Storage.{Instant, key_eq, Db}
use settings_api.Settings.Store.{AccountState, Change, change_name}
use settings_api.Settings.Rows.{delete_row}
use settings_api.Settings.SqlStore.{apply_changes}
use settings_api.Settings.SqlStore.Changes.{
  seen, run_change, run_changes, changes_something, apply_change-db, apply_change-names,
  run_changes_cons,
}

module _ (account_id : String) (state : AccountState) (now : Instant) (actor : String) where
  -- The names of the changes that change something.
  unfoldable pub effective_names : List Change → List String
  effective_names [] = []
  effective_names (c ∷ cs) =
      let rest = effective_names cs in
      if changes_something c (seen account_id state now actor c) then change_name c ∷ rest else rest

  pub apply_changes-names :
      (cs : List Change) (db end : Db) (names : List String)
      → run_changes account_id state now actor cs db ≡ (ok names, end)
      → names ≡ effective_names cs
  unfolding apply_changes effective_names
  apply_changes-names [] db end names h = cc
  apply_changes-names (c ∷ cs) db end names h =
      let (first, later, mid, h₁, h₂, e) =
        run_changes_cons account_id state now actor c cs db end names h in
      ground (
        arith,
        apply_change-names account_id state now actor c db mid first h₁,
        apply_changes-names cs mid end later h₂,
      )

  -- Where no change changes anything the tables are as before.
  pub apply_changes-nothing :
      (cs : List Change) (db end : Db) (names : List String)
      → run_changes account_id state now actor cs db ≡ (ok names, end)
      → names ≡ []
      → end ≡ db
  unfolding apply_changes
  apply_changes-nothing [] db end names h empty = cc
  apply_changes-nothing (c ∷ cs) db end names h empty =
      let (first, later, mid, h₁, h₂, e) =
        run_changes_cons account_id state now actor c cs db end names h in
      ground (
        arith,
        apply_change-names account_id state now actor c db mid first h₁,
        apply_change-db account_id state now actor c db mid first h₁,
        apply_changes-nothing cs mid end later h₂,
      )

  apply_change-frame :
      (c : Change) (db end : Db) (names : List String)
      → run_change account_id state now actor c db ≡ (ok names, end)
      → end ≡ record db { settings = end.settings }
  unfolding delete_row
  apply_change-frame c db end names h =
      ground (arith, apply_change-db account_id state now actor c db end names h)

  -- The loop writes no other table.
  pub apply_changes-frame :
      (cs : List Change) (db end : Db) (names : List String)
      → run_changes account_id state now actor cs db ≡ (ok names, end)
      → end ≡ record db { settings = end.settings }
  unfolding apply_changes
  apply_changes-frame [] db end names h = ground arith
  apply_changes-frame (c ∷ cs) db end names h =
      let (first, later, mid, h₁, h₂, e) =
        run_changes_cons account_id state now actor c cs db end names h in
      apply_changes-frame cs mid end later h₂
      ∙ ap {A = Db} (λ x. record x { settings = end.settings })
          (apply_change-frame c db mid first h₁)
