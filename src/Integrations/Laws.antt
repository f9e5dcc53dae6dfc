-- ===== src/Integrations/Laws.antt =====
-- What the upsert of a connected account stores.
use whats_app_poke.Prelude.{
  ℕ, String, ◌≡◌, refl, inl, inr, true, ◌&&◌, Option, some, List, arith, Option-cases, str_eq,
  eq_iff, ◌==◌,
}
use whats_app_poke.Table.{find, find-append_new, find-update_where}
use whats_app_poke.Integrations.{
  Integration, is_active, is_account, connected, new_integration, upsert_integration,
}

own_account : (c : ℕ) (p : String) → (c == c && str_eq p p) ≡ true
own_account c p = ground (arith, (eq_iff p p).1 refl)

module _ (new_id now contact_id : ℕ) (provider : String) (external_account_id : Option String) where
  abbrev new : Integration
  new = new_integration new_id now contact_id provider external_account_id

  -- What the upsert returns is the row that the table now holds for the account, active and with the
  -- new pointer.
  pub upsert_integration-stored :
      (integrations : List Integration)
      → (let result =
            upsert_integration new_id now contact_id provider external_account_id integrations in
          (find (is_account contact_id provider) result.0 ≡ some result.1)
          × (result.1.external_account_id ≡ external_account_id)
          × (is_active result.1.status ≡ true))
  unfolding upsert_integration
  upsert_integration-stored integrations =
      elim (Option-cases (find (is_account contact_id provider) integrations)) [
        | inl e ↦ rw e (
          find-append_new (is_account contact_id provider) integrations new e
              (own_account contact_id provider),
          refl,
          refl,
        )
        | inr (r, e) ↦ rw e (
          rw
              (
                find-update_where (is_account contact_id provider)
                    (connected external_account_id now) (λ x h. h) integrations,
                e,
              )
              refl,
          refl,
          refl,
        )
      ]
