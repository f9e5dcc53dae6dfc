-- ===== src/Integrations/Tests.antt =====
-- Accounts on concrete rows, and the theorems at inputs that meet their hypotheses.
use whats_app_poke.Prelude.{◌≡◌, refl, true, some, [], ◌∷◌}
use whats_app_poke.Table.{find, update_where}
use whats_app_poke.Integrations.{
  Integration, revoked, is_active, is_account, connected, new_integration, upsert_integration,
}
use whats_app_poke.Integrations.Laws.{upsert_integration-stored}

abbrev gmail : Integration
gmail = record (new_integration 1 5 7 "gmail" (some "ca_1")) { status = revoked }

-- an account that was revoked is connected again in its row
reconnected :
    upsert_integration 2 9 7 "gmail" (some "ca_2") (gmail ∷ [])
    ≡ (connected (some "ca_2") 9 gmail ∷ [], connected (some "ca_2") 9 gmail)
unfolding upsert_integration find update_where
reconnected = refl

upsert_integration-stored_example :
    (let result = upsert_integration 2 9 7 "gmail" (some "ca_2") (gmail ∷ []) in
      (find (is_account 7 "gmail") result.0 ≡ some result.1)
      × (result.1.external_account_id ≡ some "ca_2")
      × (is_active result.1.status ≡ true))
upsert_integration-stored_example =
    upsert_integration-stored 2 9 7 "gmail" (some "ca_2") (gmail ∷ [])
