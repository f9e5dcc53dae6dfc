-- ===== src/Integrations.antt =====
-- Connected accounts: app/database/models/integration.py and `list_active_integrations` and
-- `upsert_integration` of app/db/integrations.py. `before` stands for the order of texts in the
-- database, which depends on its collation.
use mathlib.Core.Option
use whats_app_poke.Prelude.{
  ℕ, String, Bool, true, false, ◌&&◌, Option, none, some, List, [], ◌∷◌, ◌++◌, ◌==◌, str_eq,
  if◌then◌else◌,
}
use whats_app_poke.Table.{find, select, update_where}
pub mod Laws
mod Tests

pub data IntegrationStatus : Type 0 where
  active revoked : IntegrationStatus

pub record Integration : Type 0 where
  pub id : ℕ
  pub contact_id : ℕ
  pub provider : String
  pub external_account_id : Option String
  pub status : IntegrationStatus
  pub created_at : ℕ
  pub updated_at : ℕ

abbrev pub is_active : IntegrationStatus → Bool
is_active active = true
is_active revoked = false

unfoldable pub insert_by_provider :
    (String → String → Bool) → Integration → List Integration → List Integration
insert_by_provider before r [] = r ∷ []
insert_by_provider before r (s ∷ rows) =
    let rest = insert_by_provider before r rows in
    if before s.provider r.provider then s ∷ rest else r ∷ s ∷ rows

unfoldable pub sort_by_provider : (String → String → Bool) → List Integration → List Integration
unfolding insert_by_provider
sort_by_provider before [] = []
sort_by_provider before (r ∷ rows) = insert_by_provider before r (sort_by_provider before rows)

abbrev pub is_active_row : ℕ → Integration → Bool
is_active_row contact_id r = r.contact_id == contact_id && is_active r.status

unfoldable pub list_active_integrations :
    (String → String → Bool) → (contact_id : ℕ) → List Integration → List Integration
unfolding sort_by_provider
list_active_integrations before contact_id integrations =
    sort_by_provider before (select (is_active_row contact_id) integrations)

-- the unique constraint on contact and provider
abbrev pub is_account : ℕ → String → Integration → Bool
is_account contact_id provider r = r.contact_id == contact_id && str_eq r.provider provider

abbrev pub connected : Option String → ℕ → Integration → Integration
connected external_account_id now r = record r {
  external_account_id = external_account_id;
  status = active;
  updated_at = now;
}

abbrev pub new_integration : (new_id now contact_id : ℕ) → String → Option String → Integration
new_integration new_id now contact_id provider external_account_id = record {
  id = new_id;
  contact_id = contact_id;
  provider = provider;
  external_account_id = external_account_id;
  status = active;
  created_at = now;
  updated_at = now;
}

-- `ON CONFLICT DO UPDATE` on the row of the account
abbrev pub write_account :
    (new_id now contact_id : ℕ)
    → String
    → Option String
    → Option Integration
    → List Integration
    → List Integration × Integration
write_account new_id now contact_id provider external_account_id none integrations =
    let new = new_integration new_id now contact_id provider external_account_id in
    (integrations ++ new ∷ [], new)
write_account new_id now contact_id provider external_account_id (some old) integrations = (
  update_where (is_account contact_id provider) (connected external_account_id now) integrations,
  connected external_account_id now old,
)

unfoldable pub upsert_integration :
    (new_id now contact_id : ℕ)
    → String
    → Option String
    → List Integration
    → List Integration × Integration
upsert_integration new_id now contact_id provider external_account_id integrations =
    write_account new_id now contact_id provider external_account_id
      (find (is_account contact_id provider) integrations) integrations
