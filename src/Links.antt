-- ===== src/Links.antt =====
-- One-time links for connecting an account: app/database/models/connect_link.py and the first part
-- of app/db/integrations.py. `clock` is the application's clock, `now` the database's.
use whats_app_poke.Prelude.{
  ℕ, ◌+◌, ◌*◌, String, Bool, true, false, ◌&&◌, not, Option, none, some, List, [], ◌∷◌, ◌++◌, ltb,
  leb, str_eq, if◌then◌else◌, is_some, minute,
}
use whats_app_poke.Table.{find, update_where}
pub mod Once
mod Tests

pub record ConnectLink : Type 0 where
  pub id : ℕ
  pub contact_id : ℕ
  pub provider : String
  pub nonce : String
  pub expires_at : ℕ
  pub used_at : Option ℕ
  pub created_at : ℕ
  pub updated_at : ℕ

abbrev pub connect_link_ttl : ℕ
connect_link_ttl = 10 * minute

abbrev pub connect_consent_ttl : ℕ
connect_consent_ttl = 30 * minute

abbrev pub has_nonce : String → ConnectLink → Bool
has_nonce nonce r = str_eq r.nonce nonce

abbrev pub new_link : (new_id now clock contact_id : ℕ) → String → String → ConnectLink
new_link new_id now clock contact_id nonce provider = record {
  id = new_id;
  contact_id = contact_id;
  provider = provider;
  nonce = nonce;
  expires_at = clock + connect_link_ttl;
  used_at = none;
  created_at = now;
  updated_at = now;
}

-- under the unique index of nonces; none: the insert raised `IntegrityError`
abbrev pub insert_link :
    Option ConnectLink → ConnectLink → List ConnectLink → Option (List ConnectLink)
insert_link none new links = some (links ++ new ∷ [])
insert_link (some other) new links = none

unfoldable pub create_connect_link :
    (new_id now clock contact_id : ℕ)
    → String
    → String
    → List ConnectLink
    → Option (List ConnectLink)
create_connect_link new_id now clock contact_id nonce provider links =
    insert_link (find (has_nonce nonce) links) (new_link new_id now clock contact_id nonce provider)
      links

abbrev pub usable : ℕ → Option ConnectLink → Option ConnectLink
usable clock none = none
usable clock (some link) =
    if is_some link.used_at then none else if leb link.expires_at clock then none else some link

unfoldable pub get_usable_connect_link :
    String → (clock : ℕ) → List ConnectLink → Option ConnectLink
get_usable_connect_link nonce clock links = usable clock (find (has_nonce nonce) links)

-- the condition of both updates, besides the nonce
abbrev pub is_usable : ℕ → ConnectLink → Bool
is_usable now r = not (is_some r.used_at) && ltb now r.expires_at

-- `UPDATE connect_link SET f WHERE nonce AND usable RETURNING *`: nonces are unique
abbrev pub written : (ConnectLink → ConnectLink) → ℕ → Option ConnectLink → Option ConnectLink
written f now none = none
written f now (some r) = if is_usable now r then some (f r) else none

unfoldable pub update_usable :
    (ConnectLink → ConnectLink)
    → String
    → ℕ
    → List ConnectLink
    → List ConnectLink × Option ConnectLink
update_usable f nonce now links = (
  update_where (λ r. has_nonce nonce r && is_usable now r) f links,
  written f now (find (has_nonce nonce) links),
)

abbrev pub extended : (now clock : ℕ) → ConnectLink → ConnectLink
extended now clock r = record r { expires_at = clock + connect_consent_ttl; updated_at = now }

unfoldable pub start_connect_link :
    String → (now clock : ℕ) → List ConnectLink → List ConnectLink × Option ConnectLink
unfolding update_usable
start_connect_link nonce now clock links = update_usable (extended now clock) nonce now links

abbrev pub used : ℕ → ConnectLink → ConnectLink
used now r = record r { used_at = some now; updated_at = now }

unfoldable pub claim_connect_link :
    String → (now : ℕ) → List ConnectLink → List ConnectLink × Option ConnectLink
unfolding update_usable
claim_connect_link nonce now links = update_usable (used now) nonce now links
