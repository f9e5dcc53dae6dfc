-- ===== src/Links/Once.antt =====
-- A link is consumed once.
use whats_app_poke.Prelude.{
  ℕ, String, ◌≡◌, refl, ap, ◌∙◌, inl, inr, Bool, true, ◌&&◌, Option, none, some, List, [], ◌∷◌,
  arith, Bool-cases, Option-cases, str_eq, if◌then◌else◌, is_some,
}
use whats_app_poke.Table.{find, update_where, find-append_old, find-meets, find-update}
use whats_app_poke.Links.{
  ConnectLink, has_nonce, insert_link, create_connect_link, is_usable, update_usable, extended,
  start_connect_link, used, claim_connect_link,
}

-- What the callbacks of any browser may issue.
pub data Op : Type 0 where
  create : (new_id now clock contact_id : ℕ) → String → String → Op
  start : String → (now clock : ℕ) → Op
  claim : String → ℕ → Op

-- after an insert, or the rollback of one that raised
abbrev pub committed : Option (List ConnectLink) → List ConnectLink → List ConnectLink
committed none links = links
committed (some after) links = after

unfoldable pub apply : Op → List ConnectLink → List ConnectLink
apply (Op.create new_id now clock contact_id nonce provider) links =
    committed (create_connect_link new_id now clock contact_id nonce provider links) links
apply (Op.start nonce now clock) links = (start_connect_link nonce now clock links).0
apply (Op.claim nonce now) links = (claim_connect_link nonce now links).0

unfoldable pub run : List Op → List ConnectLink → List ConnectLink
run [] links = links
run (op ∷ ops) links = run ops (apply op links)

-- The link of the nonce has been used at some time.
abbrev pub Used : String → List ConnectLink → Type 0
Used nonce links =
    (r : ConnectLink) × (find (has_nonce nonce) links ≡ some r) × (is_some r.used_at ≡ true)

update-Used :
    (nonce : String) (p : ConnectLink → Bool) (f : ConnectLink → ConnectLink)
    (keeps : (r : ConnectLink) → (f r).nonce ≡ r.nonce)
    (marks : (r : ConnectLink) → is_some r.used_at ≡ true → is_some (f r).used_at ≡ true)
    (links : List ConnectLink)
    → Used nonce links
    → Used nonce (update_where p f links)
update-Used nonce p f keeps marks links (r, found, u) = elim (Bool-cases (p r)) [
  | inl met ↦ (f r, at ∙ (rw met refl), marks r u)
  | inr unmet ↦ (r, at ∙ (rw unmet refl), u)
]
  where
    at : find (has_nonce nonce) (update_where p f links) ≡ some (if p r then f r else r)
    at =
        rw
          (find-update (has_nonce nonce) p f (λ r. ap (λ n. str_eq n nonce) (keeps r)) links, found)
          refl

insert-Used :
    (nonce : String) (o : Option ConnectLink) (new : ConnectLink) (links : List ConnectLink)
    → Used nonce links
    → Used nonce (committed (insert_link o new links) links)
insert-Used nonce none new links (r, found, u) =
    (r, find-append_old (has_nonce nonce) links (new ∷ []) found, u)
insert-Used nonce (some other) new links u = u

apply-Used :
    (op : Op) (nonce : String) (links : List ConnectLink)
    → Used nonce links
    → Used nonce (apply op links)
unfolding apply create_connect_link start_connect_link claim_connect_link update_usable
apply-Used (Op.create new_id now clock contact_id n provider) nonce links u =
    insert-Used nonce (find (has_nonce n) links) _ links u
apply-Used (Op.start n now clock) nonce links u =
    update-Used nonce _ (extended now clock) (λ r. refl) (λ r h. h) links u
apply-Used (Op.claim n now) nonce links u =
    update-Used nonce _ (used now) (λ r. refl) (λ r h. refl) links u

run-Used :
    (ops : List Op) (nonce : String) (links : List ConnectLink)
    → Used nonce links
    → Used nonce (run ops links)
unfolding run
run-Used [] nonce links u = u
run-Used (op ∷ ops) nonce links u =
    run-Used ops nonce (apply op links) (apply-Used op nonce links u)

claim-Used :
    (nonce : String) (now : ℕ) (links : List ConnectLink) {s : ConnectLink}
    → (claim_connect_link nonce now links).1 ≡ some s
    → Used nonce (claim_connect_link nonce now links).0
unfolding claim_connect_link update_usable
claim-Used nonce now links {s} e = elim (Option-cases (find (has_nonce nonce) links)) [
  | inl missing ↦ absurd (ground arith)
  | inr (r, found) ↦ elim (Bool-cases (is_usable now r)) [
    | inr spent ↦ absurd (ground arith)
    | inl yes_usable ↦ (
      used now r,
      rw
          (
            find-update (has_nonce nonce) (λ r. has_nonce nonce r && is_usable now r) (used now)
                (λ r. refl) links,
            found,
          )
          (rw (own r found, yes_usable) refl),
      refl,
    )
  ]
]
  where
    own : (r : ConnectLink) → find (has_nonce nonce) links ≡ some r → has_nonce nonce r ≡ true
    own r found = find-meets (has_nonce nonce) links found

Used-unclaimed :
    (nonce : String) (now : ℕ) (links : List ConnectLink)
    → Used nonce links
    → (claim_connect_link nonce now links).1 ≡ none
unfolding claim_connect_link update_usable
Used-unclaimed nonce now links (r, found, u) = rw found (rw u refl)

-- A link is consumed once: after a claim that returned the link, no later claim of the same nonce
-- returns one, whatever links are created, started and claimed between the two.
pub claim_link_once :
    (nonce : String) (now now' : ℕ) (ops : List Op) (links : List ConnectLink) {s : ConnectLink}
    → (claim_connect_link nonce now links).1 ≡ some s
    → (claim_connect_link nonce now' (run ops (claim_connect_link nonce now links).0)).1 ≡ none
claim_link_once nonce now now' ops links e =
    Used-unclaimed nonce now' _ (run-Used ops nonce _ (claim-Used nonce now links e))
