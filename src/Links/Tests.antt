-- ===== src/Links/Tests.antt =====
-- Links on concrete rows, and the theorem at an input that meets its hypothesis.
use whats_app_poke.Prelude.{◌+◌, ◌*◌, ◌≡◌, refl, none, some, [], ◌∷◌, minute}
use whats_app_poke.Table.{find, update_where}
use whats_app_poke.Links.{
  ConnectLink, new_link, used, extended, claim_connect_link, start_connect_link,
  get_usable_connect_link,
}
use whats_app_poke.Links.Once.{Op, run, claim_link_once}

abbrev link : ConnectLink
link = new_link 1 10 10 7 "n" "gmail"

-- a link is good for ten minutes, and for thirty more once the consent has begun
expires : get_usable_connect_link "n" (10 + 10 * minute) (link ∷ []) ≡ none
unfolding get_usable_connect_link find
expires = refl

consent :
    get_usable_connect_link "n" (10 + 10 * minute) (start_connect_link "n" 20 20 (link ∷ [])).0
    ≡ some (extended 20 20 link)
unfolding get_usable_connect_link find start_connect_link update_where
consent = refl

claim_link_once_example :
    (claim_connect_link "n" 40
      (run (Op.start "n" 35 35 ∷ Op.claim "n" 36 ∷ []) (claim_connect_link "n" 30 (link ∷ [])).0)).1
    ≡ none
unfolding claim_connect_link find
claim_link_once_example =
    claim_link_once "n" 30 40 (Op.start "n" 35 35 ∷ Op.claim "n" 36 ∷ []) (link ∷ [])
      {s = used 30 link} refl
