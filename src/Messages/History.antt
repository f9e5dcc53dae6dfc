-- ===== src/Messages/History.antt =====
-- The history that the model is given: its bounds, and whose messages it holds.
use whats_app_poke.Prelude.{
  length, ℕ, zero, suc, ◌+◌, ◌-◌, ◌≤◌, String, ◌≡◌, refl, subst, Bool, not, ◌&&◌, ◌==◌, str_eq, ◌≢◌,
  some, ap, ◌⊎◌, inl, inr, true, List, [], ◌∷◌, ◌++◌, arith, ltb, Bool-cases,
}
use whats_app_poke.Table.{
  All, All-select, All-sort_desc, select, sort_desc, All-map, get, Unique, stored_rows,
}
use whats_app_poke.Messages.{
  Message, Turn, turn, is_text, last_turns, total_chars, drop_oldest, load_recent_messages,
}
use Prim.Native.String.{count}

last_turns-length :
    (n : ℕ) (rows : List Message) (later : List Turn)
    → length (last_turns n rows later) ≤ n + length later
unfolding last_turns
last_turns-length zero rows later = omega arith
last_turns-length (suc n) [] later = omega arith
last_turns-length (suc n) (r ∷ rows) later =
    omega (arith, last_turns-length n rows (turn r ∷ later))

last_turns-All {κ} :
    (P : Turn → Type κ) (n : ℕ) (rows : List Message) (later : List Turn)
    → All (λ r. P (turn r)) rows
    → All P later
    → All P (last_turns n rows later)
unfolding last_turns
last_turns-All P zero rows later h k = k
last_turns-All P (suc n) [] later h k = k
last_turns-All P (suc n) (r ∷ rows) later h k =
    last_turns-All P n rows (turn r ∷ later) h.1 (h.0, k)

-- what the loop on the oldest messages keeps: an end of the list, within the bound or one message
pub record Kept (max_chars : ℕ) (messages kept : List Turn) : Type 0 where
  pub dropped : List Turn
  pub suffix : messages ≡ dropped ++ kept
  pub newest : length messages ≤ 0 ⊎ 1 ≤ length kept
  pub bounded : total_chars kept ≤ max_chars ⊎ length kept ≤ 1

-- The loop on the oldest messages, started with their total, keeps an end of the list, never empties
-- one that is not empty, and ends within the bound or with a single message.
pub drop_oldest_lem :
    (max_chars total : ℕ) (messages : List Turn)
    → total ≡ total_chars messages
    → Kept max_chars messages (drop_oldest max_chars total messages)
unfolding drop_oldest
drop_oldest_lem max_chars total [] e = record {
  dropped = [];
  suffix = refl;
  newest = inl (omega arith);
  bounded = inl (omega arith);
}
drop_oldest_lem max_chars total (m ∷ []) e = record {
  dropped = [];
  suffix = refl;
  newest = inr (omega arith);
  bounded = inr (omega arith);
}
drop_oldest_lem max_chars total (m ∷ n ∷ messages) e =
    let rest = drop_oldest_lem max_chars (total - count m.1) (n ∷ messages) (omega (arith, e)) in
    elim (Bool-cases (ltb max_chars total)) [
      | inr fits ↦ rw fits (record {
        dropped = [];
        suffix = refl;
        newest = inr (omega arith);
        bounded = inl (ground (arith, e, fits));
      })
      | inl long ↦ rw long (record {
        dropped = m ∷ rest.dropped;
        suffix = ap (λ l. m ∷ l) rest.suffix;
        newest = inr (nonempty rest.newest);
        bounded = rest.bounded;
      })
    ]
  where
    nonempty : {k : ℕ} → (length (n ∷ messages) ≤ 0) ⊎ (1 ≤ k) → 1 ≤ k
    nonempty (inl h) = omega (arith, h)
    nonempty (inr h) = h

drop_oldest-length :
    (max_chars total : ℕ) (messages : List Turn)
    → length (drop_oldest max_chars total messages) ≤ length messages
unfolding drop_oldest
drop_oldest-length max_chars total [] = omega arith
drop_oldest-length max_chars total (m ∷ []) = omega arith
drop_oldest-length max_chars total (m ∷ n ∷ messages) = elim (Bool-cases (ltb max_chars total)) [
  | inl long ↦
      rw long (omega (arith, drop_oldest-length max_chars (total - count m.1) (n ∷ messages)))
  | inr fits ↦ rw fits (omega arith)
]

drop_oldest-All {κ} :
    (P : Turn → Type κ) (max_chars total : ℕ) (messages : List Turn)
    → All P messages
    → All P (drop_oldest max_chars total messages)
unfolding drop_oldest
drop_oldest-All P max_chars total [] h = h
drop_oldest-All P max_chars total (m ∷ []) h = h
drop_oldest-All P max_chars total (m ∷ n ∷ messages) h = elim (Bool-cases (ltb max_chars total)) [
  | inl long ↦ rw long (drop_oldest-All P max_chars (total - count m.1) (n ∷ messages) h.1)
  | inr fits ↦ rw fits h
]

module _ (trim : String → String) (contact_id limit max_chars : ℕ) (rows : List Message) where
  abbrev pub history : List Turn
  history = load_recent_messages trim contact_id limit max_chars rows

  -- The history has at most `limit` turns, and its texts together have at most `max_chars`
  -- characters, unless it is a single message.
  pub load_recent_messages-bounds :
      (length history ≤ limit) × ((total_chars history ≤ max_chars) ⊎ (length history ≤ 1))
  unfolding load_recent_messages
  load_recent_messages-bounds =
      let newest_first = sort_desc Message.created_at (select (is_text trim contact_id) rows) in
      let messages = last_turns limit newest_first [] in
      let few = last_turns-length limit newest_first [] in
      let fewer = drop_oldest-length max_chars (total_chars messages) messages in
      (
        omega (arith, few, fewer),
        (drop_oldest_lem max_chars (total_chars messages) messages refl).bounded,
      )

  -- Every turn of the history is the text of a row of that contact in the table, found there by its
  -- id, and not a blank one, if no two rows share an id.
  pub load_recent_messages-scope :
      Unique Message.id rows
      → All
          (λ (t : Turn).
            (r : Message) × (t ≡ turn r)
            × (get Message.id r.id rows ≡ some r)
            × (r.contact_id ≡ contact_id)
            × (trim r.body ≢ ""))
          history
  unfolding load_recent_messages
  load_recent_messages-scope u = drop_oldest-All _ max_chars _ _ (
      last_turns-All _ limit _ []
        (All-sort_desc Message.created_at _ (select (is_text trim contact_id) rows) (
          All-map _
            (All-select (λ r. get Message.id r.id rows ≡ some r) (is_text trim contact_id) rows
              (stored_rows Message.id rows u))
            texts))
        tt)
    where
      never : (b : Bool) → (b && not (str_eq "" "")) ≡ true → ⊥
      never b h = ground (arith, h)

      not_blank : (r : Message) → is_text trim contact_id r ≡ true → trim r.body ≢ ""
      not_blank r h e =
          never (r.contact_id == contact_id)
            (subst (λ s. (r.contact_id == contact_id && not (str_eq s "")) ≡ true) e h)

      texts :
          (r : Message)
          → (get Message.id r.id rows ≡ some r) × (is_text trim contact_id r ≡ true)
          → (s : Message) × (turn r ≡ turn s)
            × (get Message.id s.id rows ≡ some s)
            × (s.contact_id ≡ contact_id)
            × (trim s.body ≢ "")
      texts r h = (r, refl, h.0, ground (arith, h.1), not_blank r h.1)
