-- ===== src/Interaction/Tally.antt =====
-- Counting calls by their numbers: calls with numbers from 1 to n, each number once, are at most n.
use whats_app_poke.Prelude.{
  ℕ, zero, suc, ◌+◌, ◌≤◌, inl, inr, Bool, List, [], ◌∷◌, arith, ◌==◌, length, Bool-cases,
}
use whats_app_poke.Table.{All, count}
use whats_app_poke.Interaction.{TwilioCall}

-- the calls for a sequence number
abbrev pub is_for : ℕ → TwilioCall → Bool
is_for k c = c.sequence == k

-- how many calls there are for the numbers up to `n`
tally : ℕ → List TwilioCall → ℕ
tally zero calls = 0
tally (suc n) calls = tally n calls + count (is_for (suc n)) calls

tally-once :
    (n : ℕ) (calls : List TwilioCall) → ((k : ℕ) → count (is_for k) calls ≤ 1) → tally n calls ≤ n
unfolding tally
tally-once zero calls once = omega arith
tally-once (suc n) calls once =
    let rest : tally n calls ≤ n = tally-once n calls once in
    let here : count (is_for (suc n)) calls ≤ 1 = once (suc n) in omega arith

-- one more call does not lower the tally, and raises it if its number is in reach
tally-more :
    (n : ℕ) (c : TwilioCall) (calls : List TwilioCall) → tally n calls ≤ tally n (c ∷ calls)
unfolding tally count
tally-more zero c calls = omega arith
tally-more (suc n) c calls =
    let rest : tally n calls ≤ tally n (c ∷ calls) = tally-more n c calls in
    elim (Bool-cases (is_for (suc n) c)) [
      | inl own ↦ rw own (omega arith)
      | inr other ↦ rw other (omega arith)
    ]

tally-next :
    (n : ℕ) (c : TwilioCall) (calls : List TwilioCall)
    → 1 ≤ c.sequence
    → c.sequence ≤ n
    → tally n calls + 1 ≤ tally n (c ∷ calls)
unfolding tally count
tally-next zero c calls low high = absurd (omega arith)
tally-next (suc n) c calls low high = elim (Bool-cases (is_for (suc n) c)) [
  | inl own ↦
      let more : tally n calls ≤ tally n (c ∷ calls) = tally-more n c calls in rw own (omega arith)
  | inr other ↦
      let lower : c.sequence ≤ n = ground arith in
      let more : tally n calls + 1 ≤ tally n (c ∷ calls) = tally-next n c calls low lower in
      rw other (omega arith)
]

tally-all :
    (n : ℕ) (calls : List TwilioCall)
    → All (λ c. (1 ≤ c.sequence) × (c.sequence ≤ n)) calls
    → length calls ≤ tally n calls
tally-all n [] h = omega arith
tally-all n (c ∷ calls) h =
    let rest : length calls ≤ tally n calls = tally-all n calls h.1 in
    let more : tally n calls + 1 ≤ tally n (c ∷ calls) = tally-next n c calls h.0.0 h.0.1 in
    omega arith

pub length-once :
    (n : ℕ) (calls : List TwilioCall)
    → All (λ c. (1 ≤ c.sequence) × (c.sequence ≤ n)) calls
    → ((k : ℕ) → count (is_for k) calls ≤ 1)
    → length calls ≤ n
length-once n calls range once =
    let all : length calls ≤ tally n calls = tally-all n calls range in
    let each : tally n calls ≤ n = tally-once n calls once in omega arith
