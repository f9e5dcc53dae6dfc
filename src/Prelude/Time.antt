-- ===== src/Prelude/Time.antt =====
-- Instants and durations are microseconds, the resolution of `datetime` and of Postgres.
use Prim.Native.Nat.{ℕ, ◌*◌}

abbrev pub second : ℕ
second = 1000000

abbrev pub minute : ℕ
minute = 60 * second

abbrev pub hour : ℕ
hour = 60 * minute
