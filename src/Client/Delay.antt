-- ===== src/Client/Delay.antt =====
-- src/agent.rs: how long the supervisor waits before it connects again.
use native.Mathlib.Numerals.{unary_clauses}
use rust_ssh.Prelude.{
  ℕ, suc, ◌-◌, ◌*◌, ◌^◌, ◌≡◌, refl, ap, ◌∙◌, map, min, List, [], ◌∷◌, Bool, true, false, arith,
  if◌then◌else◌,
}

-- Durations are nanoseconds here, to say where `saturating_mul` stops.
abbrev pub second : ℕ
second = 1000000000

abbrev pub duration_max : ℕ
duration_max = 18446744073709551616 * 1000000000 - 1

abbrev pub initial_reconnect_delay : ℕ
initial_reconnect_delay = 1 * second

abbrev pub max_reconnect_delay : ℕ
max_reconnect_delay = 30 * second

abbrev pub saturating_mul : ℕ → ℕ → ℕ
saturating_mul d n = min (d * n) duration_max

unfoldable pub next_reconnect_delay : ℕ → Bool → ℕ
next_reconnect_delay current was_connected =
    if was_connected
    then initial_reconnect_delay
    else min (saturating_mul current 2) max_reconnect_delay

-- The delays that the loop sleeps, for each round whether it got connected, from `delay` on.
unfoldable pub sleeps_from : ℕ → List Bool → List ℕ
unfolding next_reconnect_delay
sleeps_from delay [] = []
sleeps_from delay (connected ∷ rounds) =
    (if connected then initial_reconnect_delay else delay)
    ∷ sleeps_from (next_reconnect_delay delay connected) rounds

unfoldable pub sleeps : List Bool → List ℕ
unfolding sleeps_from
sleeps rounds = sleeps_from initial_reconnect_delay rounds

-- The failed rounds in a row before each round, `n` before the first.
abbrev pub failures : ℕ → List Bool → List ℕ
failures n [] = []
failures n (true ∷ rounds) = 0 ∷ failures 0 rounds
failures n (false ∷ rounds) = n ∷ failures (suc n) rounds

doubling :
    (x y : ℕ)
    → y ≡ 2 * x
    → min (saturating_mul (min x 30 * second) 2) max_reconnect_delay ≡ min y 30 * second
doubling x y e = omega arith

next_failed :
    (n : ℕ) → next_reconnect_delay (min (2 ^ n) 30 * second) false ≡ min (2 ^ suc n) 30 * second
unfolding next_reconnect_delay
next_failed n =
    let twice : 2 ^ suc n ≡ 2 * 2 ^ n = simp unary_clauses (omega arith) in
    doubling (2 ^ n) (2 ^ suc n) twice

sleeps_from-failures :
    (n : ℕ) (rounds : List Bool)
    → sleeps_from (min (2 ^ n) 30 * second) rounds
      ≡ map (λ k. min (2 ^ k) 30 * second) (failures n rounds)
unfolding sleeps_from
sleeps_from-failures n [] = refl
sleeps_from-failures n (true ∷ rounds) =
    ap (λ xs. initial_reconnect_delay ∷ xs) (sleeps_from-failures 0 rounds)
sleeps_from-failures n (false ∷ rounds) =
    ap (λ xs. min (2 ^ n) 30 * second ∷ xs)
      (ap (λ d. sleeps_from d rounds) (next_failed n) ∙ sleeps_from-failures (suc n) rounds)

-- After each round the supervisor sleeps for 1 s doubled by each failed round in a row before it, and
-- for 30 s at most.
pub sleeps-failures :
    (rounds : List Bool) → sleeps rounds ≡ map (λ k. min (2 ^ k) 30 * second) (failures 0 rounds)
unfolding sleeps
sleeps-failures rounds = sleeps_from-failures 0 rounds
