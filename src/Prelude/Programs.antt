-- ===== src/Prelude/Programs.antt =====
-- Code that waits for the world: a tree of calls, each with the ways to go on by its reply.
use mathlib.Core.List.{List, ◌∷◌}

-- `C` is what can be called, `R c` what a call of `c` can answer.
pub data Prog (C : Type 0) (R : C → Type 0) (A : Type 0) : Type 0 where
  ret : A → Prog C R A
  call : (c : C) → (R c → Prog C R A) → Prog C R A

abbrev pub Event : (C : Type 0) → (C → Type 0) → Type 0
Event C R = (c : C) × R c

module _ {C : Type 0} {R : C → Type 0} where
  abbrev pub do_call : (c : C) → Prog C R (R c)
  do_call c = call c ret

  infixl 5 ◌>>=◌
  abbrev pub ◌>>=◌ : {A B : Type 0} → Prog C R A → (A → Prog C R B) → Prog C R B
  ret a >>= f = f a
  call c k >>= f = call c (λ r. k r >>= f)

  -- Whatever the calls answer, what has been called (the last call first) and the result are in `P`.
  abbrev pub Always :
      {A : Type 0} → (List (Event C R) → A → Type 0) → List (Event C R) → Prog C R A → Type 0
  Always P log (ret a) = P log a
  Always P log (call c k) = (r : R c) → Always P ((c, r) ∷ log) (k r)

  pub Always-mono :
      {A : Type 0} (P Q : List (Event C R) → A → Type 0)
      → ((log : List (Event C R)) (a : A) → P log a → Q log a)
      → (log : List (Event C R)) (p : Prog C R A) → Always P log p
      → Always Q log p
  Always-mono P Q h log (ret a) k = h log a k
  Always-mono P Q h log (call c f) k = λ r. Always-mono P Q h ((c, r) ∷ log) (f r) (k r)

  -- The run in a world that answers each call by what has been called before it.
  abbrev pub run :
      {A : Type 0}
      → (List (Event C R) → (c : C) → R c)
      → List (Event C R)
      → Prog C R A
      → List (Event C R) × A
  run world log (ret a) = (log, a)
  run world log (call c k) = run world ((c, world log c) ∷ log) (k (world log c))

  pub Always-run :
      {A : Type 0} (P : List (Event C R) → A → Type 0)
      → (world : List (Event C R) → (c : C) → R c) (log : List (Event C R)) (p : Prog C R A)
      → Always P log p
      → P (run world log p).0 (run world log p).1
  Always-run P world log (ret a) h = h
  Always-run P world log (call c k) h =
      Always-run P world ((c, world log c) ∷ log) (k (world log c)) (h (world log c))

  -- A run of a part after another.
  pub Always-bind :
      {A B : Type 0} (P : List (Event C R) → A → Type 0) (Q : List (Event C R) → B → Type 0)
      → (f : A → Prog C R B) → ((log : List (Event C R)) (a : A) → P log a → Always Q log (f a))
      → (log : List (Event C R)) (p : Prog C R A) → Always P log p
      → Always Q log (p >>= f)
  Always-bind P Q f h log (ret a) k = h log a k
  Always-bind P Q f h log (call c g) k = λ r. Always-bind P Q f h ((c, r) ∷ log) (g r) (k r)
