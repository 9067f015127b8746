-- ===== src/Server/AuthLaws.antt =====
-- Who src/server.rs lets in.
use Prim.Native.Nat.{bit_xor}
use mathlib.Core.Option.{some-injective}
use rust_ssh.Prelude.{
  lookup, ℕ, zero, suc, ◌+◌, ◌≤◌, ◌<◌, ◌≡◌, ◌↔◌, refl, ap, ap₂, sym, ◌∙◌, ◌||◌, Bool, true, false,
  not, if◌then◌else◌, List, [], ◌∷◌, All, list_eq, subst, Option, none, some, length, get_or, arith,
  max, Text, len, as_bytes, Bool-cases, inl, inr,
}
use rust_ssh.Prelude.Bits.{bit_or_zero, bit_xor_zero, bit_xor_same}
use rust_ssh.Prelude.Utf8.{IsText, as_bytes_injective}
use rust_ssh.Protocol.{Role, agent, agent_session, controller}
use rust_ssh.DeviceId
use rust_ssh.Server.Auth.{
  difference_loop, constant_time_equal, valid_token_length, AuthError, check_token,
  check_configured, check_device, authenticate, min_token_bytes, max_token_bytes,
  invalid_device_token, invalid_controller_token,
}

-- The loop ends in 0 only if it began so and every byte looked at agrees.
loop_zero :
    (rounds index : ℕ) (l r : List ℕ) (d : ℕ)
    → difference_loop rounds index l r d ≡ 0
    → (d ≡ 0) × ((i : ℕ) → i < rounds → get_or l (index + i) 0 ≡ get_or r (index + i) 0)
unfolding difference_loop
loop_zero zero index l r d h = (h, λ i k. elim k [ ])
loop_zero (suc rounds) index l r d h =
    let (z, later) = loop_zero rounds (index + 1) l r _ h in
    let (d0, x0) = bit_or_zero d _ z in (d0, λ i k. byte i k later x0)
  where
    byte :
        (i : ℕ)
        → i < suc rounds
        → ((j : ℕ) → j < rounds → get_or l (index + 1 + j) 0 ≡ get_or r (index + 1 + j) 0)
        → bit_xor (get_or l index 0) (get_or r index 0) ≡ 0
        → get_or l (index + i) 0 ≡ get_or r (index + i) 0
    byte zero k later x0 =
        let e : index + 0 ≡ index = omega arith in
        rw e (bit_xor_zero (get_or l index 0) (get_or r index 0) x0)
    byte (suc i) k later x0 =
        let e : index + suc i ≡ index + 1 + i = omega arith in rw e (later i (omega arith))

loop_same : (rounds index : ℕ) (l : List ℕ) → difference_loop rounds index l l 0 ≡ 0
unfolding difference_loop
loop_same zero index l = refl
loop_same (suc rounds) index l =
    rw (bit_xor_same (get_or l index 0)) (loop_same rounds (index + 1) l)

same_bytes :
    (l r : List ℕ)
    → length l ≡ length r
    → ((i : ℕ) → i < length l → get_or l i 0 ≡ get_or r i 0)
    → l ≡ r
same_bytes [] [] e h = refl
same_bytes [] (y ∷ r) e h = absurd (omega arith)
same_bytes (x ∷ l) [] e h = absurd (omega arith)
same_bytes (x ∷ l) (y ∷ r) e h =
    ap₂ ◌∷◌ (h 0 (omega arith)) (same_bytes l r (omega arith) (λ i k. h (suc i) (omega arith)))

-- The comparison without early exit answers whether the two byte strings are equal.
pub constant_time_equal_iff : (l r : List ℕ) → (constant_time_equal l r ≡ true) ↔ (l ≡ r)
unfolding constant_time_equal
constant_time_equal_iff l r = (there, back)
  where
    there : constant_time_equal l r ≡ true → l ≡ r
    there h =
        let (d0, bytes) = loop_zero (max (length l) (length r)) 0 l r _ (ground arith) in
        same_bytes l r (bit_xor_zero _ _ d0) λ i k.
          let e : 0 + i ≡ i = omega arith in
          ap (λ j. get_or l j 0) (sym e) ∙ bytes i (omega arith) ∙ ap (λ j. get_or r j 0) e

    back : l ≡ r → constant_time_equal l r ≡ true
    back e = rw e (rw (bit_xor_same (length r), loop_same (max (length r) (length r)) 0 r))

abbrev pub IsTokenLength : Text → Type 0
IsTokenLength token = (min_token_bytes ≤ len token) × (len token ≤ max_token_bytes)

-- What lets an endpoint in, told apart from the code: a token of the right length equal to the
-- controller's, or to the one configured for the valid device id that is named.
abbrev pub MayEnter : Role → Option Text → Text → Text → List (Text × Text) → Type 0
MayEnter agent id token ctl tokens =
    (d : Text) × (id ≡ some d)
    × (DeviceId.is_valid d ≡ true)
    × (lookup d tokens ≡ some token)
    × IsTokenLength token
MayEnter agent_session id token ctl tokens =
    (d : Text) × (id ≡ some d)
    × (DeviceId.is_valid d ≡ true)
    × (lookup d tokens ≡ some token)
    × IsTokenLength token
MayEnter controller id token ctl tokens = (token ≡ ctl) × IsTokenLength token

guard_none :
    (v c : Bool) (e : AuthError)
    → ((if not v || not c then some e else none) ≡ none) ↔ ((v ≡ true) × (c ≡ true))
guard_none true true e = (λ _. (refl, refl), λ _. refl)
guard_none true false e = ground arith
guard_none false c e = ground arith

length_iff : (token : Text) → (valid_token_length token ≡ true) ↔ IsTokenLength token
unfolding valid_token_length
length_iff token = ground arith

check_token_iff :
    (token expected : Text) (e : AuthError)
    → IsText token
    → IsText expected
    → (check_token token expected e ≡ none) ↔ ((token ≡ expected) × IsTokenLength token)
unfolding check_token
check_token_iff token expected e a b =
    let (gone, made) =
      guard_none (valid_token_length token)
        (constant_time_equal (as_bytes token) (as_bytes expected)) e in
    let (read, wrote) = length_iff token in
    let (bytes, equal) = constant_time_equal_iff (as_bytes token) (as_bytes expected) in
    (
      λ h. (as_bytes_injective token expected a b (bytes ((gone h).1)), read ((gone h).0)),
      λ k. made (wrote (k.1), equal (ap as_bytes (k.0))),
    )

-- Every configured token is a text.
abbrev pub AreTexts : List (Text × Text) → Type 0
AreTexts tokens = All (λ entry. IsText (entry.1)) tokens

lookup-IsText :
    (d : Text) (tokens : List (Text × Text)) (t : Text)
    → AreTexts tokens
    → lookup d tokens ≡ some t
    → IsText t
unfolding lookup
lookup-IsText d [] t h e = ground arith
lookup-IsText d ((j, v) ∷ m) t (h, hs) e = elim (Bool-cases (list_eq j d)) [
  | inl same ↦ subst IsText (some-injective v t (go same e)) h
  | inr other ↦ lookup-IsText d m t hs (pass other e)
]
  where
    go : list_eq j d ≡ true → lookup d ((j, v) ∷ m) ≡ some t → some v ≡ some t
    go same e = sym (rw same refl) ∙ e

    pass : list_eq j d ≡ false → lookup d ((j, v) ∷ m) ≡ some t → lookup d m ≡ some t
    pass other e = sym (rw other refl) ∙ e

check_configured_iff :
    (d token : Text) (found : Option Text)
    → IsText token
    → ((t : Text) → found ≡ some t → IsText t)
    → (check_configured d token found ≡ none) ↔ ((found ≡ some token) × IsTokenLength token)
unfolding check_configured
check_configured_iff d token none h k = (λ e. ground arith, λ e. ground arith)
check_configured_iff d token (some expected) h k =
    let (there, back) =
      check_token_iff token expected (invalid_device_token d) h (k expected refl) in
    (
      λ e. (ap some (sym ((there e).0)), (there e).1),
      λ e. back (sym (some-injective expected token (e.0)), e.1),
    )

clash : {b : Bool} → b ≡ false → b ≡ true → ⊥
clash e k = cc

check_device_iff :
    (id : Option Text) (token : Text) (tokens : List (Text × Text))
    → IsText token
    → AreTexts tokens
    → (check_device id token tokens ≡ none) ↔ (
        (d : Text) × (id ≡ some d)
        × (DeviceId.is_valid d ≡ true)
        × (lookup d tokens ≡ some token)
        × IsTokenLength token)
unfolding check_device
check_device_iff none token tokens h hs = (λ e. ground arith, λ e. ground arith)
check_device_iff (some d) token tokens h hs =
    let (there, back) =
      check_configured_iff d token (lookup d tokens) h (λ t. lookup-IsText d tokens t hs) in
    elim (Bool-cases (DeviceId.is_valid d)) [
      | inl valid ↦ (
        λ e. let found = there (sym (rw valid refl) ∙ e) in (d, refl, valid, found.0, found.1),
        λ (c, same, _, found, long).
            rw valid (back (ap (λ x. lookup x tokens) (some-injective d c same) ∙ found, long)),
      )
      | inr not_valid ↦ (
        λ e. ground arith,
        λ (c, same, valid, _, _).
            absurd (clash not_valid (ap DeviceId.is_valid (some-injective d c same) ∙ valid)),
      )
    ]

-- The server lets an endpoint in exactly when it may enter: an agent by the token configured for
-- the valid id it names, a controller by the controller's token, of 32 to 4096 bytes.
pub authenticate_iff :
    (role : Role) (id : Option Text) (token ctl : Text) (tokens : List (Text × Text))
    → IsText token
    → IsText ctl
    → AreTexts tokens
    → (authenticate role id token ctl tokens ≡ none) ↔ MayEnter role id token ctl tokens
unfolding authenticate
authenticate_iff agent id token ctl tokens h k hs = check_device_iff id token tokens h hs
authenticate_iff agent_session id token ctl tokens h k hs = check_device_iff id token tokens h hs
authenticate_iff controller id token ctl tokens h k hs =
    check_token_iff token ctl invalid_controller_token h k

-- An agent with the token of its id is let in.
pub authenticate-lookup :
    (d token ctl : Text) (tokens : List (Text × Text))
    → DeviceId.is_valid d ≡ true
    → lookup d tokens ≡ some token
    → IsTokenLength token
    → authenticate agent (some d) token ctl tokens ≡ none
unfolding authenticate check_device check_configured check_token
authenticate-lookup d token ctl tokens valid found long =
    let equal = (constant_time_equal_iff (as_bytes token) (as_bytes token)).1 refl in
    rw (valid, found)
      ((guard_none (valid_token_length token) _ (invalid_device_token d)).1
        ((length_iff token).1 long, equal))
