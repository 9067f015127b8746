-- ===== src/Server/ConnectionLaws.antt =====
-- Nothing of src/server.rs serves an endpoint that `authenticate` did not let in.
use rust_ssh.Prelude.{
  ℕ, ◌≡◌, refl, List, [], ◌∷◌, Option, none, some, true, false, Bool, ◌==◌, ◌&&◌, ◌||◌, arith, inl,
  inr, Bool-cases, Text, ret, call, Always, Event,
}
use rust_ssh.Protocol.{
  Role, session_attach, session_accepted, is_ready, refused, hello, hello_ok, list_request,
  device_list, open_request, open_session, ping, pong, protocol_version,
}
use rust_ssh.Protocol.Net.{Incoming, received, read_error, read_elapsed, Formats}
use rust_ssh.Server.Auth.{AuthError, authenticate}
use rust_ssh.Server.Calls.{ServerTiming, Call, Reply, read_within, auth_snapshot, Handler}
use rust_ssh.Server.Logs.{Log}
use rust_ssh.Server.Connection.{admitted, snapshot, greeted, handle_connection}

abbrev pub is_none : {A : Type 0} → Option A → Bool
is_none none = true
is_none (some a) = false

-- A snapshot by which the Hello read just before it, of the right version, is authenticated.
abbrev pub is_entry : Event Call Reply → Log → Bool
is_entry (auth_snapshot, (controller_token, tokens))
      ((read_within t, received (hello version role token id features)) ∷ log) =
    version == protocol_version && is_none (authenticate role id token controller_token tokens)
is_entry e log = false

abbrev pub authenticated : Log → Bool
authenticated [] = false
authenticated (e ∷ log) = is_entry e log || authenticated log

-- The calls that do not serve the endpoint: reading from it, and looking up who may enter.
abbrev pub is_service : Call → Bool
is_service (read_within t) = false
is_service auth_snapshot = false
is_service _ = true

-- Every service came after the endpoint was authenticated.
abbrev pub IsGuarded : Log → Type 0
IsGuarded [] = Unit {0}
IsGuarded (e ∷ log) = (is_service e.0 ≡ true → authenticated log ≡ true) × IsGuarded log

authenticated_stays :
    (e : Event Call Reply) (log : Log) → authenticated log ≡ true → authenticated (e ∷ log) ≡ true
authenticated_stays e log h = ground arith

-- Once the endpoint is authenticated, any handler is guarded.
IsGuarded-after :
    (p : Handler) (log : Log)
    → authenticated log ≡ true
    → IsGuarded log
    → Always (λ l o. IsGuarded l) log p
IsGuarded-after (ret o) log h g = g
IsGuarded-after (call c k) log h g =
    λ r. IsGuarded-after (k r) ((c, r) ∷ log) (authenticated_stays (c, r) log h) ((λ _. h), g)

module _ (F : Formats) (show_auth : AuthError → Text) (timing : ServerTiming) (own : ℕ) where
  admitted-IsGuarded :
      (version : ℕ) (role : Role) (token : Text) (id : Option Text) (features : List Text)
      (auth : Text × List (Text × Text))
      → (version == protocol_version) ≡ true
      → Always
          (λ l o. IsGuarded l)
          ((auth_snapshot, auth)
            ∷ (read_within timing.hello_timeout, received (hello version role token id features))
            ∷ [])
          (snapshot F show_auth timing own role token id features auth)
  unfolding snapshot
  admitted-IsGuarded version role token id features (ctl, tokens) v =
      decide (authenticate role id token ctl tokens) refl
    where
      log : Log
      log =
          (auth_snapshot, (ctl, tokens))
          ∷ (read_within timing.hello_timeout, received (hello version role token id features))
          ∷ []

      seen : IsGuarded log
      seen = ((λ k. cc), ((λ k. cc), tt))

      decide :
          (o : Option AuthError)
          → authenticate role id token ctl tokens ≡ o
          → Always (λ l o. IsGuarded l) log (admitted F show_auth timing own role id features o)
      decide (some e) k = unfold admitted in seen
      decide none k =
          IsGuarded-after (admitted F show_auth timing own role id features none) log
            (rw (v, k) refl) seen

  greeted-IsGuarded :
      (r : Incoming)
      → Always
          (λ l o. IsGuarded l)
          ((read_within timing.hello_timeout, r) ∷ [])
          (greeted F show_auth timing own r)
  unfolding greeted
  greeted-IsGuarded (received (hello version role token id features)) =
      elim (Bool-cases (version == protocol_version)) [
        | inl same ↦ rw same λ auth. admitted-IsGuarded version role token id features auth same
        | inr other ↦ rw other ((λ k. cc), tt)
      ]
  greeted-IsGuarded (received (hello_ok f)) = ((λ k. cc), tt)
  greeted-IsGuarded (received (session_attach j)) = ((λ k. cc), tt)
  greeted-IsGuarded (received (session_accepted j)) = ((λ k. cc), tt)
  greeted-IsGuarded (received list_request) = ((λ k. cc), tt)
  greeted-IsGuarded (received (device_list ds)) = ((λ k. cc), tt)
  greeted-IsGuarded (received (open_request t j)) = ((λ k. cc), tt)
  greeted-IsGuarded (received (open_session j)) = ((λ k. cc), tt)
  greeted-IsGuarded (received (is_ready j)) = ((λ k. cc), tt)
  greeted-IsGuarded (received (refused j e)) = ((λ k. cc), tt)
  greeted-IsGuarded (received ping) = ((λ k. cc), tt)
  greeted-IsGuarded (received pong) = ((λ k. cc), tt)
  greeted-IsGuarded (read_error e) = ((λ k. cc), tt)
  greeted-IsGuarded read_elapsed = ((λ k. cc), tt)

  -- On every run of `handle_connection`, a frame is written, and the shared state or another handler
  -- is called, only after a Hello of the protocol version was authenticated by the snapshot taken
  -- right after it.
  pub handle_connection-IsGuarded :
      Always (λ log o. IsGuarded log) [] (handle_connection F show_auth timing own)
  unfolding handle_connection
  handle_connection-IsGuarded = greeted-IsGuarded
