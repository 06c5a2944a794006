-- ===== src/Server/Connecting/Sessions.antt =====
-- What ConnectingClientHandler.cpp answers, from the accounts' theorems.
use shared_encryption.Base.{
  ℕ, zero, suc, ◌≡◌, ◌≢◌, repeat, refl, true, List, [], ◌∷◌, ◌++◌, Option, none, some,
}
use shared_encryption.Base.Key.{Key, bytes_key}
use shared_encryption.Server.Types.{
  Username, Outcome, ok, throw, undefined, starved, Exception, user_exists_exception,
  user_not_found_exception, userset_not_found_exception, no_operation, finished_operation,
  out_of_range, shamir_zero_id, shamir_same_id, packet_too_big, cipher_failed, socket_failed,
  conn_establish_exception, shamir_not_enough, shamir_no_shard,
}
use shared_encryption.Server.Storage.{PwdHasher, new_user, user_exists}
use shared_encryption.Server.Storage.Accounts.{login_after_signup, new_user_taken}
use shared_encryption.Server.State.{State, failed, connected}
use shared_encryption.Server.Connecting.{
  Request, handle_signup, handle_login, handle_request, iteration, signed_up, signup_failed,
}
use shared_encryption.Packets.{
  SignupRequest, Response, signup, login, error, signup_success, username_taken, login_success,
  bad_request,
}

-- The answers to `n` bad requests.
abbrev pub bad_request_errors :
    {PubKey Ciphertext Part : Type 0} → ℕ → List (Response PubKey Ciphertext Part)
bad_request_errors n = repeat n (error (record { msg = bad_request }))

module _ {PubKey Ciphertext Part Salt Hash : Type 0} ⦃k : Key Hash⦄ (h : PwdHasher Salt Hash) where
  signup_not_failed :
      (e : Exception) (u : Username) (s : State PubKey Ciphertext Part Salt Hash)
      → (signup_failed h e s).0 ≢ ok (signup (record { status = signup_success }), connected, u)
  signup_not_failed user_exists_exception u s = λ x. cc
  signup_not_failed user_not_found_exception u s = λ x. cc
  signup_not_failed userset_not_found_exception u s = λ x. cc
  signup_not_failed no_operation u s = λ x. cc
  signup_not_failed finished_operation u s = λ x. cc
  signup_not_failed out_of_range u s = λ x. cc
  signup_not_failed shamir_zero_id u s = λ x. cc
  signup_not_failed shamir_same_id u s = λ x. cc
  signup_not_failed packet_too_big u s = λ x. cc
  signup_not_failed cipher_failed u s = λ x. cc
  signup_not_failed socket_failed u s = λ x. cc
  signup_not_failed conn_establish_exception u s = λ x. cc
  signup_not_failed shamir_not_enough u s = λ x. cc
  signup_not_failed shamir_no_shard u s = λ x. cc

  signed_up_success :
      (u : Username) (o : Outcome (Unit {0})) (s : State PubKey Ciphertext Part Salt Hash)
      → (signed_up h u o s).0 ≡ ok (signup (record { status = signup_success }), connected, u)
      → (o ≡ ok tt) × ((signed_up h u o s).1 ≡ s)
  signed_up_success u (ok _) s e = (refl, refl)
  signed_up_success u (throw x) s e = absurd (signup_not_failed x u s e)
  signed_up_success u undefined s e = absurd (cc e)
  signed_up_success u starved s e = absurd (cc e)

  -- A client that is told that its signup succeeded can log in with the same name and password.
  pub handle_login-handle_signup :
      (u : Username) (password : List ℕ) (s : State PubKey Ciphertext Part Salt Hash)
      → (handle_signup h (record { username = u; password = password }) s).0
        ≡ ok (signup (record { status = signup_success }), connected, u)
      → (handle_login h
          (record { username = u; password = password })
          (handle_signup h (record { username = u; password = password }) s).1).0
        ≡ ok (login (record { status = login_success }), connected, u)
  unfolding handle_login handle_signup
  handle_login-handle_signup u password s e =
      let made = signed_up_success u (new_user h u password s.storage).0 _ e in
      rw (made.1, login_after_signup h u password s.storage made.0) refl

  -- Signing up with a name that is taken leaves the state as it was and says so.
  pub handle_signup_taken :
      (req : SignupRequest) (s : State PubKey Ciphertext Part Salt Hash)
      → user_exists req.username s.storage ≡ true
      → handle_signup h req s ≡ (ok (signup (record { status = username_taken }), failed, []), s)
  unfolding handle_signup
  handle_signup_taken req s e = rw (new_user_taken h req.username req.password s.storage e) refl

  -- Each request that cannot be read gets an error, and the first that can is handled.
  pub iteration_lem :
      (n : ℕ) (req : Request) (reqs : List (Option Request))
      (s : State PubKey Ciphertext Part Salt Hash)
      → iteration h (repeat n none ++ some req ∷ reqs) s
        ≡ (bad_request_errors n, some (handle_request h req s))
  unfolding iteration
  iteration_lem zero req reqs s = refl
  iteration_lem (suc n) req reqs s = rw (iteration_lem n req reqs s) refl
