-- ===== src/Server/Connecting.antt =====
-- server/handlers/ConnectingClientHandler.{hpp,cpp}: signup, login and logout of a client that is
-- not logged in.
pub mod Sessions
use shared_encryption.Base.{ℕ, Bool, List, [], ◌∷◌, Option, none, some, if◌then◌else◌}
use shared_encryption.Base.Key.{Key}
use shared_encryption.Server.Types.{
  Username, Outcome, ok, throw, undefined, starved, user_exists_exception, Exception,
}
use shared_encryption.Server.Storage.{PwdHasher, new_user, user_has_password}
use shared_encryption.Server.State.{State, Status, failed, connected, disconnected, Result}
use shared_encryption.Server.Types.{is_server_exception}
use shared_encryption.Packets.{
  SignupRequest, LoginRequest, LogoutRequest, Response, error, signup, login, logout,
  signup_success, username_taken, login_success, bad_login, logout_response, bad_request,
  failed_to_sign_up,
}

-- The variant that `recv_request` returns here.
pub data Request : Type 0 where
  sign_up : SignupRequest → Request
  log_in : LoginRequest → Request
  log_out : LogoutRequest → Request

-- The response, the status and the name of the user.
abbrev pub ConnectingResult : Type 0 → Type 0 → Type 0 → Type 0 → Type 0 → Type 0
ConnectingResult PubKey Ciphertext Part Salt Hash =
    Outcome (Response PubKey Ciphertext Part × Status × Username)
    × State PubKey Ciphertext Part Salt Hash

module _ {PubKey Ciphertext Part Salt Hash : Type 0} ⦃k : Key Hash⦄ (h : PwdHasher Salt Hash) where
  -- Of the catches, the first that fits.
  abbrev pub signup_failed :
      Exception
      → State PubKey Ciphertext Part Salt Hash
      → ConnectingResult PubKey Ciphertext Part Salt Hash
  signup_failed user_exists_exception s =
      (ok (signup (record { status = username_taken }), failed, []), s)
  signup_failed e s =
      if is_server_exception e
      then (ok (error (record { msg = failed_to_sign_up e }), failed, []), s)
      else (throw e, s)

  abbrev pub signed_up :
      Username
      → Outcome (Unit {0})
      → State PubKey Ciphertext Part Salt Hash
      → ConnectingResult PubKey Ciphertext Part Salt Hash
  signed_up username (ok _) s =
      (ok (signup (record { status = signup_success }), connected, username), s)
  signed_up username (throw e) s = signup_failed e s
  signed_up username undefined s = (undefined, s)
  signed_up username starved s = (starved, s)

  unfoldable pub handle_signup :
      SignupRequest
      → State PubKey Ciphertext Part Salt Hash
      → ConnectingResult PubKey Ciphertext Part Salt Hash
  handle_signup req s =
      let (r, storage) = new_user h req.username req.password s.storage in
      signed_up req.username r (record s { storage = storage })

  unfoldable pub handle_login :
      LoginRequest
      → State PubKey Ciphertext Part Salt Hash
      → ConnectingResult PubKey Ciphertext Part Salt Hash
  handle_login req s =
      if user_has_password h req.username req.password s.storage
      then (ok (login (record { status = login_success }), connected, req.username), s)
      else (ok (login (record { status = bad_login }), failed, []), s)

  abbrev pub handle_logout :
      LogoutRequest
      → State PubKey Ciphertext Part Salt Hash
      → ConnectingResult PubKey Ciphertext Part Salt Hash
  handle_logout req s = (ok (logout logout_response, disconnected, []), s)

  abbrev pub handle_request :
      Request
      → State PubKey Ciphertext Part Salt Hash
      → ConnectingResult PubKey Ciphertext Part Salt Hash
  handle_request (sign_up req) s = handle_signup req s
  handle_request (log_in req) s = handle_login req s
  handle_request (log_out req) s = handle_logout req s

  -- `iteration`: each bad request (`none`) is answered by an error, until a good one comes. The
  -- result is those answers and what the good request leads to; `none` if no good one comes.
  unfoldable pub iteration :
      List (Option Request)
      → State PubKey Ciphertext Part Salt Hash
      → List (Response PubKey Ciphertext Part)
        × Option (ConnectingResult PubKey Ciphertext Part Salt Hash)
  iteration [] s = ([], none)
  iteration (some req ∷ reqs) s = ([], some (handle_request req s))
  iteration (none ∷ reqs) s =
      let (sent, r) = iteration reqs s in (error (record { msg = bad_request }) ∷ sent, r)
