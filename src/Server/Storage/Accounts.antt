-- ===== src/Server/Storage/Accounts.antt =====
-- Signing up and logging in: `new_user` and `user_has_password` of
-- server/storage/ShortTermServerStorage.cpp.
use shared_encryption.Base.{
  ℕ, ◌≡◌, refl, true, List, [], ◌∷◌, none, arith, if◌then◌else◌, Option-cases, List-cases, inl, inr,
}
use shared_encryption.Base.Key.{Key, bytes_key, same}
use shared_encryption.Base.Map.{find, find-put}
use shared_encryption.Server.Types.{Username, ok, throw, user_exists_exception}
use shared_encryption.Server.Storage.{Storage, PwdHasher, new_user, user_has_password, user_exists}

module _ {Salt Hash : Type 0} ⦃k : Key Hash⦄ (h : PwdHasher Salt Hash) where
  -- With a salt to be had, signing up under a free name succeeds, and makes no difference but to the logins under that
  -- name: a password is then right if its hash under the new salt is that of the one chosen.
  pub user_has_password-new_user :
      (u v : Username) (password attempt : List ℕ) (s : Storage Salt Hash) (salt : Salt)
      (salts : List Salt)
      → find u s.users ≡ none
      → s.salts ≡ salt ∷ salts
      → ((new_user h u password s).0 ≡ ok tt)
        × (user_has_password h v attempt (new_user h u password s).1 ≡ (
            if same u v
            then same (h.hash attempt salt) (h.hash password salt)
            else user_has_password h v attempt s))
  unfolding new_user user_has_password
  user_has_password-new_user u v password attempt s salt salts free drawn =
      rw (free, new_user)
        (rw drawn (
          refl,
          ground (
            arith,
            find-put u v
                (record { pwd_salt = salt; pwd_hash = h.hash password salt; usersets = [] })
                s.users,
          ),
        ))

  -- The password that a user signed up with is right.
  pub login_after_signup :
      (u : Username) (password : List ℕ) (s : Storage Salt Hash)
      → (new_user h u password s).0 ≡ ok tt
      → user_has_password h u password (new_user h u password s).1 ≡ true
  unfolding new_user
  login_after_signup u password s e = elim (Option-cases (find u s.users)) [
    | inr (r, found) ↦ absurd (ground arith)
    | inl free ↦ elim (List-cases s.salts) [
      | inl drained ↦ absurd (ground arith)
      | inr (salt, salts, drawn) ↦
          ground (arith, user_has_password-new_user u u password password s salt salts free drawn)
    ]
  ]

  -- A name that is taken is refused, and nothing changes.
  pub new_user_taken :
      (u : Username) (password : List ℕ) (s : Storage Salt Hash)
      → user_exists u s ≡ true
      → new_user h u password s ≡ (throw user_exists_exception, s)
  unfolding new_user
  new_user_taken u password s e = ground arith
