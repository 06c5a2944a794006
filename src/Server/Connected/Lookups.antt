-- ===== src/Server/Connected/Lookups.antt =====
-- Whom `initiate_decryption` of server/handlers/ConnectedClientHandler.cpp informs.
use shared_encryption.Base.{
  ℕ, zero, suc, ◌+◌, ◌≡◌, refl, sym, ap, ◌∙◌, List, [], ◌∷◌, ◌++◌, arith, if◌then◌else◌, repeat,
}
use mathlib.Core.List.{append-nil, append_assoc}
use shared_encryption.Base.Key.{bytes_key, same}
use shared_encryption.Base.Map.{find-put}
use shared_encryption.Server.Types.{Username, Uuid}
use shared_encryption.Server.Updates.{UpdateManager, entry, register_lookup}
use shared_encryption.Server.Connected.Operations.{register_lookups}

-- How often a list names `u`, who is not to be the requester.
abbrev pub times_named : Username → Username → List Username → ℕ
times_named u requester [] = 0
times_named u requester (v ∷ vs) =
    (if same v requester then 0 else if same v u then 1 else 0) + times_named u requester vs

repeat_add : (a b : ℕ) (x : Uuid) → repeat (a + b) x ≡ repeat a x ++ repeat b x
repeat_add zero b x = let e : zero + b ≡ b = omega arith in rw e refl
repeat_add (suc a) b x =
    let e : suc a + b ≡ suc (a + b) = omega arith in rw e (ap (λ l. x ∷ l) (repeat_add a b x))

module _ {PubKey Ciphertext Part : Type 0} (u requester : Username) (opid : Uuid) where
  lookup_one :
      (v : Username) (m : UpdateManager PubKey Ciphertext Part)
      → (entry u (if same v requester then m else register_lookup v opid m)).on_lookup
        ≡ (entry u m).on_lookup
          ++ repeat (if same v requester then 0 else if same v u then 1 else 0) opid
  unfolding register_lookup
  lookup_one v m =
      let r = record (entry v m) { on_lookup = (entry v m).on_lookup ++ opid ∷ [] } in
      ground (arith, find-put v u r m, append-nil (entry u m).on_lookup)

  -- `register_lookups` puts the operation into the mailbox of each user as often as the list names
  -- the user, after what was there, and puts nothing into the requester's.
  pub register_lookups_lem :
      (vs : List Username) (m : UpdateManager PubKey Ciphertext Part)
      → (entry u (register_lookups requester opid vs m)).on_lookup
        ≡ (entry u m).on_lookup ++ repeat (times_named u requester vs) opid
  unfolding register_lookups
  register_lookups_lem [] m = sym (append-nil (entry u m).on_lookup)
  register_lookups_lem (v ∷ vs) m =
      let now = if same v requester then 0 else if same v u then 1 else 0 in
      let more = repeat (times_named u requester vs) opid in
      register_lookups_lem vs (if same v requester then m else register_lookup v opid m)
      ∙ ap (λ l. l ++ more) (lookup_one v m)
      ∙ append_assoc (entry u m).on_lookup (repeat now opid) more
      ∙ ap (λ l. (entry u m).on_lookup ++ l)
          (sym (repeat_add now (times_named u requester vs) opid))
