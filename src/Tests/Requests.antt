-- ===== src/Tests/Requests.antt =====
-- Requests to a server with one userset, and the mailboxes of its users.
use shared_encryption.Base.{ℕ_discrete, ℕ, ◌≡◌, refl, List, [], ◌∷◌, ◌++◌, repeat}
use shared_encryption.Base.Key.{nat_key, bytes_key, pair_key, bytes_discrete, pair_discrete}
use shared_encryption.Base.Map.{find, put}
use shared_encryption.Base.Set.{contains, insert}
use shared_encryption.Base.Random.{generate_not_pred}
use shared_encryption.Server.Types.{ok, undefined}
use shared_encryption.Server.Storage.{UserSetInfo, new_user}
use shared_encryption.Server.Updates.{UpdateManager, register_finished_decryption}
use shared_encryption.Server.Updates.Mailbox.{
  Call, looks_up, retrieves, merge, all_delivered, all_registered, run, updates_balance,
}
use shared_encryption.Server.Updates.{entry}
use shared_encryption.Server.Decryptions.{new_operation, empty}
use shared_encryption.Server.State.{State, connected}
use shared_encryption.Server.Connecting.{handle_signup, handle_login}
use shared_encryption.Server.Connecting.Sessions.{handle_login-handle_signup}
use shared_encryption.Server.Connected as Connected
use shared_encryption.Server.Connected.{
  handle_send_part, handle_decrypt, start_decryption, participate,
}
use shared_encryption.Server.Connected.Sound.{IsSound}
use shared_encryption.Server.Connected.Soundness.{handle_request-IsSound}
use shared_encryption.Server.Connected.Stages.{early_part_undefined, zero_thresholds_finish}
use shared_encryption.Server.Connected.Operations.{register_lookups}
use shared_encryption.Server.Connected.Lookups.{times_named, register_lookups_lem}
use shared_encryption.Packets.{signup, login, signup_success, login_success, decrypt}
use shared_encryption.Tests.Operations.{alice, bob, carol, looking, looking-IsValid}
use shared_encryption.Tests.Accounts.{hasher, with_set, with_set-IsValid}

abbrev TestServer : Type 0
TestServer = State ℕ ℕ ℕ ℕ (List ℕ)

-- Operation 7 looks for participants under userset 1.
abbrev busy : TestServer
busy = record {
  storage = with_set;
  updates = [];
  decryptions = looking;
  keys = [];
  coeffs = [];
  op_uuids = 9 ∷ [];
}

handle_request-IsSound_example :
    IsSound (Connected.handle_request 7 bob (participate (record { op_id = 7 })) busy).1
handle_request-IsSound_example =
    handle_request-IsSound 7 bob (participate (record { op_id = 7 })) busy
      (record { storage_valid = with_set-IsValid; decryptions_valid = looking-IsValid })

abbrev fresh : TestServer
fresh = record busy { storage = record with_set { salts = 3 ∷ [] } }

carol_signed_up :
    (handle_signup hasher (record { username = carol; password = 4 ∷ [] }) fresh).0
    ≡ ok (signup (record { status = signup_success }), connected, carol)
unfolding handle_signup new_user find put bytes_discrete ℕ_discrete
carol_signed_up = refl

handle_login-handle_signup_example :
    (handle_login hasher
      (record { username = carol; password = 4 ∷ [] })
      (handle_signup hasher (record { username = carol; password = 4 ∷ [] }) fresh).1).0
    ≡ ok (login (record { status = login_success }), connected, carol)
handle_login-handle_signup_example =
    handle_login-handle_signup hasher carol (4 ∷ []) fresh carol_signed_up

early_part_undefined_example :
    handle_send_part 7 bob (record { op_id = 7; decryption_part = 55 }) busy ≡ (undefined, busy)
unfolding find bytes_discrete pair_discrete ℕ_discrete
early_part_undefined_example =
    early_part_undefined 7 bob 7 55 busy
      (record {
        requester = alice;
        userset_id = 1;
        ciphertext = 99;
        required_owners = 1;
        required_reg_members = 1;
        owners_found = [];
        reg_members_found = [];
      })
      (record { pwd_salt = 6; pwd_hash = 6 ∷ 8 ∷ []; usersets = [] }) 200 refl refl refl refl

abbrev open_info : UserSetInfo
open_info = record {
  owners = alice ∷ [];
  reg_members = bob ∷ [];
  owners_threshold = 0;
  reg_members_threshold = 0;
}

abbrev open_server : TestServer
open_server = record busy {
  storage = record with_set { usersets = (1, open_info) ∷ [] };
  decryptions = empty;
}

zero_thresholds_finish_example :
    handle_decrypt 7 alice (record { user_set_id = 1; ciphertext = 99 }) open_server ≡ (
      ok (decrypt (record { op_id = 9 }), connected),
      record open_server {
        op_uuids = [];
        decryptions = record { prep = []; collected = []; all_op_ids = 9 ∷ [] };
        updates =
            register_finished_decryption alice
              (record {
                op_id = 9;
                reg_layer_parts = [];
                owner_layer_parts = [];
                reg_layer_shards_ids = 40 ∷ [];
                owner_layer_shards_ids = 40 ∷ [];
              })
              [];
      },
    )
unfolding new_operation generate_not_pred contains insert find bytes_discrete pair_discrete
    ℕ_discrete
zero_thresholds_finish_example =
    zero_thresholds_finish 7 alice (record { user_set_id = 1; ciphertext = 99 }) open_server
      open_info 40 9 [] (record { prep = []; collected = []; all_op_ids = 9 ∷ [] }) refl refl refl
      refl refl

abbrev calls : List (Call ℕ ℕ ℕ)
calls = looks_up bob 7 ∷ looks_up alice 8 ∷ retrieves bob ∷ looks_up bob 9 ∷ []

updates_balance_example :
    merge (all_delivered bob calls []) (entry bob (run calls []))
    ≡ merge (entry bob []) (all_registered bob calls)
updates_balance_example = updates_balance bob calls []

abbrev no_mail : UpdateManager ℕ ℕ ℕ
no_mail = []

register_lookups_lem_example :
    (entry bob (register_lookups alice 7 (alice ∷ bob ∷ []) no_mail)).on_lookup
    ≡ (entry bob no_mail).on_lookup ++ repeat (times_named bob alice (alice ∷ bob ∷ [])) 7
register_lookups_lem_example = register_lookups_lem bob alice 7 (alice ∷ bob ∷ []) no_mail
