-- ===== src/Tests/Finished.antt =====
-- The end of an operation: from its last part to the mailbox of its requester.
use shared_encryption.Base.{ℕ_discrete, ℕ, ◌≡◌, refl, true, false, List, [], ◌∷◌}
use shared_encryption.Base.Key.{bytes_discrete, pair_discrete}
use shared_encryption.Base.Map.{find, put, erase}
use shared_encryption.Server.Storage.{get_shard_id}
use shared_encryption.Server.Updates.{FinishedDecryptionsRecord, register_finished_decryption}
use shared_encryption.Server.Decryptions.{
  CollectedRecord, DecryptionsManager, add_part, gather, register_part,
}
use shared_encryption.Server.Decryptions.Invariant.{register_part-IsValid}
use shared_encryption.Server.State.{State}
use shared_encryption.Server.Connected.Operations.{finish_operation}
use shared_encryption.Server.Connected.Finished.{HasOneMore, finish_operation-HasOneMore}
use shared_encryption.Tests.Operations.{alice, collected, collecting, collecting-IsValid}
use shared_encryption.Tests.Accounts.{with_set}

-- Operation 7 has its owner's part, and waits for one of a regular member.
abbrev one_part : DecryptionsManager ℕ ℕ
one_part = (register_part 7 5 1 true collecting).1

abbrev all_parts_in : CollectedRecord ℕ
all_parts_in = add_part 6 2 false (add_part 5 1 true collected)

abbrev waiting : State ℕ ℕ ℕ ℕ (List ℕ)
waiting = record {
  storage = with_set;
  updates = [];
  decryptions = one_part;
  keys = [];
  coeffs = [];
  op_uuids = [];
}

abbrev told_alice : State ℕ ℕ ℕ ℕ (List ℕ)
told_alice = record waiting {
  decryptions = (register_part 7 6 2 false one_part).1;
  updates =
      register_finished_decryption alice
        (record {
          op_id = 7;
          reg_layer_parts = 6 ∷ [];
          owner_layer_parts = 5 ∷ [];
          reg_layer_shards_ids = 2 ∷ 40 ∷ [];
          owner_layer_shards_ids = 1 ∷ 40 ∷ [];
        })
        [];
}

finish_operation-HasOneMore_example :
    (f : FinishedDecryptionsRecord ℕ) × HasOneMore f
    × (told_alice.updates ≡ register_finished_decryption alice f [])
unfolding register_part gather add_part finish_operation get_shard_id find put erase bytes_discrete
    pair_discrete ℕ_discrete
finish_operation-HasOneMore_example =
    finish_operation-HasOneMore 7 6 2 false all_parts_in waiting told_alice
      (register_part-IsValid 7 5 1 true collecting collecting-IsValid) refl refl
