-- ===== src/Tests/Operations.antt =====
-- One decryption operation of server/managers/DecryptionsManager.cpp, from its start to its end:
-- Alice asks, and one owner and one regular member are needed.
use shared_encryption.Base.{
  ℕ_discrete, ℕ, ◌≡◌, ◌≢◌, refl, true, false, List, [], ◌∷◌, none, some, arith,
}
use shared_encryption.Base.Key.{nat_key, bytes_key}
use shared_encryption.Base.Map.{find, put, emplace, erase}
use shared_encryption.Base.Set.{contains, insert}
use shared_encryption.Base.Random.{generate_not_pred}
use shared_encryption.Server.Types.{Username, ok}
use shared_encryption.Server.Decryptions.{
  not_required, reg_part, PrepareRecord, CollectedRecord, DecryptionsManager, start_collecting,
  start_looking, empty, new_operation, prepare_operation, register_participant, register_part,
  enlist, settle,
}
use shared_encryption.Server.Decryptions.Invariant.{IsValid, empty-IsValid}
use shared_encryption.Server.Decryptions.Reach.{
  Threads, ThreadsValid, Reach, here, next, begin, prepare, participate, others, Reach-ThreadsValid,
}
use shared_encryption.Server.Decryptions.Stages.{
  Complete, register_participant-Complete, register_part_lem,
}
use shared_encryption.Server.Decryptions.Recruit.{IsCollecting, recruit, recruit-IsCollecting}
use shared_encryption.Server.Decryptions.{get_operation_userset}
use shared_encryption.Server.Decryptions.Usersets.{get_operation_userset-register_participant}
use shared_encryption.Server.Decryptions.Layers.{
  Sent, add_parts, send_parts, send_parts_finish, owner_parts_stuck,
}

abbrev pub alice : Username
alice = 1 ∷ []

abbrev pub bob : Username
bob = 2 ∷ []

abbrev pub carol : Username
carol = 3 ∷ []

abbrev nobody_asked : DecryptionsManager ℕ ℕ
nobody_asked = empty

abbrev known : DecryptionsManager ℕ ℕ
known = record { prep = []; collected = []; all_op_ids = 7 ∷ [] }

abbrev wanted : PrepareRecord ℕ
wanted = start_looking alice 1 99 1 1

abbrev pub looking : DecryptionsManager ℕ ℕ
looking = record { prep = (7, wanted) ∷ []; collected = []; all_op_ids = 7 ∷ [] }

abbrev owner_found : PrepareRecord ℕ
owner_found = record wanted { owners_found = bob ∷ [] }

abbrev half_full : DecryptionsManager ℕ ℕ
half_full = record looking { prep = (7, owner_found) ∷ [] }

abbrev full : PrepareRecord ℕ
full = record owner_found { reg_members_found = carol ∷ [] }

abbrev pub collected : CollectedRecord ℕ
collected = start_collecting alice 1 1 1

abbrev pub collecting : DecryptionsManager ℕ ℕ
collecting = record { prep = []; collected = (7, collected) ∷ []; all_op_ids = 7 ∷ [] }

started : new_operation (7 ∷ []) nobody_asked ≡ some (7, [], known)
unfolding new_operation generate_not_pred contains insert
started = refl

abbrev no_wait : DecryptionsManager ℕ ℕ → Threads ℕ ℕ
no_wait d = record { manager = d; unprepared = [] }

-- Between the two calls that start operation 7, somebody asks to take part in it.
to_looking : Reach (no_wait nobody_asked) (no_wait looking)
unfolding register_participant others prepare_operation emplace find contains ℕ_discrete
to_looking =
    next (next (next here (begin (7 ∷ []) [] 7 known started refl)) (participate 7 bob true refl))
      (prepare 7 alice 1 99 1 1 refl (omega arith) refl)

to_half_full : Reach (no_wait nobody_asked) (no_wait half_full)
unfolding register_participant enlist settle insert contains put erase emplace find ℕ_discrete
to_half_full = next to_looking (participate 7 bob true refl)

to_collecting : Reach (no_wait nobody_asked) (no_wait collecting)
unfolding register_participant enlist settle insert contains put erase emplace find ℕ_discrete
to_collecting = next to_half_full (participate 7 carol false refl)

nobody_asked-ThreadsValid : ThreadsValid (no_wait nobody_asked)
nobody_asked-ThreadsValid = record { manager_valid = empty-IsValid; unprepared_fresh = tt }

Reach-ThreadsValid_example : ThreadsValid (no_wait collecting)
Reach-ThreadsValid_example = Reach-ThreadsValid to_collecting nobody_asked-ThreadsValid

pub collecting-IsValid : IsValid collecting
collecting-IsValid = (Reach-ThreadsValid to_collecting nobody_asked-ThreadsValid).manager_valid

pub looking-IsValid : IsValid looking
looking-IsValid = (Reach-ThreadsValid to_looking nobody_asked-ThreadsValid).manager_valid

pub half_full-IsValid : IsValid half_full
half_full-IsValid = (Reach-ThreadsValid to_half_full nobody_asked-ThreadsValid).manager_valid

recruit-IsCollecting_example :
    IsCollecting 7 wanted (recruit 7 false (carol ∷ []) (recruit 7 true (bob ∷ []) looking))
unfolding find contains ℕ_discrete
recruit-IsCollecting_example =
    recruit-IsCollecting 7 (bob ∷ []) (carol ∷ []) wanted looking refl refl (omega arith)
      (record { owners_wanted = refl; reg_members_wanted = refl }) (refl, tt) (refl, tt)

completed : (register_participant 7 carol false half_full).0 ≡ ok (some full, reg_part)
unfolding register_participant enlist settle insert contains put erase emplace find ℕ_discrete
completed = refl

register_participant-Complete_example :
    Complete full
    × (reg_part ≢ not_required)
    × (find 7 (register_participant 7 carol false half_full).1.prep ≡ none)
    × (find 7 (register_participant 7 carol false half_full).1.collected ≡ some collected)
register_participant-Complete_example =
    register_participant-Complete 7 carol false half_full full reg_part half_full-IsValid completed

in_collection : find 7 collecting.collected ≡ some collected
unfolding find ℕ_discrete
in_collection = refl

abbrev with_part : CollectedRecord ℕ
with_part = record collected { owner_layer_parts = 55 ∷ []; owner_layer_shards_ids = 200 ∷ [] }

register_part_lem_example :
    ((register_part 7 55 200 true collecting).0 ≡ ok none)
    × (find 7 (register_part 7 55 200 true collecting).1.collected ≡ some with_part)
    × (find 7 (register_part 7 55 200 true collecting).1.prep ≡ none)
    × ((o : ℕ)
        → 7 ≢ o
        → (find o (register_part 7 55 200 true collecting).1.prep ≡ find o collecting.prep)
          × (find o (register_part 7 55 200 true collecting).1.collected
              ≡ find o collecting.collected))
register_part_lem_example =
    register_part_lem 7 55 200 true collecting collected collecting-IsValid in_collection

abbrev from_owner : Sent ℕ
from_owner = record { part = 55; shard_id = 200; is_owner = true }

abbrev from_reg_member : Sent ℕ
from_reg_member = record { part = 66; shard_id = 4; is_owner = false }

abbrev both : List (Sent ℕ)
both = from_reg_member ∷ from_owner ∷ []

send_parts_finish_example :
    ((send_parts 7 both collecting).0 ≡ ok (some (add_parts both collected)))
    × (find 7 (send_parts 7 both collecting).1.collected ≡ none)
send_parts_finish_example =
    send_parts_finish 7 both collected collecting in_collection (omega arith) refl refl

abbrev two_owners : List (Sent ℕ)
two_owners = from_owner ∷ from_owner ∷ []

owner_parts_stuck_example :
    ((send_parts 7 two_owners collecting).0 ≡ ok none)
    × (find 7 (send_parts 7 two_owners collecting).1.collected
        ≡ some (add_parts two_owners collected))
    × ((add_parts two_owners collected).reg_layer_parts ≡ [])
owner_parts_stuck_example =
    owner_parts_stuck 7 two_owners collected collecting in_collection (omega arith) refl

get_operation_userset-register_participant_example :
    get_operation_userset 7 (register_participant 7 carol false half_full).1 ≡ ok 1
unfolding get_operation_userset find ℕ_discrete
get_operation_userset-register_participant_example =
    get_operation_userset-register_participant 7 7 carol false half_full 1 half_full-IsValid refl
