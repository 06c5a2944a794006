-- ===== src/Wire/Socket.antt =====
-- The receiving side of utils/Socket.cpp and utils/Socket_impl.hpp. The operating system is a
-- parameter: its `recv` and whether data has come (`poll`). A socket keeps bytes that it received
-- and did not give out yet in `_buffer`.
pub mod Received
pub mod Stream
pub mod Strings
pub mod Pieces
use shared_encryption.Base.{
  ℕ, zero, suc, ◌-◌, ◌+◌, ◌%◌, ◌^◌, ◌≤◌, ◌≡◌, Bool, true, false, not, ◌&&◌, ◌||◌, List, [], ◌∷◌,
  ◌++◌, Option, none, some, length, split_at, repeat, ltb, ◌==◌, if◌then◌else◌,
}
use shared_encryption.Base.Outcome.{Outcome, ok, throw, undefined, starved, ◌>>=◌, socket_failed}

-- `recv n` gives up to `n` bytes, or an error. The size is an `int` in the source, here its bit
-- pattern: from 2 ^ 31 on it stands for a negative number.
pub record Network (Net : Type 0) : Type 0 where
  pub recv : ℕ → Net → Option (List ℕ) × Net
  pub has_data : Net → Bool

pub record Socket (Net : Type 0) : Type 0 where
  pub buffer : List ℕ
  pub is_connected : Bool
  pub net : Net

-- The bytes up to the first zero, and those after it.
unfoldable pub find_null : List ℕ → Option (List ℕ × List ℕ)
find_null [] = none
find_null (b ∷ bytes) =
    let later = find_null bytes in
    if b == 0
    then some ([], bytes)
    else elim later [ none ↦ none | some (front, back) ↦ some (b ∷ front, back) ]

-- `(int)n` for an unsigned number, as a bit pattern
unfoldable pub as_int : ℕ → ℕ
as_int n = n % 2 ^ 32

module _ {Net : Type 0} (os : Network Net) where
  unfoldable pub out_leftover_data : ℕ → Socket Net → List ℕ × Socket Net
  out_leftover_data maxsize s =
      let (out, buffer) = split_at maxsize s.buffer in (out, record s { buffer = buffer })

  -- The result of `::recv` after leftover bytes.
  abbrev pub received : List ℕ → Socket Net → Option (List ℕ) × Net → Outcome (List ℕ × Socket Net)
  received leftover s (none, net) = throw socket_failed
  received leftover s (some bytes, net) = ok (leftover ++ bytes, record s { net = net })

  unfoldable pub recv_connected_into : ℕ → Socket Net → Outcome (List ℕ × Socket Net)
  recv_connected_into maxsize s =
      let (leftover, s1) = out_leftover_data maxsize s in
      let has_leftover = ltb 0 (length leftover) in
      if not (has_leftover || s.is_connected)
      then throw socket_failed
      else if has_leftover && not (os.has_data s1.net)
      then ok (leftover, s1)
      else received leftover s1 (os.recv (as_int (maxsize - length leftover)) s1.net)

  -- The loop of `recv_connected_exact_into`, with `size` bytes to go.
  unfoldable pub exact_loop : ℕ → ℕ → Socket Net → Outcome (List ℕ × Socket Net)
  exact_loop fuel zero s = ok ([], s)
  exact_loop zero (suc size) s = starved
  exact_loop (suc fuel) (suc size) s = do
    (bytes, s1) ← recv_connected_into (suc size) s
    (more, s2) ← exact_loop fuel (suc size - length bytes) s1
    ok (bytes ++ more, s2)

  -- A round that gets bytes gets at least one, so that `size` rounds are enough. A connection
  -- that ended gives none, and the loop of the source goes on for ever: `starved`.
  unfoldable pub recv_connected_exact_into : ℕ → Socket Net → Outcome (List ℕ × Socket Net)
  recv_connected_exact_into size s = exact_loop size size s

  -- With the last chunk. `bytes_read` of its bytes were received; if the zero stands behind them
  -- the range of the extra bytes begins after its end, and the behaviour is undefined.
  unfoldable pub keep_extra : List ℕ → ℕ → ℕ → List ℕ → Socket Net → Outcome (List ℕ × Socket Net)
  keep_extra res bytes_read string_size after s =
      if ltb bytes_read (string_size + 1)
      then undefined
      else ok (
        res,
        record s { buffer = s.buffer ++ (split_at (bytes_read - (string_size + 1)) after).0 },
      )

  -- With a zero in the chunk it is the last, otherwise all of it belongs to the string.
  unfoldable pub end_or_next :
      Option (List ℕ × List ℕ)
      → List ℕ
      → ℕ
      → Socket Net
      → Outcome (List ℕ × Socket Net)
      → Outcome (List ℕ × Socket Net)
  end_or_next none res bytes_read s next = next
  end_or_next (some (front, after)) res bytes_read s next =
      keep_extra (res ++ front) bytes_read (length front) after s

  -- The loop of `recv_connected_str`, for strings of `char`: `chunk` is what the array holds, which
  -- is not cleared between the rounds.
  unfoldable pub str_loop : ℕ → List ℕ → List ℕ → Socket Net → Outcome (List ℕ × Socket Net)
  str_loop zero chunk res s = starved
  str_loop (suc fuel) chunk res s = do
    (bytes, s1) ← recv_connected_into (length chunk) s
    let chunk' = bytes ++ (split_at (length bytes) chunk).1 in
        end_or_next (find_null chunk') res (length bytes) s1
          (str_loop fuel chunk' (res ++ chunk') s1)

  -- With the template's default of chunks of 32 bytes. Each round waits for bytes; `fuel` bounds
  -- their number.
  unfoldable pub recv_connected_str : ℕ → Socket Net → Outcome (List ℕ × Socket Net)
  recv_connected_str fuel s = str_loop fuel (repeat 32 0) [] s
