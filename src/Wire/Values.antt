-- ===== src/Wire/Values.antt =====
-- What the payloads of packets are made of besides numbers: names, UUIDs and vectors with their
-- count in one byte, by `write_bytes` and `read_bytes` of utils/bytes.hpp and utils/bytes_impl.hpp.
use shared_encryption.Base.{ℕ, ◌<◌, ◌^◌, ◌≢◌, List, length, All, All-imp}
use shared_encryption.Base.Outcome.{Outcome}
use shared_encryption.Server.Types.{Uuid}
use shared_encryption.Wire.Bytes.{
  put_primitive, read_primitive, put_string, read_string, Reads, read-put_primitive,
  read-put_string, put_all, read_all, read_all-put_all,
}

-- A string without zeros.
abbrev pub IsText : List ℕ → Type 0
IsText cs = All (λ c. c ≢ 0) cs

-- A number of one byte: a threshold, or the size of a vector that is cast to it.
abbrev pub put_count : ℕ → List ℕ → List ℕ
put_count n rest = put_primitive 1 n rest

abbrev pub read_count : List ℕ → Outcome (ℕ × List ℕ)
read_count it = read_primitive 1 it

-- The 16 bytes of a UUID.
abbrev pub put_uuid : Uuid → List ℕ → List ℕ
put_uuid u rest = put_primitive 16 u rest

abbrev pub read_uuid : List ℕ → Outcome (Uuid × List ℕ)
read_uuid it = read_primitive 16 it

abbrev pub IsUuid : Uuid → Type 0
IsUuid u = u < 256 ^ 16

pub read-put_count : (n : ℕ) → n < 256 → Reads read_count put_count n
read-put_count n h = read-put_primitive 1 n h

pub read-put_uuid : (u : Uuid) → IsUuid u → Reads read_uuid put_uuid u
read-put_uuid u h = read-put_primitive 16 u h

pub read-put_names :
    (names : List (List ℕ))
    → All IsText names
    → Reads (read_all read_string (length names)) (put_all put_string) names
read-put_names names h =
    read_all-put_all read_string put_string names
      (All-imp IsText (Reads read_string put_string) read-put_string names h)

pub read-put_uuids :
    (us : List Uuid) → All IsUuid us → Reads (read_all read_uuid (length us)) (put_all put_uuid) us
read-put_uuids us h =
    read_all-put_all read_uuid put_uuid us
      (All-imp IsUuid (Reads read_uuid put_uuid) read-put_uuid us h)
