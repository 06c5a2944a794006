-- ===== src/Lib.antt =====
-- The verification library of senc: shared encryption, in which a ciphertext is decrypted only
-- by enough owners and enough regular members of a userset together.
--
-- The program: clients talk to a server, which keeps users and usersets (storage), what each user
-- has still to be told (update manager), and the decryption operations that run (decryptions
-- manager). A handler answers each request of a client by calls of these three. When a userset is
-- made the server samples a polynomial for each of two keys and gives each member points of it
-- (Shamir's scheme); an operation first finds participants and then collects their parts.
--
-- Which file models which code:
--   Base            names of the libraries passed on, and what the parts share: lists, keys, maps
--                   (HashMap), sets (HashSet), sampling loops (senc/utils/uuid_impl.hpp,
--                   senc/utils/Random_impl.hpp), ordered sets (to_ordered_set of
--                   senc/utils/ranges_impl.hpp) and outcomes with exceptions
--   Arith           senc/utils/math.hpp (pow) and senc/utils/ModInt_impl.hpp (mod_pow, ModInt)
--   Sharing         senc/utils/poly_impl.hpp, senc/utils/Shamir_impl.hpp and
--                   senc/utils/enc/HybridElGamal2L_impl.hpp
--   Packets         senc/common/packets.hpp
--   Wire            senc/utils/bytes_impl.hpp, senc/utils/Socket.cpp, senc/utils/Socket_impl.hpp,
--                   senc/common/SockUtils.cpp, senc/common/PacketHandler.hpp,
--                   senc/common/EncryptedPacketHandler.cpp and
--                   senc/common/InlinePacketHandler.cpp: packets as bytes;
--                   senc/common/QueuedPacketHandler.cpp: their queue
--   Server/Storage  senc/server/storage/ShortTermServerStorage.{hpp,cpp}
--   Server/Updates  senc/server/managers/UpdateManager.{hpp,cpp}
--   Server/Decryptions  senc/server/managers/DecryptionsManager.{hpp,cpp}
--   Server/State    what the handlers share
--   Server/Connecting   senc/server/handlers/ConnectingClientHandler.{hpp,cpp}
--   Server/Connected    senc/server/handlers/ConnectedClientHandler.{hpp,cpp}
--   Tests           the theorems at concrete inputs
--
-- How: the state of a part is a record, an operation is a function that takes the state and returns
-- it with the outcome. An outcome is a value, an exception, undefined behaviour, or `starved`. A
-- source of randomness is the list of the values that it will give, and `starved` means that the
-- list ended; the theorems on termination say which lists are long enough. A method that holds its
-- mutex throughout is one step; so is `register_participant`, whose read of `_allOpIDs` is not locked
-- in the code. A string is the list of its bytes; a UUID is a number; a residue
-- modulo the group's order is a natural number below it. Exceptions have no message.
--
-- Of a packet, a writer (put_, send_) is given the bytes that come after, and a reader (read_, recv_)
-- gives the bytes that it leaves; a byte is a number below 256. A socket that is receiving is a stream
-- of bytes, which Wire/Socket/Stream.antt shows of the calls of senc/utils/Socket.cpp for numbers and
-- buffers of less than 2 ^ 31 bytes. What is received of a string depends on the pieces in which the
-- stream arrives (Wire/Socket/Pieces.antt). A stream that ends too early is `starved` as well.
--
-- The loops over exponents run on fuel: the exponent itself, plus one, which is enough since each
-- round halves it. The loop of recv_connected_exact_into runs on the number of bytes asked for, since
-- each round gets at least one. recv_connected_str has its fuel as an argument; on a stream it is the
-- number of bytes plus one, since a round that goes on with a full chunk takes bytes off. The other
-- loops follow a list or a count.
--
-- Not modelled: threads beyond the interleaving of the queue's and the
-- managers' methods, the SQLite storage, and the client. Ciphers, curves,
-- big integers, the password hash and the operating system are parameters.
pub mod Base
pub mod Arith
pub mod Sharing
pub mod Packets
pub mod Wire
pub mod Server
pub mod Tests
