-- ===== src/Lib.antt =====
-- The core of a voting system with anonymous credentials and time-locked ballots (pebble-core/).
--
-- Voters post messages on a broadcast channel: a credential under their public key, then a ballot
-- that is signed with the credential and encrypted under a puzzle, and at last the solution of
-- the puzzle. Anybody computes the state of the election from the messages alone.
--
-- The parts, and the files that model them:
--   Base: Boolean tests, lists over native numbers, Go's outcomes (Base/Outcome), int64 values
--     (Base/Int), powers and remainders (Base/Power), methods that change a state (Base/Exec),
--     masks and counts of numbers (Base/Mask, Base/Distinct).
--   Util/Buffer: BufferReader and BufferWriter of pebble-core/util/buffer_reader_writer.go, with
--     the vectors in Util/Buffer/Vectors and Util/Buffer/Canonical, and that a reader returns in
--     Util/Buffer/Returned. Util/Slices: concat.go and strings.go. Util/BytesSet: bytes_set.go,
--     with the loops of its table in Util/BytesSet/Vacancies, Filling and Resizing.
--   Vdf: the puzzles. Vdf/Pietrzak is pebble-core/vdf/pietrzak.go: `eval` the repeated squaring,
--     `create`, `solve` and `verify` the methods of PietrzakVdf. Vdf/BigInt is what they use of
--     math/big.
--   Structs: the messages of pebble-core/voting/structs, one file for each, with `bytes` and
--     `from_bytes` for the methods `Bytes` and `FromBytes`; Structs/EncryptedBallot/Sealing is
--     the encryption of ballot.go, Structs/EligibilityList the eligibility list.
--   Pubkey: signing, verification and GenerateKey of pebble-core/pubkey/pubkey.go. Pubkey/Text: its
--     String and Parse.
--   Anoncred: the interfaces of pebble-core/anoncred/anoncred.go as one record. Anoncred/AnonCred1
--     is anoncred1.go: the Merkle tree, the witness that `prove` makes and the constraints of
--     `Define`; Sets the sorted credential sets with Sign and Verify; Contract the system as one
--     value of that record; Levels, Branch, Members, Completeness and Signing what is proved of a
--     signer, Soundness, Serials and OneVote of whoever passes `Verify`.
--     Anoncred/AnonCred1/Parameters is anoncred1_instance.go. Anoncred/Gnark is what these use of
--     gnark.
--   Methods: pebble-core/voting/methods, approval voting, plurality voting and the choice of one.
--   Voting/Params: election_params.go of pebble-core/voting. Voting/Message: broadcast_channel.go.
--     Voting/Creation: NewElection of election.go. Voting/Election: what election.go computes from
--     the channel (GetCredentialSet, Progress, decryptBallot), with Voting/Election/Turnout over
--     anoncred1.go and Voting/Election/Denial over pietrzak.go. Voting/Casting: what a voter does
--     (PostCredential, Vote, RevealBallotDecryption, PostBallotDecryption), with the way of a
--     ballot through them in Voting/Casting/Opened. Voting/Signing: the two
--     `Sign` methods. Voting/Client: server_bc.go, the channel of a voter behind an HTTP server.
--     Voting/Durations: the times and durations of Go that setup_params.go works with, as numbers of
--     nanoseconds in Voting/Durations/Totals.
--   Base32: pebble-core/base32c, with the checksum in Base32/Check and what Decode reads in
--     Base32/Accepted.
--   Voting/Invitation: invitation.go of pebble-core/voting.
--   Server: pebble-core/server. Server is the interface ElectionService and the types of server.go;
--     Server/Handler has one function for each path of ServeHTTP, Server/Responses the answers,
--     Server/Frames the loop that writes the messages, Server/SetupParams is setup_params.go, and
--     Server/MockService mock_service.go, with what a run of requests reaches in Reachable.
--   Command: pebble-core/cmd/server/main.go, as the list of what it prints and starts, with
--     encoding/hex in Command/Hex.
--   Runs: a small election, a server, credentials, and the theorems at concrete values.
--
-- How the parts interact. The election takes the credential system, the puzzle and the channel as
-- arguments, and Contract and MockService fill two of them. The handler takes the service as an
-- argument, and `serve_mock` of Server/MockService/Reachable is the handler over the mock service.
-- The messages that the server writes are those of Voting/Message.
--
-- How the code is read. A byte slice or a string is a list of numbers; `IsByte` says that they
-- are below 256 where that matters. A nil slice is an empty one. A method that returns an error
-- gives a Result with the outcomes ok, err and panic; `stuck` means that a loop of the model is
-- out of fuel, and is no outcome of the code. An integer of w bits is a number below 2 ^ w, with
-- its wrap-around written out. A big integer is a number that is not negative. Pointer fields are
-- options. Choices and lengths are not negative.
--
-- Fuel. `eval` has t + 1 rounds, and each lowers t by 4096. The loops of `solve` and `verify` have
-- 64 rounds: a round halves t, rounded up, and they end at 4096, so that 52 rounds are enough for a
-- uint64. The loop of EligibilityList.FromBytes has the length of its input, of which a round takes
-- 64 bytes. The loops of BytesSet have one round for each bucket and one more. The loops of the
-- base-32 code lower their bit count in each round, so that the count itself is enough rounds. The
-- loop of Client.Get has the length of the body, of which a round takes a byte at least. The loops
-- over a Merkle tree go down its lists of hashes and its fixed number of levels.
--
-- Outside the repository, and parameters: SHA-256, AES-GCM (`Ciphers`), Ed25519 and the tezos
-- library (`Schemes`), MiMC and Groth16 (`Gnark`), sort.Sort, encoding/json, strconv.Atoi,
-- time.Parse and the texts of errors (`Outside`), the primality test, what the random source gives,
-- the clock, the channel's answers, the secrets manager, what the terminal and ListenAndServe
-- return, and the order in which a Go map is ranged over. What is assumed of them is a hypothesis
-- of the theorem that needs it: that a cipher opens what it sealed, that SHA-256 gives 32 bytes,
-- that MiMC computes what its circuit does, that Groth16 accepts a proof made of a witness that
-- satisfies the circuit, and no proof without one, that sort.Sort rearranges, that the readers of
-- gnark invert its writers, that calls of the tezos library return, that a secrets manager
-- returns what was stored, and that a signature is bound to its message.
--
-- Not modelled: requests that are handled at the same time (they are handled one after another),
-- the two floating-point quotients, of NewElection and of puzzleDuration, IsValidPublicKey, which
-- calls a function that the repository does not define, and the wrappers of a hash and of the
-- random source in pebble-core/util.
pub mod Base
pub mod Util
pub mod Vdf
pub mod Structs
pub mod Pubkey
pub mod Anoncred
pub mod Methods
pub mod Voting
pub mod Base32
pub mod Runs
pub mod Server
pub mod Command
