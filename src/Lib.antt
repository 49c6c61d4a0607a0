-- ===== src/Lib.antt =====
-- PropMiner: models of the host program's own logic and theorems about them.
--
-- The miner proves some work to a pool, registers with it over gRPC, and hashes jobs on a GPU. A share
-- is kept when its hash is at most a target that is derived from the job's compact difficulty, and goes
-- to the pool as a protobuf or bincode message with its proof.
--
-- Parts and files:
--   * Base: bytes, words, digits, texts and lists; the names that the other files use.
--   * Target: src/host/pearl/pow_target_utils.h and .cpp. The functions keep their names. A
--     std::array of bytes is a list, a text is the list of its bytes, and a double difficulty enters as
--     the integer (uint64_t)(difficulty * 1e6).
--   * Wire: src/host/pearl/proto/mining_v2.h and .cpp. A reader is the address of its next byte and
--     the bytes up to the end of its buffer, since its checks compare pointers; a decoder returns,
--     throws, or is wild from where it forms a pointer outside of its buffer, which is undefined in C++:
--     nothing behind it is modelled. Wire/Messages and Wire/Events hold
--     the messages; their encode and decode functions are named after the message.
--   * Grpc: src/host/pearl/grpc_client.cpp. Grpc holds the frames, the header strings and the payload of an
--     answer, and Grpc/Client the state of the client and its operations, which use the messages of
--     Wire. A socket is the bytes that arrive before the deadline and the bytes that it has taken.
--   * Challenge: src/host/pearl/pearl_challenge.cpp. try_nonce is the unrolled BLAKE3 of the source, one
--     definition for each of its seven rounds; verify takes the hash of the Rust library as an argument.
--   * Config: src/host/pearl/pearl_types.h and .cpp: the periodic pattern, MiningConfig and the choice of
--     a matrix shape. What CUDA reports of a card and its memory is an argument.
--   * Proof: src/host/pearl/bincode_encoder.cpp and protobuf_encoder.cpp, on the configuration of Config
--     and the varints of Wire. The expansion of B from its seed, in a Rust library, is an argument.
--   * Json: src/host/stratum/simple_json.cpp and include/simple_json.h. Json holds the strings,
--     Json/Value the values and the serializer, Json/Parser the parser. double is a type argument, its
--     printer and std::stod are arguments.
--   * Stratum: src/host/pearl/pearl_stratum_client.cpp, the session with a JSON-RPC pool, over Json,
--     Challenge and Target. Stratum/Session holds the state of the client and the submissions,
--     Stratum/Jobs and Stratum/Messages what it does with the pool's messages, Stratum/Loop the receive
--     loop and the runs of a session: any order of submissions, rounds of the loop and disconnections.
--     Each of these is one step, since the maps are behind mutexes; the clock, the socket and the
--     search for a challenge's nonce are arguments of the steps. Reports and callbacks are effects.
--     Stratum/Rejects is parse_pool_reject of src/host/pearl/share_diagnostics.cpp, which the client and
--     the share callback read an error with. The request ids stay below 2 ^ 31.
--     Stratum/Client is the constructor, and Stratum/Handshake and Stratum/Opening are what connect
--     does before the receive loop, over the bytes that come.
--   * Share: src/host/pearl/share_builder.cpp, over Target, Config and Proof. Share holds the noise and
--     the transcript of a tile, whose int8_t and int are numbers of 8 and 32 bits, and Share/Build the
--     claimed hash, the two builders, the audit indices and VerifyShare. Share/Leaves is
--     merkle_utils.h. BLAKE3, the expansion of B and the Merkle proofs are in a Rust library: records
--     of functions that the definitions take.
--   * Worker: src/host/pearl/gpu_worker.cpp and watchdog.cpp. Worker/Install is the choice and the
--     installation of a job as a step relation of the pool, the mining thread and the installing thread;
--     a SigmaContext is a number, new for each job, and 0 the null pointer. There is one worker, and
--     what the workers of other GPUs do to a SigmaContext that they share is left out. Worker/Batch is
--     a batch of nonces with the headers that the GPU writes; the kernels are a record of functions,
--     which take whether half.sync is still triggered. Each replay of the graph is one round of a
--     recursion on the number of parts.
--   * Orchestrator: src/host/pearl/worker_orchestrator.cpp, job_bus.cpp and job_key.cpp.
--     Orchestrator/Jobs is what the workers are told, Orchestrator/Health the watch over the GPUs and
--     the pauses between connections, Orchestrator/Sender the way of a share to a pool, over the
--     builders of Share and the client of Stratum.
--
-- Loops over bytes are recursion on the bytes or on their number. The loop over the fields of a
-- message runs on one round more than the buffer has bytes, and each round takes a byte at least, so
-- that the rounds are never used up; the loop over the messages of a stream takes five bytes a round.
-- A varint is written on ten rounds, which hold 70 bits. The loops of the periodic pattern run on the
-- length of the list that they shorten, and the loop over a JSON string on one round for a character. The
-- JSON parser nests at most as deep as its input is long, and its loops take a comma each round.
--
-- Not modelled: the CUDA kernels and the driver, sockets and TLS, files, printing, the registration over
-- gRPC and its keepalive, the threads of the orchestrator other than the share sender, the shutdown of
-- the threads, the preparation of a share on the GPU, the tuning of kernels, the multiplexer, and the
-- hash function's Rust library, whose calls succeed here: they are I/O, timing or calls of the driver. A race between two threads
-- is modelled in Worker/Install only.
pub mod Base
pub mod Challenge
pub mod Config
pub mod Grpc
pub mod Json
pub mod Orchestrator
pub mod Proof
pub mod Share
pub mod Stratum
pub mod Worker
pub mod Target
pub mod Wire
