-- ===== src/Lib.antt =====
-- A model of coinbasechain, a peer-to-peer node for a chain of block headers with proof of work by
-- RandomX: no transactions, only headers of 100 bytes, each with the hash of its parent.
--
-- How the parts interact. Bytes from a peer come in envelopes: a message header of 24 bytes, whose
-- command, length and checksum are looked at, and a payload that the reader of that command takes
-- apart. Headers of a `headers` message that do not fit are counted against the peer by the
-- misbehavior manager; a peer over its threshold is cut off, and its address banned or discouraged
-- by the ban manager. A header whose parent is unknown waits in the orphan pool. A header that is
-- checked (its proof of work, and that its difficulty is the one ASERT asks for) enters the block
-- index, and the orphans that wait for it are checked in turn; it is then offered to the
-- candidates, and the active chain is set to the best branch of these. The clock that headers are
-- checked against is adjusted by the clocks of the peers, whose addresses the address manager
-- keeps.
--
-- Which file models what (paths from the root of the repository; a folder beside a file holds its
-- proofs and its tests):
--
--   Base                shared names and tactics' rule sets, with Lists, Order and Sorting, Map
--                       (association lists sorted like std::map, with `insert` for operator[]), Tests
--                       (Boolean tests), Bits, and Endian: include/chain/endian.hpp, the blobs of
--                       include/util/uint.hpp.
--   Chain/Header        include/chain/block.hpp, src/chain/block.cpp: CBlockHeader, Serialize,
--                       Deserialize, GetHash.
--   Chain/Arith         src/util/arith_uint256.cpp: SetCompact, GetCompact, bits; GetBlockProof of
--                       src/chain/block_index.cpp with GetTargetFromBits of src/chain/pow.cpp.
--   Chain/Index         include/chain/block_index.hpp, src/chain/block_index.cpp: CBlockIndex, the skip
--                       list and GetAncestor; AddToBlockIndex of src/chain/block_manager.cpp.
--   Chain/Active        include/chain/chain.hpp, src/chain/chain.cpp: CChain with SetTip and FindFork;
--                       LastCommonAncestor of src/chain/block_index.cpp.
--   Chain/Pow           src/chain/pow.cpp: CalculateASERT, GetNextWorkRequired.
--   Chain/ProofOfWork   src/chain/pow.cpp: CheckProofOfWork; src/chain/randomx_pow.cpp: GetEpoch,
--                       GetRandomXCommitment.
--   Chain/Validation    src/chain/validation.cpp: CheckBlockHeader, CheckHeadersPoW,
--                       CheckHeadersAreContinuous, CalculateHeadersWork, GetAntiDoSWorkThreshold.
--   Chain/Contextual    src/chain/validation.cpp: ContextualCheckBlockHeader; GetMedianTimePast of
--                       include/chain/block_index.hpp.
--   Chain/Timedata      src/chain/timedata.cpp, include/chain/timedata.hpp: the offset of the clock.
--   Chain/Selection     src/chain/chain_selector.cpp, include/chain/chain_selector.hpp: the candidates.
--   Chain/Activation    src/chain/chainstate_manager.cpp: ActivateBestChain, ActivateBestChainStep,
--                       ConnectTip, DisconnectTip.
--   Chain/Acceptance    src/chain/chainstate_manager.cpp: AcceptBlockHeader with ProcessOrphanHeaders.
--   Chain/Processing    src/chain/chainstate_manager.cpp: ProcessNewBlockHeader, Initialize,
--                       IsInitialBlockDownload, the candidates of Load; Initialize and
--                       VerifyChainContinuity of src/chain/block_manager.cpp.
--   Chain/Invalidation  src/chain/chainstate_manager.cpp: InvalidateBlock.
--   Chain/Orphans       src/chain/chainstate_manager.cpp: TryAddOrphanHeader, EvictOrphanHeaders, and
--                       how ProcessOrphanHeaders takes an orphan out of the pool.
--   Net/Wire            src/network/message.cpp: VarInt, MessageSerializer, MessageDeserializer.
--   Net/Messages        src/network/message.cpp: the payload of each message.
--   Net/Envelope        src/network/message.cpp, src/network/protocol.cpp: message headers.
--   Net/Misbehavior     src/network/misbehavior_manager.cpp, include/network/peer_misbehavior.hpp.
--   Net/Addresses       src/network/addr_manager.cpp, include/network/addr_manager.hpp: the tables NEW
--                       and TRIED.
--   Net/Bans            src/network/ban_manager.cpp, include/network/ban_manager.hpp.
--
-- State and operations. The state of a component is a record or an association list, and each
-- method a function from it to the new state and the result, under the method's name. Pointers to
-- block index entries are the hashes they are stored under, a null pointer is `none`; a failed
-- assert or an exception is `none` or a constructor of its own. Bytes are numbers, and integers of
-- a fixed width are numbers with their wrap-around written out. A Read of Net/Wire is the
-- deserializer's state passing, with the sticky error flag of the source. Locks are left out: each
-- method holds its lock from start to end.
--
-- Fuel. The loop of GetAncestor has the block's height and one more turns, since each turn lowers
-- the height; so have the loops of SetTip, FindFork and LastCommonAncestor, which go from parent to
-- parent. bits counts down from 256. The loops of ActivateBestChainStep have the height of the tip
-- or of the candidate and one more turns, the roll-back the length of the chain and one more. On an
-- index that is not well formed (a cycle of parents, say) the loops of the source over parents
-- could go on for ever, where the model's end with the value that is reached; the theorems about
-- them ask for a well-formed index, which the operations keep. ActivateBestChain has the number of
-- candidates and two more, since a turn that is not the last removes one; the calls of
-- ProcessOrphanHeaders inside one another the number of orphans and one more, since each removes
-- one. InvalidateBlock disconnects at most as many tips as the chain is long. VerifyChainContinuity
-- has the million steps of the source. Loops over lists are recursion on the list.
--
-- Parameters. SHA-256, the hash and the commitment of RandomX, whether a file was written, and the
-- clock (for AcceptBlockHeader in a record Environment) are arguments of the definitions that use
-- them. No law is asked of them, apart from the length of a digest where bytes are cut by it. The
-- draws of the address manager's random numbers are an argument as well, with the law that they are
-- in range, and so is its shuffle, which keeps the elements.
--
-- Not modelled: saving and loading the block index, header synchronisation, block relay, peer
-- discovery, the files of the address manager, connections and their states, the miner; and, as
-- input and output, sockets, port mapping, RPC, logs, threads and files.
pub mod Base
pub mod Chain
pub mod Net
