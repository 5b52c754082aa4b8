-- ===== src/Lib.antt =====
-- go-mls: an implementation of Message Layer Security, group key agreement over a ratchet tree.
--
-- The parts of the program, each with the files that model it. Paths are from the root of the
-- repository.
--   tree-math.go      index calculus of the tree: TreeMath. Every function is there under its name in
--                     snake case; TreeMath/Coordinates reads an index as a level and a position.
--   extensions.go     extension lists: Extensions. `Add` is `add` with its loop in `put`.
--   crypto.go         suite tables and HKDF: Crypto, with Crypto/Hpke and Crypto/Aead for what wraps the
--                     libraries. Also SignaturePrivateKey, in KeyPackage.
--   key-schedule.go   KeySchedule: Memory holds byte slices by address, since a key that is handed out
--                     may be the slice that the cache holds and `zeroize` overwrites in place; Ratchet
--                     is the hash ratchet of one sender, Source the base key sources and the group key
--                     source, Epoch the secrets of an epoch. A method that changes its receiver
--                     returns the changed one.
--   credential.go     Credential: credentials, the pool of trusted certificates and chain
--                     validation; Credential/Issuers says what the pool's maps hold.
--   messages.go       KeyPackage: key packages, their signature and equality; Messages: proposals,
--                     commits and the content of plaintexts with their encodings; Messages/Plaintext:
--                     what of a message is signed and goes into the transcript; Messages/Welcome: the
--                     group's information and the message that a new member gets.
--   treekem.go        TreeKem: nodes, the public tree as a list, and what changes it; TreeKem/Hashes:
--                     the hashes of the tree; TreeKem/Merge: resolution, parent hashes and `Merge`;
--                     TreeKem/Copies: `Clone` and `Equals`. PrivateTree: path secrets and the keys made
--                     of them, with `Encap` in PrivateTree/Sealing and `Decap` in PrivateTree/Opening.
--   common.go         `dup` is in KeySchedule/Memory, `validateEnum` in Messages.
--   state.go          State: the state of a member and how a group starts; State/Proposals: proposals
--                     and `apply`; State/Commits: `Commit`; State/Handling: `Handle`; State/Protection:
--                     `Protect` in Sending and `Unprotect` in Receiving; State/Joining: the state of a
--                     new member, `Equals`, and the secrets that are saved and restored.
-- The state takes tree, key schedule and messages together: a proposal changes the public tree, the
-- tree's root hash goes into the group context, the context and the commit's secret into the next
-- epoch's secrets, and each message takes its keys from the epoch's group key sources. Two
-- members are compared in KeySchedule/Agreement (the secrets of an epoch), PrivateTree/Agreement and
-- PrivateTree/Delivery (a path) and State/Agreement (a whole commit). What two members share is
-- `View` there, the part of the state that `Equals` compares, with those secrets of the keys that are
-- no addresses, and `material` in KeySchedule/Material, the bytes behind the other secrets and
-- behind the key sources; State/Agreement/Handled has what lets a message through the checks of
-- `Handle`, and State/Reached the steps from epoch to epoch.
--
-- Base passes on the libraries' names and has what the parts share: Outcome, the result of a call
-- that returns, returns an error or panics; Words, the unsigned words with their wrap-around; Codecs,
-- what the code uses of the package go-tls-syntax; maps as association lists; bits. Examples runs the
-- models in a small world in which each library is a short function.
--
-- Bounds. Node and leaf indices are 32-bit words. The loops over bits and levels take 33 rounds, one
-- more than a word has bits; where Go's loop could go on for ever, the result is an Option. The loop
-- of `hkdfExpand` takes one round more than the bytes asked for. The loop of the ratchet's `Get`
-- takes as many rounds as there are generations in between. `getHash`, `resolve` and the climb of
-- `setPathSecrets` take 33, the levels of a tree. A byte string that is nil and one that is empty are
-- the same here.
--
-- Parameters. Hash functions, HMAC, HPKE, AEAD ciphers, signatures, certificates, the clock, random
-- bytes and go-tls-syntax are not in the repository. They are arguments: Primitives, X509, Services,
-- Hashing, HpkeLibrary, CipherLibrary and the Codec records, with PlaintextWire, WelcomeWire and
-- ProtectionWire for the structures that messages are written as; World holds what the state uses of
-- them. What is asked of them stands in ReadsBack, ChecksOut, Wired, Faithful, FaithfulContent,
-- Derives, OpensSealed, Readable and SameCommitSecret; of a single message, in ReadsBackAt.
--
-- Not modelled: the algorithms of HPKE and of signatures and the generation of keys (crypto.go from
-- line 236 on), which are calls of other packages; the encodings of credentials and of nodes;
-- `SetExtensions` and the creation of a key package from a secret; printing; tests. `Commit` writes a
-- shared map of pending updates, which each state has for itself here.
pub mod Base
pub mod TreeMath
pub mod Extensions
pub mod Crypto
pub mod KeySchedule
pub mod Credential
pub mod KeyPackage
pub mod Messages
pub mod TreeKem
pub mod PrivateTree
pub mod State
mod Examples
