-- ===== src/Lib.antt =====
-- Verification of the session, log and secret-sharing layers of Qsafe (C sources under src/ and include/).
--
-- Parts and how they interact:
--   * Base: Booleans, options, lists over the native numbers, bytes, exclusive or, fields of a buffer
--     and machine words. `put_u32` and `get_u32` are the big-endian words of src/ratchet.c, `put_u64` and
--     `get_u64` those of src/pqxdh.c.
--   * Crypto: the calls of include/crypto_utils.h that the sessions make, as a record of functions
--     (HKDF, X25519, AES-GCM, ML-KEM, randomness), which come from OpenSSL and liboqs and are
--     parameters here; `frame_nonce` is `crypto_frame_nonce` of src/crypto_utils.c.
--   * Ratchet: the Double Ratchet of src/ratchet.c. State holds `struct ratchet_session` as a
--     record and the calls on it as functions to a result and a session; Kdf the key schedule;
--     Header the wire headers; Skip the skipped-key store; Step `dh_ratchet` and `dh_ratchet_he`;
--     Message `ratchet_encrypt` and what it shares with Decrypt, which holds `ratchet_decrypt`: it has
--     the session and a working copy, and each `memcpy` that writes the copy back is a step of its own;
--     Init the six ways to establish a session; AtRest `pack`, `unpack` and the calls
--     on the passphrase envelope, another parameter. InPlace (decryption without a copy), Store, Chain, Frames, Delivery, Bounds, Sending,
--     Bootstrap, Fields and RoundTrip hold the proofs.
--   * Group: the sender keys of src/group.c. State holds the chains and the skipped-key store, Message
--     `group_encrypt` and `group_decrypt`, AtRest the receiver under the passphrase envelope. Store,
--     Chain, Frames, Delivery, Safety and RoundTrip hold the proofs, on the chain of Ratchet/Chain.
--   * Pqxdh: the handshake of src/pqxdh.c. State holds the structs of include/pqxdh.h, Identity the
--     generation and the publishing calls, Handshake `pqxdh_initiator` and `pqxdh_responder`, which
--     end in the session establishment of Ratchet/Init. Keys, Served, Agreement, FirstStep and Binding
--     hold the proofs.
--   * Sss: the secret sharing of src/sss.c. Field holds `gf_init` and the arithmetic of GF(2^8), Share
--     `sss_split_to_files`, Join `sss_join_files`; the randomness, SHA-256 and the file system are
--     parameters. Tables, Laws, Polynomial, Linear and Elements hold the field laws, Interpolation and
--     Products the interpolation, Masks the polynomials that vanish at given points; Secret, Files, Splitting, Picks,
--     Joining, RoundTrip, Sound and Secrecy the proofs on the calls.
--   * Merkle: the RFC 6962 tree of src/merkle.c over an unspecified SHA-256, with the proofs in
--     Split, Tree, Inclusion and Soundness. Consistency holds the consistency proof and its verifier,
--     Powers, Prefix, Growth, RightHalf, Levels and Extension the proofs on them.
--   * Translog: the transparency log of src/translog.c on the Merkle tree, with ML-DSA as a
--     parameter; Log and Heads hold the proofs.
--   * TreeKem: the group key agreement of src/treekem.c. Tree holds the nodes and the tree arithmetic,
--     Update `treekem_init`, `treekem_commit` and `treekem_process`, Members blanking, adding and the
--     public view, Wire the formats; RoundTrip, Paths,
--     Ancestors, Sealing, CommitRun, Install, Agreement and Process hold the proofs.
--
-- Bounds and fuel: `split` runs 64 rounds, which is all that a doubling `size_t` takes before it is
-- 0; `mth`, `path` and `rebuild` have 65 levels of recursion, enough for 2^63 leaves, since each
-- level halves the range. The loop of `skip_message_keys` makes `until - nr` rounds. A walk up the
-- tree of src/treekem.c has 32 rounds, which shift a `uint32_t` to 0, a resolution 6 levels, enough
-- for 16 leaves, and the shifting loops of `merkle_verify_consistency` 64 rounds, the bits of a
-- `size_t`.
--
-- Not modelled: allocation failures and NULL arguments, the wiping of secrets, the files and streams of
-- crypto_utils.c, main.c, age.c, age_plugin.c, keychain.c, libqsafe.c and vault.c. A struct that is stored
-- as its raw bytes has its representation as a parameter. The casts of lengths to `int`, which
-- change lengths above 2^31 - 1 bytes, are left out.
pub mod Base
pub mod Crypto
pub mod Group
pub mod Merkle
pub mod Pqxdh
pub mod Ratchet
pub mod Sss
pub mod Translog
pub mod TreeKem
