-- ===== src/Group/AtRest.antt =====
-- The chains of group.c at rest: `group_sender_serialize` and `group_receiver_serialize`, with the
-- passphrase envelope as a parameter.
use qsafe.Base.{
  ℕ, zero, suc, ◌+◌, ◌*◌, List, [], ◌∷◌, ◌++◌, ltb, ◌==◌, ◌&&◌, not, if◌then◌else◌, length, take,
  drop, Bytes, put_u32, get_u32,
}
use qsafe.Crypto.{Error, Result, ok, err, Envelope, Layout, seal_raw, open_raw, qsafe_sig_pub_size}
use qsafe.Group.State.{Sender, Receiver, GroupSkipped, group_key_size, group_max_skip, group_entry}

abbrev pub receiver_base : ℕ
receiver_base = group_key_size + 4 + qsafe_sig_pub_size + 4

unfoldable pub pack_group_skipped : List GroupSkipped → Bytes
pack_group_skipped [] = []
pack_group_skipped (e ∷ rest) = put_u32 e.index ++ (e.mk ++ pack_group_skipped rest)

unfoldable pub pack_receiver : Receiver → Bytes
unfolding pack_group_skipped
pack_receiver r =
    r.ck
    ++ (put_u32 r.index
        ++ (r.sig_pk ++ (put_u32 (length r.skipped) ++ pack_group_skipped r.skipped)))

unfoldable pub group_receiver_serialize : Envelope → ℕ → Receiver → Bytes → Result Bytes
unfolding pack_receiver
group_receiver_serialize env draw r passphrase =
    if ltb group_max_skip (length r.skipped)
    then err Error.invalid_input
    else env.seal_at_rest draw passphrase (pack_receiver r)

-- The entries that the loop reads.
unfoldable pub unpack_group_skipped : ℕ → Bytes → List GroupSkipped
unpack_group_skipped zero q = []
unpack_group_skipped (suc nsk) q =
    group_entry (get_u32 q) (take group_key_size (drop 4 q)) ∷ unpack_group_skipped nsk (drop 36 q)

unfoldable pub unpack_receiver : Bytes → Result Receiver
unfolding unpack_group_skipped
unpack_receiver pt =
    let nsk = get_u32 (drop (36 + qsafe_sig_pub_size) pt) in
    if ltb (length pt) receiver_base
    then err Error.integrity
    else if not (ltb group_max_skip nsk) && length pt == receiver_base + nsk * (4 + group_key_size)
    then ok (record {
      ck = take group_key_size pt;
      index = get_u32 (drop 32 pt);
      sig_pk = take qsafe_sig_pub_size (drop 36 pt);
      skipped = unpack_group_skipped nsk (drop receiver_base pt);
    })
    else err Error.integrity

unfoldable pub group_receiver_deserialize : Envelope → Bytes → Bytes → Result Receiver
unfolding unpack_receiver
group_receiver_deserialize env blob passphrase = elim (env.open_at_rest passphrase blob) [
  | err e ↦ err e
  | ok pt ↦ unpack_receiver pt
]

-- `group_sender_serialize` and `group_sender_deserialize`: the raw struct under the passphrase.
unfoldable pub group_sender_serialize : Envelope → Layout Sender → ℕ → Bytes → Sender → Result Bytes
unfolding seal_raw
group_sender_serialize = seal_raw

unfoldable pub group_sender_deserialize : Envelope → Layout Sender → Bytes → Bytes → Result Sender
unfolding open_raw
group_sender_deserialize = open_raw
