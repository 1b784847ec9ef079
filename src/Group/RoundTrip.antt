-- ===== src/Group/RoundTrip.antt =====
-- What group.c writes and reads back: the distribution message, and the receiver at rest.
use qsafe.Base.{
  ℕ, ◌+◌, ◌*◌, ◌≤◌, ◌≡◌, refl, ◌∙◌, sym, ap, ap₂, subst, true, false, ◌&&◌, ◌||◌, not, List, [],
  ◌∷◌, ◌++◌, append-nil, ltb, leb, ◌==◌, length, length-append, take, drop, All, take-append_length,
  drop-append_length, drop-append_past, Bytes, arith, put_u32, get_u32, get_u32-put_u32,
  length-put_u32, IsU32,
}
use qsafe.Crypto.{ok, Envelope, Opens, qsafe_sig_pub_size}
use qsafe.Ratchet.Chain.{chain_key}
use qsafe.Group.State.{
  Sender, Receiver, GroupSkipped, group_sender_distribution, group_receiver_init, group_max_skip,
  group_entry, group_key_size,
}
use qsafe.Group.AtRest.{
  receiver_base, pack_group_skipped, pack_receiver, group_receiver_serialize, unpack_group_skipped,
  unpack_receiver, group_receiver_deserialize,
}
use qsafe.Group.Store.{group_stored, group_stored-nil}
use qsafe.Group.Chain.{group_awaits, Tracks}
use qsafe.Ratchet.Delivery.{held}
use qsafe.Group.Safety.{Fits}

-- A chain key, a number and the rest, as both formats begin.
module _ (ck : Bytes) (index : ℕ) (rest : Bytes) (size : length ck ≡ 32) (small : IsU32 index) where
  pub begins_ck : take 32 (ck ++ (put_u32 index ++ rest)) ≡ ck
  begins_ck = take-append_length ck _ 32 size

  pub begins_index : get_u32 (drop 32 (ck ++ (put_u32 index ++ rest))) ≡ index
  begins_index = ap get_u32 (drop-append_length ck _ 32 size) ∙ get_u32-put_u32 index rest small

  pub begins_rest : drop 36 (ck ++ (put_u32 index ++ rest)) ≡ rest
  begins_rest =
      drop-append_past ck (put_u32 index ++ rest) 36 4 (omega arith)
      ∙ drop-append_length (put_u32 index) rest 4 (length-put_u32 index)

nothing_held : (i m : ℕ) → (leb i m || held (group_stored m [])) ≡ leb i m
nothing_held i m = ground (arith, group_stored-nil m)

-- A new member joins where the sender stands. From the distribution message of a sender at message
-- `index` of a chain, with keys of the right sizes, `group_receiver_init` makes a receiver with the
-- sender's public key that follows the chain, awaits every message from `index` on, and none before.
pub receiver_init-distribution :
    (step : Bytes → Bytes × Bytes) (ck₀ : Bytes) (s : Sender)
    → length s.ck ≡ 32
    → length s.sig_pk ≡ qsafe_sig_pub_size
    → IsU32 s.index
    → s.ck ≡ chain_key step ck₀ s.index
    → let r = group_receiver_init (group_sender_distribution s) in
      (r.sig_pk ≡ s.sig_pk) × Tracks step ck₀ r × ((m : ℕ) → group_awaits r m ≡ leb s.index m)
unfolding group_receiver_init group_sender_distribution group_awaits
receiver_init-distribution step ck₀ s ck_size pk_size small at =
    let is_ck = begins_ck s.ck s.index s.sig_pk ck_size small in
    let is_index = begins_index s.ck s.index s.sig_pk ck_size small in
    let is_pk : take qsafe_sig_pub_size (drop 36 (group_sender_distribution s)) ≡ s.sig_pk =
      ap (take qsafe_sig_pub_size)
        (begins_rest s.ck s.index s.sig_pk ck_size small ∙ sym (append-nil s.sig_pk))
      ∙ take-append_length s.sig_pk [] qsafe_sig_pub_size pk_size in
    (
      is_pk,
      record {
        at = is_ck ∙ at ∙ ap (chain_key step ck₀) (sym is_index);
        small = subst IsU32 (sym is_index) small;
        unrepeated = tt;
        stored = λ m k e. absurd (cc (group_stored-nil m, e));
      },
      λ m. ap (λ i. leb i m || held (group_stored m [])) is_index ∙ nothing_held s.index m,
    )

-- The sizes of a stored entry.
abbrev pub EntryFits : GroupSkipped → Type 0
EntryFits e = IsU32 e.index × (length e.mk ≡ 32)

length-pack :
    (l : List GroupSkipped) → All EntryFits l → length (pack_group_skipped l) ≡ length l * 36
unfolding pack_group_skipped
length-pack [] f = refl
length-pack (e ∷ l) ((small, size), f) = omega (
  arith,
  length-pack l f,
  length-put_u32 e.index,
  length-append (put_u32 e.index) (e.mk ++ pack_group_skipped l),
  length-append e.mk (pack_group_skipped l),
)

unpack-pack_skipped :
    (l : List GroupSkipped)
    → All EntryFits l
    → unpack_group_skipped (length l) (pack_group_skipped l) ≡ l
unfolding pack_group_skipped unpack_group_skipped
unpack-pack_skipped [] f = refl
unpack-pack_skipped (e ∷ l) ((small, size), f) =
    let tail = e.mk ++ pack_group_skipped l in
    let at_four : drop 4 (put_u32 e.index ++ tail) ≡ tail =
      drop-append_length (put_u32 e.index) tail 4 (length-put_u32 e.index) in
    let index_is : get_u32 (put_u32 e.index ++ tail) ≡ e.index =
      get_u32-put_u32 e.index tail small in
    let key_is : take 32 (drop 4 (put_u32 e.index ++ tail)) ≡ e.mk =
      ap (take 32) at_four ∙ take-append_length e.mk (pack_group_skipped l) 32 size in
    let rest_is : drop 36 (put_u32 e.index ++ tail) ≡ pack_group_skipped l =
      drop-append_past (put_u32 e.index) tail 36 32 (omega (arith, length-put_u32 e.index))
      ∙ drop-append_length e.mk (pack_group_skipped l) 32 size in
    ap₂ ◌∷◌ (ap₂ group_entry index_is key_is)
      (ap (unpack_group_skipped (length l)) rest_is ∙ unpack-pack_skipped l f)

-- The sizes of the fields of a receiver.
pub record FieldsFit (r : Receiver) : Type 0 where
  pub ck_size : length r.ck ≡ 32
  pub pk_size : length r.sig_pk ≡ qsafe_sig_pub_size
  pub entries : All EntryFits r.skipped

not_short : (a k : ℕ) → a ≡ receiver_base + k * 36 → ltb a receiver_base ≡ false
not_short a k e = ground arith

exact_size :
    (a k : ℕ)
    → a ≡ receiver_base + k * 36
    → k ≤ group_max_skip
    → (not (ltb group_max_skip k) && a == receiver_base + k * (4 + group_key_size)) ≡ true
exact_size a k e le = ground arith

read_receiver :
    (pt : Bytes) (r : Receiver)
    → length pt ≡ receiver_base + length r.skipped * 36
    → length r.skipped ≤ group_max_skip
    → get_u32 (drop (36 + qsafe_sig_pub_size) pt) ≡ length r.skipped
    → take 32 pt ≡ r.ck
    → get_u32 (drop 32 pt) ≡ r.index
    → take qsafe_sig_pub_size (drop 36 pt) ≡ r.sig_pk
    → unpack_group_skipped (length r.skipped) (drop receiver_base pt) ≡ r.skipped
    → unpack_receiver pt ≡ ok r
unfolding unpack_receiver
read_receiver pt r size room count ck index pk entries =
    rw
      (
        not_short (length pt) (length r.skipped) size,
        count,
        exact_size (length pt) (length r.skipped) size room,
      )
      (λ i. ok (record { ck = ck i; index = index i; sig_pk = pk i; skipped = entries i }))

pack_receiver-size :
    (r : Receiver) → FieldsFit r → length (pack_receiver r) ≡ receiver_base + length r.skipped * 36
unfolding pack_receiver
pack_receiver-size r f =
    let entries = pack_group_skipped r.skipped in
    let count = put_u32 (length r.skipped) ++ entries in
    omega (
      arith,
      f.ck_size,
      f.pk_size,
      length-pack r.skipped f.entries,
      length-append r.ck (put_u32 r.index ++ (r.sig_pk ++ count)),
      length-append (put_u32 r.index) (r.sig_pk ++ count),
      length-append r.sig_pk count,
      length-append (put_u32 (length r.skipped)) entries,
      length-put_u32 r.index,
      length-put_u32 (length r.skipped),
    )

unpack-pack_receiver :
    (r : Receiver) → FieldsFit r → Fits r → unpack_receiver (pack_receiver r) ≡ ok r
unfolding pack_receiver
unpack-pack_receiver r f b =
    let entries = pack_group_skipped r.skipped in
    let count = put_u32 (length r.skipped) ++ entries in
    let tail = put_u32 r.index ++ (r.sig_pk ++ count) in
    let n_small : IsU32 (length r.skipped) = omega (arith, b.stored) in
    let rest = begins_rest r.ck r.index (r.sig_pk ++ count) f.ck_size b.small in
    let at_count : drop (36 + qsafe_sig_pub_size) (r.ck ++ tail) ≡ count =
      drop-append_past r.ck tail 2628 2596 (omega (arith, f.ck_size))
      ∙ drop-append_past (put_u32 r.index) (r.sig_pk ++ count) 2596 2592
          (omega (arith, length-put_u32 r.index))
      ∙ drop-append_length r.sig_pk count 2592 f.pk_size in
    let at_entries : drop receiver_base (r.ck ++ tail) ≡ entries =
      drop-append_past r.ck tail 2632 2600 (omega (arith, f.ck_size))
      ∙ drop-append_past (put_u32 r.index) (r.sig_pk ++ count) 2600 2596
          (omega (arith, length-put_u32 r.index))
      ∙ drop-append_past r.sig_pk count 2596 4 (omega (arith, f.pk_size))
      ∙ drop-append_length (put_u32 (length r.skipped)) entries 4
          (length-put_u32 (length r.skipped)) in
    read_receiver (pack_receiver r) r (pack_receiver-size r f) b.stored
      (ap get_u32 at_count ∙ get_u32-put_u32 (length r.skipped) entries n_small)
      (begins_ck r.ck r.index (r.sig_pk ++ count) f.ck_size b.small)
      (begins_index r.ck r.index (r.sig_pk ++ count) f.ck_size b.small)
      (ap (take qsafe_sig_pub_size) rest
        ∙ take-append_length r.sig_pk count qsafe_sig_pub_size f.pk_size)
      (ap (unpack_group_skipped (length r.skipped)) at_entries
        ∙ unpack-pack_skipped r.skipped f.entries)

-- The receiver at rest. What `group_receiver_serialize` writes for a receiver within its sizes is
-- read back as that receiver by `group_receiver_deserialize` under the same passphrase, for an
-- envelope that opens what it sealed.
pub deserialize-serialize :
    (env : Envelope) (draw : ℕ) (r : Receiver) (passphrase blob : Bytes)
    → Opens env
    → FieldsFit r
    → Fits r
    → group_receiver_serialize env draw r passphrase ≡ ok blob
    → group_receiver_deserialize env blob passphrase ≡ ok r
unfolding group_receiver_serialize group_receiver_deserialize
deserialize-serialize env draw r passphrase blob opens f b e =
    let sealed : env.seal_at_rest draw passphrase (pack_receiver r) ≡ ok blob =
      ground (arith, b.stored) in
    rw (opens draw passphrase (pack_receiver r) blob sealed, group_receiver_deserialize)
      (unpack-pack_receiver r f b)
