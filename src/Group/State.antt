-- ===== src/Group/State.antt =====
-- The sending and receiving chains of group.c: their state, the chain KDF, establishment and the
-- skipped-key store.
use qsafe.Base.{
  ℕ, zero, suc, ◌+◌, ◌-◌, ◌%◌, ◌^◌, Bool, Option, none, some, List, [], ◌∷◌, ◌++◌, ◌>>=◌, ltb, ◌||◌,
  ◌==◌, if◌then◌else◌, length, take, drop, Bytes, codes, put_u32, get_u32,
}
use qsafe.Crypto.{
  Error, Result, ok, err, Primitives, Signatures, sig_keypair_raw, qsafe_sig_pub_size, aes_key_size,
}

abbrev pub group_key_size : ℕ
group_key_size = aes_key_size

abbrev pub group_max_skip : ℕ
group_max_skip = 1000

-- `group_sender_t`
pub record Sender : Type 0 where
  pub ck : Bytes
  pub index : ℕ
  pub sig_pk : Bytes
  pub sig_sk : Bytes

-- `group_skipped_t`
pub record GroupSkipped : Type 0 where
  pub index : ℕ
  pub mk : Bytes

-- `group_receiver_t`. `skipped` is `skipped[0 .. n_skipped)`, so `n_skipped` is its length.
pub record Receiver : Type 0 where
  pub ck : Bytes
  pub index : ℕ
  pub sig_pk : Bytes
  pub skipped : List GroupSkipped

abbrev pub label_group_msg : Bytes
label_group_msg = codes "Veil-GRP-MSG"

abbrev pub label_group_ck : Bytes
label_group_ck = codes "Veil-GRP-CK"

-- `g_kdf_ck`: the next chain key and the message key.
unfoldable pub g_kdf_ck : Primitives → Bytes → Option (Bytes × Bytes)
g_kdf_ck p ck = do
  mk ← p.hkdf ck [] label_group_msg group_key_size
  ck' ← p.hkdf ck [] label_group_ck group_key_size
  some (ck', mk)

-- A sender with this chain key, once the signature keys are made.
abbrev pub new_sender : Bytes → Result (Bytes × Bytes) → Result Sender
new_sender ck (err e) = err e
new_sender ck (ok (pk, sk)) = ok (record { ck = ck; index = 0; sig_pk = pk; sig_sk = sk })

unfoldable pub group_sender_init : Primitives → Signatures → ℕ → ℕ → Result Sender
unfolding sig_keypair_raw
group_sender_init p q draw sig_draw = elim (p.rand_bytes draw group_key_size) [
  | none ↦ err Error.crypto
  | some ck ↦ new_sender ck (sig_keypair_raw q sig_draw)
]

unfoldable pub group_sender_distribution : Sender → Bytes
group_sender_distribution s = s.ck ++ (put_u32 s.index ++ s.sig_pk)

unfoldable pub group_receiver_init : Bytes → Receiver
group_receiver_init skdm = record {
  ck = take group_key_size skdm;
  index = get_u32 (drop 32 skdm);
  sig_pk = take qsafe_sig_pub_size (drop 36 skdm);
  skipped = [];
}

abbrev pub next_place : Option (ℕ × GroupSkipped) → Option (ℕ × GroupSkipped)
next_place none = none
next_place (some (i, e)) = some (suc i, e)

-- `skipped_find`: the place of the first entry with that index, and the entry.
unfoldable pub group_skipped_find : List GroupSkipped → ℕ → Option (ℕ × GroupSkipped)
group_skipped_find [] index = none
group_skipped_find (e ∷ rest) index =
    let later = next_place (group_skipped_find rest index) in
    if e.index == index then some (0, e) else later

-- `skipped_remove`: the entries behind the place move down by one.
unfoldable pub group_skipped_remove : List GroupSkipped → ℕ → List GroupSkipped
group_skipped_remove [] i = []
group_skipped_remove (e ∷ rest) zero = rest
group_skipped_remove (e ∷ rest) (suc i) = e ∷ group_skipped_remove rest i

abbrev pub group_entry : ℕ → Bytes → GroupSkipped
group_entry i k = record { index = i; mk = k }

-- The working copy after one round of the loop that stores the keys before `index`.
abbrev pub group_round : Receiver → Bytes × Bytes → Receiver
group_round w (ckn, mks) = record w {
  skipped = w.skipped ++ (group_entry w.index mks ∷ []);
  index = (w.index + 1) % 2 ^ 32;
  ck = ckn;
}

-- `while (w->index < index)`, which makes `index - w->index` rounds. A failed derivation ends the
-- call, and the working copy with it.
unfoldable pub group_skip_loop : Primitives → ℕ → Receiver → Option Receiver
group_skip_loop p zero w = some w
group_skip_loop p (suc rounds) w = do
  keys ← g_kdf_ck p w.ck
  group_skip_loop p rounds (group_round w keys)

-- The two bounds that are checked before the loop; `index >= w->index` stands here.
abbrev pub group_skip_too_far : Receiver → ℕ → Bool
group_skip_too_far w index =
    ltb group_max_skip (index - w.index)
    || ltb group_max_skip ((length w.skipped + (index - w.index)) % 2 ^ 32)
