-- ===== src/Pqxdh/State.antt =====
-- The structs and labels of pqxdh.h. A fixed buffer with its length field is the list of its bytes.
use qsafe.Base.{ℕ, Bool, List, Bytes, codes}

abbrev pub label_sk : Bytes
label_sk = codes "Veil-PQXDH-v1"

abbrev pub label_spk : Bytes
label_spk = codes "Veil-SPK-v1"

abbrev pub label_pqk : Bytes
label_pqk = codes "Veil-PQK-v1"

abbrev pub label_opk : Bytes
label_opk = codes "Veil-OPK-v1"

abbrev pub label_iddh : Bytes
label_iddh = codes "Veil-IDDH-v1"

abbrev pub label_omac : Bytes
label_omac = codes "Veil-OpenMAC-v1"

abbrev pub pqxdh_opk_pool : ℕ
pqxdh_opk_pool = 64

-- One entry of the arrays `opk_id`, `opk_pk` and `opk_sk`.
pub record OneTime : Type 0 where
  pub id : ℕ
  pub pk : Bytes
  pub sk : Bytes

-- `pqxdh_identity_t`. `opk` is the arrays up to `n_opk`.
pub record Identity : Type 0 where
  pub ik_sig_pk : Bytes
  pub ik_sig_sk : Bytes
  pub ik_dh_pk : Bytes
  pub ik_dh_sk : Bytes
  pub spk_pk : Bytes
  pub spk_sk : Bytes
  pub pqk_pk : Bytes
  pub pqk_sk : Bytes
  pub ik_dh_cert : Bytes
  pub opk : List OneTime

-- `pqxdh_bundle_t`
pub record Bundle : Type 0 where
  pub ik_sig_pk : Bytes
  pub ik_dh_pk : Bytes
  pub ik_dh_cert : Bytes
  pub spk_pk : Bytes
  pub spk_sig : Bytes
  pub pqk_pk : Bytes
  pub pqk_sig : Bytes
  pub have_opk : Bool
  pub opk_id : ℕ
  pub opk_pk : Bytes
  pub opk_sig : Bytes

-- `pqxdh_initial_t`. The signed `opk_id` is its 64-bit pattern.
pub record Initial : Type 0 where
  pub ik_sig_pk : Bytes
  pub ik_dh_pk : Bytes
  pub ik_dh_cert : Bytes
  pub ek_pk : Bytes
  pub pq_ct : Bytes
  pub opk_id : ℕ
  pub pq : Bool
  pub mac : Bytes
