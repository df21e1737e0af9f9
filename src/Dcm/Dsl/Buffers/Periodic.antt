-- ===== src/Dcm/Dsl/Buffers/Periodic.antt =====
-- The PDUs for periodic transmission, DslLockType2TxPdu, DslGetType2TxUserRxPdu and
-- DslReleaseType2TxPdu of core/dcm/src/Dcm_Dsl.c.
use plug_and_play_autosar.Common.{
  ℕ, ◌≡◌, ◌≢◌, refl, sym, ap, subst, ◌∙◌, true, false, Option, none, some, List, [], ◌∷◌, All,
  Bool-cases, inl, inr, arith,
}
use plug_and_play_autosar.Dcm.Dsl.{
  PeriodicTx, PeriodicTransmission, MainConnection, DslConfig, Dsl, is_periodic_tx_pdu,
  to_internal_periodic_pdu,
}
use plug_and_play_autosar.Dcm.Dsl.Buffers.{
  lock_type2_tx_pdu, lock_of, lock_pdu, first_free_pdu, pdu_used, get_type2_tx_user_rx_pdu,
  release_type2_tx_pdu, some_pdu_free,
}

-- The PDUs of a transmission are PDUs for periodic transmission.
abbrev pub ArePeriodic : DslConfig → List PeriodicTx → Type 0
ArePeriodic c ts = All (λ t. is_periodic_tx_pdu c t.dcm_tx_pdu_id ≡ true) ts

first_free_pdu-some :
    (c : DslConfig) (s : Dsl) (ts : List PeriodicTx) (t : PeriodicTx)
    → first_free_pdu c s ts ≡ some t
    → ArePeriodic c ts
    → (pdu_used c s t.dcm_tx_pdu_id ≡ false) × (is_periodic_tx_pdu c t.dcm_tx_pdu_id ≡ true)
unfolding first_free_pdu
first_free_pdu-some c s [] t e h = cc
first_free_pdu-some c s (u ∷ ts) t e (h, hs) = elim (Bool-cases (pdu_used c s u.dcm_tx_pdu_id)) [
  | inl y ↦ first_free_pdu-some c s ts t (rw y at e) hs
  | inr n ↦
      let same : u ≡ t = cc (rw n at e) in
      (
        subst (λ v. pdu_used c s v.dcm_tx_pdu_id ≡ false) same n,
        subst (λ v. is_periodic_tx_pdu c v.dcm_tx_pdu_id ≡ true) same h,
      )
]

some_pdu_free-eq :
    (c : DslConfig) (s : Dsl) (ts : List PeriodicTx)
    → some_pdu_free c s ts ≡ false
    → first_free_pdu c s ts ≡ none
unfolding some_pdu_free first_free_pdu
some_pdu_free-eq c s [] e = refl
some_pdu_free-eq c s (u ∷ ts) e = elim (Bool-cases (pdu_used c s u.dcm_tx_pdu_id)) [
  | inl y ↦ rw y (some_pdu_free-eq c s ts (rw y at e))
  | inr n ↦ cc (rw n at e)
]

-- What a PDU tells of the request `id` that it was locked for.
pub record IsLocked (c : DslConfig) (id : ℕ) (t : PeriodicTx) (s u : Dsl) : Type 0 where
  pub was_free : pdu_used c s t.dcm_tx_pdu_id ≡ false
  pub user : get_type2_tx_user_rx_pdu c u t.dcm_tx_pdu_id ≡ some id
  pub released :
      get_type2_tx_user_rx_pdu c (release_type2_tx_pdu c t.dcm_tx_pdu_id u) t.dcm_tx_pdu_id ≡ none
  pub others_same :
      (i : ℕ) → to_internal_periodic_pdu c t.dcm_tx_pdu_id ≢ i → u.periodic_pdu i ≡ s.periodic_pdu i

lock_pdu-IsLocked :
    (c : DslConfig) (id : ℕ) (t : PeriodicTx) (s : Dsl)
    → pdu_used c s t.dcm_tx_pdu_id ≡ false
    → is_periodic_tx_pdu c t.dcm_tx_pdu_id ≡ true
    → IsLocked c id t s (lock_pdu c id (some t) s).0
unfolding get_type2_tx_user_rx_pdu release_type2_tx_pdu
lock_pdu-IsLocked c id t s free periodic = record {
  was_free = free;
  user = ground (arith, periodic);
  released = ground (arith, periodic);
  others_same = λ i h. ground arith;
}

lock_of-IsLocked :
    (c : DslConfig) (id : ℕ) (ts : List PeriodicTx) (o : Option PeriodicTx) (s u : Dsl) (pdu : ℕ)
    → first_free_pdu c s ts ≡ o
    → ArePeriodic c ts
    → lock_pdu c id o s ≡ (u, some pdu)
    → (t : PeriodicTx) × (t.pdu_r_tx_pdu_id ≡ pdu) × IsLocked c id t s u
lock_of-IsLocked c id ts none s u pdu e h l = cc (ap (λ q. q.1) l)
lock_of-IsLocked c id ts (some t) s u pdu e h l =
    let f = first_free_pdu-some c s ts t e h in
    (
      t,
      cc (ap (λ q. q.1) l),
      subst (λ v. IsLocked c id t s v) (ap (λ q. q.0) l) (lock_pdu-IsLocked c id t s f.0 f.1),
    )

-- A PDU for periodic data that is locked for a request was not in use before; afterwards the request
-- is found as its user, and no longer once it is released. The other PDUs stay as they were. The PDUs
-- of the transmission are among those for periodic data.
pub lock_type2_tx_pdu-IsLocked :
    (c : DslConfig) (m : MainConnection) (tr : PeriodicTransmission) (id pdu : ℕ) (s u : Dsl)
    → m.periodic_transmission ≡ some tr
    → ArePeriodic c tr.tx_pdu_list
    → lock_type2_tx_pdu c m id s ≡ (u, some pdu)
    → (t : PeriodicTx) × (t.pdu_r_tx_pdu_id ≡ pdu) × IsLocked c id t s u
unfolding lock_type2_tx_pdu
lock_type2_tx_pdu-IsLocked c m tr id pdu s u e h l =
    lock_of-IsLocked c id tr.tx_pdu_list (first_free_pdu c s tr.tx_pdu_list) s u pdu refl h
      (ap (λ o. lock_of c id o s) (sym e) ∙ l)
