-- ===== src/Recovery/Undo/Chain.antt =====
-- The loop of `undo_txn` along the records of a transaction.
use aidv.Prelude.{
  ℕ, zero, suc, ◌<◌, ◌≡◌, ◌≢◌, false, Option, none, some, List, ◌==◌, arith, ◌⊎◌, inl, inr,
  Bool-cases, Option-cases,
}
use aidv.Prelude.Assoc.{lookup}
use aidv.Record.{Answer, answers, fails}
use aidv.Recovery.LogRecord.{LogType, type_code, invalid_lsn, deserialize}
use aidv.Recovery.Redo.{Tables}
use aidv.Recovery.Undo.{undo_change, undo_on, undo_txn}

-- Every record that the map leads to is the first of its transaction or has an earlier one before.
abbrev pub Descending : (ℕ → ℕ) → List (ℕ × ℕ) → Type 0
Descending log_data lsn_to_offset =
    (lsn offset : ℕ)
    → lookup lsn lsn_to_offset ≡ some offset
    → ((deserialize log_data offset).header.prev_lsn ≡ invalid_lsn)
      ⊎ ((deserialize log_data offset).header.prev_lsn < lsn)

undo_on-ends :
    (rest : Tables → Option (Answer Tables)) (a : Answer Tables)
    → ((tables : Tables) → rest tables ≢ none)
    → undo_on rest a ≢ none
undo_on-ends rest (fails e) h = λ k. cc
undo_on-ends rest (answers tables) h = h tables

next_bound :
    (lsn fuel prev : ℕ)
    → (lsn == invalid_lsn) ≡ false
    → (lsn ≡ invalid_lsn) ⊎ (suc lsn < suc fuel)
    → (prev ≡ invalid_lsn) ⊎ (prev < lsn)
    → (prev ≡ invalid_lsn) ⊎ (suc prev < fuel)
next_bound lsn fuel prev n b (inl p) = inl p
next_bound lsn fuel prev n (inl b) (inr p) = absurd (ground (arith, n, b))
next_bound lsn fuel prev n (inr b) (inr p) = inr (omega arith)

next_fuel :
    (lsn fuel : ℕ)
    → (lsn == invalid_lsn) ≡ false
    → (lsn ≡ invalid_lsn) ⊎ (suc lsn < suc fuel)
    → 0 < fuel
next_fuel lsn fuel n (inl b) = absurd (ground (arith, n, b))
next_fuel lsn fuel n (inr b) = omega arith

-- Where the records of a log lead back to earlier ones, `undo_txn` ends from any record of it, with
-- its lsn and two as the number of rounds, whatever the transaction and the tables are.
pub undo_txn-ends :
    (log_data : ℕ → ℕ) (lsn_to_offset : List (ℕ × ℕ)) (txn_id fuel lsn : ℕ) (tables : Tables)
    → Descending log_data lsn_to_offset
    → (lsn ≡ invalid_lsn) ⊎ (suc lsn < fuel)
    → 0 < fuel
    → undo_txn log_data lsn_to_offset txn_id fuel lsn tables ≢ none
unfolding undo_txn
undo_txn-ends log_data lsn_to_offset txn_id zero lsn tables d b k = absurd (omega arith)
undo_txn-ends log_data lsn_to_offset txn_id (suc fuel) lsn tables d b k =
    elim (Bool-cases (lsn == invalid_lsn)) [
      | inl y ↦ rw y (λ e. cc)
      | inr n ↦ rw n (elim (Option-cases (lookup lsn lsn_to_offset)) [
        | inl e ↦ rw e (λ e. cc)
        | inr (offset, e) ↦
            let r = deserialize log_data offset in
            rw e (elim (Bool-cases (r.header.log_type == type_code LogType.begin)) [
              | inl y ↦ rw y (λ e. cc)
              | inr m ↦ rw m (
                  undo_on-ends (undo_txn log_data lsn_to_offset txn_id fuel r.header.prev_lsn)
                    (undo_change txn_id r.body tables)
                    (λ t.
                      undo_txn-ends log_data lsn_to_offset txn_id fuel r.header.prev_lsn t d
                        (next_bound lsn fuel r.header.prev_lsn n b (d lsn offset e))
                        (next_fuel lsn fuel n b)))
            ])
      ])
    ]
