-- ===== src/Silo/Tests.antt =====
-- The theorems about silo/ at concrete tables.
use ccbench.Common.{
  ℕ, ◌*◌, ◌^◌, ◌≤◌, ◌<◌, ◌≡◌, refl, Bool, true, false, ◌==◌, List, [], ◌∷◌, contains, All, arith,
  some,
}
use ccbench.Silo.Tidword.{
  Tidword, zero_word, obj, version, choose_tid, max_word, choose_tid-version,
}
use ccbench.Silo.Operations.{
  Table, ReadElement, WriteElement, in_flight, TxnExecutor, write_keys, begin, search_read_set,
  search_write_set, read_key, unlock_write_set, lock_write_set, is_current, all_current,
  newest_read, validation_phase,
}
use ccbench.Silo.Validation.{
  failed_validation_restores, validation_reads, validate_and_write, commit_writes,
}

abbrev word : Bool → ℕ → Tidword
word b n = record { lock = b; latest = true; absent = false; tid = n; epoch = 1 }

-- Tuple 9 is locked.
abbrev table : Table
table k = record { tidword = word (k == 9) k; val = k ∷ [] }

abbrev read_4 : ReadElement
read_4 = record { key = 4; val = 4 ∷ []; tidword = word false 4 }

abbrev write_to : ℕ → WriteElement
write_to k = record { key = k; val = [] }

abbrev reader : List WriteElement → TxnExecutor
reader ws = record {
  read_set = read_4 ∷ [];
  write_set = ws;
  status = in_flight;
  mrctid = zero_word;
  max_rset = zero_word;
  max_wset = zero_word;
  write_val = 7 ∷ [];
  local_epoch = 1;
}

-- Reads 4 and writes 5 and 4.
abbrev commits : TxnExecutor
commits = reader (write_to 5 ∷ write_to 4 ∷ [])

reader_from_start :
    read_key table (begin (record commits { read_set = []; write_set = [] })) 4
    ≡ some (record commits { write_set = [] })
unfolding begin read_key search_read_set search_write_set
reader_from_start = refl

-- Reads 4 and writes 9, which is locked, and 5.
abbrev fails : TxnExecutor
fails = reader (write_to 9 ∷ write_to 5 ∷ [])

commits_valid : (validation_phase 2 table commits).valid ≡ true
unfolding validation_phase lock_write_set all_current newest_read is_current max_word obj
    unlock_write_set
commits_valid = refl

fails_valid : (validation_phase 2 table fails).valid ≡ false
unfolding validation_phase lock_write_set all_current newest_read is_current max_word obj
    unlock_write_set
fails_valid = refl

failed_validation_restores_example : (validation_phase 2 table fails).table 5 ≡ table 5
failed_validation_restores_example = failed_validation_restores 2 table fails fails_valid 5

validation_reads_example :
    All
      (λ (e : ReadElement).
        (e.tidword.epoch ≡ (table e.key).tidword.epoch)
        × (e.tidword.tid ≡ (table e.key).tidword.tid)
        × ((table e.key).tidword.lock ≡ false))
      commits.read_set
validation_reads_example = validation_reads 2 table commits commits_valid

commit_writes_example :
    (contains 5 (write_keys commits.write_set) ≡ true
      → (((validate_and_write 2 table commits).table 5).tidword
          ≡ (validate_and_write 2 table commits).tx.mrctid)
        × ((validate_and_write 2 table commits).tx.mrctid.lock ≡ false)
        × ((table 5).tidword.lock ≡ false))
    × (contains 5 (write_keys commits.write_set) ≡ false
        → (validate_and_write 2 table commits).table 5 ≡ table 5)
commit_writes_example = commit_writes 2 table commits commits_valid 5

choose_tid-version_example :
    (version (word false 5) < version (choose_tid (word false 5) (word false 4) zero_word 1))
    × (version (word false 4) < version (choose_tid (word false 5) (word false 4) zero_word 1))
    × (version zero_word < version (choose_tid (word false 5) (word false 4) zero_word 1))
    × (2 ^ 29 * 1 ≤ version (choose_tid (word false 5) (word false 4) zero_word 1))
    × ((choose_tid (word false 5) (word false 4) zero_word 1).lock ≡ false)
    × ((choose_tid (word false 5) (word false 4) zero_word 1).latest ≡ true)
choose_tid-version_example =
    choose_tid-version (word false 5) (word false 4) zero_word 1 (omega arith) (omega arith)
      (omega arith) (omega arith)
