-- ===== src/Tpcc/History.antt =====
-- tpcc_silo/tpcc/tpcc_tables.hpp: `HistoryKeyGenerator`, whose state is the 64 bits of `key_`, with
-- `counter_` in the lowest 47, then `at_work_`, and `id_` in the highest 16.
use ccbench.Common.{ℕ, zero, suc, ◌+◌, ◌*◌, ◌%◌, ◌^◌, ◌<◌, ◌≡◌, ◌∙◌, Bool, if◌then◌else◌, arith}
use ccbench.Tpcc.Memory.{Buffer, load, AreBytes, assign_as_bigendian, assign_as_bigendian-reverse}
use ccbench.Tpcc.Numbers.{key_number}
use ccbench.Tpcc.Order.{sign_of, or_else, compare, compare-sign_of}

pub record HistoryKeyGenerator : Type 0 where
  pub key : ℕ

abbrev pub bit : Bool → ℕ
bit b = if b then 1 else 0

unfoldable pub init : (id : ℕ) (at_work : Bool) → HistoryKeyGenerator
init id at_work = record { key = bit at_work * 2 ^ 47 + id * 2 ^ 48 }

pub record Fetched : Type 0 where
  pub raw : ℕ
  pub after : HistoryKeyGenerator

unfoldable pub get_raw : HistoryKeyGenerator → Fetched
get_raw g = record { raw = g.key; after = record { key = (g.key + 1) % 2 ^ 64 } }

pub record Key : Type 0 where
  pub ret : Buffer
  pub after : HistoryKeyGenerator

-- `ret{}` is zeros.
unfoldable pub get_as_simple_key : HistoryKeyGenerator → Key
get_as_simple_key g =
    let fetched = get_raw g in
    record { ret = assign_as_bigendian 8 fetched.raw 0 (λ k. 0); after = fetched.after }

-- The generator after `n` keys.
unfoldable pub generated : ℕ → HistoryKeyGenerator → HistoryKeyGenerator
generated zero g = g
generated (suc n) g = (get_as_simple_key (generated n g)).after

module _ (id : ℕ) (at_work : Bool) (hid : id < 2 ^ 16) where
  generated-key :
      (n : ℕ)
      → n < 2 ^ 47
      → (generated n (init id at_work)).key ≡ n + bit at_work * 2 ^ 47 + id * 2 ^ 48
  unfolding generated get_as_simple_key get_raw init
  generated-key zero h = omega arith
  generated-key (suc n) h = ground (arith, generated-key n)

  key-number :
      (n : ℕ)
      → n < 2 ^ 47
      → key_number (get_as_simple_key (generated n (init id at_work))).ret
        ≡ n + bit at_work * 2 ^ 47 + id * 2 ^ 48
  unfolding get_as_simple_key get_raw
  key-number n h =
      rw (assign_as_bigendian-reverse 8 (generated n (init id at_work)).key, generated-key n h)
        (ground arith)

get_as_simple_key-AreBytes :
    (g : HistoryKeyGenerator) → AreBytes 8 (load 8 0 (get_as_simple_key g).ret)
unfolding get_as_simple_key get_raw
get_as_simple_key-AreBytes g = rw (assign_as_bigendian-reverse 8 g.key) (ground arith)

-- The keys of two histories, each the one after fewer than 2^47 others of its generator, compare as the
-- generators' ids do, then as initial load before work, and then as the numbers of keys before do.
history_key_order :
    (id id' n n' : ℕ) (at_work at_work' : Bool)
    → id < 2 ^ 16
    → id' < 2 ^ 16
    → n < 2 ^ 47
    → n' < 2 ^ 47
    → compare
        (get_as_simple_key (generated n (init id at_work))).ret
        (get_as_simple_key (generated n' (init id' at_work'))).ret
      ≡ or_else (sign_of id id') (or_else (sign_of (bit at_work) (bit at_work')) (sign_of n n'))
history_key_order id id' n n' w w' hid hid' h h' =
    compare-sign_of (get_as_simple_key (generated n (init id w))).ret
      (get_as_simple_key (generated n' (init id' w'))).ret
      (get_as_simple_key-AreBytes (generated n (init id w)))
      (get_as_simple_key-AreBytes (generated n' (init id' w')))
    ∙ rw (key-number id w hid n h, key-number id' w' hid' n' h') (ground arith)
