-- ===== src/Tpcc/Copying.antt =====
-- tpcc_silo/tpcc/: a last name survives `copy_cstr`, and its key `create` and `parse`.
use ccbench.Common.{ℕ, zero, suc, ◌+◌, ◌-◌, ◌^◌, ◌≤◌, ◌<◌, ◌≡◌, ◌≢◌, ◌∙◌, ◌==◌, if_cases, arith}
use ccbench.Common.Family.{assign}
use ccbench.Tpcc.Memory.{
  Buffer, load, int_of, reverse, AreBytes, assign_as_bigendian, assign_as_bigendian-reverse,
  parse_bigendian-reverse,
}
use ccbench.Tpcc.Names.{Copied, copy_from, copy_cstr, CLastKey, c_last_size, create, parse}

-- A string of `n` characters in memory.
pub record IsString (n : ℕ) (c : Buffer) : Type 0 where
  pub chars : (i : ℕ) → i < n → c i ≢ 0
  pub ends : c n ≡ 0

-- What is copied, if it fits.
record IsCopy (n at : ℕ) (input out : Buffer) (c : Copied) : Type 0 where
  len : c.len ≡ n
  chars : (i : ℕ) → i < n → c.out (at + i) ≡ input i
  ends : c.out (at + n) ≡ 0
  before : (k : ℕ) → k < at → c.out k ≡ out k

record IsPart (n at i : ℕ) (input out : Buffer) (c : Copied) : Type 0 where
  len : c.len ≡ n
  chars : (k : ℕ) → i ≤ k → k < n → c.out (at + k) ≡ input k
  ends : c.out (at + n) ≡ 0
  before : (k : ℕ) → k < at + i → c.out k ≡ out k

copy_from-IsPart :
    (n todo i at : ℕ) (input out : Buffer)
    → IsString n input
    → i ≤ n
    → n ≤ i + todo
    → IsPart n at i input out (copy_from todo i at input out)
unfolding copy_from
copy_from-IsPart n zero i at input out s le room = record {
  len = omega (arith, le, room);
  chars = λ k lo hi. absurd (omega (arith, le, room));
  ends = ground (arith, le, room);
  before = λ k lt. ground (arith, lt);
}
copy_from-IsPart n (suc todo) i at input out s le room =
    if_cases (IsPart n at i input out) (input i == 0)
      (record { out = assign out (at + i) 0; len = i })
      (copy_from todo (suc i) at input (assign out (at + i) (input i)))
      (λ nul.
        let last : i ≡ n = ground (arith, nul, le, s.chars i) in
        record {
          len = last;
          chars = λ k lo hi. absurd (omega (arith, last));
          ends = ground (arith, last);
          before = λ k lt. ground (arith, lt);
        })
      (λ char.
        let rest =
          copy_from-IsPart n todo (suc i) at input (assign out (at + i) (input i)) s
            (ground (arith, char, le, s.ends)) (omega (arith, room)) in
        record {
          len = rest.len;
          chars = λ k lo hi. ground (arith, lo, rest.chars k, rest.before (at + k));
          ends = rest.ends;
          before = λ k lt. ground (arith, lt, rest.before k);
        })

copy_cstr-IsCopy :
    (n at size : ℕ) (input out : Buffer)
    → IsString n input
    → n < size
    → IsCopy n at input out (copy_cstr at input size out)
unfolding copy_cstr
copy_cstr-IsCopy n at size input out s lt =
    if_cases (IsCopy n at input out) (size == 0) (record { out = out; len = 0 })
      (copy_from (size - 1) 0 at input out) (λ e. absurd (ground (arith, e)))
      (λ e.
        let part =
          copy_from-IsPart n (size - 1) 0 at input out s (omega arith) (omega (arith, lt)) in
        record {
          len = part.len;
          chars = λ k hi. part.chars k (omega arith) hi;
          ends = part.ends;
          before = λ k h. part.before k (omega (arith, h));
        })

module _ (n : ℕ) (key : CLastKey) (out : Buffer) (s : IsString n key.c_last)
    (room : n < c_last_size) where
  -- What `create` has written before the name.
  abbrev ids : Buffer
  ids = assign_as_bigendian 1 key.c_d_id 2 (assign_as_bigendian 2 key.c_w_id 0 out)

  created : IsCopy n 3 key.c_last ids (copy_cstr 3 key.c_last c_last_size ids)
  created = copy_cstr-IsCopy n 3 c_last_size key.c_last ids s room

  created-len : (create key out).len ≡ 3 + n
  unfolding create
  created-len = omega (arith, created.len)

  created-chars : (i : ℕ) → i < n → (create key out).out (3 + i) ≡ key.c_last i
  unfolding create
  created-chars i lt = created.chars i lt

  created-IsString : IsString n (λ i. (create key out).out (3 + i))
  unfolding create
  created-IsString = record {
    chars = λ i lt z. s.chars i lt (omega (arith, created.chars i lt, z));
    ends = created.ends;
  }

  created-AreBytes : AreBytes 3 (load 3 0 (create key out).out)
  unfolding create
  created-AreBytes =
      rw
        (
          created.before 0 (omega arith),
          created.before 1 (omega arith),
          created.before 2 (omega arith),
          assign_as_bigendian-reverse 1 key.c_d_id,
          assign_as_bigendian-reverse 2 key.c_w_id,
        )
        (ground arith)

  created-int_of :
      key.c_w_id < 2 ^ 16
      → key.c_d_id < 2 ^ 8
      → (int_of (reverse (load 2 0 (create key out).out)) ≡ key.c_w_id)
        × (int_of (reverse (load 1 2 (create key out).out)) ≡ key.c_d_id)
  unfolding create
  created-int_of hw hd =
      rw
        (
          created.before 0 (omega arith),
          created.before 1 (omega arith),
          created.before 2 (omega arith),
          assign_as_bigendian-reverse 1 key.c_d_id,
          assign_as_bigendian-reverse 2 key.c_w_id,
        )
        (omega (arith, hw), omega (arith, hd))

  -- A name of `n` characters that fits in `C_LAST` and ids that fit their fields are found again, whatever
  -- memory they were written to: `create` returns 3 + n, and `parse` of what it wrote returns the same, the
  -- ids, and, in `c_last_out`, the name with its end.
  pub last_name_key_parse :
      (c_last_out : Buffer)
      → key.c_w_id < 2 ^ 16
      → key.c_d_id < 2 ^ 8
      → ((create key out).len ≡ 3 + n)
        × ((parse (create key out).out c_last_out).len ≡ 3 + n)
        × ((parse (create key out).out c_last_out).c_w_id ≡ key.c_w_id)
        × ((parse (create key out).out c_last_out).c_d_id ≡ key.c_d_id)
        × ((i : ℕ) → i < n → (parse (create key out).out c_last_out).c_last_out i ≡ key.c_last i)
        × ((parse (create key out).out c_last_out).c_last_out n ≡ 0)
  unfolding parse
  last_name_key_parse c_last_out hw hd =
      let (w, d) = created-int_of hw hd in
      let bytes = created-AreBytes in
      let copy =
        copy_cstr-IsCopy n 0 c_last_size (λ i. (create key out).out (3 + i)) c_last_out
          created-IsString room in
      (
        created-len,
        omega (arith, copy.len),
        parse_bigendian-reverse 2 0 (create key out).out (bytes.0, (bytes.1.0, tt)) ∙ w,
        parse_bigendian-reverse 1 2 (create key out).out (bytes.1.1.0, tt) ∙ d,
        λ i lt. ground (arith, copy.chars i lt, created-chars i lt),
        ground (arith, copy.ends),
      )
