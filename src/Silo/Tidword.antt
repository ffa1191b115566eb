-- ===== src/Silo/Tidword.antt =====
-- silo/include/tuple.hh: the TID word. Its bit fields are those that gcc lays out from the lowest bit.
use ccbench.Common.{
  ℕ, ◌+◌, ◌*◌, ◌%◌, ◌^◌, ◌≤◌, ◌<◌, ◌≡◌, refl, Bool, true, false, ltb, if◌then◌else◌, arith,
}

pub record Tidword : Type 0 where
  pub lock : Bool
  pub latest : Bool
  pub absent : Bool
  pub tid : ℕ
  pub epoch : ℕ

abbrev pub bit : Bool → ℕ
bit b = if b then 1 else 0

-- `obj_`.
unfoldable pub obj : Tidword → ℕ
obj t = bit t.lock + 2 * bit t.latest + 4 * bit t.absent + 8 * t.tid + 2 ^ 32 * t.epoch

-- The fields hold what fits them.
abbrev pub IsTidword : Tidword → Type 0
IsTidword t = (t.tid < 2 ^ 29) × (t.epoch < 2 ^ 32)

abbrev pub zero_word : Tidword
zero_word = record { lock = false; latest = false; absent = false; tid = 0; epoch = 0 }

-- `std::max` with `operator<`.
unfoldable pub max_word : Tidword → Tidword → Tidword
unfolding obj
max_word a b = if ltb (obj a) (obj b) then b else a

-- `tid++` on a field of 29 bits.
unfoldable pub next_tid : Tidword → Tidword
next_tid t = record t { tid = (t.tid + 1) % 2 ^ 29 }

-- The TID that `writePhase` chooses.
unfoldable pub choose_tid : (max_wset max_rset mrctid : Tidword) (local_epoch : ℕ) → Tidword
unfolding max_word next_tid
choose_tid max_wset max_rset mrctid local_epoch =
    record (max_word (max_word (next_tid (max_word max_wset max_rset)) (next_tid mrctid))
      (record zero_word { epoch = local_epoch % 2 ^ 32 })) { lock = false; latest = true }

-- What orders the commits: the epoch first, and then the TID.
unfoldable pub version : Tidword → ℕ
version t = 2 ^ 29 * t.epoch + t.tid

obj_bounds : (t : Tidword) → (8 * version t ≤ obj t) × (obj t < 8 * version t + 8)
unfolding obj version
obj_bounds t = ground arith

abbrev pub HasRoom : Tidword → Type 0
HasRoom t = t.tid + 1 < 2 ^ 29

pub max_word-version :
    (a b : Tidword) → (version a ≤ version (max_word a b)) × (version b ≤ version (max_word a b))
unfolding max_word
max_word-version a b = ground (arith, obj_bounds a, obj_bounds b)

pub next_tid-version : (t : Tidword) → t.tid + 1 < 2 ^ 29 → version (next_tid t) ≡ version t + 1
unfolding next_tid version
next_tid-version t h = ground arith

pub max_word-HasRoom : (a b : Tidword) → HasRoom a → HasRoom b → HasRoom (max_word a b)
unfolding max_word
max_word-HasRoom a b = ground arith

-- The TID that `writePhase` chooses is later than the words of all that the transaction has read and
-- written and than the worker's last TID, and not before the worker's epoch, if the TID field of none
-- of these words is at its largest value and the worker's epoch fits 32 bits. It is free and marks the
-- latest version.
pub choose_tid-version :
    (max_wset max_rset mrctid : Tidword) (local_epoch : ℕ)
    → max_wset.tid + 1 < 2 ^ 29
    → max_rset.tid + 1 < 2 ^ 29
    → mrctid.tid + 1 < 2 ^ 29
    → local_epoch < 2 ^ 32
    → (version max_wset < version (choose_tid max_wset max_rset mrctid local_epoch))
      × (version max_rset < version (choose_tid max_wset max_rset mrctid local_epoch))
      × (version mrctid < version (choose_tid max_wset max_rset mrctid local_epoch))
      × (2 ^ 29 * local_epoch ≤ version (choose_tid max_wset max_rset mrctid local_epoch))
      × ((choose_tid max_wset max_rset mrctid local_epoch).lock ≡ false)
      × ((choose_tid max_wset max_rset mrctid local_epoch).latest ≡ true)
unfolding choose_tid version
choose_tid-version w r m e hw hr hm he = (
  omega (arith, a, l, max_word-version w r, next_tid-version (max_word w r) room),
  omega (arith, a, l, max_word-version w r, next_tid-version (max_word w r) room),
  omega (arith, a, l, next_tid-version m hm),
  omega (arith, a, he),
  refl,
  refl,
)
  where
    here : Tidword
    here = record zero_word { epoch = e % 2 ^ 32 }

    both : Tidword
    both = max_word (next_tid (max_word w r)) (next_tid m)

    room : HasRoom (max_word w r)
    room = max_word-HasRoom w r hw hr

    l : (version (next_tid (max_word w r)) ≤ version both) × (version (next_tid m) ≤ version both)
    l = max_word-version (next_tid (max_word w r)) (next_tid m)

    a :
        (version both ≤ version (max_word both here))
        × (version here ≤ version (max_word both here))
    a = max_word-version both here
