-- ===== src/PyJson/Numbers.antt =====
-- The integers that a JSON body can hold.
use rqx.Base.{ℕ, ◌^◌, ◌≤◌, ◌<◌, Bool, true, false, ltb, ◌≡◌, refl, arith, if◌then◌else◌}
use rqx.Base.Int.{ℤ, pos, negsuc, ◌≤ℤ◌, ◌<ℤ◌}
use rqx.Exceptions.{Arguments, PyResult, py_ok, py_err}
use rqx.Exceptions.Classes
use rqx.PyJson.{Number, int64, uint64, float64, encode_int}

-- 2 ^ 63
abbrev i64_limit : ℕ
i64_limit = 9223372036854775808

-- 2 ^ 64
abbrev u64_limit : ℕ
u64_limit = 18446744073709551616

-- what the encoding of the integer `i` says
abbrev pub IntPost : {F64 : Type 0} → ℤ → PyResult (Number F64) → Type 0
IntPost i (py_ok (int64 j)) = (j ≡ i) × (negsuc 9223372036854775807 ≤ℤ i) × (i <ℤ pos i64_limit)
IntPost i (py_ok (uint64 n)) = (i ≡ pos n) × (i64_limit ≤ n) × (n < u64_limit)
IntPost i (py_ok (float64 v)) = ⊥
IntPost (pos n) (py_err e) = (u64_limit ≤ n) × (e.class ≡ Classes.overflow_error)
IntPost (negsuc n) (py_err e) = (i64_limit ≤ n) × (e.class ≡ Classes.overflow_error)

-- Every integer from -2^63 to 2^64 - 1 is encoded as itself, as an `i64` where one holds it, and every
-- other one raises OverflowError.
pub encode_int-IntPost : (F64 : Type 0) (i : ℤ) → IntPost {F64 = F64} i (encode_int i)
unfolding encode_int
encode_int-IntPost F64 (pos n) = by_size (ltb n (2 ^ 63)) (ltb n (2 ^ 64)) refl refl _
  where
    by_size :
        (small fits : Bool)
        → ltb n (2 ^ 63) ≡ small
        → ltb n (2 ^ 64) ≡ fits
        → (args : Arguments)
        → IntPost {F64 = F64} (pos n) (
            if small
            then py_ok (int64 (pos n))
            else if fits
            then py_ok (uint64 n)
            else py_err (record { class = Classes.overflow_error; arguments = args }))
    by_size true fits e f args = (refl, omega arith, ground arith)
    by_size false true e f args = (refl, ground arith, ground arith)
    by_size false false e f args = (ground arith, refl)
encode_int-IntPost F64 (negsuc n) = by_size (ltb n (2 ^ 63)) refl _
  where
    by_size :
        (small : Bool)
        → ltb n (2 ^ 63) ≡ small
        → (args : Arguments)
        → IntPost {F64 = F64} (negsuc n) (
            if small
            then py_ok (int64 (negsuc n))
            else py_err (record { class = Classes.overflow_error; arguments = args }))
    by_size true e args = (refl, ground arith, omega arith)
    by_size false e args = (ground arith, refl)
