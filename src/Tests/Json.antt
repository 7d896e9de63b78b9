-- ===== src/Tests/Json.antt =====
-- The theorems on JSON bodies, at a list that contains itself and at large integers.
use rqx.Base.{ℕ, false, [], ◌∷◌, some, nat_beq, if◌then◌else◌, display_nat}
use rqx.Base.Int.{pos, display_i32}
use rqx.Exceptions.{py_ok}
use rqx.PyJson.{Floats, PyObject, py_int, py_list, max_depth, json_body}
use rqx.PyJson.Depth.{Ends, Nests, json_body-Ends}

abbrev floats : Floats
floats = record {
  F64 = ℕ;
  from_f64 = some;
  is_nan = λ v. false;
  is_positive = λ v. false;
  to_cow = py_ok;
  str_float = λ v. py_ok (display_nat v);
  str_int = λ n. py_ok (display_i32 n);
}

-- xs = [7]; xs.append(xs)
abbrev cyclic : ℕ → PyObject ℕ
cyclic a = if nat_beq a 0 then py_list (1 ∷ 0 ∷ []) else py_int (pos 7)

json_body-Ends_example :
    Ends (λ v. Nests floats cyclic max_depth (cyclic 0)) (json_body floats cyclic 0)
json_body-Ends_example = json_body-Ends floats cyclic 0
