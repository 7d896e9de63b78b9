-- ===== src/PyJson/Depth.antt =====
-- Encoding ends on every heap, cyclic ones too, and what it encodes nests at most 1000 deep.
use rqx.Base.{
  ℕ, zero, suc, ◌+◌, ◌<◌, Text, Bool, true, false, none, some, List, [], ◌∷◌, length, any, leb,
  nat_beq, ◌≡◌, refl, arith, if◌then◌else◌,
}
use rqx.Exceptions.{PyErr, PyResult, py_ok, py_err}
use rqx.PyJson.{
  of_text, Floats, Value, Members, PyObject, py_none, py_bool, py_int, py_float, py_string, py_dict,
  py_list, py_tuple, py_other, EncodePath, enter, max_depth, Encoded, encoded_then, of_number,
  encode_int, encode_float, encode_key, encode_items, encode_entries, encode_object, encode,
  json_body,
}

-- The containers of an object nest less than `n` deep, and so without a cycle.
module _ (P : Floats) (heap : ℕ → PyObject (Floats.F64 P)) where
  mutual
    pub data Nests : ℕ → PyObject (Floats.F64 P) → Type 0 where
      none_nests : {n : ℕ} → Nests n py_none
      bool_nests : {n : ℕ} {b : Bool} → Nests n (py_bool b)
      int_nests : {n : ℕ} {i : _} → Nests n (py_int i)
      float_nests : {n : ℕ} {v : _} → Nests n (py_float v)
      string_nests : {n : ℕ} {s : Text} → Nests n (py_string s)
      dict_nests :
          {n : ℕ} {entries : List (ℕ × ℕ)} → EntriesNest n entries → Nests (suc n) (py_dict entries)
      list_nests : {n : ℕ} {items : List ℕ} → ItemsNest n items → Nests (suc n) (py_list items)
      tuple_nests : {n : ℕ} {items : List ℕ} → ItemsNest n items → Nests (suc n) (py_tuple items)

    pub data ItemsNest : ℕ → List ℕ → Type 0 where
      no_items : {n : ℕ} → ItemsNest n []
      item :
          {n a : ℕ} {rest : List ℕ} → Nests n (heap a) → ItemsNest n rest → ItemsNest n (a ∷ rest)

    pub data EntriesNest : ℕ → List (ℕ × ℕ) → Type 0 where
      no_entries : {n : ℕ} → EntriesNest n []
      entry :
          {n k a : ℕ} {rest : List (ℕ × ℕ)}
          → Nests n (heap a)
          → EntriesNest n rest
          → EntriesNest n ((k, a) ∷ rest)

-- a call that ended, and whose value is as `Q` says
abbrev pub Ends : {A : Type 0} → (A → Type 0) → Encoded A → Type 0
Ends Q none = ⊥
Ends Q (some (py_err e)) = Unit {0}
Ends Q (some (py_ok a)) = Q a

record EndsIn {A : Type 0} (Q : A → Type 0) (m : Encoded A) : Type 0 where
  pub ended : Ends Q m

then-Ends :
    {A B : Type 0} (Q : A → Type 0) (R : B → Type 0) (m : Encoded A) (f : A → Encoded B)
    → Ends Q m
    → ((a : A) → Q a → EndsIn R (f a))
    → Ends R (encoded_then m f)
unfolding encoded_then
then-Ends Q R none f h g = h
then-Ends Q R (some (py_err e)) f h g = tt
then-Ends Q R (some (py_ok a)) f h g = let r = g a h in r.ended

then-EndsIn :
    {A B : Type 0} {Q : A → Type 0} {R : B → Type 0} {m : Encoded A} {f : A → Encoded B}
    → EndsIn Q m
    → ((a : A) → Q a → EndsIn R (f a))
    → EndsIn R (encoded_then m f)
then-EndsIn h g = record { ended = then-Ends _ _ _ _ h.ended g }

weaken :
    {A : Type 0} {Q R : Type 0} (m : Encoded A)
    → EndsIn (λ (x : A). Q) m
    → (Q → R)
    → EndsIn (λ (x : A). R) m
weaken none h f = absurd h.ended
weaken (some (py_err e)) h f = record { ended = tt }
weaken (some (py_ok a)) h f = record { ended = f h.ended }

-- A path that is entered grows by one, below the limit.
record IsEntered (path inner : EncodePath) : Type 0 where
  pub grown : length inner ≡ suc (length path)
  pub below : length path < max_depth

enter-EndsIn : (path : EncodePath) (a : ℕ) → EndsIn (IsEntered path) (some (enter path a))
unfolding enter
enter-EndsIn path a = record {
  ended = by_test (any (nat_beq a) path) (leb max_depth (length path)) refl _ _;
}
  where
    by_test :
        (circular deep : Bool)
        → leb max_depth (length path) ≡ deep
        → (x y : PyErr)
        → Ends
            (IsEntered path)
            (some (if circular then py_err x else if deep then py_err y else py_ok (a ∷ path)))
    by_test true deep e x y = tt
    by_test false true e x y = tt
    by_test false false e x y = record { grown = refl; below = ground arith }

module _ (P : Floats) (heap : ℕ → PyObject (Floats.F64 P)) where
  abbrev Json : Type 0
  Json = Value (Floats.F64 P)

  key-EndsIn : (k : ℕ) → EndsIn (λ key. Unit {0}) (some (encode_key P (heap k)))
  key-EndsIn k = any_result (encode_key P (heap k))
    where
      any_result : (r : PyResult Text) → EndsIn (λ key. Unit {0}) (some r)
      any_result (py_ok key) = record { ended = tt }
      any_result (py_err e) = record { ended = tt }

  module _ (n : ℕ) (encode : ℕ → Encoded Json)
      (go : (a : ℕ) → EndsIn (λ v. Nests P heap n (heap a)) (encode a)) where
    encode_items-EndsIn :
        (items : List ℕ)
        → EndsIn (λ vs. ItemsNest P heap n items) (encode_items P heap encode items)
    unfolding encode_items
    encode_items-EndsIn [] = record { ended = no_items }
    encode_items-EndsIn (a ∷ rest) = then-EndsIn (go a) (λ v nests.
        then-EndsIn (encode_items-EndsIn rest) (λ vs others. record { ended = item nests others }))

    encode_entries-EndsIn :
        (entries : List (ℕ × ℕ)) (map : Members (Floats.F64 P))
        → EndsIn (λ vs. EntriesNest P heap n entries) (encode_entries P heap encode entries map)
    unfolding encode_entries
    encode_entries-EndsIn [] map = record { ended = no_entries }
    encode_entries-EndsIn ((k, a) ∷ rest) map = then-EndsIn (key-EndsIn k) (λ key u.
        then-EndsIn (go a)
          (λ v nests. weaken _ (encode_entries-EndsIn rest _) (λ others. entry nests others)))

  number-EndsIn :
      (n : ℕ) (object : PyObject (Floats.F64 P)) (r : PyResult _)
      → Nests P heap n object
      → EndsIn (λ v. Nests P heap n object) (of_number P r)
  number-EndsIn n object (py_ok x) h = record { ended = h }
  number-EndsIn n object (py_err e) h = record { ended = tt }

  text-EndsIn :
      (n : ℕ) (s : Text) (r : PyResult Text)
      → EndsIn (λ v. Nests P heap n (py_string s)) (of_text P r)
  text-EndsIn n s (py_ok t) = record { ended = string_nests }
  text-EndsIn n s (py_err e) = record { ended = tt }

  module _ (fuel : ℕ)
      (go : (n : ℕ) (inner : EncodePath) (b : ℕ)
        → n + length inner ≡ max_depth
        → n < fuel
        → EndsIn (λ v. Nests P heap n (heap b)) (encode P heap fuel inner b)) where
    encode_object-EndsIn :
        (n : ℕ) (path : EncodePath) (a : ℕ) (object : PyObject (Floats.F64 P))
        → n + length path ≡ max_depth
        → n < suc fuel
        → EndsIn
            (λ v. Nests P heap n object)
            (encode_object P heap (λ inner b. encode P heap fuel inner b) path a object)
    unfolding encode_object
    encode_object-EndsIn n path a py_none e more = record { ended = none_nests }
    encode_object-EndsIn n path a (py_bool b) e more = record { ended = bool_nests }
    encode_object-EndsIn n path a (py_int i) e more = number-EndsIn n _ (encode_int i) int_nests
    encode_object-EndsIn n path a (py_float v) e more =
        number-EndsIn n _ (encode_float P v) float_nests
    encode_object-EndsIn n path a (py_string s) e more = text-EndsIn n s (Floats.to_cow P s)
    encode_object-EndsIn zero path a (py_dict entries) e more =
        then-EndsIn (enter-EndsIn path a) (λ inner entered. absurd (omega (arith, entered.below)))
    encode_object-EndsIn (suc n) path a (py_dict entries) e more =
        then-EndsIn (enter-EndsIn path a) (λ inner entered.
          let deeper : n + length inner ≡ max_depth = omega (arith, entered.grown) in
          then-EndsIn (encode_entries-EndsIn n _ (λ b. go n inner b deeper (omega arith)) entries _)
            (λ map nests. record { ended = dict_nests nests }))
    encode_object-EndsIn zero path a (py_list items) e more =
        then-EndsIn (enter-EndsIn path a) (λ inner entered. absurd (omega (arith, entered.below)))
    encode_object-EndsIn (suc n) path a (py_list items) e more =
        then-EndsIn (enter-EndsIn path a) (λ inner entered.
          let deeper : n + length inner ≡ max_depth = omega (arith, entered.grown) in
          then-EndsIn (encode_items-EndsIn n _ (λ b. go n inner b deeper (omega arith)) items)
            (λ vs nests. record { ended = list_nests nests }))
    encode_object-EndsIn zero path a (py_tuple items) e more =
        then-EndsIn (enter-EndsIn path a) (λ inner entered. absurd (omega (arith, entered.below)))
    encode_object-EndsIn (suc n) path a (py_tuple items) e more =
        then-EndsIn (enter-EndsIn path a) (λ inner entered.
          let deeper : n + length inner ≡ max_depth = omega (arith, entered.grown) in
          then-EndsIn (encode_items-EndsIn n _ (λ b. go n inner b deeper (omega arith)) items)
            (λ vs nests. record { ended = tuple_nests nests }))
    encode_object-EndsIn n path a (py_other name) e more = record { ended = tt }

  encode-EndsIn :
      (fuel n : ℕ) (path : EncodePath) (a : ℕ)
      → n + length path ≡ max_depth
      → n < fuel
      → EndsIn (λ v. Nests P heap n (heap a)) (encode P heap fuel path a)
  unfolding encode
  encode-EndsIn zero n path a e more = absurd (omega arith)
  encode-EndsIn (suc fuel) n path a e more =
      encode_object-EndsIn fuel (encode-EndsIn fuel) n path a (heap a) e more

-- On every heap, cyclic ones too, encoding an object ends within 1001 nested calls: it raises, or the
-- object's containers nest without a cycle, at most 1000 deep.
pub json_body-Ends :
    (P : Floats) (heap : ℕ → PyObject (Floats.F64 P)) (a : ℕ)
    → Ends (λ v. Nests P heap max_depth (heap a)) (json_body P heap a)
unfolding json_body
json_body-Ends P heap a =
    let h = encode-EndsIn P heap (suc max_depth) max_depth [] a (omega arith) (omega arith) in
    h.ended
