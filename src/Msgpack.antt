-- ===== src/Msgpack.antt =====
-- msgpack-c as a parameter: objects, the adaptors for the field types of the message structs, and
-- the unpacker. The library is not part of the repository; the fields below are what
-- include/serf-cpp/SerfMsgStructs.h and src/ call, and the laws are its documented behaviour.
use serf_cpp.Prelude.{
  ℕ, ◌≤◌, ◌<◌, ◌^◌, ℤ, IsInt32, String, Bool, true, Option, none, some, List, [], ◌∷◌, ◌≡◌, lookup,
  arith, ◌>>=◌, distinct, ascending, map, map_option, All, refl,
}

-- `unpacker::next`: an object, no complete object yet, or a thrown `parse_error`.
pub data Next (Object Unpacker : Type 0) : Type 0 where
  got : Object → Unpacker → Next Object Unpacker
  dry : Unpacker → Next Object Unpacker
  bad : Unpacker → Next Object Unpacker

pub record Msgpack : Type 1 where
  pub Object : Type 0
  pub Unpacker : Type 0
  -- packing
  pub of_str : String → Object
  pub of_bool : Bool → Object
  pub of_uint : ℕ → Object
  pub of_int : ℤ → Object
  pub of_double : ℕ → Object
  pub of_bytes : List ℕ → Object
  pub of_array : List Object → Object
  pub of_map : List (String × Object) → Object
  pub of_str_map : List (String × String) → Object
  pub of_int_map : List (String × ℤ) → Object
  -- conversion; `none` is a thrown `type_error`
  pub as_str : Object → Option String
  pub as_bool : Object → Option Bool
  pub as_uint : ℕ → Object → Option ℕ
  pub as_int : Object → Option ℤ
  pub as_double : Object → Option ℕ
  pub as_bytes : Object → Option (List ℕ)
  pub as_array : Object → Option (List Object)
  pub as_str_map : Object → Option (List (String × String))
  pub as_int_map : Object → Option (List (String × ℤ))
  -- the tests and the lookup by which MSGPACK_DEFINE_MAP converts a struct
  pub is_map : Object → Bool
  pub find : String → Object → Option Object
  -- a conversion undoes the packing of a value that the target type can hold
  pub as_str-of_str : (s : String) → as_str (of_str s) ≡ some s
  pub as_bool-of_bool : (b : Bool) → as_bool (of_bool b) ≡ some b
  pub as_uint-of_uint : (w n : ℕ) → n < 2 ^ w → as_uint w (of_uint n) ≡ some n
  pub as_int-of_int : (z : ℤ) → IsInt32 z → as_int (of_int z) ≡ some z
  pub as_double-of_double : (d : ℕ) → as_double (of_double d) ≡ some d
  pub as_bytes-of_bytes : (bs : List ℕ) → as_bytes (of_bytes bs) ≡ some bs
  pub as_array-of_array : (os : List Object) → as_array (of_array os) ≡ some os
  pub as_str_map-of_str_map :
      (kvs : List (String × String)) → ascending kvs ≡ true → as_str_map (of_str_map kvs) ≡ some kvs
  pub as_int_map-of_int_map :
      (kvs : List (String × ℤ))
      → ascending kvs ≡ true
      → All (λ kv. IsInt32 kv.1) kvs
      → as_int_map (of_int_map kvs) ≡ some kvs
  pub is_map-of_map : (kvs : List (String × Object)) → is_map (of_map kvs) ≡ true
  pub find-of_map :
      (kvs : List (String × Object)) (k : String)
      → distinct kvs ≡ true
      → find k (of_map kvs) ≡ lookup k kvs
  -- the unpacker: bytes are appended, and an object takes at least one of them away
  pub feed : Unpacker → List ℕ → Unpacker
  pub next : Unpacker → Next Object Unpacker
  pub size : Unpacker → ℕ
  pub next-got : (u : Unpacker) (o : Object) (v : Unpacker) → next u ≡ got o v → size v < size u
  pub next-dry : (u v : Unpacker) → next u ≡ dry v → size v ≤ size u
  pub next-bad : (u v : Unpacker) → next u ≡ bad v → size v ≤ size u

-- A struct member: an absent key leaves the member as it was.
module _ ⦃m : Msgpack⦄ where
  open m use {Object, find, of_map, find-of_map}

  abbrev pub field : {A : Type 0} → String → (Object → Option A) → A → Object → Option A
  field k as_value old o = elim (find k o) [ none ↦ some old | some v ↦ as_value v ]

  pub field_lem :
      {A : Type 0} (kvs : List (String × Object)) (as_value : Object → Option A) (k : String)
      (old a : A) (v : Object)
      → distinct kvs ≡ true
      → lookup k kvs ≡ some v
      → as_value v ≡ some a
      → field k as_value old (of_map kvs) ≡ some a
  field_lem kvs as_value k old a v d e p = ground (arith, find-of_map kvs k d)

  open m use {
    as_array-of_array, as_str-of_str, as_double-of_double, of_array, as_array, of_str, as_str,
    of_double, as_double,
  }

  -- vector<string> and vector<double>
  unfoldable pub pack_strings : List String → Object
  pack_strings xs = of_array (map of_str xs)

  unfoldable pub as_strings : Object → Option (List String)
  as_strings o = do os ← as_array o; map_option as_str os

  unfoldable pub pack_doubles : List ℕ → Object
  pack_doubles xs = of_array (map of_double xs)

  unfoldable pub as_doubles : Object → Option (List ℕ)
  as_doubles o = do os ← as_array o; map_option as_double os

  pub as_strings-pack : (xs : List String) → as_strings (pack_strings xs) ≡ some xs
  unfolding as_strings pack_strings
  as_strings-pack xs = rw (as_array-of_array (map of_str xs)) (every_str xs)
    where
      every_str : (ys : List String) → map_option as_str (map of_str ys) ≡ some ys
      every_str [] = refl
      every_str (y ∷ ys) = rw (as_str-of_str y, every_str ys)

  pub as_doubles-pack : (xs : List ℕ) → as_doubles (pack_doubles xs) ≡ some xs
  unfolding as_doubles pack_doubles
  as_doubles-pack xs = rw (as_array-of_array (map of_double xs)) (every_double xs)
    where
      every_double : (ys : List ℕ) → map_option as_double (map of_double ys) ≡ some ys
      every_double [] = refl
      every_double (y ∷ ys) = rw (as_double-of_double y, every_double ys)
