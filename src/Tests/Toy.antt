-- ===== src/Tests/Toy.antt =====
-- A concrete msgpack-c for the tests: objects as a data type, and an unpacker that reads one object
-- for each byte from a table. The byte 255 is malformed input.
use serf_cpp.Prelude.{
  ℕ, ◌≤◌, ◌<◌, ◌^◌, ℤ, pos, String, Bool, true, false, Option, none, some, List, [], ◌∷◌, ◌++◌, ◌≡◌,
  refl, arith, ap, ltb, ◌==◌, if◌then◌else◌, lookup, length,
}
use serf_cpp.Msgpack.{Msgpack, Next, got, dry, bad}

mutual
  pub data Value : Type 0 where
    text : String → Value
    boolean : Bool → Value
    integer : ℤ → Value
    double : ℕ → Value
    binary : List ℕ → Value
    texts : List (String × String) → Value
    counts : List (String × ℤ) → Value
    array : Values → Value
    struct : Members → Value

  pub data Values : Type 0 where
    nil : Values
    cons : Value → Values → Values

  pub data Members : Type 0 where
    end : Members
    member : String → Value → Members → Members

abbrev to_values : List Value → Values
to_values [] = nil
to_values (x ∷ xs) = cons x (to_values xs)

-- The values of an array, by recursion on a bound that is the list itself.
abbrev to_members : List (String × Value) → Members
to_members [] = end
to_members ((k, v) ∷ kvs) = member k v (to_members kvs)

abbrev from_values : Values → List Value
from_values nil = []
from_values (cons x xs) = x ∷ from_values xs

abbrev from_members : Members → List (String × Value)
from_members end = []
from_members (member k v kvs) = (k, v) ∷ from_members kvs

abbrev as_text : Value → Option String
as_text (text s) = some s
as_text _ = none

abbrev as_boolean : Value → Option Bool
as_boolean (boolean b) = some b
as_boolean _ = none

abbrev as_word : ℕ → Value → Option ℕ
as_word w (integer (pos n)) = if ltb n (2 ^ w) then some n else none
as_word w _ = none

abbrev as_integer : Value → Option ℤ
as_integer (integer z) = some z
as_integer _ = none

abbrev as_float : Value → Option ℕ
as_float (double d) = some d
as_float _ = none

abbrev as_binary : Value → Option (List ℕ)
as_binary (binary bs) = some bs
as_binary _ = none

abbrev as_values : Value → Option (List Value)
as_values (array vs) = some (from_values vs)
as_values _ = none

abbrev as_texts : Value → Option (List (String × String))
as_texts (texts m) = some m
as_texts _ = none

abbrev as_counts : Value → Option (List (String × ℤ))
as_counts (counts m) = some m
as_counts _ = none

abbrev is_struct : Value → Bool
is_struct (struct ms) = true
is_struct _ = false

abbrev find_member : String → Value → Option Value
find_member k (struct ms) = lookup k (from_members ms)
find_member k _ = none

abbrev read : (ℕ → Value) → List ℕ → Next Value (List ℕ)
read table [] = dry []
read table (b ∷ bs) = if b == 255 then bad bs else got (table b) bs

pub from_values-to : (xs : List Value) → from_values (to_values xs) ≡ xs
from_values-to [] = refl
from_values-to (x ∷ xs) = ap (◌∷◌ x) (from_values-to xs)

pub from_members-to : (kvs : List (String × Value)) → from_members (to_members kvs) ≡ kvs
from_members-to [] = refl
from_members-to ((k, v) ∷ kvs) = ap (◌∷◌ (k, v)) (from_members-to kvs)

pub as_word-fits : (w n : ℕ) → n < 2 ^ w → as_word w (integer (pos n)) ≡ some n
as_word-fits w n h = ground arith

pub read-got :
    (table : ℕ → Value) (u : List ℕ) (o : Value) (v : List ℕ)
    → read table u ≡ got o v
    → length v < length u
read-got table [] o v e = cc
read-got table (b ∷ bs) o v e = ground arith

pub read-dry : (table : ℕ → Value) (u v : List ℕ) → read table u ≡ dry v → length v ≤ length u
read-dry table [] v e = ground arith
read-dry table (b ∷ bs) v e = ground arith

pub read-bad : (table : ℕ → Value) (u v : List ℕ) → read table u ≡ bad v → length v ≤ length u
read-bad table [] v e = cc
read-bad table (b ∷ bs) v e = ground arith

abbrev pub toy : (ℕ → Value) → Msgpack
toy table = record {
  Object = Value;
  Unpacker = List ℕ;
  of_str = text;
  of_bool = boolean;
  of_uint = λ n. integer (pos n);
  of_int = integer;
  of_double = double;
  of_bytes = binary;
  of_array = λ os. array (to_values os);
  of_map = λ kvs. struct (to_members kvs);
  of_str_map = texts;
  of_int_map = counts;
  as_str = as_text;
  as_bool = as_boolean;
  as_uint = as_word;
  as_int = as_integer;
  as_double = as_float;
  as_bytes = as_binary;
  as_array = as_values;
  as_str_map = as_texts;
  as_int_map = as_counts;
  is_map = is_struct;
  find = find_member;
  as_str-of_str = λ s. refl;
  as_bool-of_bool = λ b. refl;
  as_uint-of_uint = as_word-fits;
  as_int-of_int = λ z h. refl;
  as_double-of_double = λ d. refl;
  as_bytes-of_bytes = λ bs. refl;
  as_array-of_array = λ os. ap some (from_values-to os);
  as_str_map-of_str_map = λ m h. refl;
  as_int_map-of_int_map = λ m h all. refl;
  is_map-of_map = λ kvs. refl;
  find-of_map = λ kvs k d. ap (lookup k) (from_members-to kvs);
  feed = λ u bytes. u ++ bytes;
  next = read table;
  size = length;
  next-got = read-got table;
  next-dry = read-dry table;
  next-bad = read-bad table;
}
