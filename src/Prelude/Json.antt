-- ===== src/Prelude/Json.antt =====
-- `serde_json::Value`, the public enum that the code matches on, with the accessors it calls.
-- `Map` holds each key once, so an object is the list of its fields and `get` finds the first.
use Prim.Native.Nat.{ℕ, ◌^◌}
use Prim.Native.String.{String}
use mathlib.Core.Path.{◌≡◌}
use mathlib.Core.Bool.{Bool, true, false}
use native.Mathlib.Omega.{arith}
use text.Mathlib.TextEquality.{eq_iff}
use text.Mathlib.TextPositions.{eq_refl}
use mathlib.Core.Option.{Option, none, some}
use wezterm_attention.Prelude.Tests.{if◌then◌else◌, ltb}
use wezterm_attention.Prelude.Texts.{str_eq}

-- `neg_int n` is -(n + 1); a float is not read by any code here, and keeps its spelling.
pub data Number : Type 0 where
  pos_int : ℕ → Number
  neg_int : ℕ → Number
  float : String → Number

mutual
  -- The members of a `Map`, in its order.
  pub data Members : Type 0 where
    no_member : Members
    member : (key : String) (value : Value) (others : Members) → Members

  pub data Value : Type 0 where
    null : Value
    object : Members → Value
    array : Elements → Value
    string : String → Value
    number : Number → Value
    boolean : Bool → Value

  pub data Elements : Type 0 where
    no_element : Elements
    element : (first : Value) (others : Elements) → Elements

abbrev pub find_member : Members → String → Option Value
find_member no_member k = none
find_member (member j v ms) k = if str_eq j k then some v else find_member ms k

-- `Map::insert`: the field's place is kept, or a new one is added.
abbrev pub insert_member : Members → String → Value → Members
insert_member no_member k v = member k v no_member
insert_member (member j w ms) k v =
    if str_eq j k then member j v ms else member j w (insert_member ms k v)

-- `Value::get`.
abbrev pub get : Value → String → Option Value
get (object fs) k = find_member fs k
get null k = none
get (boolean _) k = none
get (number _) k = none
get (string _) k = none
get (array _) k = none

-- `Value::as_str` and `Value::as_object`.
abbrev pub as_str : Value → Option String
as_str (string s) = some s
as_str null = none
as_str (boolean _) = none
as_str (number _) = none
as_str (array _) = none
as_str (object _) = none

abbrev pub as_object : Value → Option Members
as_object (object fs) = some fs
as_object null = none
as_object (boolean _) = none
as_object (number _) = none
as_object (string _) = none
as_object (array _) = none

-- `Value::as_u64`, and `Value::as_i64` as the sign and the number.
abbrev pub as_u64 : Value → Option ℕ
as_u64 (number (pos_int n)) = some n
as_u64 _ = none

abbrev pub as_i64 : Value → Option (Bool × ℕ)
as_i64 (number (pos_int n)) = if ltb n (2 ^ 63) then some (true, n) else none
as_i64 (number (neg_int n)) = some (false, n)
as_i64 _ = none

-- `Option::and_then`.
abbrev pub and_then {ℓ κ} : {A : Type ℓ} {B : Type κ} → Option A → (A → Option B) → Option B
and_then none f = none
and_then (some a) f = f a

-- `value.get(key).and_then(Value::as_str)`.
abbrev pub get_str : Value → String → Option String
get_str v k = and_then (get v k) as_str

-- A field inserted is found, and the others stand.
pub find_member-insert_member_self :
    (ms : Members) (k : String) (v : Value) → find_member (insert_member ms k v) k ≡ some v
find_member-insert_member_self no_member k v = rw (eq_refl k)
find_member-insert_member_self (member j w ms) k v =
    ground (arith, find_member-insert_member_self ms k v, eq_refl k)

pub find_member-insert_member_ne :
    (ms : Members) (k j : String) (v : Value)
    → str_eq k j ≡ false
    → find_member (insert_member ms k v) j ≡ find_member ms j
find_member-insert_member_ne no_member k j v h = rw h
find_member-insert_member_ne (member i w ms) k j v h =
    ground (arith, find_member-insert_member_ne ms k j v h, eq_iff i k)
