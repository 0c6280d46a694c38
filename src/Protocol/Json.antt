-- ===== src/Protocol/Json.antt =====
-- The JSON values of common/protocol.py: `json.dumps`, `json.loads` and UTF-8 stand between a value and
-- the bytes of a message, and are outside.
use redcloud_files.Base.{
  ℕ, String, Bool, Option, none, some, List, [], ◌∷◌, ◌≡◌, refl, if◌then◌else◌, str_eq,
}
use redcloud_files.Base.Dict.{Dict}
use redcloud_files.Chunkserver.Index.{ℤ, pos}

-- `Items` and `Fields` are the lists inside an array and an object.
mutual
  pub data Json : Type 0 where
    null : Json
    bool : Bool → Json
    int : ℤ → Json
    str : String → Json
    arr : Items → Json
    object : Fields → Json

  pub data Items : Type 0 where
    nil : Items
    cons : Json → Items → Items

  pub data Fields : Type 0 where
    end : Fields
    field : String → Json → Fields → Fields

infixl 5 ◌>>=◌
abbrev pub ◌>>=◌ {ℓ κ} : {A : Type ℓ} {B : Type κ} → Option A → (A → Option B) → Option B
none >>= rest = none
some a >>= rest = rest a

-- `obj[key]`, which raises (none here) on a missing key. A field of another type than the message has
-- is none here; Python takes it as it is.
unfoldable pub look_up : String → Fields → Option Json
look_up key end = none
look_up key (field k v rest) = if str_eq k key then some v else look_up key rest

unfoldable pub get : String → Json → Option Json
get key (object fields) = look_up key fields
get key _ = none

unfoldable pub as_str : Json → Option String
as_str (str s) = some s
as_str _ = none

unfoldable pub as_int : Json → Option ℤ
as_int (int n) = some n
as_int _ = none

unfoldable pub as_nat : Json → Option ℕ
as_nat (int (pos n)) = some n
as_nat _ = none

unfoldable pub as_bool : Json → Option Bool
as_bool (bool b) = some b
as_bool _ = none

abbrev pub get_str : String → Json → Option String
get_str key v = get key v >>= as_str

abbrev pub get_int : String → Json → Option ℤ
get_int key v = get key v >>= as_int

abbrev pub get_nat : String → Json → Option ℕ
get_nat key v = get key v >>= as_nat

abbrev pub get_bool : String → Json → Option Bool
get_bool key v = get key v >>= as_bool

-- `None` is `null`, and `obj.get(key)` is None on a missing key too
unfoldable pub optional : Option String → Json
optional none = null
optional (some s) = str s

abbrev pub get_optional : String → Json → Option String
get_optional key v = get key v >>= as_str

unfoldable pub strings : List String → Items
strings [] = nil
strings (s ∷ rest) = cons (str s) (strings rest)

unfoldable pub read_strings : Items → Option (List String)
read_strings nil = some []
read_strings (cons v rest) = do s ← as_str v; others ← read_strings rest; some (s ∷ others)

unfoldable pub as_strings : Json → Option (List String)
as_strings (arr items) = read_strings items
as_strings _ = none

abbrev pub get_strs : String → Json → Option (List String)
get_strs key v = get key v >>= as_strings

unfoldable pub counters : Dict ℕ → Fields
counters [] = end
counters ((k, n) ∷ rest) = field k (int (pos n)) (counters rest)

unfoldable pub read_counters : Fields → Option (Dict ℕ)
read_counters end = some []
read_counters (field k v rest) = do
  n ← as_nat v
  others ← read_counters rest
  some ((k, n) ∷ others)

unfoldable pub as_clock : Json → Option (Dict ℕ)
as_clock (object fields) = read_counters fields
as_clock _ = none

abbrev pub get_clock : String → Json → Option (Dict ℕ)
get_clock key v = get key v >>= as_clock

-- a list comprehension over the messages of a list, one way and the other
module _ {A : Type 0} (to_json : A → Json) where
  unfoldable pub messages : List A → Items
  messages [] = nil
  messages (m ∷ rest) = cons (to_json m) (messages rest)

module _ {A : Type 0} (from_json : Json → Option A) where
  unfoldable pub read_messages : Items → Option (List A)
  read_messages nil = some []
  read_messages (cons v rest) = do m ← from_json v; others ← read_messages rest; some (m ∷ others)

  unfoldable pub as_messages : Json → Option (List A)
  as_messages (arr items) = read_messages items
  as_messages _ = none

  unfoldable pub get_messages : String → Json → Option (List A)
  get_messages key v = get key v >>= as_messages

pub read_strings-strings : (xs : List String) → read_strings (strings xs) ≡ some xs
unfolding read_strings strings as_str
read_strings-strings [] = refl
read_strings-strings (x ∷ xs) = rw (read_strings-strings xs)

pub read_counters-counters : (d : Dict ℕ) → read_counters (counters d) ≡ some d
unfolding read_counters counters as_nat
read_counters-counters [] = refl
read_counters-counters ((k, n) ∷ d) = rw (read_counters-counters d)

pub read_messages-messages :
    {A : Type 0} (to_json : A → Json) (from_json : Json → Option A)
    → ((m : A) → from_json (to_json m) ≡ some m)
    → (ms : List A) → read_messages from_json (messages to_json ms) ≡ some ms
unfolding read_messages messages
read_messages-messages to_json from_json back [] = refl
read_messages-messages to_json from_json back (m ∷ ms) =
    rw (back m, read_messages-messages to_json from_json back ms)
