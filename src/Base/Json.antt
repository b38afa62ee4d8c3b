-- ===== src/Base/Json.antt =====
-- JSON values, and `json.dumps(value, sort_keys=True, separators=(",", ":"))` as the characters
-- that it writes, non-ASCII characters escaped.
use Prim.Native.Nat.{ℕ, zero, suc, ◌+◌, ◌-◌, ◌/◌, ◌%◌}
use Prim.Native.String.{String}
use mathlib.Core.Path.{◌≡◌, refl}
use mathlib.Core.Bool.{Bool, true, false}
use mathlib.Core.Option.{Option, none, some}
use mathlib.Core.List.{List, [], ◌∷◌, ◌++◌}
use native.Mathlib.Decide.{ℕ_discrete}
use meta_loop.Base.Equality.{Eq, String-discrete, ◌==◌, nat_eq, string_eq}
use meta_loop.Base.Tests.{ltb, if◌then◌else◌}
use meta_loop.Base.Texts.{codes, str_lt}
use meta_loop.Base.Int.{ℤ, pos, negsuc, ℤ-discrete}

-- An object is the list of its items. A text is a native one, or given by its characters.
mutual
  pub data Json : Type 0 where
    null : Json
    bool : Bool → Json
    num : ℤ → Json
    str : String → Json
    text : List ℕ → Json
    arr : Items → Json
    obj : Fields → Json

  pub data Items : Type 0 where
    nil : Items
    cons : Json → Items → Items

  pub data Fields : Type 0 where
    end : Fields
    field : String → Json → Fields → Fields

unfoldable pub Fields-discrete : Discrete Fields
unfolding String-discrete ℤ-discrete ℕ_discrete
Fields-discrete = hlevel (String-discrete, ℤ-discrete, ℕ_discrete)

instance abbrev pub fields_eq : Eq Fields
fields_eq = record { dec = Fields-discrete }

-- `value.get(k)`
abbrev pub field_of : String → Fields → Option Json
field_of k end = none
field_of k (field j v fs) = if k == j then some v else field_of k fs

-- a value that is a text
abbrev pub as_text : Option Json → Option String
as_text (some (str s)) = some s
as_text _ = none

-- the items of a list
abbrev pub items_list : Items → List Json
items_list nil = []
items_list (cons x xs) = x ∷ items_list xs

-- an optional text
abbrev pub str_or_null : Option String → Json
str_or_null none = null
str_or_null (some s) = str s

-- decimal digits, with fuel above the number of digits
digits_from : ℕ → ℕ → List ℕ → List ℕ
digits_from zero n acc = acc
digits_from (suc f) n acc =
    let rest = digits_from f (n / 10) ((b'0' + n % 10) ∷ acc) in
    if ltb n 10 then (b'0' + n) ∷ acc else rest

pub decimal : ℕ → List ℕ
unfolding digits_from
decimal n = digits_from (suc n) n []

hex_digit : ℕ → ℕ
hex_digit d = if ltb d 10 then b'0' + d else b'a' + (d - 10)

-- `\u` and four hexadecimal digits
unicode_escape : ℕ → List ℕ
unfolding hex_digit
unicode_escape c =
    b'\\'
    ∷ b'u'
    ∷ hex_digit (c / 4096 % 16)
    ∷ hex_digit (c / 256 % 16)
    ∷ hex_digit (c / 16 % 16)
    ∷ hex_digit (c % 16)
    ∷ []

-- a character inside a JSON string
escape : ℕ → List ℕ
unfolding unicode_escape
escape c =
    if c == b'"'
    then b'\\' ∷ b'"' ∷ []
    else if c == b'\\'
    then b'\\' ∷ b'\\' ∷ []
    else if c == 10
    then b'\\' ∷ b'n' ∷ []
    else if c == 13
    then b'\\' ∷ b'r' ∷ []
    else if c == 9
    then b'\\' ∷ b't' ∷ []
    else if c == 8
    then b'\\' ∷ b'b' ∷ []
    else if c == 12
    then b'\\' ∷ b'f' ∷ []
    else if ltb c 32
    then unicode_escape c
    else if ltb c 127
    then c ∷ []
    else if ltb c 65536
    then unicode_escape c
    else unicode_escape (55296 + (c - 65536) / 1024) ++ unicode_escape (56320 + (c - 65536) % 1024)

escape_all : List ℕ → List ℕ
unfolding escape
escape_all [] = []
escape_all (c ∷ s) = escape c ++ escape_all s

quoted : List ℕ → List ℕ
unfolding escape_all
quoted s = b'"' ∷ (escape_all s ++ b'"' ∷ [])

-- the written items of an object in the order of their keys
insert_item : String → List ℕ → List (String × List ℕ) → List (String × List ℕ)
insert_item k v [] = (k, v) ∷ []
insert_item k v ((j, w) ∷ d) =
    if str_lt j k then (j, w) ∷ insert_item k v d else (k, v) ∷ (j, w) ∷ d

sort_items : List (String × List ℕ) → List (String × List ℕ)
unfolding insert_item
sort_items [] = []
sort_items ((k, v) ∷ d) = insert_item k v (sort_items d)

-- `,` between the parts
join : List (List ℕ) → List ℕ
join [] = []
join (s ∷ []) = s
join (s ∷ t ∷ r) = s ++ b',' ∷ join (t ∷ r)

join_items : List (String × List ℕ) → List ℕ
unfolding quoted
join_items [] = []
join_items ((k, v) ∷ []) = quoted (codes k) ++ b':' ∷ v
join_items ((k, v) ∷ i ∷ r) = quoted (codes k) ++ (b':' ∷ v) ++ b',' ∷ join_items (i ∷ r)

unfoldable mutual
  unfolding decimal quoted sort_items join join_items

  pub dumps : Json → List ℕ
  dumps null = codes "null"
  dumps (bool true) = codes "true"
  dumps (bool false) = codes "false"
  dumps (num (pos n)) = decimal n
  dumps (num (negsuc n)) = b'-' ∷ decimal (suc n)
  dumps (str s) = quoted (codes s)
  dumps (text s) = quoted s
  dumps (arr xs) = b'[' ∷ (join (dumps_items xs) ++ b']' ∷ [])
  dumps (obj fs) = b'{' ∷ (join_items (sort_items (dumps_fields fs)) ++ b'}' ∷ [])

  pub dumps_items : Items → List (List ℕ)
  dumps_items nil = []
  dumps_items (cons x xs) = dumps x ∷ dumps_items xs

  pub dumps_fields : Fields → List (String × List ℕ)
  dumps_fields end = []
  dumps_fields (field k v fs) = (k, dumps v) ∷ dumps_fields fs

test :
    dumps
      (obj (field "b" (num (pos 120)) (field "a" (arr (cons (str "x\"y") (cons null nil))) end)))
    ≡ codes "{\"a\":[\"x\\\"y\",null],\"b\":120}"
unfolding dumps String-discrete ℕ_discrete
test = refl
