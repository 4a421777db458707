-- ===== src/Event/Json.antt =====
-- What the program uses of encoding/json: a JSON text as the tree that it stands for, and how the
-- package decodes an object into the fields of a struct. A JSON `null` leaves a field as it is, a
-- value of another kind is an error, a key that the struct does not have is skipped, and keys are
-- compared as they are spelled (the package's case folding is not modelled). Numbers are naturals;
-- a time is kept as its instant, in place of its RFC 3339 text.
use mathlib.Core.Option
use skene.Prelude.{ℕ, String, Bool, Option, none, some, List, [], ◌∷◌}

mutual
  pub data Json : Type 0 where
    null : Json
    bool : Bool → Json
    num : ℕ → Json
    str : String → Json
    time : ℕ → Json
    arr : Items → Json
    obj : Fields → Json

  pub data Items : Type 0 where
    no_items : Items
    item : Json → Items → Items

  pub data Fields : Type 0 where
    no_fields : Fields
    field : String → Json → Fields → Fields

-- json.RawMessage: a nil slice, bytes that are no JSON text, or a JSON text.
pub data RawMessage : Type 0 where
  nil : RawMessage
  malformed : RawMessage
  doc : Json → RawMessage

-- A field of a struct, decoded over its former value. A text is a sequence of characters, as valid UTF-8
-- is read: the package writes U+FFFD for a byte that is none, which no text of this model holds.
abbrev pub string_field : Json → String → Option String
string_field null old = some old
string_field (str s) old = some s
string_field _ old = none

abbrev pub int_field : Json → ℕ → Option ℕ
int_field null old = some old
int_field (num n) old = some n
int_field _ old = none

abbrev pub bool_field : Json → Bool → Option Bool
bool_field null old = some old
bool_field (bool b) old = some b
bool_field _ old = none

-- A time stands for its RFC 3339 text, which the package has for the years up to 9999: a later year, for
-- which time.Time.MarshalJSON returns an error, is outside this model.
abbrev pub time_field : Json → ℕ → Option ℕ
time_field null old = some old
time_field (time t) old = some t
time_field _ old = none

-- `RawMessage.UnmarshalJSON` keeps the text, that of `null` too.
abbrev pub raw_field : Json → RawMessage → Option RawMessage
raw_field j old = some (doc j)

abbrev pub string_items : Items → Option (List String)
string_items no_items = some []
string_items (item j rest) = elim (string_field j "") [
  | none ↦ none
  | some s ↦ Option.map (λ l. s ∷ l) (string_items rest)
]

abbrev pub strings_field : Json → List String → Option (List String)
strings_field null old = some []
strings_field (arr js) old = string_items js
strings_field _ old = none

abbrev pub string_list : List String → Items
string_list [] = no_items
string_list (s ∷ l) = item (str s) (string_list l)

-- A raw message inside a struct: nil is written `null`, and bytes that are no JSON are an error.
abbrev pub raw_json : RawMessage → Option Json
raw_json nil = some null
raw_json malformed = none
raw_json (doc j) = some j

-- How a struct is written and read: its fields in order, and the assignment of one key.
pub record Codec (A : Type 0) : Type 0 where
  pub zero_value : A
  pub encode : A → Option Fields
  pub assign : String → Json → A → Option A

abbrev pub decode_fields : {A : Type 0} → (String → Json → A → Option A) → Fields → A → Option A
decode_fields assign no_fields a = some a
decode_fields assign (field k j fs) a = elim (assign k j a) [
  | none ↦ none
  | some b ↦ decode_fields assign fs b
]

module _ {A : Type 0} ⦃c : Codec A⦄ where
  -- json.Marshal
  unfoldable pub marshal : A → Option RawMessage
  marshal a = Option.map (λ fs. doc (obj fs)) (c.encode a)

  -- `data, _ := json.Marshal(a)`: on an error the result is nil.
  unfoldable pub marshal_or_nil : A → RawMessage
  unfolding marshal
  marshal_or_nil a = elim (marshal a) [ none ↦ nil | some r ↦ r ]

  -- json.Unmarshal into a zero struct
  unfoldable pub unmarshal : RawMessage → Option A
  unmarshal nil = none
  unmarshal malformed = none
  unmarshal (doc null) = some c.zero_value
  unmarshal (doc (obj fs)) = decode_fields c.assign fs c.zero_value
  unmarshal (doc _) = none
