-- ===== src/Json.antt =====
-- The values of Python's `json` module. A number other than a natural one is kept as its text. A file
-- of JSON is represented by the value that it parses to, with the keys of an object in order.
use strix_halo_rocm_toolkit.Prelude.{
  ◌≡◌, ℕ, String, Bool, false, Option, none, some, List, [], ◌∷◌, Dict, on_option, str_eq, arith,
}

mutual
  pub data Json : Type 0 where
    null : Json
    boolean : Bool → Json
    number : ℕ → Json
    other_number text : String → Json
    array : Items → Json
    object : Fields → Json

  pub data Items : Type 0 where
    no_items : Items
    item : Json → Items → Items

  pub data Fields : Type 0 where
    no_fields : Fields
    field : String → Json → Fields → Fields

-- Python's view of an object and of an array.
abbrev pub dict_of : Fields → Dict Json
dict_of no_fields = []
dict_of (field k v fs) = (k, v) ∷ dict_of fs

abbrev pub fields_of : Dict Json → Fields
fields_of [] = no_fields
fields_of ((k, v) ∷ d) = field k v (fields_of d)

abbrev pub list_of : Items → List Json
list_of no_items = []
list_of (item v vs) = v ∷ list_of vs

abbrev pub items_of : List Json → Items
items_of [] = no_items
items_of (v ∷ vs) = item v (items_of vs)

-- `isinstance(value, …)`, with the value.
abbrev pub as_text : Json → Option String
as_text (text s) = some s
as_text _ = none

abbrev pub as_object : Json → Option (Dict Json)
as_object (object fs) = some (dict_of fs)
as_object _ = none

abbrev pub as_array : Json → Option (List Json)
as_array (array vs) = some (list_of vs)
as_array _ = none

abbrev pub as_boolean : Json → Option Bool
as_boolean (boolean b) = some b
as_boolean _ = none

-- A list, or a dict, of texts only.
abbrev pub cons_if {ℓ} : {A : Type ℓ} → Option A → Option (List A) → Option (List A)
cons_if none _ = none
cons_if (some a) none = none
cons_if (some a) (some as_) = some (a ∷ as_)

abbrev pub all_texts : List Json → Option (List String)
all_texts [] = some []
all_texts (v ∷ vs) = cons_if (as_text v) (all_texts vs)

abbrev pub paired : String → Option String → Option (String × String)
paired k none = none
paired k (some s) = some (k, s)

abbrev pub text_values : Dict Json → Option (Dict String)
text_values [] = some []
text_values ((k, v) ∷ d) = cons_if (paired k (as_text v)) (text_values d)

-- `value == text`, where the value may be missing.
abbrev pub text_is : Option Json → String → Bool
text_is value s = on_option value false (λ v. on_option (as_text v) false (str_eq s))

pub as_text-is : (v : Json) (s : String) → as_text v ≡ some s → v ≡ text s
as_text-is v s h = ground arith
