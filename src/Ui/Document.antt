-- ===== src/Ui/Document.antt =====
-- trim(), ui_document_read() and ui_document_get() of common/ui/config.c.
use limine_eucleia.Prelude.{
  ℕ, suc, ◌-◌, Bool, true, false, not, ◌&&◌, ◌||◌, Option, none, some, List, [], ◌∷◌, ◌++◌, ltb,
  ◌==◌, if◌then◌else◌, length, take, drop, get_or,
}
use Prim.Native.Nat.{Ordering}
use limine_eucleia.Text.Strings.{strcmp, strncmp, strchr}

abbrev pub is_eq : Ordering → Bool
is_eq o = elim o [ Ordering.eq ↦ true | _ ↦ false ]

abbrev pub is_space : ℕ → Bool
is_space c = c == 32 || c == 9 || c == 13

unfoldable pub trim_left : List ℕ → List ℕ
trim_left [] = []
trim_left (c ∷ s) = let rest = trim_left s in if is_space c then rest else c ∷ s

-- The characters up to the last one that is no space.
abbrev pub keep : ℕ → List ℕ → List ℕ
keep c [] = if is_space c then [] else c ∷ []
keep c (d ∷ s) = c ∷ d ∷ s

unfoldable pub trim_right : List ℕ → List ℕ
trim_right [] = []
trim_right (c ∷ s) = keep c (trim_right s)

unfoldable pub trim : List ℕ → List ℕ
trim s = trim_right (trim_left s)

-- `struct ui_property`.
pub record Property : Type 0 where
  pub section : List ℕ
  pub key : List ℕ
  pub value : List ℕ
  pub line : ℕ
  pub used : Bool

-- The messages of error().
pub data Message : Type 0 where
  empty_or_oversized : Message
  control_character : Message
  malformed_section : Message
  unknown_section : Message
  no_value_or_full : Message
  bad_key_or_value : Message
  duplicate_property : Message

-- `struct ui_document`; the count is the length of the fields.
pub record Document : Type 0 where
  pub fields : List Property
  pub error_line : ℕ
  pub error : Option Message

abbrev pub max_size : ℕ
max_size = 32768

abbrev pub max_fields : ℕ
max_fields = 256

abbrev pub bad_character : ℕ → Bool
bad_character c = c == 0 || (ltb c 32 && not (c == 10) && not (c == 13) && not (c == 9)) || c == 127

unfoldable pub has_bad_character : List ℕ → Bool
has_bad_character [] = false
has_bad_character (c ∷ s) = bad_character c || has_bad_character s

-- The text between newlines, at least one line.
abbrev pub add_char : ℕ → List (List ℕ) → List (List ℕ)
add_char c [] = (c ∷ []) ∷ []
add_char c (l ∷ ls) = (c ∷ l) ∷ ls

unfoldable pub text_lines : List ℕ → List (List ℕ)
text_lines [] = [] ∷ []
text_lines (c ∷ s) = let rest = text_lines s in if c == 10 then [] ∷ rest else add_char c rest

abbrev pub section_names : List (List ℕ)
section_names =
    (109 ∷ 101 ∷ 110 ∷ 117 ∷ [])
    ∷ (109 ∷ 101 ∷ 110 ∷ 117 ∷ 46 ∷ 105 ∷ 116 ∷ 101 ∷ 109 ∷ [])
    ∷ (109 ∷ 101 ∷ 110 ∷ 117 ∷ 46 ∷ 105 ∷ 116 ∷ 101 ∷ 109 ∷ 46 ∷ 108 ∷ 97 ∷ 98 ∷ 101 ∷ 108 ∷ [])
    ∷ (109 ∷ 101 ∷ 110 ∷ 117 ∷ 46 ∷ 105 ∷ 116 ∷ 101 ∷ 109 ∷ 46 ∷ 115 ∷ 101 ∷ 108 ∷ 101 ∷ 99 ∷ 116
        ∷ 101 ∷ 100 ∷ [])
    ∷ (104 ∷ 101 ∷ 97 ∷ 100 ∷ 105 ∷ 110 ∷ 103 ∷ [])
    ∷ (104 ∷ 105 ∷ 110 ∷ 116 ∷ 115 ∷ [])
    ∷ (104 ∷ 105 ∷ 110 ∷ 116 ∷ 115 ∷ 46 ∷ 107 ∷ 101 ∷ 121 ∷ [])
    ∷ (104 ∷ 105 ∷ 110 ∷ 116 ∷ 115 ∷ 46 ∷ 115 ∷ 101 ∷ 108 ∷ 101 ∷ 99 ∷ 116 ∷ [])
    ∷ (104 ∷ 105 ∷ 110 ∷ 116 ∷ 115 ∷ 46 ∷ 101 ∷ 110 ∷ 116 ∷ 101 ∷ 114 ∷ [])
    ∷ (104 ∷ 105 ∷ 110 ∷ 116 ∷ 115 ∷ 46 ∷ 101 ∷ 100 ∷ 105 ∷ 116 ∷ [])
    ∷ (104 ∷ 105 ∷ 110 ∷ 116 ∷ 115 ∷ 46 ∷ 98 ∷ 108 ∷ 97 ∷ 110 ∷ 107 ∷ [])
    ∷ (104 ∷ 105 ∷ 110 ∷ 116 ∷ 115 ∷ 46 ∷ 102 ∷ 105 ∷ 114 ∷ 109 ∷ 119 ∷ 97 ∷ 114 ∷ 101 ∷ [])
    ∷ (104 ∷ 105 ∷ 110 ∷ 116 ∷ 115 ∷ 46 ∷ 115 ∷ 104 ∷ 101 ∷ 108 ∷ 108 ∷ [])
    ∷ (100 ∷ 101 ∷ 116 ∷ 97 ∷ 105 ∷ 108 ∷ 115 ∷ [])
    ∷ (99 ∷ 111 ∷ 117 ∷ 110 ∷ 116 ∷ 100 ∷ 111 ∷ 119 ∷ 110 ∷ [])
    ∷ (100 ∷ 105 ∷ 118 ∷ 105 ∷ 100 ∷ 101 ∷ 114 ∷ [])
    ∷ (98 ∷ 97 ∷ 99 ∷ 107 ∷ 103 ∷ 114 ∷ 111 ∷ 117 ∷ 110 ∷ 100 ∷ [])
    ∷ (99 ∷ 117 ∷ 114 ∷ 115 ∷ 111 ∷ 114 ∷ [])
    ∷ []

unfoldable pub is_name : List (List ℕ) → List ℕ → Bool
is_name [] section = false
is_name (name ∷ names) section = is_eq (strcmp section name) || is_name names section

-- `entry "` at the start, and a quotation mark at the end.
abbrev pub is_entry : List ℕ → Bool
is_entry section =
    ltb 8 (length section)
    && (is_eq (strncmp section (101 ∷ 110 ∷ 116 ∷ 114 ∷ 121 ∷ 32 ∷ 34 ∷ []) 7)
        && get_or section (length section - 1) 0 == 34)

abbrev pub valid_section : List ℕ → Bool
valid_section section = is_name section_names section || is_entry section

abbrev pub matches : Property → (section key : List ℕ) → Bool
matches f section key = is_eq (strcmp f.section section) && is_eq (strcmp f.key key)

unfoldable pub has_property : List Property → (section key : List ℕ) → Bool
has_property [] section key = false
has_property (f ∷ fs) section key = matches f section key || has_property fs section key

-- What a line comes to: an error, or the section and the fields behind it.
pub data Line : Type 0 where
  failed : Message → Line
  next : (section : List ℕ) → List Property → Line

abbrev pub section_line : (p : List ℕ) → List Property → Line
section_line p fields =
    if ltb (length p) 3 || not (get_or p (length p - 1) 0 == 93)
    then failed malformed_section
    else (let section = trim (drop 1 (take (length p - 1) p)) in
        if valid_section section then next section fields else failed unknown_section)

abbrev pub add_property : (section key value : List ℕ) (line : ℕ) → List Property → Line
add_property section key value line fields =
    if length key == 0 || ltb 48 (length key) || ltb 1024 (length value)
    then failed bad_key_or_value
    else if has_property fields section key
    then failed duplicate_property
    else next section (
        fields
        ++ (record { section = section; key = key; value = value; line = line; used = false } ∷ []))

abbrev pub property_line : (section p : List ℕ) (line : ℕ) → List Property → Option ℕ → Line
property_line section p line fields none = failed no_value_or_full
property_line section p line fields (some colon) =
    if length fields == max_fields
    then failed no_value_or_full
    else add_property section (trim (take colon p)) (trim (drop (suc colon) p)) line fields

-- A line that is trimmed.
abbrev pub read_line : (section p : List ℕ) (line : ℕ) → List Property → Line
read_line section p line fields =
    if length p == 0
    then next section fields
    else if get_or p 0 0 == 35
    then next section fields
    else if get_or p 0 0 == 91
    then section_line p fields
    else property_line section p line fields (strchr p 58)

abbrev pub Reading : Type 0
Reading = (section : List ℕ) (line : ℕ) → List Property → Document

abbrev pub after_line : Reading → (line : ℕ) → List Property → Line → Document
after_line rest line fields (failed message) = record {
  fields = fields;
  error_line = line;
  error = some message;
}
after_line rest line fields (next section fields') = rest section line fields'

-- `line` counts the lines before.
unfoldable pub read_lines : List (List ℕ) → Reading
read_lines [] section line fields = record { fields = fields; error_line = 0; error = none }
read_lines (l ∷ ls) section line fields =
    after_line (read_lines ls) (suc line) fields (read_line section (trim l) (suc line) fields)

abbrev pub refuse : Message → Document
refuse message = record { fields = []; error_line = 0; error = some message }

unfoldable pub document_read : (text : List ℕ) → Document
document_read text =
    if length text == 0 || ltb max_size (length text)
    then refuse empty_or_oversized
    else if has_bad_character text
    then refuse control_character
    else read_lines (text_lines text) [] 0 []

abbrev pub put_back :
    Property → Option (Property × List Property) → Option (Property × List Property)
put_back f none = none
put_back f (some (p, fields)) = some (p, f ∷ fields)

-- The value, and the line of the property that is found; it is marked as used.
unfoldable pub mark : List Property → (section key : List ℕ) → Option (Property × List Property)
mark [] section key = none
mark (f ∷ fs) section key =
    let rest = mark fs section key in
    if matches f section key
    then some (f, record f { used = true } ∷ fs)
    else elim rest [ none ↦ none | some r ↦ some (r.0, f ∷ r.1) ]

abbrev pub got : Document → Option (Property × List Property) → Document × Option (List ℕ)
got doc none = (doc, none)
got doc (some (p, fields)) = (
  record {
    fields = fields;
    error_line = elim doc.error [ none ↦ p.line | some message ↦ doc.error_line ];
    error = doc.error;
  },
  some p.value,
)

unfoldable pub document_get : Document → (section key : List ℕ) → Document × Option (List ℕ)
document_get doc section key = got doc (mark doc.fields section key)
