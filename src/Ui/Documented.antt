-- ===== src/Ui/Documented.antt =====
-- The properties of a document that ui_document_read() of common/ui/config.c has read.
use limine_eucleia.Prelude.{
  ℕ, zero, suc, ◌-◌, ◌≤◌, ◌<◌, ◌≡◌, ◌⊎◌, ◌∙◌, ap, sym, refl, inl, inr, Bool, true, false, not, ◌&&◌,
  ◌||◌, Option, none, some, List, [], ◌∷◌, ◌++◌, arith, ltb, ◌==◌, if◌then◌else◌, length,
  length-append, take, drop, get_elem?, get_or, All, Bool-cases,
}
use Prim.Native.Nat.{Ordering}
use mathlib.Core.Bool.{false≢true}
use limine_eucleia.Text.Strings.{strcmp, strchr}
use limine_eucleia.Text.Compared.{strcmp-eq}
use limine_eucleia.Ui.Document.{
  is_eq, trim, Property, Document, max_fields, valid_section, matches, has_property, Line, failed,
  next, add_property, property_line, read_line, Reading, after_line, text_lines, has_bad_character,
  max_size, read_lines, document_read, put_back, mark, got, document_get,
}

is_eq-eq : (o : Ordering) → is_eq o ≡ true → o ≡ Ordering.eq
is_eq-eq Ordering.lt e = absurd (false≢true e)
is_eq-eq Ordering.eq e = refl
is_eq-eq Ordering.gt e = absurd (false≢true e)

is_eq-strcmp : (a b : List ℕ) → is_eq (strcmp a b) ≡ true → a ≡ b
is_eq-strcmp a b e = (strcmp-eq a b).0 (is_eq-eq (strcmp a b) e)

strcmp_same : (a : List ℕ) → is_eq (strcmp a a) ≡ true
strcmp_same a = ap is_eq ((strcmp-eq a a).1 refl)

and_both : (a b : Bool) → (a && b) ≡ true → (a ≡ true) × (b ≡ true)
and_both true b e = (refl, e)
and_both false b e = absurd (false≢true e)

matches-eq : (f : Property) (s k : List ℕ) → matches f s k ≡ true → (f.section ≡ s) × (f.key ≡ k)
matches-eq f s k e =
    let both = and_both (is_eq (strcmp f.section s)) (is_eq (strcmp f.key k)) e in
    (is_eq-strcmp f.section s both.0, is_eq-strcmp f.key k both.1)

matches_self : (f : Property) → matches f f.section f.key ≡ true
matches_self f = rw (strcmp_same f.section) (strcmp_same f.key)

matches_swap :
    (f g : Property) → matches f g.section g.key ≡ false → matches g f.section f.key ≡ false
matches_swap f g h = elim (Bool-cases (matches g f.section f.key)) [
  | inr e ↦ e
  | inl e ↦
      let same = matches-eq g f.section f.key e in
      absurd (false≢true (sym h ∙ (rw (same.0, same.1) (matches_self f))))
]

has_property-append :
    (fs gs : List Property) (s k : List ℕ)
    → has_property (fs ++ gs) s k ≡ (has_property fs s k || has_property gs s k)
unfolding has_property
has_property-append [] gs s k = refl
has_property-append (f ∷ fs) gs s k =
    or_step (matches f s k) (has_property (fs ++ gs) s k) (has_property fs s k)
      (has_property gs s k) (has_property-append fs gs s k)
  where
    or_step : (b x y z : Bool) → x ≡ (y || z) → (b || x) ≡ ((b || y) || z)
    or_step true x y z e = refl
    or_step false x y z e = e

-- No two properties have the same section and key.
abbrev pub Distinct : List Property → Type 0
Distinct [] = Unit
Distinct (f ∷ fs) = (has_property fs f.section f.key ≡ false) × Distinct fs

abbrev pub ValidProperty : Property → Type 0
ValidProperty f =
    (0 < length f.key)
    × ((length f.key ≤ 48)
        × ((length f.value ≤ 1024) × ((f.section ≡ []) ⊎ (valid_section f.section ≡ true))))

pub record ValidFields (fields : List Property) : Type 0 where
  pub each : All ValidProperty fields
  pub distinct : Distinct fields
  pub few : length fields ≤ max_fields

or_false : (a b : Bool) → (a || b) ≡ false → (a ≡ false) × (b ≡ false)
or_false true b e = absurd (false≢true (sym e))
or_false false b e = (refl, e)

Distinct-append :
    (fs : List Property) (g : Property)
    → Distinct fs
    → has_property fs g.section g.key ≡ false
    → Distinct (fs ++ (g ∷ []))
unfolding has_property
Distinct-append [] g d h = (refl, tt)
Distinct-append (f ∷ fs) g d h =
    let parts = or_false (matches f g.section g.key) (has_property fs g.section g.key) h in
    let apart : matches g f.section f.key ≡ false = matches_swap f g parts.0 in
    (
      has_property-append fs (g ∷ []) f.section f.key ∙ rw (d.0, apart) refl,
      Distinct-append fs g d.1 parts.1,
    )

All-append :
    (P : Property → Type 0) (fs : List Property) (g : Property)
    → All P fs
    → P g
    → All P (fs ++ (g ∷ []))
All-append P [] g a h = (h, tt)
All-append P (f ∷ fs) g a h = (a.0, All-append P fs g a.1 h)

abbrev KnownSection : List ℕ → Type 0
KnownSection section = (section ≡ []) ⊎ (valid_section section ≡ true)

abbrev ValidLine : Line → Type 0
ValidLine (failed message) = Unit
ValidLine (next section fields) = KnownSection section × ValidFields fields

ValidLine-if :
    (b : Bool) (x y : Line)
    → (b ≡ true → ValidLine x)
    → (b ≡ false → ValidLine y)
    → ValidLine (if b then x else y)
ValidLine-if true x y h k = h refl
ValidLine-if false x y h k = k refl

add_property-ValidLine :
    (section key value : List ℕ) (line : ℕ) (fields : List Property)
    → KnownSection section
    → ValidFields fields
    → length fields < max_fields
    → ValidLine (add_property section key value line fields)
add_property-ValidLine section key value line fields k v room =
    ValidLine-if (length key == 0 || ltb 48 (length key) || ltb 1024 (length value)) _ _ (λ e. tt)
      (λ e.
        ValidLine-if (has_property fields section key) _ _ (λ d. tt)
          (λ d.
            let g : Property = record {
              section = section;
              key = key;
              value = value;
              line = line;
              used = false;
            } in
            let sizes = within (length key) (length value) e in
            (
              k,
              record {
                each = All-append ValidProperty fields g v.each (sizes.0, (sizes.1, (sizes.2, k)));
                distinct = Distinct-append fields g v.distinct d;
                few = omega (arith, length-append fields (g ∷ []), room);
              },
            )))
  where
    within :
        (k v : ℕ) → (k == 0 || ltb 48 k || ltb 1024 v) ≡ false → (0 < k) × (k ≤ 48) × (v ≤ 1024)
    within k v e = ground (arith, e)

property_line-ValidLine :
    (section p : List ℕ) (line : ℕ) (fields : List Property) (o : Option ℕ)
    → KnownSection section
    → ValidFields fields
    → ValidLine (property_line section p line fields o)
property_line-ValidLine section p line fields none k v = tt
property_line-ValidLine section p line fields (some colon) k v =
    ValidLine-if (length fields == max_fields) _ _ (λ e. tt)
      (λ e.
        add_property-ValidLine section (trim (take colon p)) (trim (drop (suc colon) p)) line fields
          k v (less (length fields) e v.few))
  where
    less : (n : ℕ) → (n == 256) ≡ false → n ≤ 256 → n < 256
    less n e h = ground (arith, e, h)

read_line-ValidLine :
    (section p : List ℕ) (line : ℕ) (fields : List Property)
    → KnownSection section
    → ValidFields fields
    → ValidLine (read_line section p line fields)
read_line-ValidLine section p line fields k v =
    ValidLine-if (length p == 0) _ _ (λ e. (k, v))
      (λ e.
        ValidLine-if (get_or p 0 0 == 35) _ _ (λ f. (k, v))
          (λ f.
            ValidLine-if (get_or p 0 0 == 91) _ _
              (λ g.
                ValidLine-if (ltb (length p) 3 || not (get_or p (length p - 1) 0 == 93)) _ _
                  (λ h. tt)
                  (λ h.
                    ValidLine-if (valid_section (trim (drop 1 (take (length p - 1) p)))) _ _
                      (λ i. (inr i, v)) (λ i. tt)))
              (λ g. property_line-ValidLine section p line fields (strchr p 58) k v)))

after_line-ValidFields :
    (rest : Reading) (line : ℕ) (fields : List Property)
    → ValidFields fields
    → ((section : List ℕ) (fs : List Property)
        → KnownSection section
        → ValidFields fs
        → ValidFields (rest section line fs).fields)
    → (l : Line) → ValidLine l
    → ValidFields (after_line rest line fields l).fields
after_line-ValidFields rest line fields v h (failed message) w = v
after_line-ValidFields rest line fields v h (next section fs) w = h section fs w.0 w.1

read_lines-ValidFields :
    (ls : List (List ℕ)) (section : List ℕ) (line : ℕ) (fields : List Property)
    → KnownSection section
    → ValidFields fields
    → ValidFields (read_lines ls section line fields).fields
unfolding read_lines
read_lines-ValidFields [] section line fields k v = v
read_lines-ValidFields (l ∷ ls) section line fields k v =
    after_line-ValidFields (read_lines ls) (suc line) fields v
      (λ s fs k' v'. read_lines-ValidFields ls s (suc line) fs k' v')
      (read_line section (trim l) (suc line) fields)
      (read_line-ValidLine section (trim l) (suc line) fields k v)

no_fields : ValidFields []
no_fields = record { each = tt; distinct = tt; few = omega arith }

document-if :
    (b : Bool) (x y : Document)
    → ValidFields x.fields
    → ValidFields y.fields
    → ValidFields (if b then x else y).fields
document-if true x y h k = h
document-if false x y h k = k

document_read-ValidFields : (text : List ℕ) → ValidFields (document_read text).fields
unfolding document_read
document_read-ValidFields text =
    document-if (length text == 0 || ltb max_size (length text)) _ _ no_fields (
      document-if (has_bad_character text) _ _ no_fields
        (read_lines-ValidFields (text_lines text) [] 0 [] (inl refl) no_fields))

-- A property is not among others that have none of its section and key.
has_property-get_elem? :
    (fs : List Property) (s k : List ℕ) (i : ℕ) (f : Property)
    → has_property fs s k ≡ false
    → get_elem? fs i ≡ some f
    → matches f s k ≡ false
unfolding has_property
has_property-get_elem? [] s k i f h e = cc
has_property-get_elem? (g ∷ fs) s k zero f h e =
    let same : g ≡ f = cc in rw same at ((or_false (matches g s k) (has_property fs s k) h).0)
has_property-get_elem? (g ∷ fs) s k (suc i) f h e =
    has_property-get_elem? fs s k i f (or_false (matches g s k) (has_property fs s k) h).1 e

-- What is found: the property, and the fields with that one marked.
abbrev Finds : Property → Option (Property × List Property) → Type 0
Finds f none = ⊥
Finds f (some (p, fields)) = p ≡ f

put_back-Finds :
    (g f : Property) (o : Option (Property × List Property)) → Finds f o → Finds f (put_back g o)
put_back-Finds g f none h = h
put_back-Finds g f (some (p, fields)) h = h

mark-Finds :
    (fs : List Property) (i : ℕ) (f : Property)
    → Distinct fs
    → get_elem? fs i ≡ some f
    → Finds f (mark fs f.section f.key)
unfolding mark
mark-Finds [] i f d e = cc
mark-Finds (g ∷ fs) zero f d e = let same : g ≡ f = cc in rw same (rw (matches_self f) refl)
mark-Finds (g ∷ fs) (suc i) f d e =
    let apart : matches g f.section f.key ≡ false =
      matches_swap f g (has_property-get_elem? fs g.section g.key i f d.0 e) in
    rw apart (put_back-Finds g f (mark fs f.section f.key) (mark-Finds fs i f d.1 e))

got-Finds :
    (doc : Document) (f : Property) (o : Option (Property × List Property))
    → Finds f o
    → (got doc o).1 ≡ some f.value
got-Finds doc f none h = absurd h
got-Finds doc f (some (p, fields)) h = ap (λ (x : Property). some x.value) h

-- Whatever the text, the properties that ui_document_read() leaves in the document are at most
-- 256, each with a key of 1 to 48 characters, a value of at most 1024, and no section or a valid
-- one, and no two have the same section and key; and ui_document_get() finds each of them under
-- its section and key and returns its value.
pub document_read-get :
    (text : List ℕ)
    → ValidFields (document_read text).fields
      × ((i : ℕ) (f : Property)
          → get_elem? (document_read text).fields i ≡ some f
          → (document_get (document_read text) f.section f.key).1 ≡ some f.value)
unfolding document_get
document_read-get text = (
  document_read-ValidFields text,
  λ i f e.
      got-Finds (document_read text) f (mark (document_read text).fields f.section f.key)
        (mark-Finds (document_read text).fields i f (document_read-ValidFields text).distinct e),
)
