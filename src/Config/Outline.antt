-- ===== src/Config/Outline.antt =====
-- Menus as outlines, and the sections of a configuration that spell them.
use limine_eucleia.Prelude.{
  ℕ, zero, suc, ◌<◌, ◌≡◌, ◌∙◌, ap, refl, Bool, true, false, ◌&&◌, List, [], ◌∷◌, ◌++◌, arith, ◌==◌,
  if◌then◌else◌, drop, get_elem?, replicate,
}
use limine_eucleia.Config.Entry.{is_slash}
use limine_eucleia.Config.Sections.{Section}
use limine_eucleia.Config.Lines.{lines, values}
use limine_eucleia.Config.Tree.{
  not_child, direct_child, indirect_child, has_slashes, child_of, MenuEntry, null, entry,
  skip_spaces, is_expanded, label, comment_key,
}

-- A menu: its items from the first on, each with the menu below it.
pub data Outline : Type 0 where
  done : Outline
  item : (title : List ℕ) (expanded : Bool) (body : List ℕ) (sub next : Outline) → Outline

abbrev pub is_menu : Outline → Bool
is_menu done = false
is_menu (item title expanded body sub next) = true

-- The title, behind a plus where the item is to be shown expanded.
abbrev pub marked : (expanded : Bool) → List ℕ → List ℕ
marked true title = b'+' ∷ title
marked false title = title

abbrev pub line_of : (depth : ℕ) (expanded : Bool) (title : List ℕ) → List ℕ
line_of d expanded title = replicate d b'/' ++ marked expanded title

unfoldable pub outline : (depth : ℕ) → Outline → List Section
outline d done = []
outline d (item title expanded body sub next) =
    record { name = line_of d expanded title; body = body } ∷ outline (suc d) sub ++ outline d next

-- A title that begins with a character other than a slash, a plus and a blank.
abbrev pub Title : List ℕ → Type 0
Title [] = ⊥
Title (c ∷ s) = (is_slash c ≡ false) × ((c == b'+') ≡ false) × ((c == b' ') ≡ false)

-- Titles throughout, at most so many levels, and only items with a menu below them expanded.
abbrev pub Spelled : (levels : ℕ) → Outline → Type 0
Spelled n done = Unit
Spelled zero (item title expanded body sub next) = ⊥
Spelled (suc n) (item title expanded body sub next) =
    Title title × ((is_menu sub && expanded) ≡ expanded) × Spelled n sub × Spelled (suc n) next

-- The menu of an outline, with the comment that each body has.
unfoldable pub menu_of : Outline → MenuEntry
menu_of done = null
menu_of (item title expanded body sub next) =
    entry title (get_elem? (values comment_key (lines body)) 0) (menu_of sub) expanded body
      (menu_of next)

-- A name with so many slashes and another character behind them.
abbrev pub AtDepth : ℕ → List ℕ → Type 0
AtDepth d [] = ⊥
AtDepth zero (c ∷ s) = is_slash c ≡ false
AtDepth (suc d) (c ∷ s) = (is_slash c ≡ true) × AtDepth d s

child_of-suc : (d c : ℕ) (s : List ℕ) → is_slash c ≡ true → child_of (suc d) (c ∷ s) ≡ child_of d s
unfolding child_of has_slashes
child_of-suc d c s h = rw h (ground arith)

pub child-direct : (d : ℕ) (s : List ℕ) → AtDepth d s → child_of d s ≡ direct_child
unfolding child_of has_slashes
child-direct d [] h = absurd h
child-direct zero (c ∷ s) h = ground (arith, h)
child-direct (suc d) (c ∷ s) h = child_of-suc d c s h.0 ∙ child-direct d s h.1

pub child-deeper : (d e : ℕ) (s : List ℕ) → AtDepth e s → d < e → child_of d s ≡ indirect_child
unfolding child_of has_slashes
child-deeper d e [] h l = absurd h
child-deeper d zero (c ∷ s) h l = absurd (omega (arith, l))
child-deeper zero (suc e) (c ∷ s) h l = ground (arith, h.0)
child-deeper (suc d) (suc e) (c ∷ s) h l =
    child_of-suc d c s h.0 ∙ child-deeper d e s h.1 (omega (arith, l))

pub child-above : (d e : ℕ) (s : List ℕ) → AtDepth e s → e < d → child_of d s ≡ not_child
unfolding child_of has_slashes
child-above d e [] h l = absurd h
child-above zero e (c ∷ s) h l = absurd (omega (arith, l))
child-above (suc d) zero (c ∷ s) h l = rw h (ground arith)
child-above (suc d) (suc e) (c ∷ s) h l =
    child_of-suc d c s h.0 ∙ child-above d e s h.1 (omega (arith, l))

pub line_of-AtDepth : (d : ℕ) (b : Bool) (t : List ℕ) → Title t → AtDepth d (line_of d b t)
line_of-AtDepth d b [] h = absurd h
line_of-AtDepth zero true (c ∷ s) h = refl
line_of-AtDepth zero false (c ∷ s) h = h.0
line_of-AtDepth (suc d) b (c ∷ s) h = (refl, line_of-AtDepth d b (c ∷ s) h)

skip_spaces-Title : (t : List ℕ) → Title t → skip_spaces t ≡ t
unfolding skip_spaces
skip_spaces-Title [] h = refl
skip_spaces-Title (c ∷ s) h = rw h.2 refl

pub is_expanded-line_of :
    (d : ℕ) (b : Bool) (t : List ℕ) → Title t → is_expanded d (line_of d b t) ≡ b
is_expanded-line_of d b [] h = absurd h
is_expanded-line_of zero true (c ∷ s) h = refl
is_expanded-line_of zero false (c ∷ s) h = h.1
is_expanded-line_of (suc d) b (c ∷ s) h = is_expanded-line_of d b (c ∷ s) h

drop-line_of : (d : ℕ) (b : Bool) (t : List ℕ) → drop (if b then suc d else d) (line_of d b t) ≡ t
drop-line_of zero true t = refl
drop-line_of zero false t = refl
drop-line_of (suc d) true t = drop-line_of d true t
drop-line_of (suc d) false t = drop-line_of d false t

pub label-line_of : (d : ℕ) (b : Bool) (t : List ℕ) → Title t → label d (line_of d b t) ≡ t
label-line_of d b t h =
    ap (λ e. skip_spaces (drop (if e then suc d else d) (line_of d b t)))
      (is_expanded-line_of d b t h)
    ∙ ap skip_spaces (drop-line_of d b t)
    ∙ skip_spaces-Title t h

-- No section of the list belongs to an entry that is less deep.
abbrev pub Deeper : (depth : ℕ) → List Section → Type 0
Deeper d [] = Unit
Deeper d (x ∷ xs) = (child_of d x.name ≡ indirect_child) × Deeper d xs

Deeper-append : (d : ℕ) (xs ys : List Section) → Deeper d xs → Deeper d ys → Deeper d (xs ++ ys)
Deeper-append d [] ys p q = q
Deeper-append d (x ∷ xs) ys p q = (p.0, Deeper-append d xs ys p.1 q)

pub outline-Deeper : (n d e : ℕ) (o : Outline) → Spelled n o → d < e → Deeper d (outline e o)
unfolding outline
outline-Deeper n d e done s l = tt
outline-Deeper zero d e (item t x b sub next) s l = absurd s
outline-Deeper (suc n) d e (item t x b sub next) s l = (
  child-deeper d e (line_of e x t) (line_of-AtDepth e x t s.0) l,
  Deeper-append d (outline (suc e) sub) (outline e next)
      (outline-Deeper n d (suc e) sub s.2 (omega (arith, l)))
      (outline-Deeper (suc n) d e next s.3 l),
)

-- The first section, if any, is not that of a child.
abbrev pub Stops : (depth : ℕ) → List Section → Type 0
Stops d [] = Unit
Stops d (x ∷ xs) = child_of d x.name ≡ not_child

-- The sections behind a menu are none of its children, nor those of a menu below it.
pub outline-Stops :
    (n d e : ℕ) (o : Outline) (rest : List Section)
    → Spelled n o
    → d < e
    → Stops e rest
    → Stops e (outline d o ++ rest)
unfolding outline
outline-Stops n d e done rest s l p = p
outline-Stops zero d e (item t x b sub next) rest s l p = absurd s
outline-Stops (suc n) d e (item t x b sub next) rest s l p =
    child-above e d (line_of d x t) (line_of-AtDepth d x t s.0) l
