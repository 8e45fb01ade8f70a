-- ===== src/Ui/Rotated.antt =====
-- The rotation of common/ui/display.c: every logical pixel is one pixel of the framebuffer.
use limine_eucleia.Prelude.{
  ℕ, ◌-◌, ◌*◌, ◌%◌, ◌≤◌, ◌<◌, ◌≡◌, Option, none, some, ◌==◌, if◌then◌else◌, arith, ◌⊎◌, inl, inr,
  Bool-cases,
}
use limine_eucleia.Ui.Display.{FbInfo, UiDisplay, display_init, display_position, unfit}

-- What the initialisation guarantees.
pub record Ready (d : UiDisplay) : Type 0 where
  pub few : d.rotation ≤ 3
  pub turned :
      ((d.rotation % 2 ≡ 0)
        × (d.width ≡ d.fb.framebuffer_width)
        × (d.height ≡ d.fb.framebuffer_height))
      ⊎ ((d.rotation % 2 ≡ 1)
          × (d.width ≡ d.fb.framebuffer_height)
          × (d.height ≡ d.fb.framebuffer_width))
  pub wide : 600 ≤ d.width
  pub high : 600 ≤ d.height
  pub wide_le : d.width ≤ 4096
  pub high_le : d.height ≤ 4096
  pub row_fits : d.fb.framebuffer_width * 4 ≤ d.fb.framebuffer_pitch

-- The logical coordinates (a, b), read back as those of the framebuffer.
unfoldable pub physical : UiDisplay → ℕ → ℕ → ℕ × ℕ
physical d a b =
    if d.rotation == 1
    then (d.height - 1 - b, a)
    else if d.rotation == 2
    then (d.width - 1 - a, d.height - 1 - b)
    else if d.rotation == 3
    then (b, d.width - 1 - a)
    else (a, b)

-- Of a display that the initialisation made.
abbrev pub Initialised : Option UiDisplay → Type 0
Initialised none = Unit
Initialised (some d) = Ready d

-- A display that ui_display_init() makes is ready: it has at most three quarter turns, the width
-- and height of the framebuffer, exchanged at an odd number of turns, both of 600 to 4096
-- pixels, and a pitch that holds a row of pixels.
pub display_init-Ready : (fb : FbInfo) (rotation : ℕ) → Initialised (display_init fb rotation)
unfolding display_init
display_init-Ready fb rotation = elim (Bool-cases (unfit fb rotation)) [
  | inl c ↦ rw c tt
  | inr c ↦ rw c (record {
    few = ground arith;
    turned = ground arith;
    wide = ground arith;
    high = ground arith;
    wide_le = ground arith;
    high_le = ground arith;
    row_fits = ground arith;
  })
]

-- The logical coordinates of a pixel of the framebuffer.
abbrev pub Logical : UiDisplay → (x y : ℕ) → Option (ℕ × ℕ) → Type 0
Logical d x y none = ⊥
Logical d x y (some (a, b)) = (a < d.width) × (b < d.height) × (physical d a b ≡ (x, y))

module _ (d : UiDisplay) (r : Ready d) where
  -- On a display such as ui_display_init() makes (Ready), every pair of logical coordinates on
  -- the display is what ui_display_position() gives for the pixel that the inverse rotation
  -- takes it to.
  pub position-physical :
      (a b : ℕ)
      → a < d.width
      → b < d.height
      → display_position d ((physical d a b).0) ((physical d a b).1) ≡ some (a, b)
  unfolding display_position physical
  position-physical a b p q = elim r.turned [
    | inl t ↦ ground (arith, r.few, t.0, t.1, t.2)
    | inr t ↦ ground (arith, r.few, t.0, t.1, t.2)
  ]

  -- On a display such as ui_display_init() makes (Ready), ui_display_position() gives every
  -- pixel of the framebuffer logical coordinates that lie on the display and that the inverse
  -- rotation takes back to the pixel.
  pub display_position-Logical :
      (x y : ℕ)
      → x < d.fb.framebuffer_width
      → y < d.fb.framebuffer_height
      → Logical d x y (display_position d x y)
  unfolding display_position physical
  display_position-Logical x y p q = elim r.turned [
    | inl t ↦ ground (arith, r.few, t.0, t.1, t.2)
    | inr t ↦ ground (arith, r.few, t.0, t.1, t.2)
  ]
