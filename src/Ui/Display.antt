-- ===== src/Ui/Display.antt =====
-- ui_display_init() and ui_display_position() of common/ui/display.c.
use limine_eucleia.Prelude.{
  ℕ, ◌-◌, ◌*◌, ◌%◌, Bool, not, ◌&&◌, ◌||◌, Option, none, some, ltb, leb, ◌==◌, if◌then◌else◌,
}

-- The members of `struct fb_info` that the display reads.
pub record FbInfo : Type 0 where
  pub framebuffer_pitch : ℕ
  pub framebuffer_width : ℕ
  pub framebuffer_height : ℕ
  pub framebuffer_bpp : ℕ
  pub red_mask_size : ℕ
  pub red_mask_shift : ℕ
  pub green_mask_size : ℕ
  pub green_mask_shift : ℕ
  pub blue_mask_size : ℕ
  pub blue_mask_shift : ℕ
  pub framebuffer_addr : ℕ

pub record UiDisplay : Type 0 where
  pub fb : FbInfo
  pub width : ℕ
  pub height : ℕ
  pub rotation : ℕ

abbrev wrong_size : FbInfo → Bool
wrong_size fb =
    ltb fb.framebuffer_width 600
    || ltb fb.framebuffer_height 600
    || ltb 4096 fb.framebuffer_width
    || ltb 4096 fb.framebuffer_height
    || ltb (4096 * 2160) (fb.framebuffer_width * fb.framebuffer_height)
    || (ltb fb.framebuffer_width 800 && ltb fb.framebuffer_height 800)

abbrev wrong_pitch : FbInfo → Bool
wrong_pitch fb =
    ltb fb.framebuffer_pitch (fb.framebuffer_width * 4)
    || ltb 65536 fb.framebuffer_pitch
    || not (fb.framebuffer_pitch % 4 == 0)

abbrev wrong_masks : FbInfo → Bool
wrong_masks fb =
    not (fb.red_mask_size == 8)
    || not (fb.green_mask_size == 8)
    || not (fb.blue_mask_size == 8)
    || not (fb.green_mask_shift == 8)
    || not (
        (fb.red_mask_shift == 16 && fb.blue_mask_shift == 0)
        || (fb.red_mask_shift == 0 && fb.blue_mask_shift == 16))

abbrev pub unfit : FbInfo → (rotation : ℕ) → Bool
unfit fb rotation =
    ltb 3 rotation
    || not (fb.framebuffer_bpp == 32)
    || wrong_size fb
    || fb.framebuffer_addr == 0
    || wrong_pitch fb
    || wrong_masks fb

-- `none` is the result `false`. `rotation & 1` is the parity.
unfoldable pub display_init : FbInfo → (rotation : ℕ) → Option UiDisplay
display_init fb rotation =
    if unfit fb rotation
    then none
    else some (record {
      fb = fb;
      rotation = rotation;
      width = if rotation % 2 == 1 then fb.framebuffer_height else fb.framebuffer_width;
      height = if rotation % 2 == 1 then fb.framebuffer_width else fb.framebuffer_height;
    })

-- The logical coordinates of a pixel of the framebuffer; the differences are not negative at a
-- display that display_init() made.
unfoldable pub display_position : UiDisplay → (x y : ℕ) → Option (ℕ × ℕ)
display_position d x y =
    if leb d.fb.framebuffer_width x || leb d.fb.framebuffer_height y
    then none
    else if d.rotation == 1
    then some (y, d.height - 1 - x)
    else if d.rotation == 2
    then some (d.width - 1 - x, d.height - 1 - y)
    else if d.rotation == 3
    then some (d.width - 1 - y, x)
    else some (x, y)
