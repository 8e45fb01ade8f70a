-- ===== src/Config/Booted.antt =====
-- init_config() of common/lib/config.c, from the bytes of a file to the menu.
use limine_eucleia.Prelude.{
  ℕ, ◌*◌, ◌&&◌, ◌≤◌, ◌≡◌, ◌∙◌, ap, refl, Bool, true, false, List, [], ◌∷◌, ◌++◌, arith, ltb, ◌==◌,
  if◌then◌else◌, length, Result, ok, panic, ◌>>=◌,
}
use limine_eucleia.Config.Value.{separator}
use limine_eucleia.Config.Lines.{lines}
use limine_eucleia.Config.Sections.{sections}
use limine_eucleia.Config.Tree.{max_menu_nesting}
use limine_eucleia.Config.Outline.{Outline, outline, Spelled, menu_of}
use limine_eucleia.Config.Built.{create_menu_tree-menu_of}
use limine_eucleia.Config.Plain.{
  Tidy, NoDollar, strip-Tidy, load_macros-NoDollar, expand_macros-NoDollar,
}
use limine_eucleia.Config.Init.{
  same_bytes, no_sum, check_sum, text_of, cut_config, Platform, built_in, max_config, ready, Memory,
  finish_init, buffer, expand_into, expanded, passed, init_config,
}
use limine_eucleia.Config.Macro.{load_macros}
use limine_eucleia.Config.Expand.{expand_macros}
use limine_eucleia.Config.Strip.{strip}

abbrev pub NoNul : List ℕ → Type 0
NoNul [] = Unit
NoNul (c ∷ s) = ((c == 0) ≡ false) × NoNul s

text_of-buffer : (file : List ℕ) → NoNul file → text_of (buffer file) ≡ file ++ separator ∷ []
unfolding text_of
text_of-buffer [] h = refl
text_of-buffer (c ∷ s) h = rw h.0 (ap (c ∷◌) (text_of-buffer s h.1))

check_sum-no_sum :
    (blake2b : List ℕ → List ℕ) (file : List ℕ) → check_sum blake2b no_sum file ≡ ok false
unfolding check_sum same_bytes
check_sum-no_sum blake2b file = refl

small : (n : ℕ) → n ≤ max_config → ltb max_config n ≡ false
small n l = ground (arith, l)

-- Every request of a run on a file is granted.
abbrev pub Granted : Memory → (file : List ℕ) → Type 0
Granted m file =
    (m.raw_config (length file) ≡ true)
    × (m.macros ≡ true)
    × (m.new_config (length (buffer file) * 4) ≡ true)
    × (m.names ≡ true)
    × (m.menu ≡ true)

abbrev into_new : Platform → List ℕ → (granted names : Bool) → Result (List ℕ)
into_new p s a b = if a && b then expand_macros (built_in p) s else panic

module _ (m : Memory) (p : Platform) (file : List ℕ) (g : Granted m file) where
  expanded-NoDollar :
      NoDollar (buffer file)
      → length (buffer file) ≤ max_config
      → expanded m p (buffer file) ≡ ok (buffer file)
  unfolding expanded
  expanded-NoDollar h l =
      let s = buffer file in
      ap (λ b. (if b then load_macros (built_in p) s else panic) >>= expand_into m s) g.1
      ∙ ap (λ r. r >>= expand_into m s) (load_macros-NoDollar (built_in p) s h)
      ∙ ap (λ t. if t then panic else into_new p s (m.new_config (length s * 4)) (m.names))
          (small (length s) l)
      ∙ ap (λ b. into_new p s b (m.names)) g.2
      ∙ ap (into_new p s true) g.3
      ∙ expand_macros-NoDollar (built_in p) s h

  passed-Tidy :
      Tidy true (buffer file)
      → NoDollar (buffer file)
      → length (buffer file) ≤ max_config
      → passed m p file ≡ ok (buffer file)
  passed-Tidy t d l =
      ap (λ b. if b then strip (buffer file) >>= expanded m p else panic) g.0
      ∙ ap (λ r. r >>= expanded m p) (strip-Tidy (buffer file) t)
      ∙ expanded-NoDollar d l

  finish_init-menu_of :
      (editor secure : Bool) (s : List ℕ) (o : Outline)
      → Spelled max_menu_nesting o
      → sections (lines s) ≡ outline 1 o
      → finish_init m editor secure false s
        ≡ ok (record {
          config = ready (cut_config s);
          menu_tree = menu_of o;
          editor_enabled = editor;
          secure_boot_active = false;
        })
  unfolding finish_init
  finish_init-menu_of editor secure s o l e =
      rw (g.4) (rw (create_menu_tree-menu_of (ready s) s (refl, refl) o l e) refl)

-- In a run where every request for memory is granted, for a file of at most 2^62 - 1 bytes with
-- its separator and terminator, with no checksum, no dollar sign, no NUL, no carriage return,
-- and no blank at the start or the end of a line, and whose sections spell an outline of at most
-- 64 levels (titles that begin with no slash, plus or blank, and only directories expanded),
-- init_config() comes to an end without a panic: the configuration is ready, its text is the
-- file less what the cut takes away, the menu is that of the outline with the comment of each
-- body, the editor is as before, and secure boot is inactive.
pub init_config-menu_of :
    (m : Memory) (blake2b : List ℕ → List ℕ) (p : Platform) (editor secure : Bool) (file : List ℕ)
    (o : Outline)
    → Granted m file
    → Tidy true (buffer file)
    → NoDollar (buffer file)
    → NoNul file
    → length (buffer file) ≤ max_config
    → Spelled max_menu_nesting o
    → sections (lines (file ++ separator ∷ [])) ≡ outline 1 o
    → init_config m blake2b p no_sum editor secure file
      ≡ ok (record {
        config = ready (cut_config (file ++ separator ∷ []));
        menu_tree = menu_of o;
        editor_enabled = editor;
        secure_boot_active = false;
      })
unfolding init_config
init_config-menu_of m blake2b p editor secure file o g t d z l s e =
    ap
      (λ r.
        r >>= λ checked. passed m p file >>= λ u. finish_init m editor secure checked (text_of u))
      (check_sum-no_sum blake2b file)
    ∙ ap (λ r. r >>= λ u. finish_init m editor secure false (text_of u))
        (passed-Tidy m p file g t d l)
    ∙ ap (finish_init m editor secure false) (text_of-buffer file z)
    ∙ finish_init-menu_of m p file g editor secure (file ++ separator ∷ []) o s e
