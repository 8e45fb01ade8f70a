-- ===== src/Config/Verified.antt =====
-- The checksum in init_config() of common/lib/config.c.
use limine_eucleia.Prelude.{
  ℕ, suc, ◌≡◌, ◌∙◌, ap, refl, Bool, true, false, List, [], ◌∷◌, arith, ◌==◌, ==_iff, if◌then◌else◌,
  length, Bool-cases, inl, inr, Result, ok, panic, ◌>>=◌, Ends, Ends_mono, Ends-bind, Ends-if,
}
use limine_eucleia.Config.Tree.{max_menu_nesting, create_menu_tree}
use limine_eucleia.Config.Nesting.{NestsWithin}
use limine_eucleia.Config.Ending.{hash_bytes-ends, menu-ends, passed-ends}
use limine_eucleia.Config.Init.{
  hash_bytes, same_bytes, no_sum, check_sum, text_of, cut_config, Platform, Booted, ready, Memory,
  passed, finish_init, init_config,
}

same_bytes-eq : (xs ys : List ℕ) → same_bytes xs ys ≡ true → xs ≡ ys
unfolding same_bytes
same_bytes-eq [] [] h = refl
same_bytes-eq [] (y ∷ ys) h = cc
same_bytes-eq (x ∷ xs) [] h = cc
same_bytes-eq (x ∷ xs) (y ∷ ys) h = elim (Bool-cases (x == y)) [
  | inl q ↦
      ap (λ z. z ∷ xs) ((==_iff x y).0 q) ∙ ap (y ∷◌) (same_bytes-eq xs ys (ground (arith, q, h)))
  | inr q ↦ absurd (ground (arith, q, h))
]

-- The checksum spells the hash of the file.
abbrev pub Hashed : (blake2b : List ℕ → List ℕ) (config_b2sum file : List ℕ) → Type 0
Hashed blake2b config_b2sum file = hash_bytes config_b2sum ≡ ok (blake2b file)

compared :
    (blake2b : List ℕ → List ℕ) (config_b2sum file : List ℕ) (r : Result (List ℕ))
    → hash_bytes config_b2sum ≡ r
    → Ends r (λ _. Unit)
    → Ends
        (r >>= λ hash. if same_bytes hash (blake2b file) then ok true else panic)
        (λ b. (b ≡ true) × Hashed blake2b config_b2sum file)
compared blake2b config_b2sum file (ok hash) e h =
    Ends-if (same_bytes hash (blake2b file)) (ok true) panic
      (λ b. (b ≡ true) × Hashed blake2b config_b2sum file)
      (λ q. (refl, e ∙ ap ok (same_bytes-eq hash (blake2b file) q))) (λ q. tt)
compared blake2b config_b2sum file panic e h = tt
compared blake2b config_b2sum file Result.out_of_fuel e h = h

check_sum-Hashed :
    (blake2b : List ℕ → List ℕ) (config_b2sum file : List ℕ)
    → same_bytes config_b2sum no_sum ≡ false
    → Ends
        (check_sum blake2b config_b2sum file)
        (λ b. (b ≡ true) × Hashed blake2b config_b2sum file)
unfolding check_sum
check_sum-Hashed blake2b config_b2sum file h = rw h (
    compared blake2b config_b2sum file (hash_bytes config_b2sum) refl
      (hash_bytes-ends config_b2sum))

finish_init-editor :
    (m : Memory) (editor secure checked : Bool) (s : List ℕ)
    → checked ≡ true
    → Ends
        (finish_init m editor secure checked s)
        (λ b. (b.editor_enabled ≡ false) × (b.secure_boot_active ≡ secure))
unfolding finish_init
finish_init-editor m editor secure checked s h =
    Ends-bind (if m.menu then create_menu_tree (suc (length s)) (ready s) 1 0 else panic)
      (λ tree. ok (record {
        config = ready (cut_config s);
        menu_tree = tree;
        editor_enabled = if checked then false else editor;
        secure_boot_active = if checked then secure else false;
      }))
      (NestsWithin max_menu_nesting)
      (λ b. (b.editor_enabled ≡ false) × (b.secure_boot_active ≡ secure)) (menu-ends m s)
      (λ tree p. (rw h refl, rw h refl))

-- What a configuration that is made ready under a checksum comes to.
abbrev pub Verified :
    (blake2b : List ℕ → List ℕ) (config_b2sum file : List ℕ) (secure : Bool) → Booted → Type 0
Verified blake2b config_b2sum file secure b =
    Hashed blake2b config_b2sum file × (b.editor_enabled ≡ false) × (b.secure_boot_active ≡ secure)

-- Where the checksum is not the empty one, and whichever requests for memory are granted,
-- init_config() comes to an end, by a panic or with these three: the digits of the checksum
-- spell the hash of the file, the editor is disabled, and secure boot is as before.
pub init_config-Verified :
    (m : Memory) (blake2b : List ℕ → List ℕ) (p : Platform) (config_b2sum : List ℕ)
    (editor secure : Bool) (file : List ℕ)
    → same_bytes config_b2sum no_sum ≡ false
    → Ends
        (init_config m blake2b p config_b2sum editor secure file)
        (Verified blake2b config_b2sum file secure)
unfolding init_config
init_config-Verified m blake2b p config_b2sum editor secure file h =
    Ends-bind (check_sum blake2b config_b2sum file)
      (λ checked. passed m p file >>= λ s. finish_init m editor secure checked (text_of s))
      (λ b. (b ≡ true) × Hashed blake2b config_b2sum file)
      (Verified blake2b config_b2sum file secure) (check_sum-Hashed blake2b config_b2sum file h)
      (λ checked q.
        Ends-bind (passed m p file) (λ s. finish_init m editor secure checked (text_of s))
          (λ _. Unit) (Verified blake2b config_b2sum file secure) (passed-ends m p file)
          (λ s t.
            Ends_mono (finish_init m editor secure checked (text_of s))
              (λ b. (b.editor_enabled ≡ false) × (b.secure_boot_active ≡ secure))
              (Verified blake2b config_b2sum file secure) (λ b u. (q.1, u.0, u.1))
              (finish_init-editor m editor secure checked (text_of s) q.0)))
