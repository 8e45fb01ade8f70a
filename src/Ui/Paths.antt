-- ===== src/Ui/Paths.antt =====
-- The path that ui_config_path() of common/ui/config.c makes of an asset.
use limine_eucleia.Prelude.{
  ℕ, zero, suc, ◌+◌, ◌-◌, ◌≤◌, ◌<◌, ◌≡◌, ◌≢◌, ◌⊎◌, inl, inr, refl, ap, ◌∙◌, false, not, Option,
  none, some, List, [], ◌∷◌, ◌++◌, arith, leb, ◌==◌, ==_iff, if◌then◌else◌, length, length-append,
  length-take, take, get_elem?, Bool-cases,
}
use limine_eucleia.Ui.Values.{prefix_length, config_path}

-- The first `n` characters are the directory: through the last slash.
pub record LastSlash (config : List ℕ) (n : ℕ) : Type 0 where
  pub bound : n ≤ length config
  pub at : n ≢ 0 → get_elem? config (n - 1) ≡ some 47
  pub behind : (k : ℕ) → n ≤ k → get_elem? config k ≢ some 47

get_elem?-cons {ℓ} :
    {A : Type ℓ} (x : A) (xs : List A) (k : ℕ) → 0 < k → get_elem? (x ∷ xs) k ≡ get_elem? xs (k - 1)
get_elem?-cons x xs zero h = absurd (omega arith)
get_elem?-cons x xs (suc k) h = ap (get_elem? xs) (omega arith)

later :
    (c : ℕ) (config : List ℕ) (n : ℕ) → n ≢ 0 → LastSlash config n → LastSlash (c ∷ config) (suc n)
later c config n h s = record {
  bound = omega (arith, s.bound);
  at = λ p.
      ap (get_elem? (c ∷ config)) (omega arith)
      ∙ get_elem?-cons c config n (omega (arith, h))
      ∙ s.at h;
  behind =
      λ k l e. s.behind (k - 1) (omega arith) (cc (e, get_elem?-cons c config k (omega arith)));
}

here : (config : List ℕ) → LastSlash config 0 → LastSlash (47 ∷ config) 1
here config s = record {
  bound = omega arith;
  at = λ p. refl;
  behind =
      λ k l e. s.behind (k - 1) (omega arith) (cc (e, get_elem?-cons 47 config k (omega arith)));
}

nowhere : (c : ℕ) (config : List ℕ) → c ≢ 47 → LastSlash config 0 → LastSlash (c ∷ config) 0
nowhere c config h s = record { bound = omega arith; at = λ p. absurd (p refl); behind = step }
  where
    step : (k : ℕ) → 0 ≤ k → get_elem? (c ∷ config) k ≢ some 47
    step zero l e = h (cc e)
    step (suc k) l e = s.behind k (omega arith) e

pub prefix_length-LastSlash : (config : List ℕ) → LastSlash config (prefix_length config)
unfolding prefix_length
prefix_length-LastSlash [] = record {
  bound = omega arith;
  at = λ p. absurd (p refl);
  behind = λ k l e. cc;
}
prefix_length-LastSlash (c ∷ config) = step (prefix_length config) (prefix_length-LastSlash config)
  where
    step :
        (n : ℕ)
        → LastSlash config n
        → LastSlash (c ∷ config) (if not (n == 0) then suc n else if c == 47 then 1 else 0)
    step zero s = elim (Bool-cases (c == 47)) [
      | inl q ↦ rw q (rw ((==_iff c 47).0 q) (here config s))
      | inr q ↦ rw q (nowhere c config (λ e. ground (arith, e, q)) s)
    ]
    step (suc n) s =
        let z : (suc n == 0) ≡ false = ground arith in rw z (later c config (suc n) (omega arith) s)

-- What is written for the asset `asset`: with its terminator it fits the capacity, and it is the
-- asset, behind the directory of the configuration unless it begins with a slash.
abbrev pub Joined : (capacity : ℕ) (config asset : List ℕ) → Option (List ℕ) → Type 0
Joined capacity config asset none = Unit
Joined capacity config asset (some out) =
    (length out < capacity)
    × (((get_elem? asset 0 ≡ some 47) × (out ≡ asset))
        ⊎ ((get_elem? asset 0 ≢ some 47)
            × ((n : ℕ) × LastSlash config n × (out ≡ take n config ++ asset))))

-- What ui_config_path() writes fits the capacity with its terminator, and is the asset where
-- that begins with a slash, and else the characters of the configuration path through its last
-- slash (none if it has none), followed by the asset.
pub config_path-Joined :
    (capacity : ℕ) (config asset : List ℕ)
    → Joined capacity config asset (config_path capacity config asset)
unfolding config_path
config_path-Joined capacity config [] = tt
config_path-Joined capacity config (c ∷ asset) = elim (Bool-cases (c == 47)) [
  | inl q ↦ rw q (elim (Bool-cases (leb capacity (0 + suc (length asset)))) [
    | inl f ↦ rw f tt
    | inr f ↦ rw f (ground arith, inl (ap some ((==_iff c 47).0 q), refl))
  ])
  | inr q ↦ rw q (elim (Bool-cases (leb capacity (prefix_length config + suc (length asset)))) [
    | inl f ↦ rw f tt
    | inr f ↦ rw f (
      fits f,
      inr (λ e. ground (arith, e, q), (prefix_length config, prefix_length-LastSlash config, refl)),
    )
  ])
]
  where
    fits :
        leb capacity (prefix_length config + suc (length asset)) ≡ false
        → length (take (prefix_length config) config ++ (c ∷ asset)) < capacity
    fits f = ground (
      arith,
      f,
      length-append (take (prefix_length config) config) (c ∷ asset),
      length-take (prefix_length config) config,
      (prefix_length-LastSlash config).bound,
    )
