-- ===== src/Text/Address.antt =====
-- The addresses that inet_pton() of common/lib/libc.s2.c reads.
use limine_eucleia.Prelude.{
  ℕ, suc, ◌/◌, ◌%◌, ◌<◌, ◌≡◌, ◌∙◌, ap, refl, false, some, List, [], ◌∷◌, ◌++◌, map, arith, ltb,
  if◌then◌else◌,
}
use limine_eucleia.Text.Number.{
  strtoui, nothing_read, delimiter, octet, octet_of, octets, inet_pton,
}
use limine_eucleia.Text.Numeral.{digit_char, value, Digits, goes_on, strtoui-spelled}
use limine_eucleia.Text.Chars.{digit_to_int}

-- The decimal digits of a byte, with no leading zero.
abbrev pub byte_digits : ℕ → List ℕ
byte_digits n =
    if ltb n 10
    then n ∷ []
    else if ltb n 100
    then n / 10 ∷ n % 10 ∷ []
    else n / 100 ∷ n / 10 % 10 ∷ n % 10 ∷ []

abbrev pub decimal : ℕ → List ℕ
decimal n = map digit_char (byte_digits n)

byte_digits-Digits : (n : ℕ) → n < 256 → Digits 10 (byte_digits n)
byte_digits-Digits n h = ground arith

byte_digits-value : (n : ℕ) → n < 256 → value 10 0 (byte_digits n) ≡ n
unfolding value
byte_digits-value n h = ground arith

decimal-read :
    (n : ℕ) (rest : List ℕ)
    → n < 256
    → goes_on 10 rest ≡ false
    → strtoui (decimal n ++ rest) 10 ≡ (n, rest)
decimal-read n rest h stop =
    strtoui-spelled 10 (byte_digits n) rest (omega arith) (byte_digits-Digits n h)
      (omega (arith, byte_digits-value n h)) stop
    ∙ rw (byte_digits-value n h) refl

decimal-longer : (n : ℕ) (rest : List ℕ) → nothing_read (decimal n ++ rest) rest ≡ false
decimal-longer n rest = ground arith

goes_on-dot : (s : List ℕ) → goes_on 10 (b'.' ∷ s) ≡ false
unfolding digit_to_int
goes_on-dot s = refl

octet_of-some :
    (more n : ℕ) (current newcur rest : List ℕ)
    → n < 256
    → nothing_read current newcur ≡ false
    → delimiter more newcur ≡ some rest
    → octet_of more current (n, newcur) ≡ some (n, rest)
unfolding octet_of
octet_of-some more n current newcur rest h long d =
    let small : ltb 255 n ≡ false = ground arith in rw long (rw d (rw small refl))

octet-last : (n : ℕ) → n < 256 → octet 0 (decimal n ++ []) ≡ some (n, [])
unfolding octet delimiter
octet-last n h =
    ap (octet_of 0 (decimal n ++ [])) (decimal-read n [] h refl)
    ∙ octet_of-some 0 n (decimal n ++ []) [] [] h (decimal-longer n []) refl

octet-dot :
    (more n : ℕ) (s : List ℕ) → n < 256 → octet (suc more) (decimal n ++ (b'.' ∷ s)) ≡ some (n, s)
unfolding octet delimiter
octet-dot more n s h =
    ap (octet_of (suc more) (decimal n ++ (b'.' ∷ s))) (decimal-read n (b'.' ∷ s) h (goes_on-dot s))
    ∙ octet_of-some (suc more) n (decimal n ++ (b'.' ∷ s)) (b'.' ∷ s) s h
        (decimal-longer n (b'.' ∷ s)) refl

octets-next :
    (more n : ℕ) (current s rest : List ℕ)
    → octet more current ≡ some (n, s)
    → octets more s ≡ some rest
    → octets (suc more) current ≡ some (n ∷ rest)
unfolding octets
octets-next more n current s rest h k = rw (h, octets) (rw k refl)

octets-end : (s : List ℕ) → octets 0 s ≡ some []
unfolding octets
octets-end s = refl

abbrev pub dotted : (a b c d : ℕ) → List ℕ
dotted a b c d =
    decimal a ++ (b'.' ∷ (decimal b ++ (b'.' ∷ (decimal c ++ (b'.' ∷ (decimal d ++ []))))))

-- inet_pton() reads back every IPv4 address of four bytes from its dotted decimal text.
pub inet_pton-dotted :
    (a b c d : ℕ)
    → a < 256
    → b < 256
    → c < 256
    → d < 256
    → inet_pton (dotted a b c d) ≡ some (a ∷ b ∷ c ∷ d ∷ [])
unfolding inet_pton
inet_pton-dotted a b c d p q r s =
    let from_d = decimal d ++ [] in
    let from_c = decimal c ++ (b'.' ∷ from_d) in
    let from_b = decimal b ++ (b'.' ∷ from_c) in
    octets-next 3 a (decimal a ++ (b'.' ∷ from_b)) from_b (b ∷ c ∷ d ∷ []) (octet-dot 2 a from_b p)
      (octets-next 2 b from_b from_c (c ∷ d ∷ []) (octet-dot 1 b from_c q) (
        octets-next 1 c from_c from_d (d ∷ []) (octet-dot 0 c from_d r)
          (octets-next 0 d from_d [] [] (octet-last d s) (octets-end []))))
