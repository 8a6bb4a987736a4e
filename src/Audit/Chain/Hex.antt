-- ===== src/Audit/Chain/Hex.antt =====
-- Hexadecimal text, and texts joined by separators.
use magiclaw.Common.{ℕ, ◌/◌, ◌%◌, ◌<◌, ◌≡◌, ◌≢◌, refl, sym, List, [], ◌∷◌, ◌++◌, arith, All}
use mathlib.Core.List.{append_assoc}
use magiclaw.Common.Text.{Text, split_first, as_bytes, utf8}
use magiclaw.Audit.Chain.{to_hex, hex_digit}

hex_digit-injective : (m n : ℕ) → hex_digit m ≡ hex_digit n → m ≡ n
hex_digit-injective m n h = ground arith

-- No two byte strings have the same hexadecimal text.
pub to_hex-injective : (xs ys : List ℕ) → to_hex xs ≡ to_hex ys → xs ≡ ys
unfolding to_hex
to_hex-injective [] [] h = refl
to_hex-injective [] (y ∷ ys) h = cc
to_hex-injective (x ∷ xs) [] h = cc
to_hex-injective (x ∷ xs) (y ∷ ys) h =
    let hi = hex_digit-injective (x / 16) (y / 16) (cc) in
    let lo = hex_digit-injective (x % 16) (y % 16) (cc) in
    let e : x ≡ y = omega (arith, hi, lo) in let es = to_hex-injective xs ys (cc) in cc

abbrev pub IsAscii : Text → Type 0
IsAscii s = All (λ c. c < 0x80) s

abbrev pub NoPipe : List ℕ → Type 0
NoPipe s = All (λ c. c ≢ b'|') s

pub as_bytes_ascii : (s : Text) → IsAscii s → as_bytes s ≡ s
unfolding as_bytes
as_bytes_ascii [] h = refl
as_bytes_ascii (c ∷ s) (p, ps) = ground (arith, as_bytes_ascii s ps)

pub to_hex-IsAscii : (xs : List ℕ) → All (λ b. b < 256) xs → IsAscii (to_hex xs)
unfolding to_hex
to_hex-IsAscii [] h = tt
to_hex-IsAscii (x ∷ xs) (p, ps) = (ground arith, (ground arith, to_hex-IsAscii xs ps))

pub to_hex-NoPipe : (xs : List ℕ) → All (λ b. b < 256) xs → NoPipe (to_hex xs)
unfolding to_hex
to_hex-NoPipe [] h = tt
to_hex-NoPipe (x ∷ xs) (p, ps) = (ground arith, (ground arith, to_hex-NoPipe xs ps))

pub split_pipe :
    (a b x y : List ℕ) → NoPipe a → NoPipe b → a ++ b'|' ∷ x ≡ b ++ b'|' ∷ y → (a ≡ b) × (x ≡ y)
split_pipe a b x y h k e = split_first b'|' a b x y h k e

pub as_bytes-append : (s t : Text) → as_bytes (s ++ t) ≡ as_bytes s ++ as_bytes t
unfolding as_bytes
as_bytes-append [] t = refl
as_bytes-append (c ∷ s) t =
    rw (as_bytes-append s t) (sym (append_assoc (utf8 c) (as_bytes s) (as_bytes t)))
