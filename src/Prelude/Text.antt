-- ===== src/Prelude/Text.antt =====
-- Texts as their code points and as their UTF-8 bytes.
use Prim.Native.Nat.{ℕ, ◌+◌, ◌/◌, ◌%◌}
use Prim.Native.Char.{code}
use Prim.Native.String.{String}
use mathlib.Core.Path.{◌≡◌, refl, ap₂}
use mathlib.Core.List.{List, [], ◌∷◌, ◌++◌}
use native.Mathlib.Omega.{arith}
use text.Mathlib.TextEquality.{Char-path}
use mathlib.Core.Bool.{Bool, false, ◌||◌}
use tinkiva_sqllite_server.Prelude.Tests.{ltb, str_eq, if◌then◌else◌}

abbrev pub codes : String → List ℕ
codes String.[] = []
codes (String.◌∷◌ c s) = code c ∷ codes s

-- The bytes of one code point.
abbrev pub utf8 : ℕ → List ℕ
utf8 c =
    if ltb c 0x80
    then c ∷ []
    else if ltb c 0x800
    then (0xc0 + c / 64) ∷ (0x80 + c % 64) ∷ []
    else if ltb c 0x10000
    then (0xe0 + c / 4096) ∷ (0x80 + c / 64 % 64) ∷ (0x80 + c % 64) ∷ []
    else (0xf0 + c / 262144) ∷ (0x80 + c / 4096 % 64) ∷ (0x80 + c / 64 % 64) ∷ (0x80 + c % 64) ∷ []

abbrev pub utf8_all : List ℕ → List ℕ
utf8_all [] = []
utf8_all (c ∷ cs) = utf8 c ++ utf8_all cs

-- `str::as_bytes`
abbrev pub bytes : String → List ℕ
bytes s = utf8_all (codes s)

pub codes_injective : (s t : String) → codes s ≡ codes t → s ≡ t
codes_injective String.[] String.[] h = refl
codes_injective String.[] (String.◌∷◌ d t) h = absurd (ground arith)
codes_injective (String.◌∷◌ c s) String.[] h = absurd (ground arith)
codes_injective (String.◌∷◌ c s) (String.◌∷◌ d t) h =
    ap₂ String.◌∷◌ (Char-path c d (ground arith)) (codes_injective s t (ground arith))

abbrev pub mem : String → List String → Bool
mem name [] = false
mem name (x ∷ xs) = str_eq x name || mem name xs

abbrev pub NoRepeats : List String → Type 0
NoRepeats [] = Unit {0}
NoRepeats (x ∷ xs) = (mem x xs ≡ false) × NoRepeats xs
