-- ===== src/Base/Texts.antt =====
-- Text that the program walks, as a list of UTF-16 code units.
use Prim.Native.Nat.{ℕ}
use Prim.Native.Char.{code}
use Prim.Native.String.{String}
use mathlib.Core.Path.{◌≡◌, ap₂}
use mathlib.Core.Logic.{◌↔◌, ◌≢◌}
use mathlib.Core.Bool.{Bool, true, false, ◌&&◌, ◌||◌}
use mathlib.Core.List.{List, [], ◌∷◌, ◌++◌}
use native.Mathlib.Omega.{arith}
use kubus_node.Base.Tests.{leb, ◌==◌}
use kubus_node.Base.Lists.{All}
use kubus_node.Base.Maps.{Key}

abbrev pub Text : Type 0
Text = List ℕ

-- A literal of ASCII characters.
abbrev pub units : String → Text
units String.[] = []
units (String.◌∷◌ c s) = code c ∷ units s

abbrev pub same_text : Text → Text → Bool
same_text [] [] = true
same_text (a ∷ s) (b ∷ t) = a == b && same_text s t
same_text [] (b ∷ t) = false
same_text (a ∷ s) [] = false

pub same_text_iff : (s t : Text) → (same_text s t ≡ true) ↔ (s ≡ t)
same_text_iff [] [] = ground arith
same_text_iff [] (b ∷ t) = ground arith
same_text_iff (a ∷ s) [] = ground arith
same_text_iff (a ∷ s) (b ∷ t) = ground (arith, same_text_iff s t)

instance abbrev pub text_key : Key Text
text_key = record { same = same_text; same_iff = same_text_iff }

-- `text.startsWith(prefix)`.
abbrev pub begins_with : Text → Text → Bool
begins_with text [] = true
begins_with [] (b ∷ prefix) = false
begins_with (a ∷ text) (b ∷ prefix) = a == b && begins_with text prefix

-- What `String.prototype.trim` takes off: white space and line ends.
abbrev pub is_space : ℕ → Bool
is_space c =
    leb 9 c && leb c 13
    || c == 32
    || c == 0xa0
    || c == 0x1680
    || leb 0x2000 c && leb c 0x200a
    || c == 0x2028
    || c == 0x2029
    || c == 0x202f
    || c == 0x205f
    || c == 0x3000
    || c == 0xfeff

-- `text.includes(unit)`.
abbrev pub holds_unit : ℕ → Text → Bool
holds_unit u [] = false
holds_unit u (a ∷ text) = a == u || holds_unit u text

-- A text without the separator, the separator and a rest are cut in one way only.
pub cut_unique :
    (sep : ℕ) (s t : Text) (u v : Text)
    → All (λ c. c ≢ sep) s
    → All (λ c. c ≢ sep) t
    → s ++ sep ∷ u ≡ t ++ sep ∷ v
    → (s ≡ t) × (u ≡ v)
cut_unique sep [] [] u v hs ht e = ground arith
cut_unique sep [] (b ∷ t) u v hs ht e = absurd (ht.0 (ground arith))
cut_unique sep (a ∷ s) [] u v hs ht e = absurd (hs.0 (ground arith))
cut_unique sep (a ∷ s) (b ∷ t) u v hs ht e =
    let (same, rest) = cut_unique sep s t u v hs.1 ht.1 (ground arith) in
    (ap₂ ◌∷◌ (ground arith) same, rest)
