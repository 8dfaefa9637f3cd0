-- ===== src/Prelude/Utf8.antt =====
-- UTF-8 as Go's package unicode/utf8 and its string conversions read and write it.
pub mod RoundTrip
pub mod Ascii
use Prim.Native.Nat.{ℕ, zero, suc, ◌+◌, ◌-◌, ◌*◌, ◌/◌, ◌%◌}
use mathlib.Core.Bool.{Bool, true, false, not, ◌&&◌, ◌||◌}
use mathlib.Core.List.{List, [], ◌∷◌, ◌++◌}
use visual_tmux_client.Prelude.Tests.{ltb, leb, ◌==◌, nat_eq, if◌then◌else◌}
use visual_tmux_client.Prelude.Text.{Bytes}

-- A code point, and how many bytes it takes.
pub record Rune : Type 0 where
  pub rune : ℕ
  pub width : ℕ

abbrev pub rune_error : ℕ
rune_error = 0xFFFD

abbrev pub bad : Rune
bad = record { rune = rune_error; width = 1 }

abbrev pub is_cont : ℕ → Bool
is_cont c = leb 0x80 c && leb c 0xBF

-- The range of the second byte, by the first.
abbrev pub low : ℕ → ℕ
low b = if b == 0xE0 then 0xA0 else if b == 0xF0 then 0x90 else 0x80

abbrev pub high : ℕ → ℕ
high b = if b == 0xED then 0x9F else if b == 0xF4 then 0x8F else 0xBF

abbrev pub is_second : ℕ → ℕ → Bool
is_second b c = leb (low b) c && leb c (high b)

decode_two : ℕ → Bytes → Rune
decode_two b (c ∷ s) =
    if is_second b c then record { rune = b % 32 * 64 + c % 64; width = 2 } else bad
decode_two b [] = bad

decode_three : ℕ → Bytes → Rune
decode_three b (c ∷ d ∷ s) =
    if is_second b c && is_cont d
    then record { rune = b % 16 * 4096 + c % 64 * 64 + d % 64; width = 3 }
    else bad
decode_three b _ = bad

decode_four : ℕ → Bytes → Rune
decode_four b (c ∷ d ∷ e ∷ s) =
    if is_second b c && is_cont d && is_cont e
    then record { rune = b % 8 * 262144 + c % 64 * 4096 + d % 64 * 64 + e % 64; width = 4 }
    else bad
decode_four b _ = bad

-- utf8.DecodeRuneInString, at a byte and what follows it
unfoldable pub decode : ℕ → Bytes → Rune
unfolding decode_two decode_three decode_four
decode b s =
    if ltb b 0x80
    then record { rune = b; width = 1 }
    else if ltb b 0xC2
    then bad
    else if ltb b 0xE0
    then decode_two b s
    else if ltb b 0xF0
    then decode_three b s
    else if ltb b 0xF5
    then decode_four b s
    else bad

-- The runes behind `k` bytes that belong to the rune before them.
unfoldable pub runes_from : ℕ → Bytes → List ℕ
runes_from k [] = []
runes_from zero (b ∷ s) = (decode b s).rune ∷ runes_from ((decode b s).width - 1) s
runes_from (suc k) (b ∷ s) = runes_from k s

-- []rune(s)
unfoldable pub runes : Bytes → List ℕ
unfolding runes_from
runes s = runes_from 0 s

unfoldable pub valid_from : ℕ → Bytes → Bool
valid_from k [] = true
valid_from zero (b ∷ s) =
    not ((decode b s).rune == rune_error && (decode b s).width == 1)
    && valid_from ((decode b s).width - 1) s
valid_from (suc k) (b ∷ s) = valid_from k s

-- utf8.ValidString
unfoldable pub valid_string : Bytes → Bool
unfolding valid_from
valid_string s = valid_from 0 s

-- Code points that are not surrogates.
abbrev pub is_scalar : ℕ → Bool
is_scalar r = ltb r 0xD800 || leb 0xE000 r && leb r 0x10FFFF

abbrev three_bytes : ℕ → Bytes
three_bytes r = (0xE0 + r / 4096) ∷ (0x80 + r / 64 % 64) ∷ (0x80 + r % 64) ∷ []

-- utf8.AppendRune
unfoldable pub encode : ℕ → Bytes
encode r =
    if ltb r 0x80
    then r ∷ []
    else if ltb r 0x800
    then (0xC0 + r / 64) ∷ (0x80 + r % 64) ∷ []
    else if not (is_scalar r)
    then three_bytes rune_error
    else if ltb r 0x10000
    then three_bytes r
    else (0xF0 + r / 262144) ∷ (0x80 + r / 4096 % 64) ∷ (0x80 + r / 64 % 64) ∷ (0x80 + r % 64) ∷ []

-- string(rs)
unfoldable pub encode_all : List ℕ → Bytes
encode_all [] = []
encode_all (r ∷ rs) = encode r ++ encode_all rs
