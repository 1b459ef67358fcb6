-- ===== src/Version.antt =====
-- helper/api.go: the version of a vCenter and the test that guards newer settings.
pub mod Order
use vsphere_facade.Prelude.{
  Bool, List, Option, Outcome, [], add_int64, deref, false, get_elem?, if◌then◌else◌, leb, leb_ℤ,
  ltb, max_int64, mul_int64, nat_eq, negsuc, none, not, ok, panic, pos, some, suc, true, zero, ℕ, ℤ,
  ◌&&◌, ◌*◌, ◌++◌, ◌+◌, ◌-◌, ◌==◌, ◌>>=◌, ◌^◌, ◌∷◌,
}

-- strings.Split at the byte `sep`; `word` holds the bytes of the current part.
split_at : ℕ → List ℕ → List ℕ → List (List ℕ)
split_at sep word [] = word ∷ []
split_at sep word (b ∷ text) =
    let rest = split_at sep [] text in
    let longer = split_at sep (word ++ b ∷ []) text in if b == sep then word ∷ rest else longer

-- The digits of a number; `none` is a syntax error.
digits : ℕ → List ℕ → Option ℕ
digits n [] = some n
digits n (b ∷ text) =
    let rest = digits (n * 10 + (b - 48)) text in if leb 48 b && leb b 57 then rest else none

-- A number out of range is replaced by the nearest int64.
clamp : Bool → ℕ → ℤ
clamp negative n =
    if negative
    then (if ltb (2 ^ 63) n then negsuc max_int64 else elim n [ zero ↦ pos 0 | suc m ↦ negsuc m ])
    else pos (if ltb max_int64 n then max_int64 else n)

unsigned : Bool → List ℕ → ℤ
unfolding digits clamp
unsigned negative [] = pos 0
unsigned negative (b ∷ text) = elim (digits 0 (b ∷ text)) [
  | none ↦ pos 0
  | some n ↦ clamp negative n
]

-- The number that strconv.Atoi returns; its error is dropped, and with a syntax error it is 0.
atoi : List ℕ → ℤ
unfolding unsigned
atoi [] = pos 0
atoi (b ∷ text) =
    if b == b'-'
    then unsigned true text
    else if b == b'+'
    then unsigned false text
    else unsigned false (b ∷ text)

pub record ApiVersion : Type 0 where
  pub major : ℤ
  pub minor : ℤ
  pub patch : ℤ
  pub v : ℤ

-- version: `int` has 64 bits
unfoldable pub version : ℤ → ℤ → ℤ → ℤ
version major minor patch = add_int64 (add_int64 (mul_int64 major 1000) (mul_int64 minor 100)) patch

unfoldable pub api_version : ℤ → ℤ → ℤ → ApiVersion
api_version major minor patch = record {
  major = major;
  minor = minor;
  patch = patch;
  v = version major minor patch;
}

-- parseVer: the index of a part that is missing panics.
unfoldable pub parse_ver : List ℕ → Outcome (Unit {0}) ApiVersion
unfolding split_at atoi
parse_ver ver = do
  let s = split_at b'.' [] ver
  major ← deref (get_elem? s 0)
  minor ← deref (get_elem? s 1)
  patch ← deref (get_elem? s 2)
  ok (api_version (atoi major) (atoi minor) (atoi patch))

-- Newer, where the version has been parsed
unfoldable pub newer : ApiVersion → ℤ → ℤ → ℤ → Bool
newer a major minor patch = leb_ℤ (version major minor patch) a.v

-- checkVer: a vCenter before 5.5.0 ends in a panic.
unfoldable pub check_ver : ApiVersion → Outcome (Unit {0}) (Unit {0})
unfolding newer
check_ver a = if not (newer a (pos 5) (pos 5) (pos 0)) then panic else ok tt
