-- ===== src/Common/Text.antt =====
-- Texts as lists of character codes, and the methods of `str` that the program calls.
use Prim.Native.Char.{code}
use Prim.Native.String.{String}
use Prim.Native.Nat.{ℕ, zero, suc, ◌-◌}
use mathlib.Core.Path.{◌≡◌, refl, ap}
use mathlib.Core.List.{List, [], ◌∷◌}
use mathlib.Core.Logic.{inl, inr}
use mathlib.Core.Bool.{Bool, true, false, ◌&&◌, ◌||◌}
use native.Mathlib.Omega.{arith}
use desktop_folder_locker.Common.Tests.{◌==◌, Bool-cases, leb, if◌then◌else◌, ==_iff}
use desktop_folder_locker.Common.Lists.{length, drop, get_or, eq_bytes}

abbrev pub Text : Type 0
Text = List ℕ

abbrev pub codes : String → Text
codes String.[] = []
codes (String.◌∷◌ c s) = code c ∷ codes s

abbrev pub is_empty : Text → Bool
is_empty [] = true
is_empty (c ∷ t) = false

abbrev pub any : (ℕ → Bool) → Text → Bool
any p [] = false
any p (c ∷ t) = p c || any p t

-- `replace` of one character by another.
abbrev pub replace : ℕ → ℕ → Text → Text
replace old new [] = []
replace old new (c ∷ t) = (if c == old then new else c) ∷ replace old new t

-- `trim_end_matches` of one character.
unfoldable pub trim_end : ℕ → Text → Text
trim_end b [] = []
trim_end b (c ∷ t) = let rest = trim_end b t in if c == b && is_empty rest then [] else c ∷ rest

unfoldable pub repeat : ℕ → ℕ → Text
repeat zero b = []
repeat (suc n) b = b ∷ repeat n b

abbrev pub ends_with : Text → Text → Bool
ends_with suffix t =
    leb (length suffix) (length t) && eq_bytes (drop (length t - length suffix) t) suffix

-- `split(b)`: the parts between the separators, at least one.
unfoldable pub split : ℕ → Text → Text × List Text
split b [] = ([], [])
split b (c ∷ t) =
    let (first, rest) = split b t in if c == b then ([], first ∷ rest) else (c ∷ first, rest)

pub trim_end_idem : (b : ℕ) (t : Text) → trim_end b (trim_end b t) ≡ trim_end b t
unfolding trim_end
trim_end_idem b [] = refl
trim_end_idem b (c ∷ t) = ground (arith, trim_end_idem b t)

pub replace_idem :
    (old new : ℕ) (t : Text)
    → (new == old) ≡ false
    → replace old new (replace old new t) ≡ replace old new t
replace_idem old new [] h = refl
replace_idem old new (c ∷ t) h = ground (arith, replace_idem old new t h, ==_iff c old)

-- Trailing characters that are trimmed leave no new ones to replace.
pub replace-trim_end :
    (old new b : ℕ) (t : Text)
    → replace old new t ≡ t
    → replace old new (trim_end b t) ≡ trim_end b t
unfolding trim_end
replace-trim_end old new b [] h = refl
replace-trim_end old new b (c ∷ t) h =
    let first : (if c == old then new else c) ≡ c = ap (λ t. get_or t 0 0) h in
    let rest : replace old new (trim_end b t) ≡ trim_end b t =
      replace-trim_end old new b t (ap (drop 1) h) in
    elim (Bool-cases (c == b && is_empty (trim_end b t))) [
      | inl e ↦ rw e refl
      | inr e ↦ rw e (cc (first, rest))
    ]
