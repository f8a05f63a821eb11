-- ===== src/Drive/Handler/Shown.antt =====
-- What the drive of native/drive/src/drives/handler.rs shows of attributes that a program set.
use desktop_folder_locker.Common.{
  ℕ, ◌+◌, ltb, ◌^◌, ◌≡◌, ◌≢◌, Bool-cases, inl, inr, refl, sym, not, ◌||◌, ◌<◌, [], ◌∷◌, Bool, true,
  false, ◌&&◌, ◌==◌, ==_iff, if◌then◌else◌, arith,
}
use desktop_folder_locker.Drive.Handler.InUse.{has_any}
use desktop_folder_locker.Drive.Handler.Create.{kept_attributes}
use desktop_folder_locker.Drive.Handler.Attributes.{
  masked, visible_attributes, stored_attributes, attribute_normal,
}

-- A test of all values of a bit.
abbrev both : (Bool → Bool) → Bool
both p = p true && p false

both_lem : (p : Bool → Bool) (b : Bool) → both p ≡ true → p b ≡ true
both_lem p true h = ground (arith, h)
both_lem p false h = ground (arith, h)

abbrev value : Bool → Bool → Bool → Bool → Bool → ℕ
value a b c d e =
    (if a then 1 else 0)
    + ((if b then 2 else 0)
        + ((if c then 4 else 0) + ((if d then 32 else 0) + ((if e then 8192 else 0) + 0))))

abbrev stored_of : Bool → Bool → Bool → Bool → Bool → ℕ
stored_of a b c d e = let kept = value a b c d e in if kept == 0 then attribute_normal else kept

abbrev same_bit : Bool → Bool → Bool
same_bit true b = b
same_bit false b = not b

-- The bits of what is shown of a file and of a folder.
abbrev shows : Bool → Bool → Bool → Bool → Bool → Bool → ℕ → Bool
shows is_dir a b c d e shown =
    let bit = λ (i : ℕ). has_any shown (i ∷ []) in
    same_bit a (bit 0)
    && (same_bit b (bit 1)
        && (same_bit c (bit 2)
            && (same_bit d (bit 5)
                && (same_bit e (bit 13)
                    && (same_bit is_dir (bit 4)
                        && (same_bit (not is_dir && not (a || (b || (c || (d || e))))) (bit 7)
                            && ltb shown (2 ^ 14)))))))

unfoldable shows_all : Bool → Bool → Bool → Bool → Bool → Bool → Bool
shows_all is_dir a b c d e =
    shows is_dir a b c d e (visible_attributes (stored_of a b c d e) is_dir)

all_shown :
    both
      (λ dir. both (λ a. both (λ b. both (λ c. both (λ d. both (λ e. shows_all dir a b c d e))))))
    ≡ true
unfolding shows_all visible_attributes masked has_any
all_shown = refl

shows_lem : (dir a b c d e : Bool) → shows_all dir a b c d e ≡ true
shows_lem dir a b c d e =
    both_lem (λ e'. shows_all dir a b c d e') e
      (both_lem (λ d'. both (λ e'. shows_all dir a b c d' e')) d
        (both_lem (λ c'. both (λ d'. both (λ e'. shows_all dir a b c' d' e'))) c
          (both_lem (λ b'. both (λ c'. both (λ d'. both (λ e'. shows_all dir a b' c' d' e')))) b
            (both_lem
              (λ a'.
                both (λ b'. both (λ c'. both (λ d'. both (λ e'. shows_all dir a' b' c' d' e')))))
              a
              (both_lem
                (λ dir'. both (λ a'.
                  both
                    (λ b'. both (λ c'. both (λ d'. both (λ e'. shows_all dir' a' b' c' d' e'))))))
                dir all_shown)))))

same_bit_lem : (a b : Bool) → same_bit a b ≡ true → b ≡ a
same_bit_lem true b h = h
same_bit_lem false true h = sym h
same_bit_lem false false h = refl

and_cases : (a b : Bool) → (a && b) ≡ true → (a ≡ true) × (b ≡ true)
and_cases true b h = (refl, h)
and_cases false b h = absurd (ground (arith, h))

not_zero : (kept : ℕ) → (if kept == 0 then attribute_normal else kept) ≢ 0
not_zero kept = elim (Bool-cases (kept == 0)) [
  | inl e ↦ rw e (omega arith)
  | inr e ↦ rw e (ground (arith, ==_iff kept 0))
]

below : (a b : ℕ) → ltb a b ≡ true → a < b
below a b h = ground arith

-- What the drive shows after a program set attributes: read-only, hidden, system, archive and not
-- indexed as it set them, that it is a folder exactly for folders, that it is a normal file exactly
-- for a file of which none of these is set, and no attribute above them. What is stored for it is
-- not 0, which would leave the attributes as they were.
pub visible-stored :
    (attributes : ℕ) (is_dir : Bool)
    → let shown = visible_attributes (stored_attributes attributes) is_dir in
      let given = λ (i : ℕ). has_any attributes (i ∷ []) in
      let bit = λ (i : ℕ). has_any shown (i ∷ []) in
      (bit 0 ≡ given 0)
      × (bit 1 ≡ given 1)
      × (bit 2 ≡ given 2)
      × (bit 5 ≡ given 5)
      × (bit 13 ≡ given 13)
      × (bit 4 ≡ is_dir)
      × (bit 7 ≡ (not is_dir && not (given 0 || (given 1 || (given 2 || (given 5 || given 13))))))
      × (shown < 2 ^ 14)
      × (stored_attributes attributes ≢ 0)
unfolding stored_attributes masked shows_all
visible-stored attributes is_dir =
    let given = λ (i : ℕ). has_any attributes (i ∷ []) in
    let shown = shows_lem is_dir (given 0) (given 1) (given 2) (given 5) (given 13) in
    let (b0, r0) = and_cases _ _ shown in
    let (b1, r1) = and_cases _ _ r0 in
    let (b2, r2) = and_cases _ _ r1 in
    let (b5, r5) = and_cases _ _ r2 in
    let (b13, r13) = and_cases _ _ r5 in
    let (b4, r4) = and_cases _ _ r13 in
    let (b7, small) = and_cases _ _ r4 in
    (
      same_bit_lem _ _ b0,
      same_bit_lem _ _ b1,
      same_bit_lem _ _ b2,
      same_bit_lem _ _ b5,
      same_bit_lem _ _ b13,
      same_bit_lem _ _ b4,
      same_bit_lem _ _ b7,
      below _ _ small,
      not_zero (masked attributes kept_attributes),
    )
