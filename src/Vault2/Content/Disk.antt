-- ===== src/Vault2/Content/Disk.antt =====
-- A stored file as the operating system keeps it: its length and the byte at each position. These
-- are the calls that content.rs makes on it, `read_exact_at`, `write_all_at` and `File::set_len`.
-- A read past the end fails; a full disk or a broken one is not modelled.
use desktop_folder_locker.Common.{
  ℕ, zero, suc, ◌+◌, ◌-◌, ◌≡◌, ◌<◌, ◌≤◌, ◌&&◌, max, List, [], ◌∷◌, ◌++◌, take, drop, min, length,
  get_or, refl, arith, none, ltb, leb, if◌then◌else◌, ap, ◌∙◌, sym,
}
use native.Mathlib.Nat.{add-zero}
use desktop_folder_locker.Vault2.Error.{Result, ok, err, io, ErrorKind}

pub record Disk : Type 0 where
  pub len : ℕ
  pub byte : ℕ → ℕ

-- `n` bytes from position `pos` on.
unfoldable pub slice : (ℕ → ℕ) → ℕ → ℕ → List ℕ
slice f pos zero = []
slice f pos (suc n) = f pos ∷ slice f (suc pos) n

-- The buffer `f` with `bytes` copied to position `pos`: `copy_from_slice`.
unfoldable pub patch : (ℕ → ℕ) → ℕ → List ℕ → ℕ → ℕ
patch f pos bytes p =
    if leb pos p && ltb p (pos + length bytes) then get_or bytes (p - pos) 0 else f p

unfoldable pub read_exact_at : Disk → ℕ → ℕ → Result (List ℕ)
read_exact_at d pos zero = ok []
read_exact_at d pos (suc n) =
    if leb (pos + suc n) d.len
    then ok (slice d.byte pos (suc n))
    else err (io (record { kind = ErrorKind.unexpected_eof; raw_os_error = none }))

-- The file with its bytes after the end read as zeros.
abbrev pub padded : Disk → ℕ → ℕ
padded d p = if ltb p d.len then d.byte p else 0

-- A gap after the old end reads as zeros.
unfoldable pub write_all_at : Disk → ℕ → List ℕ → Disk
write_all_at d pos [] = d
write_all_at d pos (b ∷ bytes) = record {
  len = max d.len (pos + length (b ∷ bytes));
  byte = patch (padded d) pos (b ∷ bytes);
}

unfoldable pub set_len : Disk → ℕ → Disk
set_len d n = record { len = n; byte = padded d }

zero_add : (n : ℕ) → 0 + n ≡ n
zero_add n = omega arith

add_suc_left : (n m : ℕ) → suc n + m ≡ suc (n + m)
add_suc_left n m = omega arith

suc_add : (p k : ℕ) → suc p + k ≡ p + suc k
suc_add p k = omega arith

pub length-slice : (f : ℕ → ℕ) (pos n : ℕ) → length (slice f pos n) ≡ n
unfolding slice
length-slice f pos zero = refl
length-slice f pos (suc n) = ap suc (length-slice f (suc pos) n)

-- Slices are equal when their bytes are.
pub slice_ext :
    (f g : ℕ → ℕ) (p q n : ℕ)
    → ((k : ℕ) → k < n → f (p + k) ≡ g (q + k))
    → slice f p n ≡ slice g q n
unfolding slice
slice_ext f g p q zero h = refl
slice_ext f g p q (suc n) h =
    let first : f p ≡ g q = ap f (sym (add-zero p)) ∙ h 0 (omega arith) ∙ ap g (add-zero q) in
    let rest : slice f (suc p) n ≡ slice g (suc q) n =
      slice_ext f g (suc p) (suc q) n
        λ k l. ap f (suc_add p k) ∙ h (suc k) (omega arith) ∙ ap g (sym (suc_add q k)) in
    cc (first, rest)

pub get_or-slice : (f : ℕ → ℕ) (pos n k : ℕ) → k < n → get_or (slice f pos n) k 0 ≡ f (pos + k)
unfolding slice
get_or-slice f pos zero k h = elim h [ ]
get_or-slice f pos (suc n) zero h = ap f (sym (add-zero pos))
get_or-slice f pos (suc n) (suc k) h =
    get_or-slice f (suc pos) n k (omega arith) ∙ ap f (suc_add pos k)

-- A list is the slice of a function that agrees with it.
pub slice-eq :
    (f : ℕ → ℕ) (pos : ℕ) (bytes : List ℕ)
    → ((k : ℕ) → k < length bytes → f (pos + k) ≡ get_or bytes k 0)
    → slice f pos (length bytes) ≡ bytes
unfolding slice
slice-eq f pos [] h = refl
slice-eq f pos (b ∷ bytes) h =
    let first : f pos ≡ b = ap f (sym (add-zero pos)) ∙ h 0 (omega arith) in
    let rest : slice f (suc pos) (length bytes) ≡ bytes =
      slice-eq f (suc pos) bytes λ k l. ap f (suc_add pos k) ∙ h (suc k) (omega arith) in
    cc (first, rest)

pub patch_inside :
    (f : ℕ → ℕ) (pos : ℕ) (bytes : List ℕ) (k : ℕ)
    → k < length bytes
    → patch f pos bytes (pos + k) ≡ get_or bytes k 0
unfolding patch
patch_inside f pos bytes k h = let e : pos + k - pos ≡ k = omega arith in rw e (ground arith)

pub patch_below :
    (f : ℕ → ℕ) (pos : ℕ) (bytes : List ℕ) (p : ℕ) → p < pos → patch f pos bytes p ≡ f p
unfolding patch
patch_below f pos bytes p h = ground arith

pub patch_above :
    (f : ℕ → ℕ) (pos : ℕ) (bytes : List ℕ) (p : ℕ)
    → pos + length bytes ≤ p
    → patch f pos bytes p ≡ f p
unfolding patch
patch_above f pos bytes p h = ground arith

pub padded_inside : (d : Disk) (p : ℕ) → p < d.len → padded d p ≡ d.byte p
padded_inside d p h = ground arith

pub padded_outside : (d : Disk) (p : ℕ) → d.len ≤ p → padded d p ≡ 0
padded_outside d p h = ground arith

pub read_exact_at-eq_ok :
    (d : Disk) (pos n : ℕ) → pos + n ≤ d.len → read_exact_at d pos n ≡ ok (slice d.byte pos n)
unfolding read_exact_at slice
read_exact_at-eq_ok d pos zero h = refl
read_exact_at-eq_ok d pos (suc n) h = ground arith

pub write_all_at-eq :
    (d : Disk) (pos : ℕ) (bytes : List ℕ)
    → 0 < length bytes
    → write_all_at d pos bytes
      ≡ record { len = max d.len (pos + length bytes); byte = patch (padded d) pos bytes }
unfolding write_all_at
write_all_at-eq d pos [] h = elim h [ ]
write_all_at-eq d pos (b ∷ bytes) h = refl

pub slice-add :
    (f : ℕ → ℕ) (pos n m : ℕ) → slice f pos (n + m) ≡ slice f pos n ++ slice f (pos + n) m
unfolding slice
slice-add f pos zero m = ap (slice f pos) (zero_add m) ∙ ap (λ q. slice f q m) (sym (add-zero pos))
slice-add f pos (suc n) m =
    ap (slice f pos) (add_suc_left n m)
    ∙ ap (λ xs. f pos ∷ xs)
        (slice-add f (suc pos) n m ∙ ap (λ q. slice f (suc pos) n ++ slice f q m) (suc_add pos n))

pub set_len_below : (d : Disk) (n q : ℕ) → q < n → q < d.len → padded (set_len d n) q ≡ d.byte q
unfolding set_len
set_len_below d n q h l = ground arith

pub set_len_above : (d : Disk) (n q : ℕ) → n ≤ q → padded (set_len d n) q ≡ 0
unfolding set_len
set_len_above d n q h = ground arith

pub take-slice : (f : ℕ → ℕ) (pos r n : ℕ) → r ≤ n → take r (slice f pos n) ≡ slice f pos r
unfolding slice
take-slice f pos zero n h = refl
take-slice f pos (suc r) zero h = elim h [ ]
take-slice f pos (suc r) (suc n) h =
    ap (λ xs. f pos ∷ xs) (take-slice f (suc pos) r n (omega arith))

pub len-set_len : (d : Disk) (n : ℕ) → (set_len d n).len ≡ n
unfolding set_len
len-set_len d n = refl

pub padded-set_len : (d : Disk) (n q : ℕ) → d.len ≤ n → padded (set_len d n) q ≡ padded d q
unfolding set_len
padded-set_len d n q h = ground arith

pub patch_congr :
    (f g : ℕ → ℕ) (pos : ℕ) (bytes : List ℕ) (p : ℕ)
    → f p ≡ g p
    → patch f pos bytes p ≡ patch g pos bytes p
unfolding patch
patch_congr f g pos bytes p h = ground arith

pub take-slice-min : (f : ℕ → ℕ) (pos r n : ℕ) → take r (slice f pos n) ≡ slice f pos (min r n)
unfolding slice
take-slice-min f pos zero n = ap (slice f pos) (let z : 0 ≡ min 0 n = omega arith in z)
take-slice-min f pos (suc r) zero = ap (slice f pos) (let z : 0 ≡ min (suc r) 0 = omega arith in z)
take-slice-min f pos (suc r) (suc n) =
    ap (λ xs. f pos ∷ xs) (take-slice-min f (suc pos) r n)
    ∙ ap (slice f pos) (let z : suc (min r n) ≡ min (suc r) (suc n) = omega arith in z)

pub drop-slice : (f : ℕ → ℕ) (pos r n : ℕ) → drop r (slice f pos n) ≡ slice f (pos + r) (n - r)
unfolding slice
drop-slice f pos zero n =
    ap (λ q. slice f q n) (sym (add-zero pos))
    ∙ ap (slice f (pos + 0)) (let z : n ≡ n - 0 = omega arith in z)
drop-slice f pos (suc r) zero =
    ap (slice f (pos + suc r)) (let z : 0 ≡ 0 - suc r = omega arith in z)
drop-slice f pos (suc r) (suc n) =
    drop-slice f (suc pos) r n
    ∙ ap (λ q. slice f q (n - r)) (suc_add pos r)
    ∙ ap (slice f (pos + suc r)) (let z : n - r ≡ suc n - suc r = omega arith in z)
