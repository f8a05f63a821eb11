-- ===== src/Vault2/Names/Entry.antt =====
-- The directory entries that names are stored under.
use desktop_folder_locker.Common.{
  ℕ, zero, suc, ◌+◌, ◌-◌, ◌*◌, ◌/◌, ◌<◌, ◌≤◌, ◌≡◌, ◌↔◌, inl, inr, refl, ap, ◌∙◌, List, [], ◌∷◌,
  ◌++◌, Bool, true, false, ◌==◌, ==_iff, leb, le→leb, lt→leb, ◌||◌, eq_bytes, eq_of_eq_bytes,
  length, length-append, drop-append_left, drop, arith, Bool-cases,
}
use desktop_folder_locker.Common.Text.{Text, any, ends_with}
use desktop_folder_locker.Vault2.Content.Lengths.{le_or_lt}
use desktop_folder_locker.Vault2.Crypto.{Bytes, Crypto}
use desktop_folder_locker.Vault2.Names.Defs.{
  Hashes, HashesAreLawful, entry_name, is_long_entry, is_internal_entry, sidecar_name,
  sidecar_suffix, max_encoded_len, long_entry_len, dir_iv_file, key_check_file, fold, upper_of,
}

abbrev pub has_dot : Text → Bool
has_dot t = any (λ c. c == b'.') t

has_dot-drop : (n : ℕ) (t : Text) → has_dot t ≡ false → has_dot (drop n t) ≡ false
has_dot-drop zero t h = h
has_dot-drop (suc n) [] h = refl
has_dot-drop (suc n) (c ∷ t) h = has_dot-drop n t (ground arith)

differs : (s t : Text) → has_dot s ≡ true → has_dot t ≡ false → eq_bytes t s ≡ false
differs s t hs ht = elim (Bool-cases (eq_bytes t s)) [
  | inl e ↦
      let same : has_dot t ≡ has_dot s = ap has_dot (eq_of_eq_bytes t s e) in absurd (ground arith)
  | inr e ↦ e
]

ends_with-has_dot : (t : Text) → has_dot t ≡ false → ends_with sidecar_suffix t ≡ false
ends_with-has_dot t h =
    let e =
      differs sidecar_suffix (drop (length t - length sidecar_suffix) t) refl
        (has_dot-drop (length t - length sidecar_suffix) t h) in
    rw e (ground arith)

pub is_internal_entry-has_dot : (t : Text) → has_dot t ≡ false → is_internal_entry t ≡ false
unfolding is_internal_entry
is_internal_entry-has_dot t h =
    rw (differs dir_iv_file t refl h, differs key_check_file t refl h, ends_with-has_dot t h) refl

ends_either : (p q r : Bool) → r ≡ true → (p || (q || r)) ≡ true
ends_either p q r h = ground arith

drop_suffix : (t suffix : Text) → drop (length (t ++ suffix) - length suffix) (t ++ suffix) ≡ suffix
drop_suffix t suffix =
    let e : length (t ++ suffix) - length suffix ≡ length t =
      omega (arith, length-append t suffix) in
    ap (λ n. drop n (t ++ suffix)) e ∙ drop-append_left t suffix

pub sidecar-internal : (entry : Text) → is_internal_entry (sidecar_name entry) ≡ true
unfolding is_internal_entry sidecar_name
sidecar-internal entry =
    let same : eq_bytes
          (drop (length (entry ++ sidecar_suffix) - length sidecar_suffix)
            (entry ++ sidecar_suffix))
          sidecar_suffix
        ≡ true =
      ap (λ t. eq_bytes t sidecar_suffix) (drop_suffix entry sidecar_suffix) in
    let fits : leb (length sidecar_suffix) (length (entry ++ sidecar_suffix)) ≡ true =
      le→leb _ _ (omega (arith, length-append entry sidecar_suffix)) in
    ends_either (eq_bytes (sidecar_name entry) dir_iv_file)
      (eq_bytes (sidecar_name entry) key_check_file) (ends_with sidecar_suffix (sidecar_name entry))
      (rw (same, fits) refl)

module _ (c : Crypto) (h : Hashes) (H : HashesAreLawful h) where
  pub entry_name_short :
      (encoded : Text) → length encoded ≤ max_encoded_len → entry_name c h encoded ≡ encoded
  unfolding entry_name
  entry_name_short encoded le = rw (le→leb (length encoded) max_encoded_len le) refl

  pub entry_name_long :
      (encoded : Text)
      → max_encoded_len < length encoded
      → entry_name c h encoded ≡ b'L' ∷ h.encode (h.digest encoded)
  unfolding entry_name
  entry_name_long encoded lt = rw (lt→leb (length encoded) max_encoded_len lt) refl

  long_entry : (text : Bytes) → is_long_entry (b'L' ∷ h.encode (h.digest text)) ≡ true
  unfolding is_long_entry
  long_entry text =
      let l : length (h.encode (h.digest text)) ≡ 27 =
        H.length-encode (h.digest text) ∙ ap (λ n. (4 * n + 2) / 3) (H.length-digest text) in
      rw l refl

  not_long : (t : Text) → long_entry_len < length t → is_long_entry t ≡ false
  unfolding is_long_entry
  not_long t lt = ground (arith, ==_iff (length t) long_entry_len)

  -- A stored name, which is base64 of more than 40 bytes, stands under an entry that is no
  -- bookkeeping file, and that is taken for a long name exactly when the stored name has more than
  -- 175 characters. The file next to it is taken for bookkeeping.
  pub entry_name-kind :
      (raw : Bytes)
      → 40 < length raw
      → let entry = entry_name c h (h.encode raw) in
        (is_internal_entry entry ≡ false)
        × ((is_long_entry entry ≡ true) ↔ (max_encoded_len < length (h.encode raw)))
        × (is_internal_entry (sidecar_name entry) ≡ true)
  entry_name-kind raw long =
      let l = H.length-encode raw in
      elim (le_or_lt (length (h.encode raw)) max_encoded_len) [
        | inl short ↦ rw (entry_name_short (h.encode raw) short) (
          is_internal_entry-has_dot (h.encode raw) (H.plain raw),
          (
            λ e. absurd (ground (arith, not_long (h.encode raw) (omega arith))),
            λ lt. absurd (omega arith),
          ),
          sidecar-internal (h.encode raw),
        )
        | inr lt ↦ rw (entry_name_long (h.encode raw) lt) (
          is_internal_entry-has_dot (b'L' ∷ h.encode (h.digest (h.encode raw))) (H.plain _),
          (λ e. lt, λ _. long_entry (h.encode raw)),
          sidecar-internal _,
        )
      ]

-- One character stands for one.
pub length-fold :
    (to_uppercase : ℕ → List ℕ) (name : Text) → length (fold to_uppercase name) ≡ length name
unfolding fold
length-fold to_uppercase [] = refl
length-fold to_uppercase (c ∷ name) = ap suc (length-fold to_uppercase name)

upper_once :
    (to_uppercase : ℕ → List ℕ) (c : ℕ) (upper : List ℕ)
    → ((u : ℕ) → to_uppercase c ≡ u ∷ [] → to_uppercase u ≡ u ∷ [])
    → to_uppercase c ≡ upper
    → upper_of (to_uppercase (upper_of upper c)) (upper_of upper c) ≡ upper_of upper c
upper_once to_uppercase c [] h e = ap (λ l. upper_of l c) e
upper_once to_uppercase c (u ∷ []) h e = ap (λ l. upper_of l u) (h u e)
upper_once to_uppercase c (u ∷ v ∷ rest) h e = ap (λ l. upper_of l c) e

-- Names that differ in case only are folded to the same: folding again changes nothing, where
-- the single uppercase of a character is its own.
pub fold_idem :
    (to_uppercase : ℕ → List ℕ)
    → ((c u : ℕ) → to_uppercase c ≡ u ∷ [] → to_uppercase u ≡ u ∷ [])
    → (name : Text) → fold to_uppercase (fold to_uppercase name) ≡ fold to_uppercase name
unfolding fold
fold_idem to_uppercase upper [] = refl
fold_idem to_uppercase upper (c ∷ name) =
    cc
      (upper_once to_uppercase c (to_uppercase c) (upper c) refl, fold_idem to_uppercase upper name)
