-- ===== src/Vault2/Names/Utf8.antt =====
-- Texts that are valid UTF-8: those of ASCII are, and what is valid is bytes.
use desktop_folder_locker.Common.{
  ℕ, ◌≤◌, ◌≡◌, refl, sym, ◌∙◌, Option, some, none, inl, inr, List, [], ◌∷◌, ◌++◌, Bool, true, false,
  leb, ◌&&◌, arith, Option-cases,
}
use desktop_folder_locker.Common.Text.{Text, any}
use desktop_folder_locker.Vault2.Crypto.{Bytes}
use desktop_folder_locker.Vault2.Names.Defs.{is_utf8, utf8_tail}

-- The text has a number that is none of a byte; that is not ASCII.
abbrev pub has_no_byte : Bytes → Bool
has_no_byte bytes = any (leb 256) bytes

abbrev pub has_no_ascii : Text → Bool
has_no_ascii text = any (leb 128) text

pub any-append :
    (p : ℕ → Bool) (s t : Text) → any p s ≡ false → any p t ≡ false → any p (s ++ t) ≡ false
any-append p [] t hs ht = ht
any-append p (b ∷ s) t hs ht = ground (arith, any-append p s t (ground arith) ht)

abbrev goes_on : Option (List (ℕ × ℕ)) → Bytes → Bool
goes_on none text = false
goes_on (some ranges) text = is_utf8 ranges text

is_utf8_next :
    (b : ℕ) (text : Bytes) (o : Option (List (ℕ × ℕ)))
    → utf8_tail b ≡ o
    → is_utf8 [] (b ∷ text) ≡ goes_on o text
unfolding is_utf8
is_utf8_next b text none e = rw (is_utf8, e) refl
is_utf8_next b text (some ranges) e = rw (is_utf8, e) refl

pub ascii-utf8 : (text : Text) → has_no_ascii text ≡ false → is_utf8 [] text ≡ true
unfolding is_utf8
ascii-utf8 [] h = refl
ascii-utf8 (b ∷ text) h =
    let low : leb b 127 ≡ true = ground arith in
    is_utf8_next b text (some []) (rw low refl) ∙ ascii-utf8 text (ground arith)

abbrev are_low : List (ℕ × ℕ) → Bool
are_low [] = true
are_low ((low, high) ∷ ranges) = leb high 255 && are_low ranges

-- The ranges of the bytes that may follow.
tail_low :
    (b : ℕ) (ranges : List (ℕ × ℕ))
    → utf8_tail b ≡ some ranges
    → (b ≤ 255) × (are_low ranges ≡ true)
tail_low b ranges e = ground arith

pub utf8-bytes :
    (ranges : List (ℕ × ℕ)) (text : Bytes)
    → are_low ranges ≡ true
    → is_utf8 ranges text ≡ true
    → has_no_byte text ≡ false
unfolding is_utf8
utf8-bytes ranges [] low e = refl
utf8-bytes ((first, last) ∷ ranges) (b ∷ text) low e =
    ground (arith, utf8-bytes ranges text (ground arith) (ground arith))
utf8-bytes [] (b ∷ text) low e = elim (Option-cases (utf8_tail b)) [
  | inl none_is ↦ absurd (cc (e, is_utf8_next b text none none_is))
  | inr (ranges, some_is) ↦
      let (small, low') = tail_low b ranges some_is in
      let rest =
        utf8-bytes ranges text low' (sym (is_utf8_next b text (some ranges) some_is) ∙ e) in
      ground (arith, small, rest)
]
