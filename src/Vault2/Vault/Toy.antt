-- ===== src/Vault2/Vault/Toy.antt =====
-- A coding of names that meets the laws, for tests: each byte in unary, with letters.
use desktop_folder_locker.Common.{
  ℕ, zero, suc, ◌+◌, ◌-◌, ◌≡◌, refl, ap, ◌∙◌, [], ◌∷◌, true, false, ◌&&◌, ◌==◌, leb, if◌then◌else◌,
  arith,
}
use desktop_folder_locker.Common.Text.{Text}
use desktop_folder_locker.Vault2.Error.{ok}
use desktop_folder_locker.Vault2.Names.Defs.{is_utf8, is_internal_entry, is_long_entry, starts_with}
use desktop_folder_locker.Vault2.Names.Entry.{is_internal_entry-has_dot, has_dot}
use desktop_folder_locker.Vault2.Vault.Folders.{NameCalls, temp_prefix}
use desktop_folder_locker.Vault2.Vault.Laws.{NamesAreLawful}

unfoldable pub unary : ℕ → Text → Text
unary zero rest = b'b' ∷ rest
unary (suc n) rest = b'a' ∷ unary n rest

unfoldable pub code : Text → Text
code [] = []
code (b ∷ name) = unary b (code name)

-- The bytes, where `n` of the next one is read already.
unfoldable pub decode : ℕ → Text → Text
decode n [] = []
decode n (c ∷ t) =
    let next = n ∷ decode 0 t in let more = decode (suc n) t in if c == b'b' then next else more

decode-unary : (n b : ℕ) (t : Text) → decode n (unary b t) ≡ (n + b) ∷ decode 0 t
unfolding decode unary
decode-unary n zero t = ap (λ m. m ∷ decode 0 t) (omega arith)
decode-unary n (suc b) t =
    decode-unary (suc n) b t
    ∙ ap (λ m. m ∷ decode 0 t) (let e : suc n + b ≡ n + suc b = omega arith in e)

decode-code : (name : Text) → decode 0 (code name) ≡ name
unfolding decode code
decode-code [] = refl
decode-code (b ∷ name) =
    decode-unary 0 b (code name)
    ∙ ap (λ m. m ∷ decode 0 (code name)) (let e : 0 + b ≡ b = omega arith in e)
    ∙ ap (λ t. b ∷ t) (decode-code name)

unfoldable pub upper : Text → Text
upper [] = []
upper (c ∷ t) = (if leb b'a' c && leb c b'z' then c - 32 else c) ∷ upper t

no_dot-unary : (b : ℕ) (t : Text) → has_dot t ≡ false → has_dot (unary b t) ≡ false
unfolding unary
no_dot-unary zero t h = h
no_dot-unary (suc b) t h = no_dot-unary b t h

no_dot-code : (name : Text) → has_dot (code name) ≡ false
unfolding code
no_dot-code [] = refl
no_dot-code (b ∷ name) = no_dot-unary b (code name) (no_dot-code name)

starts-unary :
    (c b : ℕ) (t : Text)
    → (b'a' == c) ≡ false
    → (b'b' == c) ≡ false
    → starts_with c (unary b t) ≡ false
unfolding unary
starts-unary c zero t ha hb = hb
starts-unary c (suc b) t ha hb = ha

starts-code :
    (c : ℕ) (name : Text)
    → (b'a' == c) ≡ false
    → (b'b' == c) ≡ false
    → starts_with c (code name) ≡ false
unfolding code
starts-code c [] ha hb = refl
starts-code c (b ∷ name) ha hb = starts-unary c b (code name) ha hb

utf8-unary : (b : ℕ) (t : Text) → is_utf8 [] t ≡ true → is_utf8 [] (unary b t) ≡ true
unfolding unary is_utf8
utf8-unary zero t h = h
utf8-unary (suc b) t h = utf8-unary b t h

utf8-code : (name : Text) → is_utf8 [] (code name) ≡ true
unfolding code is_utf8
utf8-code [] = refl
utf8-code (b ∷ name) = utf8-unary b (code name) (utf8-code name)

unfoldable pub calls : NameCalls
unfolding unary code decode upper
calls = record {
  encrypt_name = λ iv name. ok (code name);
  decrypt_name = λ iv encoded. ok (decode 0 encoded);
  entry_name = λ encoded. encoded;
  fold = upper;
}

not_long : (name : Text) → is_long_entry (code name) ≡ false
unfolding is_long_entry
not_long name = rw (starts-code b'L' name refl refl) (ground arith)

pub calls-NamesAreLawful : NamesAreLawful calls
unfolding calls
calls-NamesAreLawful = record {
  decrypts = λ iv name encoded is_name e.
      let q : encoded ≡ code name = cc e in ap ok (ap (decode 0) q ∙ decode-code name);
  plain = λ iv name encoded e.
      ap is_internal_entry (let q : encoded ≡ code name = cc e in q)
      ∙ is_internal_entry-has_dot (code name) (no_dot-code name);
  lasting = λ iv name encoded e.
      ap (starts_with temp_prefix) (let q : encoded ≡ code name = cc e in q)
      ∙ starts-code temp_prefix name refl refl;
  short = λ iv name encoded e h. refl;
  utf8 = λ iv name encoded is_name e.
      ap (is_utf8 []) (let q : encoded ≡ code name = cc e in q) ∙ utf8-code name;
  apart = λ iv name encoded name' encoded' is_name is_name' e e' h. h;
}
