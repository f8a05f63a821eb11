-- ===== src/Vault2/Content/Sample.antt =====
-- A file of nine bytes over the toy cipher, for tests.
use desktop_folder_locker.Common.{◌≡◌, inl, refl, sym, ap, subst, true, [], ◌∷◌, arith}
use desktop_folder_locker.Vault2.Crypto.{Bytes}
use desktop_folder_locker.Vault2.Crypto.Toy.{toy-IsLawful}
use desktop_folder_locker.Vault2.Content.Disk.{Disk, write_all_at}
use desktop_folder_locker.Vault2.Content.Lengths.{plain_len_small}
use desktop_folder_locker.Vault2.Content.Holds.{Holds, IsUsable}
use desktop_folder_locker.Vault2.Content.Written.{write_at-Holds}
use desktop_folder_locker.Vault2.Content.File.{State, write_at}
use desktop_folder_locker.Vault2.Content.Tests.{codec, empty, write}

pub codec-IsUsable : IsUsable codec
codec-IsUsable = record { law = toy-IsLawful; pos = omega arith; small = omega arith }

abbrev pub nothing : Disk
nothing = record { len = 0; byte = λ _. 0 }

pub empty-Holds : Holds codec empty nothing
empty-Holds = record {
  stored = refl;
  size = plain_len_small codec 0 (omega arith);
  header = omega arith;
  blocks = λ id e index h. elim h [ ];
}

-- Two blocks of four bytes, and one byte in a third.
abbrev pub bytes : Bytes
bytes = 1 ∷ 2 ∷ 3 ∷ 4 ∷ 5 ∷ 6 ∷ 7 ∷ []

-- The file that holds two zeros and then these bytes.
abbrev pub nine : State
nine = (write_at codec 2 bytes empty).1

abbrev pub nine_plain : Disk
nine_plain = write_all_at nothing 2 bytes

pub len-nine_plain : nine_plain.len ≡ 9
unfolding write_all_at
len-nine_plain = refl

pub nine-Holds : Holds codec nine nine_plain
nine-Holds =
    let (st, e, h) =
      write_at-Holds codec codec-IsUsable empty nothing 2 bytes empty-Holds (inl refl)
        (omega arith) in
    subst (λ st. Holds codec st nine_plain) (sym (ap (λ r. r.1) e)) h

pub nine_writable : nine.writable ≡ true
unfolding write
nine_writable = refl
