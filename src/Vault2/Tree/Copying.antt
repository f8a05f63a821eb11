-- ===== src/Vault2/Tree/Copying.antt =====
-- The loops of tree.rs over the pieces of one file: of `import_dir`, `verify_dir` and
-- `export_dir`. The offsets and counts are u64 and stay below 2 ^ 64 with the sizes of files.
-- `verify_dir` counts in the bytes of its statistics what it compared. Errors name no path.
use desktop_folder_locker.Common.{
  ℕ, zero, suc, ◌+◌, ◌^◌, Bool, true, false, [], ◌∷◌, ◌++◌, length, eq_bytes, max, if◌then◌else◌,
}
use desktop_folder_locker.Vault2.Error.{
  Result, ok, err, Error, mismatch, Action, pure, raise, modify, ◌>>=◌, ◌>>◌,
}
use desktop_folder_locker.Vault2.Crypto.{Bytes}
use desktop_folder_locker.Vault2.Tree.Reader.{Reader, read_full}

pub record TreeStats : Type 0 where
  pub files : ℕ
  pub dirs : ℕ
  pub bytes : ℕ

abbrev pub no_stats : TreeStats
no_stats = record { files = 0; dirs = 0; bytes = 0 }

abbrev pub copy_chunk : ℕ
copy_chunk = 2 ^ 20

-- What a copy changes: the vault, what the function `progress` keeps, and the statistics.
pub record Run (S P : Type 0) : Type 0 where
  pub vault : S
  pub seen : P
  pub stats : TreeStats

module _ {S P : Type 0} where
  abbrev pub with_vault : {A : Type 0} → Run S P → Result A × S → Result A × Run S P
  with_vault run (r, s) = (r, record run { vault = s })

  abbrev pub on_vault : {A : Type 0} → Action S A → Action (Run S P) A
  on_vault m run = with_vault run (m run.vault)

  abbrev pub count_bytes : ℕ → Run S P → Run S P
  count_bytes n run = record run { stats = record run.stats { bytes = run.stats.bytes + n } }

  -- `progress`, which is told the bytes so far and cancels with `false`.
  module _ (progress : ℕ → P → Bool × P) where
    abbrev pub answer : Run S P → Bool × P → Result (Unit {0}) × Run S P
    answer run (true, seen) = (ok tt, record run { seen = seen })
    answer run (false, seen) = (err Error.cancelled, record run { seen = seen })

    abbrev pub report : Action (Run S P) (Unit {0})
    report run = answer run (progress run.stats.bytes run.seen)

    abbrev pub counted : ℕ → Action (Run S P) (Unit {0})
    counted n = modify (count_bytes n) >> report

    module _ (chunk : ℕ) where
      module _ (write : ℕ → Bytes → Action S ℕ) where
        -- A piece that was read from the source; `next` is the rest of the loop.
        abbrev pub write_piece :
            (ℕ → Reader → Action (Run S P) (Unit {0}))
            → ℕ
            → Result Bytes × Reader
            → Action (Run S P) (Unit {0})
        write_piece next offset (err e, source) = raise e
        write_piece next offset (ok [], source) = pure tt
        write_piece next offset (ok (b ∷ bytes), source) = do
          _ ← on_vault (write offset (b ∷ bytes))
          counted (length (b ∷ bytes))
          next (offset + length (b ∷ bytes)) source

        -- The loop of `import_dir`.
        unfoldable pub copy_in : ℕ → ℕ → Reader → Action (Run S P) (Unit {0})
        copy_in zero offset source = pure tt
        copy_in (suc fuel) offset source =
            write_piece (copy_in fuel) offset (read_full chunk source)

      module _ (read_at : ℕ → ℕ → Action S Bytes) where
        -- What is done with both pieces: the loop ends when both are empty.
        abbrev pub same_piece :
            (ℕ → Action (Run S P) (Unit {0})) → ℕ → Bytes → Bytes → Action (Run S P) (Unit {0})
        same_piece next offset [] [] = pure tt
        same_piece next offset [] (s ∷ stored) = raise (mismatch "differs from the vault")
        same_piece next offset (b ∷ bytes) stored =
            if eq_bytes (b ∷ bytes) stored
            then counted (length (b ∷ bytes)) >> next (offset + length (b ∷ bytes))
            else raise (mismatch "differs from the vault")

        abbrev pub compare_piece :
            (ℕ → Reader → Action (Run S P) (Unit {0}))
            → ℕ
            → Result Bytes × Reader
            → Action (Run S P) (Unit {0})
        compare_piece next offset (err e, source) = raise e
        compare_piece next offset (ok expected, source) = do
          stored ← on_vault (read_at offset (max (length expected) 1))
          same_piece (λ o. next o source) offset expected stored

        -- The loop of `verify_dir`.
        unfoldable pub compare : ℕ → ℕ → Reader → Action (Run S P) (Unit {0})
        compare zero offset source = pure tt
        compare (suc fuel) offset source =
            compare_piece (compare fuel) offset (read_full chunk source)

        -- What a round of the loop of `export_dir` does with the bytes it read.
        module _ (write_all : Bytes → Action S (Unit {0})) where
          abbrev pub append_piece :
              (ℕ → Bytes → Action (Run S P) Bytes) → ℕ → Bytes → Bytes → Action (Run S P) Bytes
          append_piece next offset out [] = pure out
          append_piece next offset out (b ∷ bytes) = do
            on_vault (write_all (b ∷ bytes))
            counted (length (b ∷ bytes))
            next (offset + length (b ∷ bytes)) (out ++ b ∷ bytes)

          -- The loop of `export_dir`, from which comes all that it wrote to the new file.
          unfoldable pub copy_out : ℕ → ℕ → Bytes → Action (Run S P) Bytes
          copy_out zero offset out = pure out
          copy_out (suc fuel) offset out = do
            bytes ← on_vault (read_at offset chunk)
            append_piece (copy_out fuel) offset out bytes
