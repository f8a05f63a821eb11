-- ===== src/Vault2/Tree/Imported.antt =====
-- An import that succeeds has counted what `scan` counts, in whatever order the system lists.
use desktop_folder_locker.Common.{
  ℕ, ◌≡◌, refl, sym, ap, ◌∙◌, arith, Bool, true, false, ◌&&◌, Option, [],
}
use desktop_folder_locker.Common.Text.{Text}
use desktop_folder_locker.Vault2.Error.{Result, ok, err, Action, continue}
use desktop_folder_locker.Vault2.Tree.Reader.{Reader, AreQuiet}
use desktop_folder_locker.Vault2.Tree.Copying.{
  Run, TreeStats, no_stats, on_vault, copy_in, copy_chunk,
}
use desktop_folder_locker.Vault2.Tree.Sources.{
  Stamp, Source, file, folder, link, Sources, end, entry, check_source, source_len, count_dir,
  count_one, sorted_entries, scan,
}
use desktop_folder_locker.Vault2.Tree.Walking.{
  TreeCalls, Doing, each, child_of, close_after, closing, rounds, import_file, import_item,
  import_items, import,
}
use desktop_folder_locker.Vault2.Tree.Tally.{
  add, add_none, stats_ext, tally, tally_all, is_ok, is_stored, is_usable, is_ok-check_source,
  none_add, storable_inside, all_storable, scan-eq_ok,
}
use desktop_folder_locker.Vault2.Tree.Counted.{continue_inv, with_vault_stats, copy_in-counts}
use desktop_folder_locker.Vault2.Tree.Copied.{with_bytes}
use desktop_folder_locker.Vault2.Tree.Ordered.{
  Counts, Tallies, and_true, sorted_entries-Tallies, each-Counts,
}

-- No file of the folder fails to be read.
unfoldable mutual
  pub IsReadable : Source → Type 0
  IsReadable (file stamp source) = AreQuiet source.answers
  IsReadable (folder stamp inside) = AreReadable inside
  IsReadable link = Unit {0}

  pub AreReadable : Sources → Type 0
  AreReadable end = Unit {0}
  AreReadable (entry name node rest) = IsReadable node × AreReadable rest

module _ {S P : Type 0} (calls : TreeCalls S) (to_str : Text → Option Text)
    (progress : ℕ → P → Bool × P) where
  -- A step on the vault, and what comes after it.
  on_vault-then :
      {A : Type 0} (m : Action S A) (f : A → Doing calls to_str progress) (run run' : Run S P)
      → continue f (on_vault m run) ≡ (ok tt, run')
      → (a : A) × (run1 : Run S P) × (run1.stats ≡ run.stats) × (f a run1 ≡ (ok tt, run'))
  on_vault-then m f run run' e =
      let (a, run1, first, rest) = continue_inv f (on_vault m run) tt run' e in
      (a, run1, with_vault_stats run run1 (m run.vault) a first, rest)

  close_after_inv :
      (f : ℕ) (r : Result (Unit {0}) × Run S P) (run : Run S P)
      → close_after calls to_str progress f r ≡ (ok tt, run)
      → (run' : Run S P) × (r ≡ (ok tt, run')) × (run.stats ≡ run'.stats)
  close_after_inv f (ok _, run') run e = (run', refl, sym (ap (λ r. r.1.stats) e))
  close_after_inv f (err x, run') run e = absurd (cc e)

  import_file-Counts :
      (stamp : Stamp) (source : Reader) (child : Text)
      → AreQuiet source.answers
      → Counts calls to_str progress true
          (record { files = 1; dirs = 0; bytes = source_len source })
          (import_file calls to_str progress stamp source child)
  unfolding import_file
  import_file-Counts stamp source child q run run' done =
      let (created, run1, s1, e1) = on_vault-then (calls.create_file child) _ run run' done in
      let copying =
        copy_in progress copy_chunk (calls.write_at created.1) (rounds calls to_str progress source)
          0 source in
      let (_, run2, e2, e3) =
        continue_inv _ (closing calls to_str progress created.1 copying run1) tt run' e1 in
      let (mid, e4, s2) = close_after_inv created.1 (copying run1) run2 e2 in
      let s3 =
        copy_in-counts progress 1048575 (calls.write_at created.1)
          (rounds calls to_str progress source) source.rest source.answers 0 run1 mid q
          (omega arith) e4 in
      let (_, run3, s4, e5) = on_vault-then (calls.apply stamp created.0 false) _ run2 run' e3 in
      (
        refl,
        sym (ap (λ r. r.1.stats) e5)
            ∙ ap count_one (s4 ∙ s2 ∙ s3 ∙ ap (λ s. with_bytes s (source_len source)) s1)
            ∙ stats_ext _ _ refl (omega arith) refl,
      )

  mutual
    unfolding import_item tally storable_inside IsReadable

    import_item-Counts :
        (node : Source) (child : Text)
        → IsReadable node
        → Counts calls to_str progress
            (storable_inside to_str node)
            (tally node)
            (import_item calls to_str progress node child)
    import_item-Counts (file stamp source) child q run run' done =
        import_file-Counts stamp source child q run run' done
    import_item-Counts link child q run run' done =
        (refl, sym (ap (λ r. r.1.stats) done) ∙ sym (add_none run.stats))
    import_item-Counts (folder stamp inside) child q run run' done =
        let (item, run1, s1, e1) = on_vault-then (calls.create_dir child) _ run run' done in
        let items = sorted_entries (import_items calls to_str progress inside) in
        let (_, run2, e2, e3) =
          continue_inv _ (each calls to_str progress items child run1) tt run' e1 in
        let (all, s2) =
          each-Counts calls to_str progress items (all_storable to_str inside) (tally_all inside)
            child
            (sorted_entries-Tallies calls to_str progress
              (import_items calls to_str progress inside) (all_storable to_str inside)
              (tally_all inside) (import_items-Tallies inside q))
            run1 run2 e2 in
        let (_, run3, s3, e4) = on_vault-then (calls.apply stamp item true) _ run2 run' e3 in
        (
          all,
          sym (ap (λ r. r.1.stats) e4)
              ∙ ap count_dir (s3 ∙ s2 ∙ ap (λ s. add s (tally_all inside)) s1)
              ∙ stats_ext _ _ (omega arith) (omega arith) (omega arith),
        )

    import_items-Tallies :
        (sources : Sources)
        → AreReadable sources
        → Tallies calls to_str progress
            (import_items calls to_str progress sources)
            (all_storable to_str sources)
            (tally_all sources)
    import_items-Tallies end q = (refl, refl)
    import_items-Tallies (entry name node rest) (q, q') = (
      (is_stored to_str node && is_usable to_str (to_str name)) && storable_inside to_str node,
      all_storable to_str rest,
      tally node,
      tally_all rest,
      λ dir run run' done.
          let (name', run1, e, e') =
            continue_inv (λ name. import_item calls to_str progress node (child_of dir name))
              (check_source to_str name node, run) tt run' done in
          let (inside, s) = import_item-Counts node (child_of dir name') q run1 run' e' in
          (
            and_true _ _ (sym (is_ok-check_source to_str name node) ∙ ap (λ r. is_ok r.0) e) inside,
            s ∙ ap (λ r. add r.1.stats (tally node)) (sym e),
          ),
      import_items-Tallies rest q',
      refl,
      refl,
    )

  -- An import that succeeds returns the statistics that `scan` returns, whatever the vault does with
  -- its calls and in whatever order the folders are listed, if no read of the source fails.
  pub import-scan :
      (sources : Sources) (run run' : Run S P) (stats : TreeStats)
      → AreReadable sources
      → import calls to_str progress sources run ≡ (ok stats, run')
      → scan to_str sources ≡ ok stats
  unfolding import
  import-scan sources run run' stats q done =
      let run0 : Run S P = record run { stats = no_stats } in
      let items = sorted_entries (import_items calls to_str progress sources) in
      let (_, run1, e1, e2) =
        continue_inv _ (each calls to_str progress items [] run0) stats run' done in
      let (all, s) =
        each-Counts calls to_str progress items (all_storable to_str sources) (tally_all sources) []
          (sorted_entries-Tallies calls to_str progress (import_items calls to_str progress sources)
            (all_storable to_str sources) (tally_all sources) (import_items-Tallies sources q))
          run0 run1 e1 in
      scan-eq_ok to_str sources all
      ∙ sym (ap ok (none_add (tally_all sources)))
      ∙ ap ok (sym s)
      ∙ ap (λ r. r.0) e2
