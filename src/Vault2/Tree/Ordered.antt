-- ===== src/Vault2/Tree/Ordered.antt =====
-- What the steps of an import count together, in any order of the items of a folder.
use desktop_folder_locker.Common.{
  ℕ, ◌≡◌, refl, sym, ap, ◌∙◌, inl, inr, arith, Bool, true, false, ◌&&◌, Option, List, [], ◌∷◌,
  Bool-cases,
}
use desktop_folder_locker.Common.Text.{Text}
use desktop_folder_locker.Vault2.Error.{ok}
use desktop_folder_locker.Vault2.Tree.Copying.{Run, TreeStats, no_stats}
use desktop_folder_locker.Vault2.Tree.Sources.{sort_in, sorted_entries, le_text}
use desktop_folder_locker.Vault2.Tree.Walking.{TreeCalls, Doing, each}
use desktop_folder_locker.Vault2.Tree.Tally.{add, add_assoc, add_none, stats_ext}
use desktop_folder_locker.Vault2.Tree.Counted.{continue_inv}

and_swap : (a b c : Bool) → (a && (b && c)) ≡ (b && (a && c))
and_swap true b c = refl
and_swap false true c = refl
and_swap false false c = refl

add_swap : (r s t : TreeStats) → add r (add s t) ≡ add s (add r t)
add_swap r s t = stats_ext _ _ (omega arith) (omega arith) (omega arith)

pub and_true : (a b : Bool) → a ≡ true → b ≡ true → (a && b) ≡ true
and_true a b e e' = rw (e, e') refl

module _ {S P : Type 0} (calls : TreeCalls S) (to_str : Text → Option Text)
    (progress : ℕ → P → Bool × P) where
  abbrev pub Doings : Type 0
  Doings = List (Text × (Text → Doing calls to_str progress))

  -- A step that succeeds shows that `b` holds, and counts `t`.
  abbrev pub Counts : Bool → TreeStats → Doing calls to_str progress → Type 0
  Counts b t doing =
      (run run' : Run S P) → doing run ≡ (ok tt, run') → (b ≡ true) × (run'.stats ≡ add run.stats t)

  abbrev pub Tallies : Doings → Bool → TreeStats → Type 0
  Tallies [] b t = (b ≡ true) × (t ≡ no_stats)
  Tallies ((name, doing) ∷ rest) b t =
      (b1 : Bool) × (b2 : Bool) × (t1 : TreeStats) × (t2 : TreeStats) × ((dir : Text)
        → Counts b1 t1 (doing dir))
      × Tallies rest b2 t2
      × (b ≡ (b1 && b2))
      × (t ≡ add t1 t2)

  -- The order does not matter.
  sort_in-Tallies :
      (name : Text) (doing : Text → Doing calls to_str progress) (rest : Doings) (b b' : Bool)
      → (t t' : TreeStats) → ((dir : Text) → Counts b t (doing dir))
      → Tallies rest b' t'
      → Tallies (sort_in (name, doing) rest) (b && b') (add t t')
  sort_in-Tallies name doing [] b b' t t' h h' = (b, b', t, t', h, h', refl, refl)
  sort_in-Tallies name doing ((other, doing') ∷ rest) b b' t t' h h' =
      elim (Bool-cases (le_text name other)) [
        | inl first ↦ rw first (b, b', t, t', h, h', refl, refl)
        | inr later ↦
            let (b1, b2, t1, t2, h1, h2, e, e') = h' in
            rw later (
              b1,
              b && b2,
              t1,
              add t t2,
              h1,
              sort_in-Tallies name doing rest b b2 t t2 h h2,
              ap (λ c. b && c) e ∙ and_swap b b1 b2,
              ap (add t) e' ∙ add_swap t t1 t2,
            )
      ]

  pub sorted_entries-Tallies :
      (items : Doings) (b : Bool) (t : TreeStats)
      → Tallies items b t
      → Tallies (sorted_entries items) b t
  unfolding sorted_entries
  sorted_entries-Tallies [] b t h = h
  sorted_entries-Tallies ((name, doing) ∷ rest) b t (b1, b2, t1, t2, h1, h2, e, e') =
      rw (e, e')
        (sort_in-Tallies name doing (sorted_entries rest) b1 b2 t1 t2 h1
          (sorted_entries-Tallies rest b2 t2 h2))

  pub each-Counts :
      (items : Doings) (b : Bool) (t : TreeStats) (dir : Text)
      → Tallies items b t
      → Counts b t (each calls to_str progress items dir)
  each-Counts [] b t dir (e, e') run run' done =
      (e, sym (ap (λ r. r.1.stats) done) ∙ sym (add_none run.stats) ∙ ap (add run.stats) (sym e'))
  each-Counts ((name, doing) ∷ rest) b t dir (b1, b2, t1, t2, h1, h2, e, e') run run' done =
      let (_, run1, first, then1) =
        continue_inv (λ _. each calls to_str progress rest dir) (doing dir run) tt run' done in
      let (holds1, s1) = h1 dir run run1 first in
      let (holds2, s2) = each-Counts rest b2 t2 dir h2 run1 run' then1 in
      (
        e ∙ and_true b1 b2 holds1 holds2,
        s2 ∙ ap (λ s. add s t2) s1 ∙ add_assoc run.stats t1 t2 ∙ ap (add run.stats) (sym e'),
      )
