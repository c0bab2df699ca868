-- ===== src/WorkloadWrapper/Netfilter.antt =====
-- internal/workload/network/netfilter.go: the commands of `nft`, and what they make of its chains.
use flotta_device_worker.Prelude.{
  ◌≡◌, refl, ◌∙◌, ◌⊎◌, inl, inr, Bool, true, false, not, ◌&&◌, ◌||◌, String, string_eq, ◌==◌, arith,
  eq_iff,
}
use Prim.Native.String.{◌++◌ as concat}
use text.Mathlib.TextLemmas.{append_cancel_left}

-- The commands, of the family `inet`: of tables, of chains in a table, and of rules in a chain.
pub data Command : Type 0 where
  add_table delete_table : String → Command
  add_chain list_chain delete_chain : String → String → Command
  add_rule : String → String → String → Command

-- What a run of `nft` comes to: success, an error that says "No such file or directory", or another.
pub data Outcome : Type 0 where
  done no_such_file failed : Outcome

-- `nft` with its rule set, of a type `S`, as its manual describes it. `chain` says whether a table has a
-- chain.
pub record Nft (S : Type 0) : Type 0 where
  pub run : Command → S → Outcome × S
  pub chain : String → String → S → Bool
  pub lists : (t c : String) (s : S) → (run (list_chain t c) s).1 ≡ s
  pub lists_there :
      (t c : String) (s : S) → (run (list_chain t c) s).0 ≡ no_such_file → chain t c s ≡ false
  pub adds :
      (t c : String) (s : S)
      → (run (add_chain t c) s).0 ≡ done
      → (t' c' : String)
      → chain t' c' (run (add_chain t c) s).1 ≡ (t == t' && c == c' || chain t' c' s)
  pub deletes :
      (t c : String) (s : S)
      → (run (delete_chain t c) s).0 ≡ done
      → (t' c' : String)
      → chain t' c' (run (delete_chain t c) s).1 ≡ (not (t == t' && c == c') && chain t' c' s)
  pub keeps :
      (t c r : String) (s : S) (t' c' : String)
      → chain t' c' (run (add_rule t c r) s).1 ≡ chain t' c' s

-- `formatChainName`
unfoldable pub format_chain_name : String → String
format_chain_name workload = concat "wl-" workload

-- An error of `Netfilter` is nil or not: none of its callers looks further.
abbrev pub is_done : Outcome → Bool
is_done done = true
is_done _ = false

Outcome-cases : (o : Outcome) → (o ≡ done) ⊎ ((o ≡ no_such_file) ⊎ (o ≡ failed))
Outcome-cases done = inl refl
Outcome-cases no_such_file = inr (inl refl)
Outcome-cases failed = inr (inr refl)

done-is_done : (o : Outcome) → is_done o ≡ true → o ≡ done
done-is_done done e = refl
done-is_done no_such_file e = cc
done-is_done failed e = cc

same_name : (a b : String) → (format_chain_name a == format_chain_name b) ≡ (a == b)
unfolding format_chain_name
same_name a b =
    ground
      (arith, eq_iff a b, eq_iff (concat "wl-" a) (concat "wl-" b), append_cancel_left "wl-" a b)

module _ {S : Type 0} (nft : Nft S) where
  open nft use {run, chain}

  -- A method that runs one command: whether it succeeds.
  abbrev run_one : Command → S → Bool × S
  run_one c s = let r = run c s in (is_done r.0, r.1)

  unfoldable pub netfilter_add_table : String → S → Bool × S
  netfilter_add_table t = run_one (add_table t)

  unfoldable pub netfilter_delete_table : String → S → Bool × S
  netfilter_delete_table t = run_one (delete_table t)

  unfoldable pub netfilter_add_chain : String → String → S → Bool × S
  netfilter_add_chain t workload = run_one (add_chain t (format_chain_name workload))

  unfoldable pub netfilter_add_rule : String → String → String → S → Bool × S
  netfilter_add_rule t workload rule = run_one (add_rule t (format_chain_name workload) rule)

  -- `DeleteChain`, which first looks whether the chain exists.
  unfoldable pub netfilter_delete_chain : String → String → S → Bool × S
  netfilter_delete_chain t workload s =
      let r = run (list_chain t (format_chain_name workload)) s in
      elim r.0 [
        | done ↦ run_one (delete_chain t (format_chain_name workload)) r.1
        | no_such_file ↦ (true, r.1)
        | failed ↦ (false, r.1)
      ]

  -- Whether the workload has a chain in the table.
  abbrev pub has_chain : String → String → S → Bool
  has_chain t workload s = chain t (format_chain_name workload) s

  -- Adding a chain, if it succeeds, gives the workload a chain and no other workload.
  pub add_chain_lem :
      (t workload other : String) (s : S)
      → (netfilter_add_chain t workload s).0 ≡ true
      → has_chain t other (netfilter_add_chain t workload s).1
        ≡ (workload == other || has_chain t other s)
  unfolding netfilter_add_chain
  add_chain_lem t workload other s h =
      nft.adds t (format_chain_name workload) s (done-is_done _ h) t (format_chain_name other)
      ∙ ground (arith, same_name workload other, eq_iff t t)

  -- Deleting a chain, if it succeeds, leaves the workload without a chain, whether or not it had one,
  -- and every other workload as it was.
  pub delete_chain_lem :
      (t workload other : String) (s : S)
      → (netfilter_delete_chain t workload s).0 ≡ true
      → has_chain t other (netfilter_delete_chain t workload s).1
        ≡ (not (workload == other) && has_chain t other s)
  unfolding netfilter_delete_chain
  delete_chain_lem t workload other s h =
      let c = format_chain_name workload in
      elim (Outcome-cases (run (list_chain t c) s).0) [
        | inl there ↦ ground (
          arith,
          nft.lists t c s,
          nft.deletes t c s (done-is_done _ (ground (arith, nft.lists t c s))) t
              (format_chain_name other),
          same_name workload other,
          eq_iff t t,
        )
        | inr (inl missing) ↦
            ground (arith, nft.lists t c s, nft.lists_there t c s missing, eq_iff workload other)
        | inr (inr bad) ↦ absurd (ground (arith, bad))
      ]
