-- ===== src/Bisect.antt =====
-- `bisectCommit` of packages/analytics/src/bisect.ts. The transaction is a parameter: `none` when it
-- commits its batch, and otherwise the error it throws. The recursion halves the batch; it is on
-- fuel, and the length of the items is enough (Isolation).
pub mod Isolation
mod Examples
use build_affiliate.Common.{
  ℕ, zero, suc, ◌+◌, ◌/◌, Option, none, some, List, [], ◌∷◌, ◌++◌, length, take, drop,
}

pub record BisectResult (A E : Type 0) : Type 0 where
  pub succeeded : List A
  pub failed : List (A × E)
  pub attempts : ℕ

module _ {A E : Type 0} (commit : List A → Option E) where
  -- What follows an attempt: the batch is done, or a single item has failed, or the halves were
  -- attempted in turn (`halves`).
  abbrev pub conclude : Option E → List A → BisectResult A E → BisectResult A E → BisectResult A E
  conclude none batch r halves = record r { succeeded = r.succeeded ++ batch }
  conclude (some e) (x ∷ []) r halves = record r { failed = r.failed ++ (x, e) ∷ [] }
  conclude (some e) batch r halves = halves

  unfoldable pub attempt : ℕ → List A → BisectResult A E → BisectResult A E
  attempt zero batch r = r
  attempt (suc fuel) batch r =
      let tried = record r { attempts = r.attempts + 1 } in
      let mid = length batch / 2 in
      let halves = attempt fuel (drop mid batch) (attempt fuel (take mid batch) tried) in
      conclude (commit batch) batch tried halves

  abbrev pub nothing_done : BisectResult A E
  nothing_done = record { succeeded = []; failed = []; attempts = 0 }

  unfoldable pub bisect_commit : List A → BisectResult A E
  unfolding attempt
  bisect_commit [] = nothing_done
  bisect_commit (x ∷ items) = attempt (length (x ∷ items)) (x ∷ items) nothing_done
