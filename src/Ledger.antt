-- ===== src/Ledger.antt =====
-- `FastLedger` of rust/ds-net/src/ledger.rs in memory: the highest cumulative of each
-- beneficiary and the dirty mark. A beneficiary is the list of its bytes, which its hexadecimal key stands for.
pub mod Persister
pub mod File
use directswarm.Base.{ℕ, Bool, true, List, unwrap_or, lookup, insert, bytes_eq}

pub record Ledger : Type 0 where
  pub map : List (List ℕ × ℕ)
  pub dirty : Bool

unfoldable pub cumulative_for : Ledger → List ℕ → ℕ
cumulative_for l beneficiary = unwrap_or (lookup beneficiary l.map) 0

unfoldable pub record_issued : Ledger → List ℕ → ℕ → Ledger
record_issued l beneficiary cumulative = record {
  map = insert beneficiary cumulative l.map;
  dirty = true;
}
