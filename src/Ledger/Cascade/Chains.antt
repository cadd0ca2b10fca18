-- ===== src/Ledger/Cascade/Chains.antt =====
-- What holds of all blocks of a ledger holds of the blocks that a cascade looks at.
use xe.Prelude.{
  ℕ, zero, suc, String, List, [], ◌∷◌, ◌++◌, All, Bool-cases, inl, inr, when_some, str_eq,
}
use xe.Map.{Map, lookup}
use xe.Types.{Block, AccountChain}
use xe.Bytes.{drop}
use xe.Ledger.Cascade.{newest_first, all_blocks}

pub All-map :
    {P Q : Block → Type 0} (bs : List Block) → ((b : Block) → P b → Q b) → All P bs → All Q bs
All-map [] f h = tt
All-map (b ∷ rest) f (p, h) = (f b p, All-map rest f h)

module _ (P : Block → Type 0) where
  pub All-append : (xs ys : List Block) → All P (xs ++ ys) → All P xs × All P ys
  All-append [] ys h = (tt, h)
  All-append (x ∷ xs) ys (p, h) = let (l, r) = All-append xs ys h in ((p, l), r)

  pub All-glue : (xs ys : List Block) → All P xs → All P ys → All P (xs ++ ys)
  All-glue [] ys h k = k
  All-glue (x ∷ xs) ys (p, h) k = (p, All-glue xs ys h k)

  pub All-drop : (n : ℕ) (xs : List Block) → All P xs → All P (drop n xs)
  unfolding drop
  All-drop zero xs h = h
  All-drop (suc n) [] h = tt
  All-drop (suc n) (x ∷ xs) (p, h) = All-drop n xs h

  pub All-newest_first : (xs : List Block) → All P xs → All P (newest_first xs)
  All-newest_first [] h = tt
  All-newest_first (x ∷ xs) (p, h) =
      All-glue (newest_first xs) (x ∷ []) (All-newest_first xs h) (p, tt)

  pub All-lookup :
      (account : String) (chains : Map AccountChain)
      → All P (all_blocks chains)
      → All P (when_some (lookup account chains) [] (λ ch. ch))
  unfolding lookup
  All-lookup account [] h = tt
  All-lookup account ((j, chain) ∷ rest) h =
      let (here, there) = All-append chain (all_blocks rest) h in
      elim (Bool-cases (str_eq j account)) [
        | inl e ↦ rw e here
        | inr e ↦ rw e (All-lookup account rest there)
      ]
