-- ===== src/ShardedStats/Sums.antt =====
-- Sums of statistics.
use cql_stress.Common.{
  ℕ, zero, suc, ◌≡◌, sym, ap, ap₂, ◌∙◌, List, [], ◌∷◌, ◌++◌, some, get_elem?, set,
}
use cql_stress.ShardedStats.{StatsParts}

-- The statistics add up: `combine` is a sum with `create` as zero, a cleared shard is a new one, and
-- a write can be made on either side of a sum.
pub record AddsUp {S X : Type 0} (parts : StatsParts S X) : Type 0 where
  pub assoc :
      (a b c : S) → parts.combine (parts.combine a b) c ≡ parts.combine a (parts.combine b c)
  pub comm : (a b : S) → parts.combine a b ≡ parts.combine b a
  pub zero_right : (a : S) → parts.combine a parts.create ≡ a
  pub cleared : (a : S) → parts.clear a ≡ parts.create
  pub write_left :
      (x : X) (a b : S) → parts.combine (parts.write x a) b ≡ parts.write x (parts.combine a b)

module _ {S X : Type 0} (parts : StatsParts S X) where
  abbrev pub total : List S → S
  total [] = parts.create
  total (s ∷ all) = parts.combine s (total all)

  module _ (law : AddsUp parts) where
    pub zero_left : (a : S) → parts.combine parts.create a ≡ a
    zero_left a = law.comm parts.create a ∙ law.zero_right a

    pub write_right :
        (x : X) (a b : S) → parts.combine a (parts.write x b) ≡ parts.write x (parts.combine a b)
    write_right x a b =
        law.comm a (parts.write x b) ∙ law.write_left x b a ∙ ap (parts.write x) (law.comm b a)

    pub swap_middle :
        (a b c : S) → parts.combine a (parts.combine b c) ≡ parts.combine b (parts.combine a c)
    swap_middle a b c =
        sym (law.assoc a b c) ∙ ap (λ d. parts.combine d c) (law.comm a b) ∙ law.assoc b a c

    pub total-create : (all : List S) → total (all ++ (parts.create ∷ [])) ≡ total all
    total-create [] = law.zero_right parts.create
    total-create (s ∷ all) = ap (parts.combine s) (total-create all)

    pub total-write :
        (all : List S) (cell : ℕ) (x : X) (stats : S)
        → get_elem? all cell ≡ some stats
        → total (set all cell (parts.write x stats)) ≡ parts.write x (total all)
    total-write [] cell x stats h = cc
    total-write (s ∷ all) zero x stats h =
        let same : s ≡ stats = cc in
        law.write_left x stats (total all)
        ∙ ap (λ a. parts.write x (parts.combine a (total all))) (sym same)
    total-write (s ∷ all) (suc cell) x stats h =
        ap (parts.combine s) (total-write all cell x stats h) ∙ write_right x s (total all)

    -- a shard that is moved into the sum and cleared
    pub total-collect :
        (all : List S) (cell : ℕ) (stats : S)
        → get_elem? all cell ≡ some stats
        → parts.combine stats (total (set all cell (parts.clear stats))) ≡ total all
    total-collect [] cell stats h = cc
    total-collect (s ∷ all) zero stats h =
        let same : s ≡ stats = cc in
        ap₂ parts.combine (sym same)
          (ap (λ a. parts.combine a (total all)) (law.cleared stats) ∙ zero_left (total all))
    total-collect (s ∷ all) (suc cell) stats h =
        swap_middle stats s (total (set all cell (parts.clear stats)))
        ∙ ap (parts.combine s) (total-collect all cell stats h)
