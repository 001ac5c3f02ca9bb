-- ===== src/Chain/Selection/Order.antt =====
-- CBlockIndexWorkComparator is a strict total order, so a std::set may be built on it.
use coinbasechain.Base.{ℕ, ◌≤◌, ◌≡◌, arith, Bool, true, false, not, ltb, ◌==◌, if◌then◌else◌}
use coinbasechain.Base.Map.{bytes_less}
use coinbasechain.Base.Order.{bytes_less_irrefl, bytes_less_trans, bytes_less_total}
use coinbasechain.Chain.Index.{Hash, Index}
use coinbasechain.Chain.Selection.{chain_work_of, height_of, precedes}

-- The comparator on works, heights and the order of the hashes.
first : ℕ → ℕ → ℕ → ℕ → Bool → Bool
first wa wb ha hb less =
    if not (wa == wb) then ltb wb wa else if not (ha == hb) then ltb hb ha else less

first_trans :
    (wa wb wc ha hb hc : ℕ) (ab bc ac : Bool)
    → (ab ≡ true → bc ≡ true → ac ≡ true)
    → first wa wb ha hb ab ≡ true
    → first wb wc hb hc bc ≡ true
    → first wa wc ha hc ac ≡ true
unfolding first
first_trans wa wb wc ha hb hc ab bc ac t h k = ground arith

pub precedes_trans :
    (m : Index) (a b c : Hash)
    → precedes m a b ≡ true
    → precedes m b c ≡ true
    → precedes m a c ≡ true
unfolding precedes first
precedes_trans m a b c =
    first_trans (chain_work_of m a) (chain_work_of m b) (chain_work_of m c) (height_of m a)
      (height_of m b) (height_of m c) (bytes_less a b) (bytes_less b c) (bytes_less a c)
      (bytes_less_trans a b c)

pub precedes_irrefl : (m : Index) (a : Hash) → precedes m a a ≡ false
unfolding precedes
precedes_irrefl m a = ground (arith, bytes_less_irrefl a)

pub precedes_total :
    (m : Index) (a b : Hash) → precedes m a b ≡ false → precedes m b a ≡ false → a ≡ b
unfolding precedes
precedes_total m a b h k = ground (arith, bytes_less_total a b)

-- What stands earlier has at least as much work.
pub precedes-work :
    (m : Index) (a b : Hash) → precedes m a b ≡ true → chain_work_of m b ≤ chain_work_of m a
unfolding precedes
precedes-work m a b h = ground arith
