-- ===== src/NodeList/Find.antt =====
-- `list_find` of src/list.c: a search by name.
use Prim.Native.String.{String}
use text.Mathlib.Text.{◌==◌ as str_eq}
use martos.Common.{
  ℕ, zero, suc, ◌<◌, ◌≡◌, refl, ◌≢◌, some, List, [], ◌∷◌, arith, All, length, if◌then◌else◌,
  ==-eq_false,
}
use martos.Memory.{Memory, Ptr, null, ok, get_next-eq}
use martos.NodeList.{NodeList, find_loop, list_find}
use martos.NodeList.Chain.{Chain, IsList, next_of, next_of-All, next-Chain}

module _ (m : Memory) (s : String) where
  -- The first of the nodes whose name is `s`, or `NULL`.
  unfoldable pub first_named : (Ptr → String) → List Ptr → Ptr
  first_named name [] = null
  first_named name (x ∷ xs) = if str_eq (name x) s then x else first_named name xs

  module _ (name : Ptr → String) (q : Ptr) (end : m.next q ≡ null) (valid : q ≢ null) where
    find_loop_run :
        (fuel : ℕ) (p : Ptr) (xs : List Ptr)
        → length xs < fuel
        → All (λ a. a ≢ null) xs
        → All (λ a. m.name a ≡ some (name a)) xs
        → Chain m p xs q
        → find_loop fuel (some s) (next_of xs q) m ≡ ok (first_named name xs) m
    unfolding find_loop first_named
    find_loop_run zero p xs f v ns c = absurd (omega arith)
    find_loop_run (suc fuel) p [] f v ns c = rw (==-eq_false q null valid, end) refl
    find_loop_run (suc fuel) p (x ∷ xs) f v ns c =
        let after = next-Chain m x xs q c.1 in
        let more : m.next x ≢ null = rw after (next_of-All (λ a. a ≢ null) xs q v.1 valid) in
        let rest : find_loop fuel (some s) (m.next x) m ≡ ok (first_named name xs) m =
          rw after (find_loop_run fuel x xs (omega arith) v.1 ns.1 c.1) in
        ground (arith, more, rest)

  pub list_find-first_named :
      (name : Ptr → String) (list : NodeList) (xs : List Ptr)
      → IsList m list xs
      → length xs < m.bound
      → All (λ a. m.name a ≡ some (name a)) xs
      → list_find list (some s) m ≡ ok (first_named name xs) m
  unfolding list_find
  list_find-first_named name list xs l fuel named =
      rw (get_next-eq list.head m l.valid.0, next-Chain m list.head xs list.tail l.chain)
        (find_loop_run name list.tail l.tail_next l.valid.1.0 m.bound list.head xs fuel l.valid.1.1
          named l.chain)
