-- ===== src/Memory.antt =====
-- The memory behind `Node` and `MinNode` of include/martos/martos.h, a map for each field, and
-- commands that read and write it. A command ends in a value and a new state, or in a fault.
use Prim.Native.String.{String}
use martos.Common.{ℕ, ◌≡◌, refl, ◌≢◌, ==-eq_false, Bool, Option, ◌==◌, if◌then◌else◌, update}
use martos.Common.Int.{ℤ}

-- How a call can end badly: a read or write through `NULL`, a failed `assert`, one of the source's
-- own endless loops, or more rounds of a loop than there are nodes.
pub data Fault : Type 0 where
  null_pointer assertion endless out_of_fuel : Fault

pub data Run (S A : Type 0) : Type 0 where
  ok : A → S → Run S A
  err : Fault → Run S A

abbrev pub Cmd : Type 0 → Type 0 → Type 0
Cmd S A = S → Run S A

module _ {S A B : Type 0} where
  abbrev pub continue : Run S A → (A → Cmd S B) → Run S B
  continue (ok a s) k = k a s
  continue (err f) k = err f

  infixl 5 ◌>>=◌ ◌>>◌
  abbrev pub ◌>>=◌ : Cmd S A → (A → Cmd S B) → Cmd S B
  m >>= k = λ s. continue (m s) k

  abbrev pub ◌>>◌ : Cmd S A → Cmd S B → Cmd S B
  m >> n = m >>= λ _. n

abbrev pub pure : {S A : Type 0} → A → Cmd S A
pure a s = ok a s

abbrev pub fail : {S A : Type 0} → Fault → Cmd S A
fail f s = err f

-- Total correctness: the run ends well, in a value and a state with the property.
abbrev pub Returns : {S A : Type 0} → (A → S → Type 0) → Run S A → Type 0
Returns P (ok a s) = P a s
Returns P (err f) = ⊥

pub Returns-bind :
    {S A B : Type 0} (P : A → S → Type 0) (Q : B → S → Type 0) (r : Run S A) (k : A → Cmd S B)
    → Returns P r
    → ((a : A) (s : S) → P a s → Returns Q (k a s))
    → Returns Q (continue r k)
Returns-bind P Q (ok a s) k h next = next a s h
Returns-bind P Q (err f) k h next = absurd h

pub Returns-mono :
    {S A : Type 0} (P Q : A → S → Type 0) (r : Run S A)
    → Returns P r
    → ((a : A) (s : S) → P a s → Q a s)
    → Returns Q r
Returns-mono P Q (ok a s) h f = f a s h
Returns-mono P Q (err e) h f = absurd h

-- A run that ends well, written out.
pub Returns-run :
    {S A : Type 0} (P : A → S → Type 0) (r : Run S A)
    → Returns P r
    → (a : A) × (s : S) × (r ≡ ok a s) × P a s
Returns-run P (ok a s) h = (a, s, refl, h)
Returns-run P (err f) h = absurd h

-- `assert(b)`; a failed one stops the kernel in `user_halt`.
abbrev pub assert : {S : Type 0} → Bool → Cmd S (Unit {0})
assert b s = if b then ok tt s else err assertion

abbrev pub get : {S A : Type 0} → (S → A) → Cmd S A
get f s = ok (f s) s

abbrev pub modify : {S : Type 0} → (S → S) → Cmd S (Unit {0})
modify f s = ok tt (f s)

abbrev pub Ptr : Type 0
Ptr = ℕ

abbrev pub null : Ptr
null = 0

-- `name` and `prio` exist at the address of a `Node` only. `bound` is no part of the program: it
-- is the fuel of the loops over a list, more than the number of nodes in any list.
pub record Memory : Type 0 where
  pub next : Ptr → Ptr
  pub prev : Ptr → Ptr
  pub name : Ptr → Option String
  pub prio : Ptr → ℤ
  pub bound : ℕ

abbrev pub write_next : Ptr → Ptr → Memory → Memory
write_next p q m = record m { next = update m.next p q }

abbrev pub write_prev : Ptr → Ptr → Memory → Memory
write_prev p q m = record m { prev = update m.prev p q }

-- Names, priorities and the fuel are as they were.
abbrev pub SameData : Memory → Memory → Type 0
SameData m m' = (m'.name ≡ m.name) × (m'.prio ≡ m.prio) × (m'.bound ≡ m.bound)

module _ (p : Ptr) where
  -- `p->next`, `p->prev`
  unfoldable pub get_next : Cmd Memory Ptr
  get_next m = if p == null then err null_pointer else ok (m.next p) m

  unfoldable pub get_prev : Cmd Memory Ptr
  get_prev m = if p == null then err null_pointer else ok (m.prev p) m

  -- `p->next = q`, `p->prev = q`
  unfoldable pub set_next : Ptr → Cmd Memory (Unit {0})
  set_next q m = if p == null then err null_pointer else ok tt (write_next p q m)

  unfoldable pub set_prev : Ptr → Cmd Memory (Unit {0})
  set_prev q m = if p == null then err null_pointer else ok tt (write_prev p q m)

module _ (p : Ptr) (m : Memory) (valid : p ≢ null) where
  pub get_next-eq : get_next p m ≡ ok (m.next p) m
  unfolding get_next
  get_next-eq = rw (==-eq_false p null valid)

  pub get_prev-eq : get_prev p m ≡ ok (m.prev p) m
  unfolding get_prev
  get_prev-eq = rw (==-eq_false p null valid)
