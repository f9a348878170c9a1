-- ===== src/Sched/States.antt =====
-- How the fields of the tasks go with the ready list and the waiting list.
use mathlib.Core.List.{append-nil}
use native.Mathlib.Decide.{ℕ_discrete}
use martos.Common.{
  All_mono, All_zip, All_middle, ◌≡◌, sym, ap, subst, ◌∙◌, ◌≢◌, false, List, [], ◌∷◌, ◌++◌, All,
  All_drop, All-append, NotIn, NotIn-both, Has, Has-middle, Has-put, Has-drop, NotIn-of_All,
  Distinct, NotIn-before, NotIn-after,
}
use martos.Common.Int.{ℤ}
use martos.Memory.{Ptr}
use martos.NodeList.Order.{higher, lower, enqueued, enqueued-All, higher-append-lower}
use martos.Kernel.{Task, TaskState, task_ready, task_waiting, task_running}
use martos.Signal.{meets}

-- The tasks of each list have the state that goes with it, each task of such a state is in its
-- list, and no waiting task has received a signal that it waits for.
pub record States (tasks : Ptr → Task) (rs ws : List Ptr) : Type 0 where
  pub ready_state : All (λ t. (tasks t).state ≡ task_ready) rs
  pub waiting_state : All (λ t. (tasks t).state ≡ task_waiting) ws
  pub unserved : All (λ t. meets (tasks t).sig_wait (tasks t).sig_recvd ≡ false) ws
  pub ready_listed : (t : Ptr) → (tasks t).state ≡ task_ready → Has t rs
  pub waiting_listed : (t : Ptr) → (tasks t).state ≡ task_waiting → Has t ws

-- Two maps of tasks that differ at most at `t`.
abbrev pub AgreeBut : Ptr → (Ptr → Task) → (Ptr → Task) → Type 0
AgreeBut t f g = (x : Ptr) → x ≢ t → g x ≡ f x

All-AgreeBut :
    (P : Task → Type 0) (t : Ptr) (f g : Ptr → Task) (xs : List Ptr)
    → AgreeBut t f g
    → NotIn t xs
    → All (λ x. P (f x)) xs
    → All (λ x. P (g x)) xs
All-AgreeBut P t f g [] same n h = tt
All-AgreeBut P t f g (x ∷ xs) same n h =
    (subst P (sym (same x (λ e. n.0 (sym e)))) h.0, All-AgreeBut P t f g xs same n.1 h.1)

pub Has-enqueued_self : (prio : Ptr → ℤ) (n : Ptr) (xs : List Ptr) → Has n (enqueued prio n xs)
unfolding enqueued
Has-enqueued_self prio n xs = Has-middle n (higher prio (prio n) xs) (lower prio (prio n) xs)

pub Has-enqueued :
    (prio : Ptr → ℤ) (t n : Ptr) (xs : List Ptr) → Has t xs → Has t (enqueued prio n xs)
unfolding enqueued
Has-enqueued prio t n xs h =
    Has-put t n (higher prio (prio n) xs) (lower prio (prio n) xs)
      (rw (higher-append-lower prio (prio n) xs) h)

-- A task that is neither ready nor waiting is in neither list.
module _ (f : Ptr → Task) (rs ws : List Ptr) (s : States f rs ws) (t : Ptr) where
  pub not-ready_NotIn : (f t).state ≢ task_ready → NotIn t rs
  not-ready_NotIn h = NotIn-of_All (λ x. (f x).state ≡ task_ready) t rs h s.ready_state

  pub not-waiting_NotIn : (f t).state ≢ task_waiting → NotIn t ws
  not-waiting_NotIn h = NotIn-of_All (λ x. (f x).state ≡ task_waiting) t ws h s.waiting_state

abbrev pub IsUnserved : Task → Type 0
IsUnserved t = meets t.sig_wait t.sig_recvd ≡ false

module _ (f g : Ptr → Task) (t : Ptr) (same : AgreeBut t f g) where
  -- The tasks of the lists that do not hold `t`.
  other_states :
      (st : TaskState) (xs : List Ptr)
      → NotIn t xs
      → All (λ x. (f x).state ≡ st) xs
      → All (λ x. (g x).state ≡ st) xs
  other_states st xs = All-AgreeBut (λ a. a.state ≡ st) t f g xs same

  -- What holds of the tasks other than `t` that have a state, and of `t` itself.
  listed :
      (st : TaskState) (xs ys : List Ptr)
      → ((x : Ptr) → x ≢ t → Has x xs → Has x ys)
      → ((g t).state ≡ st → Has t ys)
      → ((x : Ptr) → (f x).state ≡ st → Has x xs)
      → (x : Ptr) → (g x).state ≡ st
      → Has x ys
  listed st xs ys others self was x e = elim (ℕ_discrete x t) [
    | yes p ↦ subst (λ a. Has a ys) (sym p) (self (subst (λ a. (g a).state ≡ st) p e))
    | no ne ↦ others x ne (was x (subst (λ (a : Task). a.state ≡ st) (same x ne) e))
  ]

  -- A task keeps its state, and receives nothing that it waits for.
  pub States-keep :
      (rs ws : List Ptr)
      → States f rs ws
      → (g t).state ≡ (f t).state
      → ((f t).state ≡ task_waiting → IsUnserved (f t) → IsUnserved (g t))
      → States g rs ws
  States-keep rs ws s e u = record {
    ready_state =
        All_mono (λ x. (f x).state ≡ task_ready) _ rs (λ x h. state_same x ∙ h) s.ready_state;
    waiting_state =
        All_mono (λ x. (f x).state ≡ task_waiting) _ ws (λ x h. state_same x ∙ h) s.waiting_state;
    unserved =
        All_zip (λ x. (f x).state ≡ task_waiting) (λ x. IsUnserved (f x)) _ ws served_same
          s.waiting_state s.unserved;
    ready_listed = λ x h. s.ready_listed x (sym (state_same x) ∙ h);
    waiting_listed = λ x h. s.waiting_listed x (sym (state_same x) ∙ h);
  }
    where
      state_same : (x : Ptr) → (g x).state ≡ (f x).state
      state_same x = elim (ℕ_discrete x t) [
        | yes p ↦ subst (λ a. (g a).state ≡ (f a).state) (sym p) e
        | no ne ↦ ap (λ (a : Task). a.state) (same x ne)
      ]

      served_same : (x : Ptr) → (f x).state ≡ task_waiting → IsUnserved (f x) → IsUnserved (g x)
      served_same x w h = elim (ℕ_discrete x t) [
        | yes p ↦
            subst (λ a. IsUnserved (g a)) (sym p)
              (u (subst (λ a. (f a).state ≡ task_waiting) p w) (subst (λ a. IsUnserved (f a)) p h))
        | no ne ↦ subst IsUnserved (sym (same x ne)) h
      ]

  -- A task that is in neither list becomes ready.
  pub States-ready :
      (rs ws : List Ptr) (prio : Ptr → ℤ)
      → States f rs ws
      → (f t).state ≢ task_ready
      → (f t).state ≢ task_waiting
      → (g t).state ≡ task_ready
      → States g (enqueued prio t rs) ws
  States-ready rs ws prio s nr nw e = record {
    ready_state =
        enqueued-All prio (λ x. (g x).state ≡ task_ready) t rs e
          (other_states task_ready rs (not-ready_NotIn f rs ws s t nr) s.ready_state);
    waiting_state = other_states task_waiting ws (not-waiting_NotIn f rs ws s t nw) s.waiting_state;
    unserved = All-AgreeBut IsUnserved t f g ws same (not-waiting_NotIn f rs ws s t nw) s.unserved;
    ready_listed =
        listed task_ready rs (enqueued prio t rs) (λ x ne. Has-enqueued prio x t rs)
          (λ _. Has-enqueued_self prio t rs) s.ready_listed;
    waiting_listed = listed task_waiting ws ws (λ x ne h. h) (λ w. cc) s.waiting_listed;
  }

  -- A task that is in neither list begins to wait.
  pub States-wait :
      (rs ws : List Ptr)
      → States f rs ws
      → (f t).state ≢ task_ready
      → (f t).state ≢ task_waiting
      → (g t).state ≡ task_waiting
      → IsUnserved (g t)
      → States g rs (ws ++ t ∷ [])
  States-wait rs ws s nr nw e u = record {
    ready_state = other_states task_ready rs (not-ready_NotIn f rs ws s t nr) s.ready_state;
    waiting_state =
        All-append (λ x. (g x).state ≡ task_waiting) ws (t ∷ [])
          (other_states task_waiting ws (not-waiting_NotIn f rs ws s t nw) s.waiting_state) (e, tt);
    unserved =
        All-append (λ x. IsUnserved (g x)) ws (t ∷ [])
          (All-AgreeBut IsUnserved t f g ws same (not-waiting_NotIn f rs ws s t nw) s.unserved)
          (u, tt);
    ready_listed = listed task_ready rs rs (λ x ne h. h) (λ w. cc) s.ready_listed;
    waiting_listed =
        listed task_waiting ws (ws ++ t ∷ []) (λ x ne h. Has-put x t ws [] (rw append-nil h))
          (λ w. Has-middle t ws []) s.waiting_listed;
  }

  -- A waiting task becomes ready.
  pub States-wake :
      (rs us vs : List Ptr) (prio : Ptr → ℤ)
      → States f rs (us ++ t ∷ vs)
      → Distinct (us ++ t ∷ vs)
      → (g t).state ≡ task_ready
      → States g (enqueued prio t rs) (us ++ vs)
  States-wake rs us vs prio s d e = record {
    ready_state =
        enqueued-All prio (λ x. (g x).state ≡ task_ready) t rs e
          (other_states task_ready rs (not-ready_NotIn f rs (us ++ t ∷ vs) s t not_ready)
            s.ready_state);
    waiting_state =
        other_states task_waiting (us ++ vs) gone
          (All_drop (λ x. (f x).state ≡ task_waiting) t us vs s.waiting_state);
    unserved =
        All-AgreeBut IsUnserved t f g (us ++ vs) same gone
          (All_drop (λ x. IsUnserved (f x)) t us vs s.unserved);
    ready_listed =
        listed task_ready rs (enqueued prio t rs) (λ x ne. Has-enqueued prio x t rs)
          (λ _. Has-enqueued_self prio t rs) s.ready_listed;
    waiting_listed =
        listed task_waiting (us ++ t ∷ vs) (us ++ vs) (λ x ne. Has-drop x t us vs ne) (λ w. cc)
          s.waiting_listed;
  }
    where
      was_waiting : (f t).state ≡ task_waiting
      was_waiting = All_middle (λ x. (f x).state ≡ task_waiting) t us vs s.waiting_state

      not_ready : (f t).state ≢ task_ready
      not_ready h = cc was_waiting

      gone : NotIn t (us ++ vs)
      gone = NotIn-both us vs t (NotIn-before t vs us d) (NotIn-after t vs us d)

  -- The first ready task is run.
  pub States-run :
      (rs ws : List Ptr)
      → States f (t ∷ rs) ws
      → NotIn t rs
      → (g t).state ≡ task_running
      → States g rs ws
  States-run rs ws s d e = record {
    ready_state = other_states task_ready rs d s.ready_state.1;
    waiting_state = other_states task_waiting ws out s.waiting_state;
    unserved = All-AgreeBut IsUnserved t f g ws same out s.unserved;
    ready_listed =
        listed task_ready (t ∷ rs) rs (λ x ne. Has-drop x t [] rs ne) (λ w. cc) s.ready_listed;
    waiting_listed = listed task_waiting ws ws (λ x ne h. h) (λ w. cc) s.waiting_listed;
  }
    where
      out : NotIn t ws
      out = not-waiting_NotIn f (t ∷ rs) ws s t (λ h. cc (s.ready_state.0))
