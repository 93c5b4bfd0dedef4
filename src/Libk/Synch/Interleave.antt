-- ===== src/Libk/Synch/Interleave.antt =====
-- Any number of threads that share a spin lock of libk/synch.c, each in a loop of acquire and
-- release. Every access to `sl->val` is a step of its own, and the steps interleave in any order.
use longhorn.Base.{ℕ, ◌≡◌, ◌≢◌, ◌⊎◌, inl, inr, refl, arith, ◌==◌, if◌then◌else◌, not, ◌||◌}
use longhorn.Libk.Synch.{test_and_set, fetch_and_add, is_positive, minus_one}

-- Where a thread stands: before acquire; between the check of the value and the exchange, and in
-- the busy wait; after a successful acquire; where a call has returned an error.
pub data Place : Type 0 where
  outside : Place
  spinning : Place
  inside : Place
  failed : Place

pub record State : Type 0 where
  pub val : ℕ
  pub place : ℕ → Place

abbrev pub move : (ℕ → Place) → ℕ → Place → ℕ → Place
move f t p u = if t == u then p else f u

-- Where the check `!(val == 0 || val == 1)` leads.
abbrev pub checked : ℕ → Place
checked val = if not (val == 0 || val == 1) then failed else spinning

-- Where the exchange leads.
abbrev pub exchanged : ℕ → Place
exchanged old = if is_positive old then spinning else inside

-- Where the subtraction of spin_lock_release leads.
abbrev pub released : ℕ → Place
released old = if not (old == 1) then failed else outside

-- One access by thread `t`.
pub data Step (s s' : State) : Type 0 where
  check :
      (t : ℕ)
      → s.place t ≡ outside
      → s' ≡ record s { place = move s.place t (checked s.val) }
      → Step s s'
  exchange :
      (t : ℕ)
      → s.place t ≡ spinning
      → s' ≡ record {
        val = (test_and_set s.val).1;
        place = move s.place t (exchanged (test_and_set s.val).0);
      }
      → Step s s'
  release :
      (t : ℕ)
      → s.place t ≡ inside
      → s' ≡ record {
        val = (fetch_and_add s.val minus_one).1;
        place = move s.place t (released (fetch_and_add s.val minus_one).0);
      }
      → Step s s'

pub data Reach (s : State) : State → Type 0 where
  here : Reach s s
  next : {t u : State} → Reach s t → Step t u → Reach s u

-- At most one thread is inside, and only while the value is 1; no call has failed.
pub record IsSafe (s : State) : Type 0 where
  pub value : (s.val ≡ 0) ⊎ (s.val ≡ 1)
  pub held : (t : ℕ) → s.place t ≡ inside → s.val ≡ 1
  pub alone : (t u : ℕ) → s.place t ≡ inside → s.place u ≡ inside → t ≡ u
  pub no_error : (t : ℕ) → s.place t ≢ failed

Step-IsSafe : {s s' : State} → Step s s' → IsSafe s → IsSafe s'
Step-IsSafe (check t at e) v = rw e (record {
  value = v.value;
  held = λ u. ground (arith, v.value, v.held u);
  alone = λ u w. ground (arith, v.value, v.alone u w);
  no_error = λ u. ground (arith, v.value, v.no_error u);
})
Step-IsSafe (exchange t at e) v = rw e (record {
  value = inr refl;
  held = λ u h. refl;
  alone = λ u w. ground (arith, v.value, v.alone u w, v.held u, v.held w);
  no_error = λ u. ground (arith, v.no_error u);
})
Step-IsSafe (release t at e) v = rw e (record {
  value = inl (ground (arith, v.held t));
  held = λ u. ground (arith, v.held t, v.alone t u);
  alone = λ u w. ground (arith, v.held t, v.alone t u, v.alone t w);
  no_error = λ u. ground (arith, v.held t, v.no_error u);
})

-- From a free lock with every thread outside, no interleaving brings two threads inside at once or
-- makes a call return an error, and the value stays 0 or 1.
pub Reach-IsSafe :
    (s s' : State) → s.val ≡ 0 → ((t : ℕ) → s.place t ≡ outside) → Reach s s' → IsSafe s'
Reach-IsSafe s s' e out here = record {
  value = inl e;
  held = λ t. ground (arith, out t);
  alone = λ t u. ground (arith, out t);
  no_error = λ t. ground (arith, out t);
}
Reach-IsSafe s s' e out (next r step) = Step-IsSafe step (Reach-IsSafe s _ e out r)
