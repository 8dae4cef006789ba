-- ===== src/Ws/Reader/Rules.antt =====
-- What a read returns and leaves, as a pair of conditions, and the rules by which they are shown of
-- the loops and the early returns of ws/conn_read.go.
use ews.Common.{ℕ, zero, suc, ◌<◌, ◌≢◌, arith}
use ews.Ws.Reader.{
  ReadError, Outcome, ok, failed, out_of_fuel, Step, again, ends, and_then, step_of, continue_with,
  loop,
}

abbrev Holds : {S A : Type 0} → (S → A → Type 0) → (S → ReadError → Type 0) → S × Outcome A → Type 0
Holds R E (s, ok a) = R s a
Holds R E (s, failed e) = E s e
Holds R E (s, out_of_fuel) = ⊥

-- It returns, with `R` of a value or `E` of an error.
pub record Returns {S A : Type 0} (R : S → A → Type 0) (E : S → ReadError → Type 0)
    (x : S × Outcome A) : Type 0 where
  pub holds : Holds R E x

abbrev Advances :
    {S A : Type 0}
    → (S → Type 0)
    → (S → ℕ)
    → ℕ
    → (S → A → Type 0)
    → (S → ReadError → Type 0)
    → S × Step A
    → Type 0
Advances P m k R E (s, again) = P s × (m s < k)
Advances P m k R E (s, ends o) = Holds R E (s, o)

-- A round keeps `P` and brings the measure below `k`, or it returns.
pub record Goes {S A : Type 0} (P : S → Type 0) (m : S → ℕ) (k : ℕ) (R : S → A → Type 0)
    (E : S → ReadError → Type 0) (x : S × Step A) : Type 0 where
  pub advances : Advances P m k R E x

module _ {S A : Type 0} {R : S → A → Type 0} {E : S → ReadError → Type 0} where
  after_round :
      {P : S → Type 0} {m : S → ℕ} (k : ℕ) (f : S → S × Outcome A)
      → ((s : S) → P s → m s < k → Returns R E (f s))
      → (x : S × Step A) → Goes P m k R E x
      → Returns R E (continue_with f x)
  after_round k f h (t, again) q = h t q.advances.0 q.advances.1
  after_round k f h (t, ends o) q = record { holds = q.advances }

  -- Rounds that bring the measure down make a loop that returns, with fuel above the measure.
  pub loop_lem :
      (P : S → Type 0) (m : S → ℕ) (round : S → S × Step A)
      → ((s : S) → P s → Goes P m (m s) R E (round s))
      → (n : ℕ) (s : S) → m s < n
      → P s
      → Returns R E (loop n round s)
  unfolding loop
  loop_lem P m round keep zero s h p = absurd (omega arith)
  loop_lem P m round keep (suc n) s h p =
      after_round (m s) (λ t. loop n round t)
        (λ t q less. loop_lem P m round keep n t (omega arith) q) (round s) (keep s p)

  pub Returns-ends : (x : S × Outcome A) → Returns R E x → x.1 ≢ out_of_fuel
  Returns-ends (s, ok a) r = λ q. cc
  Returns-ends (s, failed e) r = λ q. cc
  Returns-ends (s, out_of_fuel) r = elim r.holds [ ]

  module _ {R' : S → A → Type 0} {E' : S → ReadError → Type 0} where
    pub weaken_lem :
        ((s : S) (a : A) → R s a → R' s a)
        → ((s : S) (e : ReadError) → E s e → E' s e)
        → (x : S × Outcome A) → Returns R E x
        → Returns R' E' x
    weaken_lem f g (s, ok a) r = record { holds = f s a r.holds }
    weaken_lem f g (s, failed e) r = record { holds = g s e r.holds }
    weaken_lem f g (s, out_of_fuel) r = elim r.holds [ ]

  module _ {T B : Type 0} {R' : T → B → Type 0} {E' : T → ReadError → Type 0} where
    pub and_then_lem :
        (f : A → S → T × Outcome B) (g : S → T)
        → ((s : S) (a : A) → R s a → Returns R' E' (f a s))
        → ((s : S) (e : ReadError) → E s e → E' (g s) e)
        → (x : S × Outcome A) → Returns R E x
        → Returns R' E' (and_then x f g)
    and_then_lem f g next bad (s, ok a) r = next s a r.holds
    and_then_lem f g next bad (s, failed e) r = record { holds = bad s e r.holds }
    and_then_lem f g next bad (s, out_of_fuel) r = elim r.holds [ ]

  module _ {B : Type 0} {P : S → Type 0} {m : S → ℕ} {k : ℕ} {R' : S → B → Type 0}
      {E' : S → ReadError → Type 0} where
    pub step_of_lem :
        ((s : S) (a : A) → R s a → P s × (m s < k))
        → ((s : S) (e : ReadError) → E s e → E' s e)
        → (x : S × Outcome A) → Returns R E x
        → Goes P m k R' E' (step_of {B = B} x)
    step_of_lem next bad (s, ok a) r = record { advances = next s a r.holds }
    step_of_lem next bad (s, failed e) r = record { advances = bad s e r.holds }
    step_of_lem next bad (s, out_of_fuel) r = elim r.holds [ ]
